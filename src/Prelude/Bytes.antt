-- ===== src/Prelude/Bytes.antt =====
-- Bytes as numbers below 256, and the fixed-width little-endian order of encoding/binary.
use Prim.Native.Nat.{ℕ, zero, suc, ◌+◌, ◌*◌, ◌/◌, ◌%◌, ◌^◌, ◌<◌}
use mathlib.Core.Path.{◌≡◌, refl, ap}
use mathlib.Core.List.{List, [], ◌∷◌}
use native.Mathlib.Omega.{arith}
use native.Mathlib.Nat.{pow-suc}
use rom_server_poc.Prelude.Lists.{length, All}

abbrev pub IsByte : ℕ → Type 0
IsByte b = b < 2 ^ 8

-- `PutUint16/32/64`: the low `n` bytes of `v`, lowest first.
abbrev pub le_bytes : ℕ → ℕ → List ℕ
le_bytes zero v = []
le_bytes (suc n) v = (v % 256) ∷ le_bytes n (v / 256)

-- `Uint16/32/64`, over as many bytes as are given.
abbrev pub from_le : List ℕ → ℕ
from_le [] = 0
from_le (b ∷ bs) = b + 256 * from_le bs

pub length-le_bytes : (n v : ℕ) → length (le_bytes n v) ≡ n
length-le_bytes zero v = refl
length-le_bytes (suc n) v = ap suc (length-le_bytes n (v / 256))

pub from_le-le_bytes : (n v : ℕ) → v < 256 ^ n → from_le (le_bytes n v) ≡ v
from_le-le_bytes zero v h = omega arith
from_le-le_bytes (suc n) v h =
    omega (arith, from_le-le_bytes n (v / 256) (omega (arith, pow-suc 256 n)))

pub le_bytes-IsByte : (n v : ℕ) → All IsByte (le_bytes n v)
le_bytes-IsByte zero v = tt
le_bytes-IsByte (suc n) v = (omega arith, le_bytes-IsByte n (v / 256))

pub from_le-lt : (bs : List ℕ) → All IsByte bs → from_le bs < 256 ^ length bs
from_le-lt [] h = omega arith
from_le-lt (b ∷ bs) h = omega (arith, from_le-lt bs h.1, pow-suc 256 (length bs), h.0)
