-- ===== src/Transport/Rabbit.antt =====
-- internal/transport/rabbit.go: the Rabbit stream cipher. A Go array or slice is a list, a uint32
-- is a number below 2 ^ 32 with its wrap-around written out.
pub mod Counters
pub mod Words
pub mod Stream
mod Tests
use Prim.Native.Nat.{bit_and, bit_or, bit_xor}
use rom_server_poc.Prelude.{
  ℕ, zero, suc, ◌+◌, ◌*◌, ◌/◌, ◌%◌, ◌^◌, ◌-◌, List, [], ◌∷◌, ◌++◌, Option, none, some, ltb, length,
  take, drop, true, false, if◌then◌else◌, ◌==◌,
}
use rom_server_poc.Prelude.Bytes.{le_bytes, from_le}

abbrev pub u32 : ℕ → ℕ
u32 n = n % 2 ^ 32

-- The conversion and the shifts of a uint32.
abbrev pub shl32 : ℕ → ℕ → ℕ
shl32 v k = v * 2 ^ k % 2 ^ 32

abbrev pub shr : ℕ → ℕ → ℕ
shr v k = v / 2 ^ k

-- bits.RotateLeft32
pub rotate_left32 : ℕ → ℕ → ℕ
rotate_left32 v k = bit_or (shl32 v k) (shr v (32 - k))

-- `a[i]`; every index below is within its array.
abbrev pub at : List ℕ → ℕ → ℕ
at [] i = 0
at (w ∷ ws) zero = w
at (w ∷ ws) (suc i) = at ws i

abbrev pub rabbit_a : List ℕ
rabbit_a =
    0x4D34D34D ∷ 0xD34D34D3 ∷ 0x34D34D34 ∷ 0x4D34D34D ∷ 0xD34D34D3 ∷ 0x34D34D34 ∷ 0x4D34D34D
    ∷ 0xD34D34D3 ∷ []

pub record Rabbit : Type 0 where
  pub x : List ℕ
  pub c : List ℕ
  pub b : ℕ
  pub buf : List ℕ

pub rabbit_g : ℕ → ℕ → ℕ
rabbit_g u v = let s = u32 (u + v) in let sq = s * s % 2 ^ 64 in bit_xor (u32 sq) (u32 (shr sq 32))

-- The counter loop of `next`, with the carry that goes in; the carry that comes out stands beside
-- the new counters.
pub count_up : List ℕ → List ℕ → ℕ → List ℕ × ℕ
count_up (c ∷ cs) (a ∷ as') b =
    let t = u32 (u32 (c + a) + b) in
    let (rest, last) = count_up cs as' (if ltb t c then 1 else 0) in (t ∷ rest, last)
count_up _ _ b = ([], b)

pub g_words : List ℕ → List ℕ → List ℕ
g_words (x ∷ xs) (c ∷ cs) = rabbit_g x c ∷ g_words xs cs
g_words _ _ = []

pub mix : List ℕ → List ℕ
mix g =
    let rot16 = λ (i : ℕ). rotate_left32 (at g i) 16 in
    let rot8 = λ (i : ℕ). rotate_left32 (at g i) 8 in
    u32 (u32 (at g 0 + rot16 7) + rot16 6)
    ∷ u32 (u32 (at g 1 + rot8 0) + at g 7)
    ∷ u32 (u32 (at g 2 + rot16 1) + rot16 0)
    ∷ u32 (u32 (at g 3 + rot8 2) + at g 1)
    ∷ u32 (u32 (at g 4 + rot16 3) + rot16 2)
    ∷ u32 (u32 (at g 5 + rot8 4) + at g 3)
    ∷ u32 (u32 (at g 6 + rot16 5) + rot16 4)
    ∷ u32 (u32 (at g 7 + rot8 6) + at g 5)
    ∷ []

pub next : Rabbit → Rabbit
next r =
    let (c, b) = count_up r.c rabbit_a r.b in record r { x = mix (g_words r.x c); c = c; b = b }

-- `for i := 0; i < n; i++ { r.next() }`
pub next_n : ℕ → Rabbit → Rabbit
next_n zero r = r
next_n (suc n) r = next_n n (next r)

-- The 16 bytes that `Keystream` takes from one state.
pub block : Rabbit → List ℕ
block r =
    let word =
      λ (i j k : ℕ). bit_xor (bit_xor (at r.x i) (shr (at r.x j) 16)) (shl32 (at r.x k) 16) in
    le_bytes 4 (word 0 5 3)
    ++ (le_bytes 4 (word 2 7 5) ++ (le_bytes 4 (word 4 1 7) ++ le_bytes 4 (word 6 3 1)))

-- One round of the loop in `Keystream`.
pub refill : Rabbit → Rabbit
refill r = let r' = next r in record r' { buf = r'.buf ++ block r' }

-- `for len(r.buf) < n`. Each round adds 16 bytes, so `n` rounds are enough.
pub fill : ℕ → ℕ → Rabbit → Rabbit
fill zero n r = r
fill (suc rounds) n r = elim (ltb (length r.buf) n) [ true ↦ fill rounds n (refill r) | false ↦ r ]

pub keystream : ℕ → Rabbit → List ℕ × Rabbit
keystream n r = let r' = fill n n r in (take n r'.buf, record r' { buf = drop n r'.buf })

-- The eight 16-bit words of the key, low byte first.
pub key_words : List ℕ → List ℕ
key_words (lo ∷ hi ∷ key) = bit_or lo (shl32 hi 8) ∷ key_words key
key_words _ = []

abbrev pub pair : List ℕ → ℕ → ℕ → ℕ
pair k i j = bit_or (shl32 (at k (i % 8)) 16) (at k (j % 8))

-- The loop that sets `r.x[j]` and `r.c[j]`, round by round from `j`.
pub key_setup : List ℕ → ℕ → ℕ → List ℕ × List ℕ
key_setup k j zero = ([], [])
key_setup k j (suc rounds) =
    let (xs, cs) = key_setup k (j + 1) rounds in
    if j % 2 == 0
    then (pair k (j + 1) j ∷ xs, pair k (j + 4) (j + 5) ∷ cs)
    else (pair k (j + 5) (j + 4) ∷ xs, pair k j (j + 1) ∷ cs)

-- `for j { r.c[j] ^= r.x[(j+4)%8] }`, from `j`.
pub fold_state : List ℕ → ℕ → List ℕ → List ℕ
fold_state x j [] = []
fold_state x j (c ∷ cs) = bit_xor c (at x ((j + 4) % 8)) ∷ fold_state x (j + 1) cs

pub xor_words : List ℕ → List ℕ → List ℕ
xor_words (c ∷ cs) (i ∷ is) = bit_xor c i ∷ xor_words cs is
xor_words _ _ = []

-- The four words of the IV, each used twice.
pub iv_words : List ℕ → List ℕ
iv_words iv =
    let i0 = from_le (take 4 iv) in
    let i1 = from_le (take 4 (drop 4 iv)) in
    let hi = bit_or (shl32 (shr i1 16) 16) (shr i0 16) in
    let lo = bit_or (shl32 (bit_and i1 0xFFFF) 16) (bit_and i0 0xFFFF) in
    i0 ∷ hi ∷ i1 ∷ lo ∷ i0 ∷ hi ∷ i1 ∷ lo ∷ []

pub iv_setup : Option (List ℕ) → Rabbit → Rabbit
iv_setup none r = r
iv_setup (some iv) r = next_n 4 (record r { c = xor_words r.c (iv_words iv) })

-- `none` is a nil IV. The key has 16 bytes.
pub new_rabbit : List ℕ → Option (List ℕ) → Rabbit
new_rabbit key iv =
    let (x, c) = key_setup (key_words key) 0 8 in
    let r = next_n 4 (record { x = x; c = c; b = 0; buf = [] }) in
    iv_setup iv (record r { c = fold_state r.x 0 r.c })
