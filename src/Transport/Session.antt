-- ===== src/Transport/Session.antt =====
-- internal/transport/session.go: the length-prefixed frames and the encryption of their bodies.
pub mod Frames
pub mod Channel
mod Tests
use Prim.Native.Nat.{bit_xor}
use rom_server_poc.Prelude.{
  ℕ, zero, suc, ◌+◌, ◌-◌, ◌*◌, ◌/◌, ◌%◌, ◌^◌, List, [], ◌∷◌, ◌++◌, ltb, leb, length, take, drop,
  if◌then◌else◌, true, false,
}
use rom_server_poc.Prelude.Bytes.{le_bytes, from_le}
use rom_server_poc.Prelude.Result.{Result, ok, err, ◌>>=◌}
use rom_server_poc.Transport.Rabbit.{Rabbit, keystream}

-- Why a read fails: the stream has ended, it ends within what is read, or the length is below 2.
pub data ReadError : Type 0 where
  eof unexpected_eof : ReadError
  bogus_length : ℕ → ReadError

-- io.ReadFull into a buffer of `n` bytes, from the bytes that are still to come.
pub read_full : ℕ → List ℕ → Result ReadError (List ℕ × List ℕ)
read_full zero stream = ok ([], stream)
read_full (suc n) [] = err eof
read_full (suc n) (b ∷ stream) =
    if leb n (length stream) then ok (b ∷ take n stream, drop n stream) else err unexpected_eof

pub read_frame : List ℕ → Result ReadError (List ℕ × List ℕ)
read_frame stream = do
  (header, rest) ← read_full 2 stream
  let length = from_le header
  if ltb length 2 then err (bogus_length length) else read_full (length - 2) rest

-- The bytes that go to the socket: uint16(len(body)+2), then the body.
pub write_frame : List ℕ → List ℕ
write_frame body = le_bytes 2 ((length body + 2) % 2 ^ 16) ++ body

-- `out[i] = body[i] ^ ks[i]`
pub xor_bytes : List ℕ → List ℕ → List ℕ
xor_bytes (b ∷ body) (k ∷ ks) = bit_xor b k ∷ xor_bytes body ks
xor_bytes _ _ = []

pub crypt : Rabbit → List ℕ → List ℕ × Rabbit
crypt r body =
    let aligned = (length body + 15) / 16 * 16 in
    let (ks, r') = keystream aligned r in (xor_bytes body ks, r')
