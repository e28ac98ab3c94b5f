-- ===== src/Transport/Session/Channel.antt =====
-- Two ciphers that start from one state stay in step, frame by frame.
use rom_server_poc.Prelude.{
  ℕ, zero, suc, ◌+◌, ◌/◌, ◌^◌, ◌≤◌, ◌<◌, ◌≡◌, refl, ap, ◌∙◌, List, [], ◌∷◌, ◌++◌, arith, length,
  All, append_assoc,
}
use rom_server_poc.Prelude.Bits.{bit_xor_twice}
use rom_server_poc.Prelude.Bytes.{IsByte}
use rom_server_poc.Prelude.Result.{Result, ok, ◌>>=◌}
use rom_server_poc.Transport.Rabbit.{Rabbit, next_n}
use rom_server_poc.Transport.Rabbit.Stream.{blocks, length-blocks, blocks-IsByte, keystream_aligned}
use rom_server_poc.Transport.Session.{ReadError, read_frame, write_frame, xor_bytes, crypt}
use rom_server_poc.Transport.Session.Frames.{read_frame-write_frame}
use native.Mathlib.Nat.{mul_comm}

length-xor_bytes :
    (body ks : List ℕ) → length body ≤ length ks → length (xor_bytes body ks) ≡ length body
unfolding xor_bytes
length-xor_bytes [] ks h = refl
length-xor_bytes (b ∷ body) [] h = absurd (omega arith)
length-xor_bytes (b ∷ body) (k ∷ ks) h = ap suc (length-xor_bytes body ks (omega arith))

xor_bytes_twice :
    (body ks : List ℕ)
    → length body ≤ length ks
    → All IsByte body
    → All IsByte ks
    → xor_bytes (xor_bytes body ks) ks ≡ body
unfolding xor_bytes
xor_bytes_twice [] ks h hb hk = refl
xor_bytes_twice (b ∷ body) [] h hb hk = absurd (omega arith)
xor_bytes_twice (b ∷ body) (k ∷ ks) h hb hk =
    ground (arith, bit_xor_twice b k, xor_bytes_twice body ks)

-- The blocks of keystream that one body takes: its length over 16, rounded up.
abbrev pub block_count : List ℕ → ℕ
block_count body = (length body + 15) / 16

-- On a cipher with no spare bytes, `crypt` takes exactly the keystream blocks that cover the body,
-- and leaves no spare bytes: the next frame starts on a 16-byte boundary.
pub crypt_aligned :
    (r : Rabbit) (body : List ℕ)
    → r.buf ≡ []
    → (crypt r body ≡ (xor_bytes body (blocks (block_count body) r), next_n (block_count body) r))
      × ((next_n (block_count body) r).buf ≡ [])
unfolding crypt
crypt_aligned r body e =
    let (same, aligned) = keystream_aligned (block_count body) r e in
    (rw (mul_comm (block_count body) 16) (rw same), aligned)

-- From a cipher with no spare bytes, decrypting with the state that encrypted gives a body of bytes
-- back, both ciphers end in one state with no spare bytes, and the encrypted body has the same length.
pub crypt-crypt :
    (r : Rabbit) (body : List ℕ)
    → r.buf ≡ []
    → All IsByte body
    → (crypt r (crypt r body).0 ≡ (body, (crypt r body).1))
      × ((crypt r body).1.buf ≡ [])
      × (length (crypt r body).0 ≡ length body)
crypt-crypt r body e h =
    let n = block_count body in
    let ks : List ℕ = blocks n r in
    let (once, empty) = crypt_aligned r body e in
    let room : length body ≤ length ks = omega (arith, length-blocks n r) in
    let same : length (xor_bytes body ks) ≡ length body = length-xor_bytes body ks room in
    let (again, _) = crypt_aligned r (xor_bytes body ks) e in
    rw once (
      again
          ∙ ap (λ m. (xor_bytes (xor_bytes body ks) (blocks m r), next_n m r))
              (ap (λ m. (m + 15) / 16) same)
          ∙ ap (λ out. (out, next_n n r)) (xor_bytes_twice body ks room h (blocks-IsByte n r)),
      empty,
      same,
    )

-- `Send` on each body in turn: the bytes on the socket.
pub send_frames : Rabbit → List (List ℕ) → List ℕ
send_frames r [] = []
send_frames r (body ∷ bodies) =
    let (out, r') = crypt r body in write_frame out ++ send_frames r' bodies

-- `Recv`, `n` times: the bodies, and the bytes that are still to come.
pub recv_frames : ℕ → Rabbit → List ℕ → Result ReadError (List (List ℕ) × List ℕ)
recv_frames zero r stream = ok ([], stream)
recv_frames (suc n) r stream = do
  (body, rest) ← read_frame stream
  let (plain, r') = crypt r body
  (bodies, after) ← recv_frames n r' rest
  ok (plain ∷ bodies, after)

-- A body of bytes whose frame length fits the header.
abbrev pub Fits : List ℕ → Type 0
Fits body = All IsByte body × (length body + 2 < 2 ^ 16)

-- A peer whose cipher starts from the sender's state, with no spare bytes, reads every body that was
-- sent, in order, and nothing of what follows, where every body consists of bytes and fits its frame.
pub recv_frames-send_frames :
    (bodies : List (List ℕ)) (r : Rabbit) (rest : List ℕ)
    → r.buf ≡ []
    → All Fits bodies
    → recv_frames (length bodies) r (send_frames r bodies ++ rest) ≡ ok (bodies, rest)
unfolding send_frames recv_frames
recv_frames-send_frames [] r rest e h = refl
recv_frames-send_frames (body ∷ bodies) r rest e h =
    let (back, empty, same) = crypt-crypt r body e h.0.0 in
    let ih = recv_frames-send_frames bodies (crypt r body).1 rest empty h.1 in
    rw
      (
        append_assoc,
        read_frame-write_frame (crypt r body).0 (send_frames (crypt r body).1 bodies ++ rest)
            (omega arith),
        back,
      )
      (rw ih)
