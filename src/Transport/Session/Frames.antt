-- ===== src/Transport/Session/Frames.antt =====
-- Reading back what `writeFrame` wrote.
use rom_server_poc.Prelude.{
  ℕ, ◌+◌, ◌-◌, ◌%◌, ◌^◌, ◌≤◌, ◌<◌, ◌≡◌, refl, sym, ap, subst, ◌∙◌, ◌⊎◌, inl, inr, Bool-cases, take,
  drop, take-append-drop, append_assoc, List, [], ◌∷◌, ◌++◌, arith, length, length-append,
  take-append, drop-append, ltb, if◌then◌else◌, length-take,
}
use rom_server_poc.Prelude.Bytes.{from_le, from_le-le_bytes}
use rom_server_poc.Prelude.Result.{ok, err}
use rom_server_poc.Transport.Session.{bogus_length, read_full, read_frame, write_frame}

-- A front of the stream is read whole, and the rest is left.
pub read_full-append :
    (front rest : List ℕ) → read_full (length front) (front ++ rest) ≡ ok (front, rest)
unfolding read_full
read_full-append [] rest = refl
read_full-append (b ∷ front) rest =
    ground (arith, length-append front rest, take-append front rest, drop-append front rest)

read_frame_header :
    (a b : ℕ) (rest : List ℕ)
    → read_frame (a ∷ b ∷ rest) ≡ (
        if ltb (from_le (a ∷ b ∷ [])) 2
        then err (bogus_length (from_le (a ∷ b ∷ [])))
        else read_full (from_le (a ∷ b ∷ []) - 2) rest)
unfolding read_frame read_full
read_frame_header a b rest = ground arith

-- What the reader makes of a frame that was written, whatever its size.
frame_header :
    (body rest : List ℕ) (n : ℕ)
    → (length body + 2) % 2 ^ 16 ≡ n
    → read_frame (write_frame body ++ rest)
      ≡ (if ltb n 2 then err (bogus_length n) else read_full (n - 2) (body ++ rest))
unfolding write_frame
frame_header body rest n e = rw (e, read_frame_header) (rw (from_le-le_bytes 2 n (omega arith)))

-- A frame whose body has less than 65534 bytes is read back: the body, and what follows it.
pub read_frame-write_frame :
    (body rest : List ℕ)
    → length body + 2 < 2 ^ 16
    → read_frame (write_frame body ++ rest) ≡ ok (body, rest)
read_frame-write_frame body rest h =
    frame_header body rest (length body + 2) (omega arith)
    ∙ ground (arith, read_full-append body rest)

-- What is read where the header counts `k` bytes of the body and the body has more.
read_part :
    (body rest : List ℕ) (k : ℕ)
    → k ≤ length body
    → read_full k (body ++ rest) ≡ ok (take k body, drop k body ++ rest)
read_part body rest k h =
    let counted : length (take k body) ≡ k = omega (arith, length-take k body) in
    let split : take k body ++ (drop k body ++ rest) ≡ body ++ rest =
      sym (append_assoc (take k body) (drop k body) rest)
      ∙ ap (λ b. b ++ rest) (take-append-drop k body) in
    subst (λ n. read_full n (body ++ rest) ≡ ok (take k body, drop k body ++ rest)) counted
      (subst (λ b. read_full (length (take k body)) b ≡ ok (take k body, drop k body ++ rest)) split
        (read_full-append (take k body) (drop k body ++ rest)))

-- A body of 65534 bytes or more gets a header of its length and 2, less a multiple of 65536. Where
-- that is below 2 the reader refuses the frame; otherwise it reads as many bytes less 2, which are a
-- front of the body and not all of it, and the others stay in the stream as if a frame began there.
pub oversize_frame :
    (body rest : List ℕ) (n : ℕ)
    → 2 ^ 16 ≤ length body + 2
    → (length body + 2) % 2 ^ 16 ≡ n
    → ((n < 2) × (read_frame (write_frame body ++ rest) ≡ err (bogus_length n)))
      ⊎ ((2 ≤ n)
          × (n - 2 < length body)
          × (read_frame (write_frame body ++ rest)
              ≡ ok (take (n - 2) body, drop (n - 2) body ++ rest)))
oversize_frame body rest n h e = elim (Bool-cases (ltb n 2)) [
  | inl low ↦ inl (ground arith, frame_header body rest n e ∙ rw low refl)
  | inr high ↦
      let above : 2 ≤ n = ground arith in
      inr (
        above,
        omega arith,
        frame_header body rest n e ∙ rw high (read_part body rest (n - 2) (omega arith)),
      )
]
