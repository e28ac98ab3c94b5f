-- ===== src/Transport/Session/Tests.antt =====
-- Two frames over one connection, and a frame that is too large.
use rom_server_poc.Prelude.{
  ℕ, zero, suc, ap, ◌≡◌, ◌⊎◌, ◌<◌, ◌≤◌, take, drop, refl, List, [], ◌∷◌, ◌++◌, arith, length,
}
use rom_server_poc.Prelude.Result.{ok, err}
use rom_server_poc.Transport.Rabbit.{Rabbit}
use rom_server_poc.Transport.Session.{bogus_length, crypt, write_frame, read_frame}
use rom_server_poc.Transport.Session.Frames.{read_frame-write_frame, oversize_frame}
use rom_server_poc.Transport.Session.Channel.{
  crypt-crypt, send_frames, recv_frames, recv_frames-send_frames,
}

abbrev cipher : Rabbit
cipher = record {
  x = 1 ∷ 2 ∷ 3 ∷ 4 ∷ 5 ∷ 6 ∷ 7 ∷ 8 ∷ [];
  c = 9 ∷ 10 ∷ 11 ∷ 12 ∷ 13 ∷ 14 ∷ 15 ∷ 16 ∷ [];
  b = 1;
  buf = [];
}

recv_frames-send_frames_example :
    recv_frames 2 cipher (send_frames cipher ((1 ∷ 2 ∷ 3 ∷ []) ∷ (4 ∷ []) ∷ []) ++ 9 ∷ [])
    ≡ ok ((1 ∷ 2 ∷ 3 ∷ []) ∷ (4 ∷ []) ∷ [], 9 ∷ [])
recv_frames-send_frames_example =
    recv_frames-send_frames ((1 ∷ 2 ∷ 3 ∷ []) ∷ (4 ∷ []) ∷ []) cipher (9 ∷ []) refl (omega arith)

crypt-crypt_example :
    (crypt cipher (crypt cipher (1 ∷ 2 ∷ [])).0 ≡ (1 ∷ 2 ∷ [], (crypt cipher (1 ∷ 2 ∷ [])).1))
    × ((crypt cipher (1 ∷ 2 ∷ [])).1.buf ≡ [])
    × (length (crypt cipher (1 ∷ 2 ∷ [])).0 ≡ 2)
crypt-crypt_example = crypt-crypt cipher (1 ∷ 2 ∷ []) refl (omega arith)

read_frame-write_frame_example :
    read_frame (write_frame (7 ∷ 8 ∷ []) ++ 9 ∷ []) ≡ ok (7 ∷ 8 ∷ [], 9 ∷ [])
read_frame-write_frame_example = read_frame-write_frame (7 ∷ 8 ∷ []) (9 ∷ []) (omega arith)

unfoldable ones : ℕ → List ℕ
ones zero = []
ones (suc n) = 1 ∷ ones n

length-ones : (n : ℕ) → length (ones n) ≡ n
unfolding ones
length-ones zero = refl
length-ones (suc n) = ap suc (length-ones n)

abbrev large_body : List ℕ
large_body = ones 70000

oversize_frame_example :
    ((4466 < 2) × (read_frame (write_frame large_body ++ []) ≡ err (bogus_length 4466)))
    ⊎ ((2 ≤ 4466)
        × (4464 < length large_body)
        × (read_frame (write_frame large_body ++ [])
            ≡ ok (take 4464 large_body, drop 4464 large_body ++ [])))
oversize_frame_example =
    oversize_frame large_body [] 4466 (omega (arith, length-ones 70000))
      (omega (arith, length-ones 70000))
