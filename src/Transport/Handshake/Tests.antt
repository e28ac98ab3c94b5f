-- ===== src/Transport/Handshake/Tests.antt =====
-- A handshake with a cipher that turns a block around.
use rom_server_poc.Prelude.{ℕ, ◌≡◌, refl, some, true, Option, List, [], ◌∷◌, ◌++◌, arith}
use mathlib.Core.List.{reverse}
use rom_server_poc.Prelude.Result.{ok}
use rom_server_poc.Protocol.Value.{Values}
use rom_server_poc.Protocol.Codec.{decode}
use rom_server_poc.Protocol.Samples.{sample_floats}
use rom_server_poc.Protocol.Messages.{server_catalog}
use rom_server_poc.Protocol.Messages.Login.{s2c_check_connection}
use rom_server_poc.Transport.Session.{read_frame, write_frame}
use rom_server_poc.Transport.Handshake.{Conn, handshake}
use rom_server_poc.Transport.Handshake.Peer.{all_drawn, peer_of, handshake-peer}

abbrev draw : List ℕ
draw = 1 ∷ 2 ∷ 3 ∷ 4 ∷ 5 ∷ 6 ∷ 7 ∷ 200 ∷ []

abbrev block_cipher : List ℕ → Option (List ℕ → List ℕ)
block_cipher key = some reverse

handshake-peer_example :
    (conn : Conn) × (body : List ℕ) × (vs : Values) × (handshake block_cipher sample_floats
        server_catalog 4
        (all_drawn draw draw draw draw (draw ++ draw))
        true
      ≡ ok (conn, write_frame body))
    × (read_frame (write_frame body ++ 9 ∷ []) ≡ ok (body, 9 ∷ []))
    × (decode sample_floats server_catalog 4 body
        ≡ ok (record { message = some s2c_check_connection; fields = vs; tail = [] }))
    × (peer_of block_cipher vs ≡ ok conn)
handshake-peer_example =
    handshake-peer block_cipher reverse sample_floats 3 draw draw draw draw (draw ++ draw) (9 ∷ [])
      refl (refl, omega arith) (refl, omega arith) (refl, omega arith) (refl, omega arith)
      (refl, omega arith)
