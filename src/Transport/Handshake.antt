-- ===== src/Transport/Handshake.antt =====
-- internal/transport/session.go: the handshake, which keys a connection. AES comes from crypto/aes:
-- `new_cipher` is what NewCipher makes of a key, the decryption of one block.
pub mod Peer
mod Tests
use Prim.Native.String.{String}
use rom_server_poc.Prelude.{
  ℕ, ◌+◌, ◌/◌, Bool, true, false, Option, none, some, List, [], ◌∷◌, take, drop,
}
use rom_server_poc.Prelude.Bytes.{le_bytes, from_le}
use rom_server_poc.Prelude.Result.{Result, ok, err, ◌>>=◌}
use rom_server_poc.Protocol.Catalog.{Catalog}
use rom_server_poc.Protocol.Value.{Value, num, int64, Values, empty, entry}
use rom_server_poc.Protocol.Primitives.{Floats, CodecError}
use rom_server_poc.Protocol.Codec.{encode}
use rom_server_poc.Transport.Rabbit.{Rabbit, new_rabbit}
use rom_server_poc.Transport.Session.{write_frame}

-- "Sxf89J&1*,0Axm>t"
abbrev pub static_key : List ℕ
static_key = 83 ∷ 120 ∷ 102 ∷ 56 ∷ 57 ∷ 74 ∷ 38 ∷ 49 ∷ 42 ∷ 44 ∷ 48 ∷ 65 ∷ 120 ∷ 109 ∷ 62 ∷ 116 ∷ []

pub record Conn : Type 0 where
  pub c2s : Rabbit
  pub s2c : Rabbit
  pub socket_uid : ℕ
  pub connection_key : ℕ

pub data HandshakeError : Type 0 where
  no_random no_cipher no_write : HandshakeError
  encode_failed : CodecError → HandshakeError

-- What the random source gives to each read, in order; none where it fails.
pub record Draws : Type 0 where
  pub socket_uid : Option (List ℕ)
  pub connection_key : Option (List ℕ)
  pub client_send_iv : Option (List ℕ)
  pub server_send_iv : Option (List ℕ)
  pub raw_key : Option (List ℕ)

unfoldable pub rand_int63 : Option (List ℕ) → Result HandshakeError ℕ
rand_int63 none = err no_random
rand_int63 (some b) = ok (from_le b / 2)

abbrev pub int64_le : ℕ → List ℕ
int64_le v = le_bytes 8 v

abbrev drawn_key : Option (List ℕ) → Result HandshakeError (List ℕ)
drawn_key none = err no_random
drawn_key (some raw) = ok raw

abbrev decrypted : List ℕ → Option (List ℕ → List ℕ) → Result HandshakeError (List ℕ)
decrypted raw none = err no_cipher
decrypted raw (some decrypt) = ok (decrypt raw)

abbrev encoded : Result CodecError (List ℕ) → Result HandshakeError (List ℕ)
encoded (ok body) = ok body
encoded (err e) = err (encode_failed e)

abbrev socket_write : Bool → List ℕ → Result HandshakeError (List ℕ)
socket_write true bytes = ok bytes
socket_write false bytes = err no_write

-- The values of S2C_CheckConnection.
abbrev pub check_connection : ℕ → ℕ → ℕ → ℕ → ℕ → ℕ → Values
check_connection socket_uid connection_key client_send_iv server_send_iv low high =
    entry "m_socketUID" (num int64 socket_uid) (
      entry "m_connectionKey" (num int64 connection_key) (
        entry "m_clientSendIV" (num int64 client_send_iv) (
          entry "m_serverSendIV" (num int64 server_send_iv) (
            entry "m_encryptionKeyLow" (num int64 low)
              (entry "m_encryptionKeyHigh" (num int64 high) empty)))))

module _ (new_cipher : List ℕ → Option (List ℕ → List ℕ)) where
  unfoldable pub derive_key : List ℕ → Result HandshakeError (List ℕ)
  derive_key raw = decrypted raw (new_cipher static_key)

  abbrev pub keyed : List ℕ → ℕ → ℕ → ℕ → ℕ → Conn
  keyed derived socket_uid connection_key client_send_iv server_send_iv = record {
    c2s = new_rabbit derived (some (int64_le client_send_iv));
    s2c = new_rabbit derived (some (int64_le server_send_iv));
    socket_uid = socket_uid;
    connection_key = connection_key;
  }

  -- The connection and the bytes written; `link_up` is that the socket takes them.
  unfoldable pub handshake :
      Floats → Catalog → ℕ → Draws → Bool → Result HandshakeError (Conn × List ℕ)
  unfolding rand_int63 derive_key encode
  handshake fl cat fuel draws link_up = do
    socket_uid ← rand_int63 draws.socket_uid
    connection_key ← rand_int63 draws.connection_key
    client_send_iv ← rand_int63 draws.client_send_iv
    server_send_iv ← rand_int63 draws.server_send_iv
    raw ← drawn_key draws.raw_key
    derived ← derive_key raw
    body ← encoded (
        encode fl cat fuel "S2C_CheckConnection" (
          check_connection socket_uid connection_key client_send_iv server_send_iv
            (from_le (take 8 raw)) (from_le (take 8 (drop 8 raw)))))
    bytes ← socket_write link_up (write_frame body)
    ok (keyed derived socket_uid connection_key client_send_iv server_send_iv, bytes)
