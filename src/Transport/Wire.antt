-- ===== src/Transport/Wire.antt =====
-- internal/transport/session.go: Send and Recv, messages on a keyed connection.
use Prim.Native.String.{String}
use rom_server_poc.Prelude.{
  ℕ, ◌+◌, ◌^◌, ◌<◌, ◌≡◌, refl, sym, subst, some, List, [], ◌++◌, length, All, arith,
}
use rom_server_poc.Prelude.Bytes.{IsByte}
use rom_server_poc.Prelude.Result.{Result, ok, err, ◌>>=◌}
use rom_server_poc.Protocol.Catalog.{Message, Catalog, lookup, lookup_name}
use rom_server_poc.Protocol.Value.{Values, empty}
use rom_server_poc.Protocol.Primitives.{Floats, CodecError}
use rom_server_poc.Protocol.Codec.{encode, decode, Decoded, owner_of}
use rom_server_poc.Protocol.Codec.Bytes.{Writes, encode-Writes}
use rom_server_poc.Protocol.Codec.Received.{FieldsSendable, received_fields, received_value}
use rom_server_poc.Protocol.Codec.Layers.{PrefixesKnown}
use rom_server_poc.Protocol.Codec.RoundTrip.{decode-encode}
use rom_server_poc.Transport.Rabbit.{Rabbit}
use rom_server_poc.Transport.Session.{ReadError, read_frame, write_frame, crypt}
use rom_server_poc.Transport.Session.Frames.{read_frame-write_frame}
use rom_server_poc.Transport.Session.Channel.{crypt-crypt}
use rom_server_poc.Transport.Handshake.{Conn}

pub data RecvError : Type 0 where
  read_failed : ReadError → RecvError
  decode_failed : CodecError → RecvError

abbrev frame_read : Result ReadError (List ℕ × List ℕ) → Result RecvError (List ℕ × List ℕ)
frame_read (ok frame) = ok frame
frame_read (err e) = err (read_failed e)

abbrev body_decoded : Result CodecError Decoded → Result RecvError Decoded
body_decoded (ok d) = ok d
body_decoded (err e) = err (decode_failed e)

module _ (fl : Floats) (cat : Catalog) (fuel : ℕ) where
  abbrev sent_plain : Conn → List ℕ → List ℕ × Conn
  sent_plain conn plain =
      let (out, s2c) = crypt conn.s2c plain in (write_frame out, record conn { s2c = s2c })

  -- The bytes for the socket, and the connection after them.
  unfoldable pub send : Conn → String → Values → Result CodecError (List ℕ × Conn)
  unfolding encode
  send conn name vs = do plain ← encode fl cat fuel name vs; ok (sent_plain conn plain)

  -- From the bytes that are to come: the message, the bytes after its frame and the connection.
  unfoldable pub recv : Conn → List ℕ → Result RecvError (Decoded × List ℕ × Conn)
  unfolding decode
  recv conn stream = do
    (body, rest) ← frame_read (read_frame stream)
    let (plain, c2s) = crypt conn.c2s body
    d ← body_decoded (decode fl cat fuel plain)
    ok (d, rest, record conn { c2s = c2s })

  recv_frame :
      (conn : Conn) (body plain rest : List ℕ) (c2s : Rabbit) (d : Decoded)
      → length body + 2 < 2 ^ 16
      → crypt conn.c2s body ≡ (plain, c2s)
      → decode fl cat fuel plain ≡ ok d
      → recv conn (write_frame body ++ rest) ≡ ok (d, rest, record conn { c2s = c2s })
  unfolding recv
  recv_frame conn body plain rest c2s d fits clear read =
      rw (read_frame-write_frame body rest fits, clear, read) refl

  plain-IsByte :
      (name : String) (vs : Values) (plain : List ℕ)
      → encode fl cat fuel name vs ≡ ok plain
      → All IsByte plain
  plain-IsByte name vs plain e = subst Writes e (encode-Writes fl cat fuel name vs)

  -- Where the peer's inbound cipher is the sender's outbound one, with no spare bytes, and the catalog
  -- and the values are as for the codec's round trip: when the message can be encoded and its frame's
  -- length fits 16 bits, Send succeeds, the peer receives that message with the values it is to see,
  -- leaves the bytes that follow, and the two ciphers are again in one state with no spare bytes.
  pub recv-send :
      (known : PrefixesKnown cat) (conn peer : Conn) (name : String) (msg : Message) (vs : Values)
      (plain rest : List ℕ)
      → peer.c2s ≡ conn.s2c
      → conn.s2c.buf ≡ []
      → lookup_name cat name ≡ some msg
      → lookup cat msg.id ≡ some msg
      → msg.id < 2 ^ 32
      → FieldsSendable vs
      → encode fl cat fuel name vs ≡ ok plain
      → length plain + 2 < 2 ^ 16
      → (bytes : List ℕ) × (after : Conn) × (heard : Conn) × (ws : Values) × (send conn name vs
          ≡ ok (bytes, after))
        × (received_fields (received_value fl cat fuel) (owner_of msg) msg.fields vs empty ≡ ok ws)
        × (recv peer (bytes ++ rest)
            ≡ ok (record { message = some msg; fields = ws; tail = [] }, rest, heard))
        × (heard.c2s ≡ after.s2c)
        × (after.s2c.buf ≡ [])
  unfolding send
  recv-send known conn peer name msg vs plain rest shared fresh named' numbered small sendable e
        fits =
      let (back, empty', same) = crypt-crypt conn.s2c plain fresh (plain-IsByte name vs plain e) in
      let (ws, arrives, read) =
        decode-encode fl cat known fuel name msg vs plain named' numbered small sendable e in
      let out : List ℕ = (crypt conn.s2c plain).0 in
      let clear : crypt peer.c2s out ≡ (plain, (crypt conn.s2c plain).1) =
        subst (λ r. crypt r out ≡ (plain, (crypt conn.s2c plain).1)) (sym shared) back in
      (
        write_frame out,
        record conn { s2c = (crypt conn.s2c plain).1 },
        record peer { c2s = (crypt conn.s2c plain).1 },
        ws,
        rw e refl,
        arrives,
        recv_frame peer out plain rest (crypt conn.s2c plain).1 _ (omega (arith, same, fits)) clear
            read,
        refl,
        empty',
      )
