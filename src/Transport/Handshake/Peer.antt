-- ===== src/Transport/Handshake/Peer.antt =====
-- What the client learns from the handshake's frame.
use rom_server_poc.Prelude.{
  ℕ, zero, suc, ◌+◌, ◌*◌, ◌/◌, ◌%◌, ◌^◌, ◌<◌, ◌≡◌, subst, refl, ap, ap₂, ◌∙◌, true, Option, some,
  List, [], ◌∷◌, ◌++◌, take, drop, length, All, arith, take-append-drop, length-take, length-drop,
  take_all,
}
use rom_server_poc.Prelude.Bytes.{IsByte, le_bytes, from_le, from_le-lt}
use rom_server_poc.Prelude.Result.{Result, ok, ◌>>=◌}
use rom_server_poc.Protocol.Catalog.{lookup, lookup_name}
use rom_server_poc.Protocol.Value.{Value, num, int64, Values, empty, get}
use rom_server_poc.Protocol.Primitives.{Floats, CodecError}
use rom_server_poc.Protocol.Codec.{encode, decode, owner_of, shape_of}
use rom_server_poc.Protocol.Primitives.RoundTrip.{received_prim}
use rom_server_poc.Protocol.Codec.Received.{FieldsSendable, received_fields, received_value}
use rom_server_poc.Protocol.Codec.RoundTrip.{decode-encode}
use rom_server_poc.Protocol.Messages.{server_catalog}
use rom_server_poc.Protocol.Messages.Login.{s2c_check_connection}
use rom_server_poc.Protocol.Messages.Distinct.{server_catalog-PrefixesKnown}
use rom_server_poc.Transport.Session.{read_frame, write_frame}
use rom_server_poc.Transport.Session.Frames.{read_frame-write_frame}
use rom_server_poc.Transport.Handshake.{
  Conn, HandshakeError, Draws, rand_int63, derive_key, keyed, handshake, check_connection,
  static_key,
}

-- The low bytes of a list of bytes, read as a number and written again.
le_bytes-from_le : (bs : List ℕ) → All IsByte bs → le_bytes (length bs) (from_le bs) ≡ bs
le_bytes-from_le [] h = refl
le_bytes-from_le (b ∷ bs) h =
    let low : (b + 256 * from_le bs) % 256 ≡ b = omega (arith, h.0) in
    let rest : (b + 256 * from_le bs) / 256 ≡ from_le bs = omega (arith, h.0) in
    ap₂ (λ x xs. x ∷ xs) low (ap (le_bytes (length bs)) rest ∙ le_bytes-from_le bs h.1)

abbrev frame_body : ℕ → ℕ → ℕ → ℕ → ℕ → ℕ → List ℕ
frame_body uid key civ siv low high =
    le_bytes 4 s2c_check_connection.id
    ++ le_bytes 8 uid
    ++ le_bytes 8 key
    ++ le_bytes 8 civ
    ++ le_bytes 8 siv
    ++ le_bytes 8 low
    ++ le_bytes 8 high
    ++ []

module _ (fl : Floats) (fuel uid key civ siv low high : ℕ) where
  check_connection-encoded :
      encode fl server_catalog
        (suc fuel)
        "S2C_CheckConnection"
        (check_connection uid key civ siv low high)
      ≡ ok (frame_body uid key civ siv low high)
  unfolding encode
  check_connection-encoded = refl

  check_connection-received :
      received_fields
        (received_value fl server_catalog (suc fuel))
        (owner_of s2c_check_connection)
        s2c_check_connection.fields
        (check_connection uid key civ siv low high)
        empty
      ≡ ok (check_connection uid key civ siv low high)
  unfolding received_value received_prim shape_of
  check_connection-received = refl

All-take : (n : ℕ) (bs : List ℕ) → All IsByte bs → All IsByte (take n bs)
All-take zero bs h = tt
All-take (suc n) [] h = tt
All-take (suc n) (b ∷ bs) h = (h.0, All-take n bs h.1)

All-drop : (n : ℕ) (bs : List ℕ) → All IsByte bs → All IsByte (drop n bs)
All-drop zero bs h = h
All-drop (suc n) [] h = tt
All-drop (suc n) (b ∷ bs) h = All-drop n bs h.1

-- Exactly `n` bytes.
abbrev pub IsDraw : ℕ → List ℕ → Type 0
IsDraw n bs = (length bs ≡ n) × All IsByte bs

draw-back : (n : ℕ) (bs : List ℕ) → IsDraw n bs → le_bytes n (from_le bs) ≡ bs
draw-back n bs h = subst (λ k. le_bytes k (from_le bs) ≡ bs) h.0 (le_bytes-from_le bs h.1)

draw-fits : (bs : List ℕ) → IsDraw 8 bs → from_le bs < 2 ^ 64
draw-fits bs h = subst (λ k. from_le bs < 256 ^ k) h.0 (from_le-lt bs h.1)

draw-half : (bs : List ℕ) → IsDraw 8 bs → from_le bs / 2 < 2 ^ 64
draw-half bs h = omega (arith, draw-fits bs h)

-- The two halves of the key that the frame carries are the key.
key_halves :
    (raw : List ℕ)
    → IsDraw 16 raw
    → le_bytes 8 (from_le (take 8 raw)) ++ le_bytes 8 (from_le (take 8 (drop 8 raw))) ≡ raw
key_halves raw h =
    let low : IsDraw 8 (take 8 raw) = (omega (arith, length-take 8 raw, h.0), All-take 8 raw h.1) in
    let upper : length (drop 8 raw) ≡ 8 = omega (arith, length-drop 8 raw, h.0) in
    let whole : take 8 (drop 8 raw) ≡ drop 8 raw =
      subst (λ k. take k (drop 8 raw) ≡ drop 8 raw) upper (take_all (drop 8 raw)) in
    ap₂ (λ xs ys. xs ++ ys) (draw-back 8 (take 8 raw) low)
      (ap (λ bs. le_bytes 8 (from_le bs)) whole
        ∙ draw-back 8 (drop 8 raw) (upper, All-drop 8 raw h.1))
    ∙ take-append-drop 8 raw

abbrev number : Option Value → ℕ
number (some (num int64 n)) = n
number _ = 0

-- The client: the connection that it keys from the values of the frame.
abbrev pub peer_of : (List ℕ → Option (List ℕ → List ℕ)) → Values → Result HandshakeError Conn
peer_of new_cipher vs = do
  derived ← derive_key new_cipher (
      le_bytes 8 (number (get "m_encryptionKeyLow" vs))
      ++ le_bytes 8 (number (get "m_encryptionKeyHigh" vs)))
  ok (
      keyed new_cipher derived (number (get "m_socketUID" vs)) (number (get "m_connectionKey" vs))
        (number (get "m_clientSendIV" vs)) (number (get "m_serverSendIV" vs)))

abbrev pub all_drawn : List ℕ → List ℕ → List ℕ → List ℕ → List ℕ → Draws
all_drawn a b c d raw = record {
  socket_uid = some a;
  connection_key = some b;
  client_send_iv = some c;
  server_send_iv = some d;
  raw_key = some raw;
}

ok_unique : {A : Type 0} (r : Result CodecError A) (x y : A) → r ≡ ok x → r ≡ ok y → x ≡ y
ok_unique r x y h k = cc

decoded_frame :
    (fl : Floats) (fuel uid key civ siv low high : ℕ)
    → uid < 2 ^ 64
    → key < 2 ^ 64
    → civ < 2 ^ 64
    → siv < 2 ^ 64
    → low < 2 ^ 64
    → high < 2 ^ 64
    → decode fl server_catalog (suc fuel) (frame_body uid key civ siv low high)
      ≡ ok (record {
        message = some s2c_check_connection;
        fields = check_connection uid key civ siv low high;
        tail = [];
      })
unfolding lookup lookup_name FieldsSendable
decoded_frame fl fuel uid key civ siv low high h1 h2 h3 h4 h5 h6 =
    let (ws, arrives, read) =
      decode-encode fl server_catalog server_catalog-PrefixesKnown (suc fuel) "S2C_CheckConnection"
        s2c_check_connection (check_connection uid key civ siv low high)
        (frame_body uid key civ siv low high) refl refl (omega arith)
        (h1, (h2, (h3, (h4, (h5, (h6, tt))))))
        (check_connection-encoded fl fuel uid key civ siv low high) in
    let same : ws ≡ check_connection uid key civ siv low high =
      ok_unique _ ws (check_connection uid key civ siv low high) arrives
        (check_connection-received fl fuel uid key civ siv low high) in
    subst
      (λ vs.
        decode fl server_catalog (suc fuel) (frame_body uid key civ siv low high)
        ≡ ok (record { message = some s2c_check_connection; fields = vs; tail = [] }))
      same read

module _ (new_cipher : List ℕ → Option (List ℕ → List ℕ)) (decrypt : List ℕ → List ℕ) (fl : Floats)
    (fuel : ℕ) (a b c d raw rest : List ℕ) where
  abbrev agreed : Conn
  agreed =
      keyed new_cipher (decrypt raw) (from_le a / 2) (from_le b / 2) (from_le c / 2) (from_le d / 2)

  abbrev sent_values : Values
  sent_values =
      check_connection (from_le a / 2) (from_le b / 2) (from_le c / 2) (from_le d / 2)
        (from_le (take 8 raw)) (from_le (take 8 (drop 8 raw)))

  abbrev sent_body : List ℕ
  sent_body =
      frame_body (from_le a / 2) (from_le b / 2) (from_le c / 2) (from_le d / 2)
        (from_le (take 8 raw)) (from_le (take 8 (drop 8 raw)))

  handshake-sent :
      new_cipher static_key ≡ some decrypt
      → handshake new_cipher fl server_catalog (suc fuel) (all_drawn a b c d raw) true
        ≡ ok (agreed, write_frame sent_body)
  unfolding handshake rand_int63 derive_key encode
  handshake-sent known = rw known refl

  peer-keyed :
      new_cipher static_key ≡ some decrypt
      → IsDraw 16 raw
      → peer_of new_cipher sent_values ≡ ok agreed
  unfolding get derive_key
  peer-keyed known drawn = rw (key_halves raw drawn, known) refl

  -- When AES takes the static key and the random source gives 8 bytes for each identifier and 16 for
  -- the key, the handshake succeeds on a socket that takes its bytes. They are one frame, of the
  -- message S2C_CheckConnection, and from its values the client keys the same connection.
  pub handshake-peer :
      new_cipher static_key ≡ some decrypt
      → IsDraw 8 a
      → IsDraw 8 b
      → IsDraw 8 c
      → IsDraw 8 d
      → IsDraw 16 raw
      → (conn : Conn) × (body : List ℕ) × (vs : Values) × (handshake new_cipher fl server_catalog
            (suc fuel)
            (all_drawn a b c d raw)
            true
          ≡ ok (conn, write_frame body))
        × (read_frame (write_frame body ++ rest) ≡ ok (body, rest))
        × (decode fl server_catalog (suc fuel) body
            ≡ ok (record { message = some s2c_check_connection; fields = vs; tail = [] }))
        × (peer_of new_cipher vs ≡ ok conn)
  handshake-peer known ha hb hc hd hr =
      let low : IsDraw 8 (take 8 raw) =
        (omega (arith, length-take 8 raw, hr.0), All-take 8 raw hr.1) in
      let high : IsDraw 8 (take 8 (drop 8 raw)) = (
        omega (arith, length-take 8 (drop 8 raw), length-drop 8 raw, hr.0),
        All-take 8 (drop 8 raw) (All-drop 8 raw hr.1),
      ) in
      (
        agreed,
        sent_body,
        sent_values,
        handshake-sent known,
        read_frame-write_frame sent_body rest (omega arith),
        decoded_frame fl fuel _ _ _ _ _ _ (draw-half a ha) (draw-half b hb) (draw-half c hc)
            (draw-half d hd) (draw-fits (take 8 raw) low) (draw-fits (take 8 (drop 8 raw)) high),
        peer-keyed known hr,
      )
