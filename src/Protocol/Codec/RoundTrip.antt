-- ===== src/Protocol/Codec/RoundTrip.antt =====
-- Decoding what was encoded gives what the peer is to see.
use rom_server_poc.Prelude.{
  ℕ, zero, suc, ◌^◌, ◌<◌, ◌≡◌, refl, sym, ap, ◌∙◌, subst, String, none, some, List, [], ◌∷◌, ◌++◌,
  arith, append_assoc, append-nil, inl, inr, Option-cases, if◌then◌else◌,
}
use rom_server_poc.Prelude.Bytes.{le_bytes, from_le, from_le-le_bytes}
use rom_server_poc.Prelude.Result.{ok, >>=-eq-ok}
use rom_server_poc.Protocol.Catalog.{
  Field, Message, Catalog, lookup, lookup_name, opcode_of, array_size, struct_layout, is_message,
}
use rom_server_poc.Protocol.Value.{Value, items, values, plain, Values, empty, count, put}
use rom_server_poc.Protocol.Primitives.{Floats}
use rom_server_poc.Protocol.Primitives.RoundTrip.{decode_prim-encode_prim}
use rom_server_poc.Protocol.Codec.{
  Shape, primitive, array, list, named, shape_of, as_fields, known_size, known_layout, message_name,
  owner_of, opcode_bytes, Encoder, Decoder, encode_items, encode_fields, encode_shape, encode_value,
  encode, decode_fields, decode_message_fields, Decoded, skip_opcode, decode_shape, decode_value,
  decode, encode_message, decode_known,
}
use rom_server_poc.Protocol.Codec.Received.{
  IsSendable, FieldsSendable, Receiver, received_fields, received_shape, received_value,
}
use rom_server_poc.Protocol.Codec.Layers.{
  Agrees, decode_items-encode_items, decode_fields-encode_fields, sendable_prim, PrefixesKnown,
  array_decodes, list_decodes, named_decodes, skip-opcode_bytes,
}

-- The loop of `Decode` stops nowhere where the loop over a struct's fields would not fail.
decode_message_fields_whole :
    (dec : Decoder) (owner : String) (fs : List Field) (out : Values) (buf rest : List ℕ)
    (ws : Values)
    → decode_fields dec owner fs out buf ≡ some (ws, rest)
    → decode_message_fields dec owner fs out buf ≡ (ws, rest)
unfolding decode_fields decode_message_fields
decode_message_fields_whole dec owner [] out buf rest ws e = ground arith
decode_message_fields_whole dec owner (f ∷ fs) out buf rest ws e =
    elim (Option-cases (dec f.type owner f.name buf)) [
      | inl stops ↦ absurd (let never : none ≡ some (ws, rest) = rw stops at e in cc)
      | inr ((v, rest'), goes) ↦
          rw (goes, decode_message_fields)
            (decode_message_fields_whole dec owner fs (put f.name v out) rest' rest ws
              (rw goes at e))
    ]

module _ (fl : Floats) (cat : Catalog) where
  named-inverse :
      (enc : Encoder) (ftype owner fname : String) (v : Value) (bytes : List ℕ)
      → encode_shape fl cat enc named ftype v owner fname ≡ ok bytes
      → (layout : List Field) × (vs : Values) × (bs : List ℕ) × (struct_layout cat ftype
          ≡ some layout)
        × (as_fields v ≡ ok vs)
        × (encode_fields enc ftype layout vs ≡ ok bs)
        × ((if is_message cat ftype then opcode_bytes (opcode_of cat (message_name ftype)) else [])
              ++ bs
            ≡ bytes)
  unfolding encode_shape
  named-inverse enc ftype owner fname v bytes e =
      let (layout, found, e₁) = >>=-eq-ok (known_layout ftype (struct_layout cat ftype)) _ e in
      let (vs, fields, e₂) = >>=-eq-ok (as_fields v) _ e₁ in
      let (bs, written, both) = >>=-eq-ok (encode_fields enc ftype layout vs) _ e₂ in
      (layout, vs, bs, ground arith, fields, written, cc)

  named_received :
      (rec : Receiver) (ftype owner fname : String) (v : Value) (layout : List Field)
      (vs ws : Values)
      → struct_layout cat ftype ≡ some layout
      → as_fields v ≡ ok vs
      → received_fields rec ftype layout vs empty ≡ ok ws
      → received_shape fl cat rec named ftype v owner fname ≡ ok (values ws)
  unfolding received_shape
  named_received rec ftype owner fname v layout vs ws found fields arrives =
      rw (found, fields, arrives) refl

fields-sendable : (v : Value) (vs : Values) → as_fields v ≡ ok vs → IsSendable v → FieldsSendable vs
unfolding IsSendable
fields-sendable (values vs) ws e h = let same : vs ≡ ws = cc in subst FieldsSendable same h
fields-sendable (plain vs) ws e h = let same : vs ≡ ws = cc in subst FieldsSendable same h
fields-sendable _ ws e h = cc

module _ (fl : Floats) (cat : Catalog) where
  encode-inverse :
      (fuel : ℕ) (name : String) (msg : Message) (vs : Values) (body : List ℕ)
      → lookup_name cat name ≡ some msg
      → encode fl cat fuel name vs ≡ ok body
      → (bs : List ℕ) × (encode_fields (encode_value fl cat fuel) (owner_of msg) msg.fields vs
          ≡ ok bs)
        × (le_bytes 4 msg.id ++ bs ≡ body)
  unfolding encode
  encode-inverse fuel name msg vs body found e =
      let e' : encode_message fl cat fuel vs msg ≡ ok body = rw found at e in
      let (bs, written, both) =
        >>=-eq-ok (encode_fields (encode_value fl cat fuel) (owner_of msg) msg.fields vs) _ e' in
      (bs, written, cc)

  decode-append :
      (fuel n : ℕ) (bs : List ℕ)
      → decode fl cat fuel (le_bytes 4 n ++ bs)
        ≡ ok (decode_known fl cat fuel (lookup cat (from_le (le_bytes 4 n))) bs)
  unfolding decode
  decode-append fuel n bs = ground arith

  decode_known-some :
      (fuel : ℕ) (msg : Message) (bs : List ℕ) (ws : Values)
      → decode_message_fields (decode_value fl cat fuel) (owner_of msg) msg.fields empty bs
        ≡ (ws, [])
      → decode_known fl cat fuel (some msg) bs
        ≡ record { message = some msg; fields = ws; tail = [] }
  unfolding decode_known
  decode_known-some fuel msg bs ws e =
      ap
        (λ (p : Values × List ℕ).
          let q : Decoded = record { message = some msg; fields = p.0; tail = p.1 } in q)
        e

  decode_body :
      (fuel : ℕ) (msg : Message) (bs body : List ℕ) (ws : Values)
      → lookup cat msg.id ≡ some msg
      → msg.id < 2 ^ 32
      → le_bytes 4 msg.id ++ bs ≡ body
      → decode_fields (decode_value fl cat fuel) (owner_of msg) msg.fields empty bs ≡ some (ws, [])
      → decode fl cat fuel body ≡ ok (record { message = some msg; fields = ws; tail = [] })
  decode_body fuel msg bs body ws numbered fits whole read =
      ap (decode fl cat fuel) (sym whole)
      ∙ decode-append fuel msg.id bs
      ∙ ap (λ n. ok (decode_known fl cat fuel (lookup cat n) bs))
          (from_le-le_bytes 4 msg.id (omega arith))
      ∙ ap (λ m. ok (decode_known fl cat fuel m bs)) numbered
      ∙ ap ok (
          decode_known-some fuel msg bs ws (
            decode_message_fields_whole (decode_value fl cat fuel) (owner_of msg) msg.fields empty
              bs [] ws read))

module _ (fl : Floats) (cat : Catalog) (known : PrefixesKnown cat) where
  array-Agrees :
      (enc : Encoder) (dec : Decoder) (rec : Receiver) (elem ftype owner fname : String)
      → Agrees (λ v. enc elem v owner fname) (dec elem owner fname) (λ v. rec elem v owner fname)
      → Agrees
          (λ v. encode_shape fl cat enc (array elem) ftype v owner fname)
          (decode_shape fl cat dec (array elem) ftype owner fname)
          (λ v. received_shape fl cat rec (array elem) ftype v owner fname)
  unfolding encode_shape
  array-Agrees enc dec rec elem ftype owner fname agree (items vs) bytes rest h e =
      let (size, es, e₁) = >>=-eq-ok (known_size ftype (array_size cat owner fname)) _ e in
      let sized : array_size cat owner fname ≡ some (count vs) = ground arith in
      let written : encode_items (λ x. enc elem x owner fname) vs ≡ ok bytes = ground arith in
      let (ws, arrives, read) =
        decode_items-encode_items _ (dec elem owner fname) (λ x. rec elem x owner fname) agree vs
          bytes rest (unfold IsSendable in h.1) written in
      (
        items ws,
        unfold received_shape in rw arrives refl,
        array_decodes fl cat dec elem ftype owner fname (count vs) (bytes ++ rest) rest ws sized
            read,
      )
  array-Agrees enc dec rec elem ftype owner fname agree _ bytes rest h e = ground arith

  list-Agrees :
      (enc : Encoder) (dec : Decoder) (rec : Receiver) (inner ftype owner fname : String)
      → Agrees (λ v. enc inner v owner fname) (dec inner owner fname) (λ v. rec inner v owner fname)
      → Agrees
          (λ v. encode_shape fl cat enc (list inner) ftype v owner fname)
          (decode_shape fl cat dec (list inner) ftype owner fname)
          (λ v. received_shape fl cat rec (list inner) ftype v owner fname)
  unfolding encode_shape
  list-Agrees enc dec rec inner ftype owner fname agree (items vs) bytes rest h e =
      let (bs, written, e₁) = >>=-eq-ok (encode_items (λ x. enc inner x owner fname) vs) _ e in
      let (ws, arrives, read) =
        decode_items-encode_items _ (dec inner owner fname) (λ x. rec inner x owner fname) agree vs
          bs rest (unfold IsSendable in h.1) written in
      (
        items ws,
        unfold received_shape in rw arrives refl,
        list_decodes fl cat dec inner ftype owner fname (count vs) bs bytes rest ws
            (unfold IsSendable in h.0) (cc) read,
      )
  list-Agrees enc dec rec inner ftype owner fname agree _ bytes rest h e = cc

  struct-Agrees :
      (enc : Encoder) (dec : Decoder) (rec : Receiver)
      → ((ftype owner fname : String)
          → Agrees
              (λ v. enc ftype v owner fname)
              (dec ftype owner fname)
              (λ v. rec ftype v owner fname))
      → (ftype owner fname : String) (layout : List Field) (vs : Values) (bytes rest : List ℕ)
      → FieldsSendable vs
      → struct_layout cat ftype ≡ some layout
      → (bs : List ℕ) → encode_fields enc ftype layout vs ≡ ok bs
      → (if is_message cat ftype then opcode_bytes (opcode_of cat (message_name ftype)) else [])
          ++ bs
        ≡ bytes
      → (ws : Values) × (received_fields rec ftype layout vs empty ≡ ok ws)
        × (decode_shape fl cat dec named ftype owner fname (bytes ++ rest) ≡ some (values ws, rest))
  struct-Agrees enc dec rec agree ftype owner fname layout vs bytes rest h found bs written whole =
      let (ws, arrives, read) =
        decode_fields-encode_fields enc dec rec ftype (λ t n. agree t ftype n) layout vs empty bs
          rest h written in
      let skipped : skip_opcode (is_message cat ftype) (bytes ++ rest) ≡ some (bs ++ rest) =
        rw (← whole, append_assoc) (skip-opcode_bytes fl cat known ftype (bs ++ rest)) in
      (
        ws,
        arrives,
        named_decodes fl cat dec ftype owner fname layout _ _ rest ws found skipped read,
      )

  shape-Agrees :
      (enc : Encoder) (dec : Decoder) (rec : Receiver)
      → ((ftype owner fname : String)
          → Agrees
              (λ v. enc ftype v owner fname)
              (dec ftype owner fname)
              (λ v. rec ftype v owner fname))
      → (s : Shape) (ftype owner fname : String)
      → Agrees
          (λ v. encode_shape fl cat enc s ftype v owner fname)
          (decode_shape fl cat dec s ftype owner fname)
          (λ v. received_shape fl cat rec s ftype v owner fname)
  shape-Agrees enc dec rec agree (primitive p) ftype owner fname v bytes rest h e =
      unfold encode_shape decode_shape received_shape in
      let (fits, carried) = sendable_prim p v h in
      decode_prim-encode_prim fl p v bytes rest fits carried e
  shape-Agrees enc dec rec agree (array elem) ftype owner fname v bytes rest h e =
      array-Agrees enc dec rec elem ftype owner fname (agree elem owner fname) v bytes rest h e
  shape-Agrees enc dec rec agree (list inner) ftype owner fname v bytes rest h e =
      list-Agrees enc dec rec inner ftype owner fname (agree inner owner fname) v bytes rest h e
  shape-Agrees enc dec rec agree named ftype owner fname v bytes rest h e =
      let (layout, vs, bs, found, fields, written, whole) =
        named-inverse fl cat enc ftype owner fname v bytes e in
      let (ws, arrives, read) =
        struct-Agrees enc dec rec agree ftype owner fname layout vs bytes rest
          (fields-sendable v vs fields h) found bs written whole in
      (
        values ws,
        named_received fl cat rec ftype owner fname v layout vs ws found fields arrives,
        read,
      )

  value-Agrees :
      (fuel : ℕ) (ftype owner fname : String)
      → Agrees
          (λ v. encode_value fl cat fuel ftype v owner fname)
          (decode_value fl cat fuel ftype owner fname)
          (λ v. received_value fl cat fuel ftype v owner fname)
  unfolding encode_value decode_value received_value
  value-Agrees zero ftype owner fname v bytes rest h e = cc
  value-Agrees (suc fuel) ftype owner fname v bytes rest h e =
      shape-Agrees (encode_value fl cat fuel) (decode_value fl cat fuel)
        (received_value fl cat fuel) (value-Agrees fuel) (shape_of ftype) ftype owner fname v bytes
        rest h e

  -- Where the catalog finds the message by its name and by its opcode, every message type that is
  -- an element has its opcode, and the values are 64-bit numbers, texts without NUL and lists that 32
  -- bits can count: decoding what `Encode` wrote gives that message, the values that the peer is to
  -- see (every declared field, converted to its wire type) and no tail.
  pub decode-encode :
      (fuel : ℕ) (name : String) (msg : Message) (vs : Values) (body : List ℕ)
      → lookup_name cat name ≡ some msg
      → lookup cat msg.id ≡ some msg
      → msg.id < 2 ^ 32
      → FieldsSendable vs
      → encode fl cat fuel name vs ≡ ok body
      → (ws : Values) × (received_fields
            (received_value fl cat fuel)
            (owner_of msg)
            msg.fields
            vs
            empty
          ≡ ok ws)
        × (decode fl cat fuel body ≡ ok (record { message = some msg; fields = ws; tail = [] }))
  decode-encode fuel name msg vs body named' numbered fits h e =
      let (bs, written, whole) = encode-inverse fl cat fuel name msg vs body named' e in
      let (ws, arrives, read) =
        decode_fields-encode_fields (encode_value fl cat fuel) (decode_value fl cat fuel)
          (received_value fl cat fuel) (owner_of msg) (λ t n. value-Agrees fuel t (owner_of msg) n)
          msg.fields vs empty bs [] h written in
      let read' : decode_fields (decode_value fl cat fuel) (owner_of msg) msg.fields empty bs
          ≡ some (ws, []) =
        rw append-nil at read in
      (ws, arrives, decode_body fl cat fuel msg bs body ws numbered fits whole read')
