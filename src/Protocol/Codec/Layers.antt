-- ===== src/Protocol/Codec/Layers.antt =====
-- One layer of a type: where the recursive calls of the encoder, the decoder and the description
-- agree, so do the loops over elements and fields.
use rom_server_poc.Prelude.{
  ℕ, ◌%◌, ◌^◌, ◌<◌, ◌≡◌, refl, sym, subst, String, true, Option, some, List, [], ◌∷◌, ◌++◌, arith,
  append_assoc, inl, inr, Bool-cases, if◌then◌else◌,
}
use rom_server_poc.Prelude.Bytes.{le_bytes}
use rom_server_poc.Prelude.Result.{Result, ok, >>=-eq-ok}
use rom_server_poc.Protocol.Catalog.{
  Field, Catalog, opcode_of, array_size, struct_layout, is_message,
}
use rom_server_poc.Protocol.Value.{
  Value, nil_value, num, float64, text, items, values, Items, end, item, Values, empty, count, get,
  put,
}
use rom_server_poc.Protocol.Primitives.{
  Floats, CodecError, PrimType, string_prim, char_array_prim, read_uint,
}
use rom_server_poc.Protocol.Primitives.RoundTrip.{
  InRange, TextOk, read_uint-append, read_uint-le_bytes,
}
use rom_server_poc.Protocol.Codec.{
  array, list, named, required, message_name, opcode_bytes, Encoder, Decoder, encode_items,
  encode_fields, decode_items, decode_fields, skip_opcode, decode_shape,
}
use rom_server_poc.Protocol.Codec.Received.{
  IsSendable, AreSendable, FieldsSendable, get-IsSendable, Receiver, received_items,
  received_fields,
}

-- An encoder, a decoder and the description agree on one type of one owner's field.
abbrev pub Agrees :
    (Value → Result CodecError (List ℕ))
    → (List ℕ → Option (Value × List ℕ))
    → (Value → Result CodecError Value)
    → Type 0
Agrees enc dec rec =
    (v : Value) (bytes rest : List ℕ)
    → IsSendable v
    → enc v ≡ ok bytes
    → (w : Value) × (rec v ≡ ok w) × (dec (bytes ++ rest) ≡ some (w, rest))

pub decode_items-encode_items :
    (enc : Value → Result CodecError (List ℕ)) (dec : List ℕ → Option (Value × List ℕ))
    (rec : Value → Result CodecError Value)
    → Agrees enc dec rec
    → (vs : Items) (bytes rest : List ℕ) → AreSendable vs
    → encode_items enc vs ≡ ok bytes
    → (ws : Items) × (received_items rec vs ≡ ok ws)
      × (decode_items (count vs) dec (bytes ++ rest) ≡ some (ws, rest))
unfolding encode_items decode_items received_items IsSendable
decode_items-encode_items enc dec rec agree end bytes rest h e =
    let nothing : [] ≡ bytes = cc in (end, refl, rw (← nothing) refl)
decode_items-encode_items enc dec rec agree (item v vs) bytes rest h e =
    let (b, eb, e') = >>=-eq-ok (enc v) _ e in
    let (bs, ebs, both) = >>=-eq-ok (encode_items enc vs) _ e' in
    let whole : b ++ bs ≡ bytes = cc in
    let (w, rw_v, dw) = agree v b (bs ++ rest) h.0 eb in
    let (ws, rws, dws) = decode_items-encode_items enc dec rec agree vs bs rest h.1 ebs in
    (item w ws, rw (rw_v, rws) refl, rw (← whole, append_assoc, dw, dws) refl)

pub encode_fields-inverse :
    (enc : Encoder) (owner : String) (f : Field) (fs : List Field) (vs : Values) (bytes : List ℕ)
    → encode_fields enc owner (f ∷ fs) vs ≡ ok bytes
    → (v : Value) × (b : List ℕ) × (bs : List ℕ) × (get f.name vs ≡ some v)
      × (enc f.type v owner f.name ≡ ok b)
      × (encode_fields enc owner fs vs ≡ ok bs)
      × (b ++ bs ≡ bytes)
unfolding encode_fields
encode_fields-inverse enc owner f fs vs bytes e =
    let (v, ev, e₁) = >>=-eq-ok (required f.name (get f.name vs)) _ e in
    let (b, eb, e₂) = >>=-eq-ok (enc f.type v owner f.name) _ e₁ in
    let (bs, ebs, both) = >>=-eq-ok (encode_fields enc owner fs vs) _ e₂ in
    (v, b, bs, ground arith, eb, ebs, cc)

received_fields-cons :
    (rec : Receiver) (owner : String) (f : Field) (fs : List Field) (vs out : Values) (v w : Value)
    (ws : Values)
    → get f.name vs ≡ some v
    → rec f.type v owner f.name ≡ ok w
    → received_fields rec owner fs vs (put f.name w out) ≡ ok ws
    → received_fields rec owner (f ∷ fs) vs out ≡ ok ws
unfolding received_fields
received_fields-cons rec owner f fs vs out v w ws there arrives others = rw (there, arrives) others

decode_fields-cons :
    (dec : Decoder) (owner : String) (f : Field) (fs : List Field) (out : Values) (w : Value)
    (ws : Values) (b bs bytes rest : List ℕ)
    → b ++ bs ≡ bytes
    → dec f.type owner f.name (b ++ (bs ++ rest)) ≡ some (w, bs ++ rest)
    → decode_fields dec owner fs (put f.name w out) (bs ++ rest) ≡ some (ws, rest)
    → decode_fields dec owner (f ∷ fs) out (bytes ++ rest) ≡ some (ws, rest)
unfolding decode_fields
decode_fields-cons dec owner f fs out w ws b bs bytes rest whole first others =
    rw (← whole, append_assoc, first) others

-- The same for the fields of a layout, whatever has been put before.
pub decode_fields-encode_fields :
    (enc : Encoder) (dec : Decoder) (rec : Receiver) (owner : String)
    → ((ftype fname : String)
        → Agrees
            (λ v. enc ftype v owner fname)
            (dec ftype owner fname)
            (λ v. rec ftype v owner fname))
    → (fs : List Field) (vs out : Values) (bytes rest : List ℕ) → FieldsSendable vs
    → encode_fields enc owner fs vs ≡ ok bytes
    → (ws : Values) × (received_fields rec owner fs vs out ≡ ok ws)
      × (decode_fields dec owner fs out (bytes ++ rest) ≡ some (ws, rest))
decode_fields-encode_fields enc dec rec owner agree [] vs out bytes rest h e =
    let nothing : [] ≡ bytes = unfold encode_fields in cc in
    (out, unfold received_fields in refl, rw (← nothing) (unfold decode_fields in refl))
decode_fields-encode_fields enc dec rec owner agree (f ∷ fs) vs out bytes rest h e =
    let (v, b, bs, there, eb, ebs, whole) = encode_fields-inverse enc owner f fs vs bytes e in
    let (w, arrives, first) =
      agree f.type f.name v b (bs ++ rest) (get-IsSendable f.name vs v h there) eb in
    let (ws, others, rest_read) =
      decode_fields-encode_fields enc dec rec owner agree fs vs (put f.name w out) bs rest h ebs in
    (
      ws,
      received_fields-cons rec owner f fs vs out v w ws there arrives others,
      decode_fields-cons dec owner f fs out w ws b bs bytes rest whole first rest_read,
    )

-- The texts and numbers of a sendable value are what the primitive codec asks for.
pub sendable_prim : (p : PrimType) (v : Value) → IsSendable v → InRange v × TextOk p v
unfolding IsSendable
sendable_prim string_prim (text s) h = (tt, (h.0, h.2))
sendable_prim char_array_prim (text s) h = (tt, (h.0, h.1))
sendable_prim _ nil_value h = (tt, tt)
sendable_prim _ (num kind n) h = (h, tt)
sendable_prim _ (float64 f) h = (h, tt)
sendable_prim _ _ h = (tt, tt)

-- The encoder prefixes an element that is a message only if its opcode is known, the decoder always
-- skips a prefix: they agree where every such type has an opcode.
abbrev pub PrefixesKnown : Catalog → Type 0
PrefixesKnown cat =
    (t : String) → is_message cat t ≡ true → (op : ℕ) × (opcode_of cat (message_name t) ≡ some op)

module _ (fl : Floats) (cat : Catalog) where
  pub array_decodes :
      (dec : Decoder) (elem ftype owner fname : String) (n : ℕ) (buf rest : List ℕ) (ws : Items)
      → array_size cat owner fname ≡ some n
      → decode_items n (dec elem owner fname) buf ≡ some (ws, rest)
      → decode_shape fl cat dec (array elem) ftype owner fname buf ≡ some (items ws, rest)
  unfolding decode_shape
  array_decodes dec elem ftype owner fname n buf rest ws sized read = rw (sized, read) refl

  pub list_decodes :
      (dec : Decoder) (inner ftype owner fname : String) (n : ℕ) (bs bytes rest : List ℕ)
      (ws : Items)
      → n < 2 ^ 32
      → le_bytes 4 (n % 2 ^ 32) ++ bs ≡ bytes
      → decode_items n (dec inner owner fname) (bs ++ rest) ≡ some (ws, rest)
      → decode_shape fl cat dec (list inner) ftype owner fname (bytes ++ rest)
        ≡ some (items ws, rest)
  unfolding decode_shape
  list_decodes dec inner ftype owner fname n bs bytes rest ws fits whole read =
      let fits' : n % 2 ^ 32 ≡ n = omega arith in
      let counted : read_uint 4 (bytes ++ rest) ≡ some (n, bs ++ rest) =
        subst (λ b. read_uint 4 (b ++ rest) ≡ some (n, bs ++ rest)) whole
          (subst (λ m. read_uint 4 (le_bytes 4 m ++ (bs ++ rest)) ≡ some (n, bs ++ rest))
            (sym fits') (read_uint-le_bytes 4 n (bs ++ rest) (omega arith))) in
      rw (counted, read) refl

  pub named_decodes :
      (dec : Decoder) (ftype owner fname : String) (layout : List Field) (buf buf' rest : List ℕ)
      (ws : Values)
      → struct_layout cat ftype ≡ some layout
      → skip_opcode (is_message cat ftype) buf ≡ some buf'
      → decode_fields dec ftype layout empty buf' ≡ some (ws, rest)
      → decode_shape fl cat dec named ftype owner fname buf ≡ some (values ws, rest)
  unfolding decode_shape
  named_decodes dec ftype owner fname layout buf buf' rest ws found skipped read =
      rw (found, skipped, read) refl

  pub skip-opcode_bytes :
      PrefixesKnown cat
      → (t : String) (rest : List ℕ)
      → skip_opcode
          (is_message cat t)
          ((if is_message cat t then opcode_bytes (opcode_of cat (message_name t)) else []) ++ rest)
        ≡ some rest
  skip-opcode_bytes known t rest = elim (Bool-cases (is_message cat t)) [
    | inl message ↦
        let (op, found) = known t message in
        rw (message, found) (rw (read_uint-append (le_bytes 4 op) rest))
    | inr other ↦ rw other refl
  ]
