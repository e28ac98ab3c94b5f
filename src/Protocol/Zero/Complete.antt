-- ===== src/Protocol/Zero/Complete.antt =====
-- A zeroed message can always be encoded.
use rom_server_poc.Prelude.{
  ℕ, zero, suc, ◌≡◌, refl, ap, subst, ◌∙◌, String, false, some, List, [], ◌∷◌, ◌++◌, All, arith,
  str_eq, eq_iff, ==_iff, if◌then◌else◌,
}
use text.Mathlib.TextPositions.{eq_refl}
use rom_server_poc.Prelude.Bytes.{le_bytes}
use rom_server_poc.Prelude.Result.{Result, ok, >>=-eq-ok}
use rom_server_poc.Protocol.Catalog.{
  Field, Message, Catalog, lookup_name, array_size, struct_layout, is_message, opcode_of,
}
use rom_server_poc.Protocol.Value.{
  Value, items, values, Items, end, item, Values, empty, count, get, put, get-put,
}
use rom_server_poc.Protocol.Primitives.{Floats, CodecError, PrimType, int32_prim, encode_prim}
use rom_server_poc.Protocol.Codec.{
  Shape, primitive, array, list, named, shape_of, known_size, owner_of, opcode_bytes, message_name,
  Encoder, encode_items, encode_fields, encode_shape, encode_value, encode,
}
use rom_server_poc.Protocol.Zero.{
  zero_prim, Maker, zero_items, zero_fields, layout_to_zero, zero_shape, zero_value, zero_values,
}

-- No field name of the layout occurs twice.
abbrev pub DistinctNames : List Field → Type 0
DistinctNames [] = Unit
DistinctNames (f ∷ fs) = All (λ (g : Field). str_eq f.name g.name ≡ false) fs × DistinctNames fs

-- The struct layouts of the catalog have distinct names.
abbrev pub DistinctLayouts : Catalog → Type 0
DistinctLayouts cat =
    (t : String) (layout : List Field) → struct_layout cat t ≡ some layout → DistinctNames layout

-- `vs` holds what `make` makes of the field.
abbrev Holds : Maker → String → Values → Field → Type 0
Holds make owner vs f = (v : Value) × (get f.name vs ≡ some v) × (make f.type owner f.name ≡ ok v)

get-zero_fields :
    (make : Maker) (owner : String) (fs : List Field) (out vs : Values) (name : String)
    → All (λ (g : Field). str_eq name g.name ≡ false) fs
    → zero_fields make owner fs out ≡ ok vs
    → get name vs ≡ get name out
unfolding zero_fields
get-zero_fields make owner [] out vs name h e = let same : out ≡ vs = cc in rw same
get-zero_fields make owner (f ∷ fs) out vs name h e =
    let (v, made, e') = >>=-eq-ok (make f.type owner f.name) _ e in
    get-zero_fields make owner fs (put f.name v out) vs name h.1 e'
    ∙ ground (arith, get-put f.name name v out, eq_iff f.name name, eq_iff name f.name)

zero_fields-Holds :
    (make : Maker) (owner : String) (fs : List Field) (out vs : Values)
    → DistinctNames fs
    → zero_fields make owner fs out ≡ ok vs
    → All (Holds make owner vs) fs
unfolding zero_fields
zero_fields-Holds make owner [] out vs d e = tt
zero_fields-Holds make owner (f ∷ fs) out vs d e =
    let (v, made, e') = >>=-eq-ok (make f.type owner f.name) _ e in
    (
      (
        v,
        get-zero_fields make owner fs (put f.name v out) vs f.name d.0 e' ∙ rw get-put (rw eq_refl),
        made,
      ),
      zero_fields-Holds make owner fs (put f.name v out) vs d.1 e',
    )

-- What the maker makes, the encoder encodes.
abbrev Encodes : Encoder → Maker → Type 0
Encodes enc make =
    (t owner fname : String) (v : Value)
    → make t owner fname ≡ ok v
    → (bytes : List ℕ) × (enc t v owner fname ≡ ok bytes)

encode_fields-Holds :
    (enc : Encoder) (make : Maker) (owner : String)
    → Encodes enc make
    → (fs : List Field) (vs : Values) → All (Holds make owner vs) fs
    → (bytes : List ℕ) × (encode_fields enc owner fs vs ≡ ok bytes)
unfolding encode_fields
encode_fields-Holds enc make owner can [] vs h = ([], refl)
encode_fields-Holds enc make owner can (f ∷ fs) vs h =
    let (v, there, made) = h.0 in
    let (b, eb) = can f.type owner f.name v made in
    let (bs, ebs) = encode_fields-Holds enc make owner can fs vs h.1 in
    (b ++ bs, rw (there, eb, ebs))

-- Items of the expected number that can be encoded.
abbrev Written : (Value → Result CodecError (List ℕ)) → ℕ → Items → Type 0
Written enc n vs = (count vs ≡ n) × ((bytes : List ℕ) × (encode_items enc vs ≡ ok bytes))

encode_items-zero_items :
    (enc : Value → Result CodecError (List ℕ)) (make : Result CodecError Value)
    → ((v : Value) → make ≡ ok v → (bytes : List ℕ) × (enc v ≡ ok bytes))
    → (n : ℕ) (vs : Items) → zero_items n make ≡ ok vs
    → Written enc n vs
unfolding zero_items encode_items
encode_items-zero_items enc make can zero vs e =
    let same : end ≡ vs = cc in subst (Written enc 0) same (refl, ([], refl))
encode_items-zero_items enc make can (suc n) vs e =
    let (v, made, e₁) = >>=-eq-ok make _ e in
    let (ws, others, e₂) = >>=-eq-ok (zero_items n make) _ e₁ in
    let same : item v ws ≡ vs = cc in
    let (b, eb) = can v made in
    let (counted, (bs, ebs)) = encode_items-zero_items enc make can n ws others in
    subst (Written enc (suc n)) same (ap suc counted, (b ++ bs, rw (eb, ebs)))

module _ (fl : Floats) where
  encode_prim-zero_prim :
      (p : PrimType) → (bytes : List ℕ) × (encode_prim fl p (zero_prim p) ≡ ok bytes)
  unfolding encode_prim zero_prim
  encode_prim-zero_prim int32_prim = (_, refl)
  encode_prim-zero_prim _ = (_, refl)

module _ (fl : Floats) (cat : Catalog) where
  array_encoded :
      (enc : Encoder) (elem t owner fname : String) (vs : Items) (bytes : List ℕ)
      → array_size cat owner fname ≡ some (count vs)
      → encode_items (λ x. enc elem x owner fname) vs ≡ ok bytes
      → encode_shape fl cat enc (array elem) t (items vs) owner fname ≡ ok bytes
  unfolding encode_shape
  array_encoded enc elem t owner fname vs bytes sized written =
      rw (sized, (==_iff (count vs) (count vs)).1 refl) written

  named_encoded :
      (enc : Encoder) (t owner fname : String) (layout : List Field) (vs : Values) (bs : List ℕ)
      → struct_layout cat t ≡ some layout
      → encode_fields enc t layout vs ≡ ok bs
      → (bytes : List ℕ) × (encode_shape fl cat enc named t (values vs) owner fname ≡ ok bytes)
  unfolding encode_shape
  named_encoded enc t owner fname layout vs bs found written = (
    (if is_message cat t then opcode_bytes (opcode_of cat (message_name t)) else []) ++ bs,
    rw (found, written),
  )

module _ (fl : Floats) (cat : Catalog) (distinct : DistinctLayouts cat) where
  abbrev Encodable : Encoder → Shape → String → String → String → Value → Type 0
  Encodable enc s t owner fname v =
      (bytes : List ℕ) × (encode_shape fl cat enc s t v owner fname ≡ ok bytes)

  shape-Encodes :
      (enc : Encoder) (make : Maker)
      → Encodes enc make
      → (s : Shape) (t owner fname : String) (v : Value)
      → zero_shape cat make s t owner fname ≡ ok v
      → Encodable enc s t owner fname v
  unfolding zero_shape
  shape-Encodes enc make can (primitive p) t owner fname v e =
      let same : zero_prim p ≡ v = cc in
      subst (Encodable enc (primitive p) t owner fname) same
        (unfold encode_shape in encode_prim-zero_prim fl p)
  shape-Encodes enc make can (array elem) t owner fname v e =
      let (size, es, e₁) = >>=-eq-ok (known_size t (array_size cat owner fname)) _ e in
      let (vs, made, e₂) = >>=-eq-ok (zero_items size (make elem owner fname)) _ e₁ in
      let same : items vs ≡ v = cc in
      let (counted, (bytes, written)) =
        encode_items-zero_items (λ x. enc elem x owner fname) (make elem owner fname)
          (λ w made. can elem owner fname w made) size vs made in
      let sized : array_size cat owner fname ≡ some (count vs) = ground arith in
      subst (Encodable enc (array elem) t owner fname) same
        (bytes, array_encoded fl cat enc elem t owner fname vs bytes sized written)
  shape-Encodes enc make can (list inner) t owner fname v e =
      let same : items end ≡ v = cc in
      subst (Encodable enc (list inner) t owner fname) same
        (le_bytes 4 0, unfold encode_shape encode_items in refl)
  shape-Encodes enc make can named t owner fname v e =
      let (layout, el, e₁) = >>=-eq-ok (layout_to_zero t (struct_layout cat t)) _ e in
      let (vs, made, e₂) = >>=-eq-ok (zero_fields make t layout empty) _ e₁ in
      let same : values vs ≡ v = cc in
      let found : struct_layout cat t ≡ some layout = ground arith in
      let (bs, written) =
        encode_fields-Holds enc make t can layout vs
          (zero_fields-Holds make t layout empty vs (distinct t layout found) made) in
      subst (Encodable enc named t owner fname) same
        (named_encoded fl cat enc t owner fname layout vs bs found written)

  encode_value-zero_value : (fuel : ℕ) → Encodes (encode_value fl cat fuel) (zero_value cat fuel)
  unfolding zero_value encode_value
  encode_value-zero_value zero t owner fname v e = cc
  encode_value-zero_value (suc fuel) t owner fname v e =
      shape-Encodes (encode_value fl cat fuel) (zero_value cat fuel) (encode_value-zero_value fuel)
        (shape_of t) t owner fname v e

  -- Where no layout of the catalog names a field twice, whatever ZeroValues makes for a message with
  -- distinct field names Encode accepts, with the same bound on the nesting of types.
  pub encode-zero_values :
      (fuel : ℕ) (name : String) (msg : Message) (vs : Values)
      → lookup_name cat name ≡ some msg
      → DistinctNames msg.fields
      → zero_values cat fuel name ≡ ok vs
      → (body : List ℕ) × (encode fl cat fuel name vs ≡ ok body)
  unfolding zero_values encode
  encode-zero_values fuel name msg vs found d e =
      let make : Maker = zero_value cat fuel in
      let made : zero_fields make (owner_of msg) msg.fields empty ≡ ok vs = rw found at e in
      let (bs, written) =
        encode_fields-Holds (encode_value fl cat fuel) make (owner_of msg)
          (encode_value-zero_value fuel) msg.fields vs
          (zero_fields-Holds make (owner_of msg) msg.fields empty vs d made) in
      (le_bytes 4 msg.id ++ bs, rw (found, written))
