-- ===== src/Protocol/Codec/Bytes.antt =====
-- What the encoder writes are bytes.
use Prim.Native.String.{String}
use rom_server_poc.Prelude.{
  ℕ, zero, suc, ◌%◌, ◌^◌, Bool, true, false, Option, none, some, List, [], ◌∷◌, All, All-append,
  ◌==◌, if◌then◌else◌, length,
}
use rom_server_poc.Prelude.Bytes.{IsByte, le_bytes, le_bytes-IsByte}
use rom_server_poc.Prelude.Result.{Result, ok, err, ◌>>=◌}
use rom_server_poc.Protocol.Catalog.{
  Field, Catalog, lookup_name, array_size, struct_layout, is_message, opcode_of,
}
use rom_server_poc.Protocol.Value.{Value, bool, text, Items, end, item, Values, count, get}
use rom_server_poc.Protocol.Utf16.{utf16_encode}
use rom_server_poc.Protocol.Primitives.{
  Floats, CodecError, PrimType, int32_prim, uint32_prim, int64_prim, uint64_prim, int16_prim,
  uint16_prim, byte_prim, sbyte_prim, boolean_prim, single_prim, double_prim, string_prim,
  char_array_prim, to_int64, to_uint64, to_float64, write_units, write_str, write_char_array,
  encode_prim, encode_bool, encode_text,
}
use rom_server_poc.Protocol.Codec.{
  Shape, primitive, array, list, named, shape_of, message_name, owner_of, opcode_bytes, Encoder,
  encode_items, required, encode_fields, as_items, as_fields, known_size, known_layout,
  known_message, encode_shape, encode_value, encode,
}

-- A call that writes nothing but bytes, if it succeeds.
abbrev pub Writes : Result CodecError (List ℕ) → Type 0
Writes (ok bytes) = All IsByte bytes
Writes (err e) = Unit

bind-Writes :
    {A : Type 0} (r : Result CodecError A) (f : A → Result CodecError (List ℕ))
    → ((a : A) → Writes (f a))
    → Writes (r >>= f)
bind-Writes (ok a) f h = h a
bind-Writes (err e) f h = tt

then-Writes :
    (r : Result CodecError (List ℕ)) (f : List ℕ → Result CodecError (List ℕ))
    → Writes r
    → ((bytes : List ℕ) → All IsByte bytes → Writes (f bytes))
    → Writes (r >>= f)
then-Writes (ok bytes) f w h = h bytes w
then-Writes (err e) f w h = tt

if-Writes :
    (b : Bool) (x y : Result CodecError (List ℕ))
    → Writes x
    → Writes y
    → Writes (if b then x else y)
if-Writes true x y hx hy = hx
if-Writes false x y hx hy = hy

number-Writes :
    (r : Result CodecError ℕ) (k : ℕ) (wire : ℕ → ℕ) → Writes (do n ← r; ok (le_bytes k (wire n)))
number-Writes r k wire = bind-Writes r _ (λ n. le_bytes-IsByte k (wire n))

encode_bool-Writes : (v : Value) → Writes (encode_bool v)
unfolding encode_bool
encode_bool-Writes (bool b) = le_bytes-IsByte 1 _
encode_bool-Writes _ = tt

encode_text-Writes :
    (write : List ℕ → List ℕ) (v : Value)
    → ((s : List ℕ) → All IsByte (write s))
    → Writes (encode_text write v)
unfolding encode_text
encode_text-Writes write (text s) h = h s
encode_text-Writes write _ h = tt

write_units-IsByte : (us : List ℕ) → All IsByte (write_units us)
unfolding write_units
write_units-IsByte [] = tt
write_units-IsByte (u ∷ us) =
    All-append IsByte (le_bytes 2 u) (write_units us) (le_bytes-IsByte 2 u) (write_units-IsByte us)

write_str-IsByte : (s : List ℕ) → All IsByte (write_str s)
unfolding write_str
write_str-IsByte s =
    let units = utf16_encode s in
    All-append IsByte (le_bytes 4 (length units)) (write_units units)
      (le_bytes-IsByte 4 (length units)) (write_units-IsByte units)

write_char_array-IsByte : (s : List ℕ) → All IsByte (write_char_array s)
unfolding write_char_array
write_char_array-IsByte s =
    All-append IsByte (write_units (utf16_encode s)) (le_bytes 2 0)
      (write_units-IsByte (utf16_encode s)) (le_bytes-IsByte 2 0)

module _ (fl : Floats) where
  encode_prim-Writes : (p : PrimType) (v : Value) → Writes (encode_prim fl p v)
  unfolding encode_prim
  encode_prim-Writes int32_prim v = number-Writes (to_int64 fl v) 4 (λ n. n % 2 ^ 32)
  encode_prim-Writes uint32_prim v = number-Writes (to_uint64 fl v) 4 (λ n. n % 2 ^ 32)
  encode_prim-Writes int64_prim v = number-Writes (to_int64 fl v) 8 (λ n. n)
  encode_prim-Writes uint64_prim v = number-Writes (to_uint64 fl v) 8 (λ n. n)
  encode_prim-Writes int16_prim v = number-Writes (to_int64 fl v) 2 (λ n. n % 2 ^ 16)
  encode_prim-Writes uint16_prim v = number-Writes (to_uint64 fl v) 2 (λ n. n % 2 ^ 16)
  encode_prim-Writes byte_prim v = number-Writes (to_uint64 fl v) 1 (λ n. n % 2 ^ 8)
  encode_prim-Writes sbyte_prim v = number-Writes (to_int64 fl v) 1 (λ n. n % 2 ^ 8)
  encode_prim-Writes boolean_prim v = encode_bool-Writes v
  encode_prim-Writes single_prim v = number-Writes (to_float64 fl v) 4 fl.narrow
  encode_prim-Writes double_prim v = number-Writes (to_float64 fl v) 8 (λ n. n)
  encode_prim-Writes string_prim v = encode_text-Writes write_str v write_str-IsByte
  encode_prim-Writes char_array_prim v =
      encode_text-Writes write_char_array v write_char_array-IsByte

encode_items-Writes :
    (enc : Value → Result CodecError (List ℕ)) (vs : Items)
    → ((v : Value) → Writes (enc v))
    → Writes (encode_items enc vs)
unfolding encode_items
encode_items-Writes enc end h = tt
encode_items-Writes enc (item v vs) h = then-Writes (enc v) _ (h v) (λ b hb.
    then-Writes (encode_items enc vs) _ (encode_items-Writes enc vs h)
      (λ bs hs. All-append IsByte b bs hb hs))

-- An encoder that writes bytes, whatever the type and the value.
abbrev WritesBytes : Encoder → Type 0
WritesBytes enc = (t : String) (v : Value) (owner fname : String) → Writes (enc t v owner fname)

encode_fields-Writes :
    (enc : Encoder) (owner : String) (fs : List Field) (vs : Values)
    → WritesBytes enc
    → Writes (encode_fields enc owner fs vs)
unfolding encode_fields
encode_fields-Writes enc owner [] vs h = tt
encode_fields-Writes enc owner (f ∷ fs) vs h = bind-Writes (required f.name (get f.name vs)) _ (λ v.
    then-Writes (enc f.type v owner f.name) _ (h f.type v owner f.name) (λ b hb.
      then-Writes (encode_fields enc owner fs vs) _ (encode_fields-Writes enc owner fs vs h)
        (λ bs hs. All-append IsByte b bs hb hs)))

opcode_bytes-IsByte : (b : Bool) (o : Option ℕ) → All IsByte (if b then opcode_bytes o else [])
opcode_bytes-IsByte true none = tt
opcode_bytes-IsByte true (some op) = le_bytes-IsByte 4 op
opcode_bytes-IsByte false o = tt

module _ (fl : Floats) (cat : Catalog) where
  encode_shape-Writes :
      (enc : Encoder) (s : Shape) → WritesBytes enc → WritesBytes (encode_shape fl cat enc s)
  unfolding encode_shape
  encode_shape-Writes enc (primitive p) h t v owner fname = encode_prim-Writes fl p v
  encode_shape-Writes enc (array elem) h t v owner fname =
      bind-Writes (known_size t (array_size cat owner fname)) _ (λ size.
        bind-Writes (as_items v) _ (λ vs.
          if-Writes (count vs == size) _ _
            (encode_items-Writes (λ x. enc elem x owner fname) vs (λ x. h elem x owner fname)) tt))
  encode_shape-Writes enc (list inner) h t v owner fname = bind-Writes (as_items v) _ (λ vs.
      then-Writes (encode_items (λ x. enc inner x owner fname) vs) _
        (encode_items-Writes (λ x. enc inner x owner fname) vs (λ x. h inner x owner fname))
        (λ bs hs.
          All-append IsByte (le_bytes 4 (count vs % 2 ^ 32)) bs
            (le_bytes-IsByte 4 (count vs % 2 ^ 32)) hs))
  encode_shape-Writes enc named h t v owner fname =
      bind-Writes (known_layout t (struct_layout cat t)) _ (λ layout.
        bind-Writes (as_fields v) _ (λ fields.
          then-Writes (encode_fields enc t layout fields) _
            (encode_fields-Writes enc t layout fields h)
            (λ bs hs.
              All-append IsByte
                (if is_message cat t then opcode_bytes (opcode_of cat (message_name t)) else []) bs
                (opcode_bytes-IsByte (is_message cat t) (opcode_of cat (message_name t))) hs)))

  encode_value-Writes : (fuel : ℕ) → WritesBytes (encode_value fl cat fuel)
  unfolding encode_value
  encode_value-Writes zero t v owner fname = tt
  encode_value-Writes (suc fuel) t v owner fname =
      encode_shape-Writes (encode_value fl cat fuel) (shape_of t) (encode_value-Writes fuel) t v
        owner fname

  -- Encode writes bytes, if it succeeds.
  pub encode-Writes : (fuel : ℕ) (name : String) (vs : Values) → Writes (encode fl cat fuel name vs)
  unfolding encode
  encode-Writes fuel name vs = bind-Writes (known_message name (lookup_name cat name)) _ (λ msg.
      then-Writes (encode_fields (encode_value fl cat fuel) (owner_of msg) msg.fields vs) _
        (encode_fields-Writes (encode_value fl cat fuel) (owner_of msg) msg.fields vs
          (encode_value-Writes fuel))
        (λ bs hs. All-append IsByte (le_bytes 4 msg.id) bs (le_bytes-IsByte 4 msg.id) hs))
