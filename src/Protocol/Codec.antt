-- ===== src/Protocol/Codec.antt =====
-- internal/protocol/codec.go: encoding and decoding of values by the type strings of the catalog.
-- `fuel` bounds how deep types nest; Protocol.Zero.Complete says when it is enough.
pub mod Received
pub mod Layers
pub mod RoundTrip
pub mod Bytes
use Prim.Native.String.{◌++◌ as text_append, len, slice}
use rom_server_poc.Prelude.{
  ℕ, zero, suc, ◌-◌, ◌%◌, ◌^◌, String, Bool, true, false, ◌&&◌, Option, none, some, List, [], ◌∷◌,
  ◌++◌, ◌==◌, str_eq, if◌then◌else◌, ltb, leb, length, take, drop,
}
use rom_server_poc.Prelude.Bytes.{le_bytes, from_le}
use rom_server_poc.Prelude.Result.{Result, ok, err, ◌>>=◌}
use rom_server_poc.Protocol.Catalog.{
  Field, Message, Catalog, lookup, lookup_name, opcode_of, array_size, struct_layout, is_message,
}
use rom_server_poc.Protocol.Value.{
  Value, items, values, plain, Items, end, item, Values, empty, count, get, put,
}
use rom_server_poc.Protocol.Primitives.{
  Floats, CodecError, expected_items, expected_values, unknown_message, missing_field,
  unsized_array, wrong_count, cannot_encode, body_too_short, out_of_fuel, PrimType, prim_of,
  read_uint, encode_prim, decode_prim,
}

abbrev pub list_prefix : String
list_prefix = "System.Collections.Generic.List<"

-- The four kinds of type that the codec tells apart, in the order of its tests.
pub data Shape : Type 0 where
  primitive : PrimType → Shape
  array : String → Shape
  list : String → Shape
  named : Shape

-- `len(ftype) >= 2 && ftype[len(ftype)-2:] == "[]"`
unfoldable pub is_array : String → Bool
is_array t = leb 2 (len t) && str_eq (slice t (len t - 2) (len t)) "[]"

unfoldable pub is_list : String → Bool
is_list t = ltb (len list_prefix) (len t) && str_eq (slice t 0 (len list_prefix)) list_prefix

abbrev shape_else : String → Option PrimType → Shape
shape_else t (some p) = primitive p
shape_else t none =
    if is_array t
    then array (slice t 0 (len t - 2))
    else if is_list t
    then list (slice t (len list_prefix) (len t - 1))
    else named

unfoldable pub shape_of : String → Shape
unfolding prim_of is_array is_list
shape_of t = shape_else t (prim_of t)

-- A message's name, of the type that it is as an element: `ftype[len("Protocol."):]`.
abbrev pub message_name : String → String
message_name t = slice t 9 (len t)

abbrev pub owner_of : Message → String
owner_of msg = text_append "Protocol." msg.name

abbrev pub opcode_bytes : Option ℕ → List ℕ
opcode_bytes none = []
opcode_bytes (some op) = le_bytes 4 op

abbrev pub Encoder : Type 0
Encoder = String → Value → String → String → Result CodecError (List ℕ)

abbrev pub Decoder : Type 0
Decoder = String → String → String → List ℕ → Option (Value × List ℕ)

unfoldable pub encode_items :
    (Value → Result CodecError (List ℕ)) → Items → Result CodecError (List ℕ)
encode_items enc end = ok []
encode_items enc (item v vs) = do b ← enc v; bs ← encode_items enc vs; ok (b ++ bs)

abbrev pub required : String → Option Value → Result CodecError Value
required name none = err (missing_field name)
required name (some v) = ok v

-- The loop over a layout; every declared field must be present.
unfoldable pub encode_fields : Encoder → String → List Field → Values → Result CodecError (List ℕ)
unfolding get
encode_fields enc owner [] vs = ok []
encode_fields enc owner (f ∷ fs) vs = do
  v ← required f.name (get f.name vs)
  b ← enc f.type v owner f.name
  bs ← encode_fields enc owner fs vs
  ok (b ++ bs)

abbrev pub as_items : Value → Result CodecError Items
as_items (items vs) = ok vs
as_items _ = err expected_items

-- A `Values`, or a `map[string]any`.
abbrev pub as_fields : Value → Result CodecError Values
as_fields (values vs) = ok vs
as_fields (plain vs) = ok vs
as_fields _ = err expected_values

abbrev pub known_size : String → Option ℕ → Result CodecError ℕ
known_size t none = err (unsized_array t)
known_size t (some n) = ok n

abbrev pub known_layout : String → Option (List Field) → Result CodecError (List Field)
known_layout t none = err (cannot_encode t)
known_layout t (some layout) = ok layout

abbrev pub known_message : String → Option Message → Result CodecError Message
known_message name none = err (unknown_message name)
known_message name (some msg) = ok msg

module _ (fl : Floats) (cat : Catalog) where
  -- One call of encodeValue; `enc` is its recursive call.
  unfoldable pub encode_shape : Encoder → Shape → Encoder
  unfolding encode_prim encode_items encode_fields array_size struct_layout is_message opcode_of
  encode_shape enc (primitive p) ftype v owner fname = encode_prim fl p v
  encode_shape enc (array elem) ftype v owner fname = do
    size ← known_size ftype (array_size cat owner fname)
    vs ← as_items v
    if count vs == size
        then encode_items (λ x. enc elem x owner fname) vs
        else err (wrong_count size (count vs))
  encode_shape enc (list inner) ftype v owner fname = do
    vs ← as_items v
    bs ← encode_items (λ x. enc inner x owner fname) vs
    ok (le_bytes 4 (count vs % 2 ^ 32) ++ bs)
  encode_shape enc named ftype v owner fname = do
    layout ← known_layout ftype (struct_layout cat ftype)
    let prefix : List ℕ =
        (if is_message cat ftype then opcode_bytes (opcode_of cat (message_name ftype)) else [])
    fields ← as_fields v
    bs ← encode_fields enc ftype layout fields
    ok (prefix ++ bs)

  unfoldable pub encode_value : ℕ → Encoder
  unfolding encode_shape shape_of
  encode_value zero ftype v owner fname = err out_of_fuel
  encode_value (suc fuel) ftype v owner fname =
      encode_shape (encode_value fuel) (shape_of ftype) ftype v owner fname

  abbrev pub encode_message : ℕ → Values → Message → Result CodecError (List ℕ)
  encode_message fuel vs msg = do
    bs ← encode_fields (encode_value fuel) (owner_of msg) msg.fields vs
    ok (le_bytes 4 msg.id ++ bs)

  unfoldable pub encode : ℕ → String → Values → Result CodecError (List ℕ)
  unfolding encode_value encode_fields lookup_name
  encode fuel name vs = do
    msg ← known_message name (lookup_name cat name)
    encode_message fuel vs msg

-- A step of the reader: `none` is errStop.
infixl 5 ◌>>?◌
abbrev pub ◌>>?◌ {ℓ} : {A B : Type ℓ} → Option A → (A → Option B) → Option B
none >>? f = none
some a >>? f = f a

-- The elements of an array or a list, `n` times.
unfoldable pub decode_items :
    ℕ → (List ℕ → Option (Value × List ℕ)) → List ℕ → Option (Items × List ℕ)
decode_items zero dec buf = some (end, buf)
decode_items (suc n) dec buf =
    dec buf >>? (λ (v, rest). decode_items n dec rest >>? (λ (vs, rest'). some (item v vs, rest')))

-- The fields of a struct, put into `out`.
unfoldable pub decode_fields :
    Decoder → String → List Field → Values → List ℕ → Option (Values × List ℕ)
unfolding put
decode_fields dec owner [] out buf = some (out, buf)
decode_fields dec owner (f ∷ fs) out buf =
    dec f.type owner f.name buf
    >>? (λ (v, rest). decode_fields dec owner fs (put f.name v out) rest)

-- The fields of a message: the loop stops before the first field that fails, whose bytes and all
-- behind them are the tail.
unfoldable pub decode_message_fields :
    Decoder → String → List Field → Values → List ℕ → Values × List ℕ
unfolding put
decode_message_fields dec owner [] out buf = (out, buf)
decode_message_fields dec owner (f ∷ fs) out buf = elim (dec f.type owner f.name buf) [
  | none ↦ (out, buf)
  | some (v, rest) ↦ decode_message_fields dec owner fs (put f.name v out) rest
]

-- The opcode of an element that is a message is consumed.
abbrev pub skip_opcode : Bool → List ℕ → Option (List ℕ)
skip_opcode false buf = some buf
skip_opcode true buf = read_uint 4 buf >>? (λ (_, rest). some rest)

pub record Decoded : Type 0 where
  pub message : Option Message
  pub fields : Values
  pub tail : List ℕ

module _ (fl : Floats) (cat : Catalog) where
  -- One call of decodeValue; `dec` is its recursive call.
  unfoldable pub decode_shape : Decoder → Shape → Decoder
  unfolding decode_prim decode_items decode_fields read_uint array_size struct_layout is_message
  decode_shape dec (primitive p) ftype owner fname buf = decode_prim fl p buf
  decode_shape dec (array elem) ftype owner fname buf =
      array_size cat owner fname
      >>? (λ size. decode_items size (dec elem owner fname) buf)
      >>? (λ (vs, rest). some (items vs, rest))
  decode_shape dec (list inner) ftype owner fname buf =
      read_uint 4 buf
      >>? (λ (n, rest). decode_items n (dec inner owner fname) rest)
      >>? (λ (vs, rest). some (items vs, rest))
  decode_shape dec named ftype owner fname buf =
      struct_layout cat ftype
      >>? (λ layout.
          skip_opcode (is_message cat ftype) buf
          >>? (λ rest. decode_fields dec ftype layout empty rest))
      >>? (λ (vs, rest). some (values vs, rest))

  unfoldable pub decode_value : ℕ → Decoder
  unfolding decode_shape shape_of
  decode_value zero ftype owner fname buf = none
  decode_value (suc fuel) ftype owner fname buf =
      decode_shape (decode_value fuel) (shape_of ftype) ftype owner fname buf

  unfoldable pub decode_known : ℕ → Option Message → List ℕ → Decoded
  unfolding decode_message_fields decode_value
  decode_known fuel none buf = record { message = none; fields = empty; tail = buf }
  decode_known fuel (some msg) buf =
      let (vs, rest) =
        decode_message_fields (decode_value fuel) (owner_of msg) msg.fields empty buf in
      record { message = some msg; fields = vs; tail = rest }

  unfoldable pub decode : ℕ → List ℕ → Result CodecError Decoded
  unfolding decode_known lookup
  decode fuel body =
      if ltb (length body) 4
      then err (body_too_short (length body))
      else ok (decode_known fuel (lookup cat (from_le (take 4 body))) (drop 4 body))
