-- ===== src/Protocol/Codec/Received.antt =====
-- What the peer is to see of a value: the description that the round trip is held to.
use rom_server_poc.Prelude.{
  ℕ, zero, suc, ◌<◌, ◌^◌, ◌≡◌, ◌≢◌, String, some, List, [], ◌∷◌, All, length, arith, str_eq, inl,
  inr, Bool-cases, subst,
}
use rom_server_poc.Prelude.Result.{Result, ok, err, ◌>>=◌}
use rom_server_poc.Protocol.Catalog.{Field, Catalog, struct_layout}
use rom_server_poc.Protocol.Value.{
  Value, nil_value, num, float32, float64, bool, text, items, values, plain, Items, end, item,
  Values, empty, entry, count, get, put,
}
use rom_server_poc.Protocol.Utf16.{utf16_encode, IsRune}
use rom_server_poc.Protocol.Primitives.{Floats, CodecError, out_of_fuel}
use rom_server_poc.Protocol.Primitives.RoundTrip.{received_prim}
use rom_server_poc.Protocol.Codec.{
  Shape, primitive, array, list, named, shape_of, required, as_items, as_fields, known_layout,
}

-- A text that both string types carry: runes other than 0, whose units 32 bits can count.
abbrev pub IsSendableText : List ℕ → Type 0
IsSendableText s = All IsRune s × All (λ r. r ≢ 0) s × (length (utf16_encode s) < 2 ^ 32)

-- A value whose numbers are 64-bit patterns, whose texts can be carried and whose lists 32 bits
-- can count, all through.
unfoldable mutual
  pub IsSendable : Value → Type 0
  IsSendable nil_value = Unit
  IsSendable (num kind n) = n < 2 ^ 64
  IsSendable (float32 f) = Unit
  IsSendable (float64 f) = f < 2 ^ 64
  IsSendable (bool b) = Unit
  IsSendable (text s) = IsSendableText s
  IsSendable (items vs) = (count vs < 2 ^ 32) × AreSendable vs
  IsSendable (values vs) = FieldsSendable vs
  IsSendable (plain vs) = FieldsSendable vs

  pub AreSendable : Items → Type 0
  AreSendable end = Unit
  AreSendable (item v vs) = IsSendable v × AreSendable vs

  pub FieldsSendable : Values → Type 0
  FieldsSendable empty = Unit
  FieldsSendable (entry k v vs) = IsSendable v × FieldsSendable vs

pub get-IsSendable :
    (k : String) (vs : Values) (v : Value) → FieldsSendable vs → get k vs ≡ some v → IsSendable v
unfolding get FieldsSendable
get-IsSendable k empty v h e = cc
get-IsSendable k (entry j w vs) v h e = elim (Bool-cases (str_eq j k)) [
  | inl same ↦ let found : w ≡ v = ground arith in subst IsSendable found h.0
  | inr other ↦ get-IsSendable k vs v h.1 (ground arith)
]

abbrev pub Receiver : Type 0
Receiver = String → Value → String → String → Result CodecError Value

unfoldable pub received_items : (Value → Result CodecError Value) → Items → Result CodecError Items
received_items rec end = ok end
received_items rec (item v vs) = do w ← rec v; ws ← received_items rec vs; ok (item w ws)

-- The declared fields, in the layout's order, put into `out`.
unfoldable pub received_fields :
    Receiver → String → List Field → Values → Values → Result CodecError Values
unfolding get put
received_fields rec owner [] vs out = ok out
received_fields rec owner (f ∷ fs) vs out = do
  v ← required f.name (get f.name vs)
  w ← rec f.type v owner f.name
  received_fields rec owner fs vs (put f.name w out)

module _ (fl : Floats) (cat : Catalog) where
  unfoldable pub received_shape : Receiver → Shape → Receiver
  unfolding received_items received_fields struct_layout
  received_shape rec (primitive p) ftype v owner fname = received_prim fl p v
  received_shape rec (array elem) ftype v owner fname = do
    vs ← as_items v
    ws ← received_items (λ x. rec elem x owner fname) vs
    ok (items ws)
  received_shape rec (list inner) ftype v owner fname = do
    vs ← as_items v
    ws ← received_items (λ x. rec inner x owner fname) vs
    ok (items ws)
  received_shape rec named ftype v owner fname = do
    layout ← known_layout ftype (struct_layout cat ftype)
    vs ← as_fields v
    ws ← received_fields rec ftype layout vs empty
    ok (values ws)

  unfoldable pub received_value : ℕ → Receiver
  unfolding received_shape
  received_value zero ftype v owner fname = err out_of_fuel
  received_value (suc fuel) ftype v owner fname =
      received_shape (received_value fuel) (shape_of ftype) ftype v owner fname
