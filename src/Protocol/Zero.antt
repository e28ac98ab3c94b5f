-- ===== src/Protocol/Zero.antt =====
-- internal/protocol/zero.go: values with every field at its type's zero.
pub mod Complete
use rom_server_poc.Prelude.{ℕ, zero, suc, String, Bool, false, Option, none, some, List, [], ◌∷◌}
use rom_server_poc.Prelude.Result.{Result, ok, err, ◌>>=◌}
use rom_server_poc.Protocol.Catalog.{
  Field, Message, Catalog, lookup_name, array_size, struct_layout,
}
use rom_server_poc.Protocol.Value.{
  Value, num, int64, uint64, float64, bool, text, items, values, Items, end, item, Values, empty,
  put,
}
use rom_server_poc.Protocol.Primitives.{
  CodecError, cannot_zero, out_of_fuel, PrimType, int32_prim, uint32_prim, int64_prim, uint64_prim,
  int16_prim, uint16_prim, byte_prim, sbyte_prim, boolean_prim, single_prim, double_prim,
  string_prim, char_array_prim,
}
use rom_server_poc.Protocol.Codec.{
  Shape, primitive, array, list, named, shape_of, known_size, known_message, owner_of,
}

-- The cases of the type switch.
unfoldable pub zero_prim : PrimType → Value
zero_prim int32_prim = num int64 0
zero_prim int64_prim = num int64 0
zero_prim int16_prim = num int64 0
zero_prim sbyte_prim = num int64 0
zero_prim uint32_prim = num uint64 0
zero_prim uint64_prim = num uint64 0
zero_prim uint16_prim = num uint64 0
zero_prim byte_prim = num uint64 0
zero_prim single_prim = float64 0
zero_prim double_prim = float64 0
zero_prim boolean_prim = bool false
zero_prim string_prim = text []
zero_prim char_array_prim = text []

abbrev pub Maker : Type 0
Maker = String → String → String → Result CodecError Value

-- `out[i] = v`, `n` times.
unfoldable pub zero_items : ℕ → Result CodecError Value → Result CodecError Items
zero_items zero make = ok end
zero_items (suc n) make = do v ← make; vs ← zero_items n make; ok (item v vs)

-- The fields of a layout, put into `out`.
unfoldable pub zero_fields : Maker → String → List Field → Values → Result CodecError Values
unfolding put
zero_fields make owner [] out = ok out
zero_fields make owner (f ∷ fs) out = do
  v ← make f.type owner f.name
  zero_fields make owner fs (put f.name v out)

abbrev pub layout_to_zero : String → Option (List Field) → Result CodecError (List Field)
layout_to_zero t none = err (cannot_zero t)
layout_to_zero t (some layout) = ok layout

module _ (cat : Catalog) where
  -- One call of zeroValue; `make` is its recursive call.
  unfoldable pub zero_shape : Maker → Shape → Maker
  unfolding zero_prim zero_items zero_fields array_size struct_layout
  zero_shape make (primitive p) ftype owner fname = ok (zero_prim p)
  zero_shape make (array elem) ftype owner fname = do
    size ← known_size ftype (array_size cat owner fname)
    vs ← zero_items size (make elem owner fname)
    ok (items vs)
  zero_shape make (list inner) ftype owner fname = ok (items end)
  zero_shape make named ftype owner fname = do
    layout ← layout_to_zero ftype (struct_layout cat ftype)
    vs ← zero_fields make ftype layout empty
    ok (values vs)

  unfoldable pub zero_value : ℕ → Maker
  unfolding zero_shape shape_of
  zero_value zero ftype owner fname = err out_of_fuel
  zero_value (suc fuel) ftype owner fname =
      zero_shape (zero_value fuel) (shape_of ftype) ftype owner fname

  unfoldable pub zero_values : ℕ → String → Result CodecError Values
  unfolding zero_value zero_fields lookup_name
  zero_values fuel name = do
    msg ← known_message name (lookup_name cat name)
    zero_fields (zero_value fuel) (owner_of msg) msg.fields empty
