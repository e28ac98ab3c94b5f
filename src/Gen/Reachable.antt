-- ===== src/Gen/Reachable.antt =====
-- cmd/gen/main.go: the walk over the struct layouts that a field's type reaches.
pub mod Walk
pub mod Ends
use Prim.Native.String.{len, slice}
use text.Mathlib.Text.{starts_with}
use rom_server_poc.Prelude.{
  ℕ, zero, suc, ◌-◌, String, Bool, true, false, Option, none, some, List, [], ◌∷◌, if◌then◌else◌,
  leb,
}
use rom_server_poc.Prelude.Result.{Result, ok, err, ◌>>=◌}
use rom_server_poc.Protocol.Catalog.{Field, find_key, has_key}
use rom_server_poc.Protocol.Codec.{list_prefix, is_array}
use rom_server_poc.Gen.Classes.{GenError, slice_out_of_range, out_of_fuel, Layouts}

abbrev list_element : String → Result GenError String
list_element base =
    if starts_with base list_prefix
    then if leb (len list_prefix) (len base - 1)
      then ok (slice base (len list_prefix) (len base - 1))
      else err slice_out_of_range
    else ok base

-- The type without its "[]" and its List<…>.
unfoldable pub element_type : String → Result GenError String
unfolding is_array
element_type ftype = list_element (if is_array ftype then slice ftype 0 (len ftype - 2) else ftype)

-- `reachable`, the names set so far
abbrev pub Names : Type 0
Names = List String

abbrev pub Visit : Type 0
Visit = String → Names → Result GenError Names

unfoldable pub collect_fields : Visit → List Field → Names → Result GenError Names
collect_fields visit [] seen = ok seen
collect_fields visit (f ∷ fs) seen = visit f.type seen >>= collect_fields visit fs

-- The part after the type is stripped to `base`.
unfoldable pub collect_struct :
    Visit → String → Bool → Option (List Field) → Names → Result GenError Names
unfolding collect_fields
collect_struct visit base true layout seen = ok seen
collect_struct visit base false none seen = ok seen
collect_struct visit base false (some layout) seen = collect_fields visit layout (base ∷ seen)

unfoldable pub collect_reachable : ℕ → Layouts → Visit
unfolding element_type collect_struct has_key find_key
collect_reachable zero structs ftype seen = err out_of_fuel
collect_reachable (suc fuel) structs ftype seen = do
  base ← element_type ftype
  collect_struct (collect_reachable fuel structs) base (has_key base seen) (find_key base structs)
      seen
