-- ===== src/Gen/Classes.antt =====
-- cmd/gen/main.go: the dumped classes, their chains of base classes, and the flattened field lists.
pub mod Inherit
use Prim.Native.String.{◌++◌ as text_append}
use mathlib.Core.List.{foldl, reverse}
use rom_server_poc.Prelude.{
  ℕ, zero, suc, String, Bool, true, false, Option, none, some, List, [], ◌∷◌, ◌++◌, str_eq,
  if◌then◌else◌, ltb, length, drop,
}
use rom_server_poc.Prelude.Result.{Result, ok, err, ◌>>=◌}
use rom_server_poc.Protocol.Catalog.{Field, field, find_key}

-- `id` is the bit pattern of an int64.
pub record TypedMessage : Type 0 where
  pub name : String
  pub dir : String
  pub id : ℕ
  pub fields : List Field

pub record DumpField : Type 0 where
  pub name : String
  pub type : String
  pub is_static : Bool

pub record DumpType : Type 0 where
  pub full : String
  pub fields : List DumpField

-- A slice expression out of range panics; `out_of_fuel` is a loop that has not ended.
pub data GenError : Type 0 where
  slice_out_of_range out_of_fuel : GenError

abbrev pub Layouts : Type 0
Layouts = List (String × List Field)

abbrev pub Bases : Type 0
Bases = List (String × String)

-- `m[key] = a`
unfoldable pub set_key {ℓ} : {A : Type ℓ} → String → A → List (String × A) → List (String × A)
set_key key a [] = (key, a) ∷ []
set_key key a ((k, b) ∷ rest) = if str_eq k key then (k, a) ∷ rest else (k, b) ∷ set_key key a rest

abbrev pub extra_base_fields : Layouts
extra_base_fields = ("Network.IBSerializableList", field "__state__" "System.Byte" ∷ []) ∷ []

abbrev keep_field : DumpField → Option (List Field) → Option (List Field)
keep_field f none = none
keep_field f (some fields) = some (if f.is_static then fields else field f.name f.type ∷ fields)

-- The loop over one type's fields: none where a field has no type.
unfoldable pub typed_fields : List DumpField → Option (List Field)
typed_fields [] = some []
typed_fields (f ∷ fs) = if str_eq f.type "" then none else keep_field f (typed_fields fs)

abbrev add_fields : String → Option (List Field) → Layouts → Layouts
add_fields full none own = own
add_fields full (some fields) own = set_key full fields own

abbrev add_dumped : String → List DumpField → Layouts → Layouts
add_dumped full [] own = own
add_dumped full (f ∷ fs) own = add_fields full (typed_fields (f ∷ fs)) own

unfoldable pub load_own : List DumpType → Layouts
unfolding set_key typed_fields
load_own types =
    foldl (λ own e. set_key e.0 e.1 own)
      (foldl (λ own (t : DumpType). add_dumped t.full t.fields own) [] types) extra_base_fields

-- `own[name]`, which is empty on a missing name
abbrev or_empty : Option (List Field) → List Field
or_empty none = []
or_empty (some fields) = fields

unfoldable pub own_fields : Layouts → String → List Field
unfolding find_key
own_fields own name = or_empty (find_key name own)

abbrev chain_step :
    (String → Result GenError (List String))
    → String
    → Option String
    → Result GenError (List String)
chain_step rec cur none = ok (if str_eq cur "" then [] else cur ∷ [])
chain_step rec cur (some next) = rec next >>= λ out. ok (cur ∷ out)

-- A class, its base, and so on up to the root.
unfoldable pub chain : ℕ → String → Bases → Result GenError (List String)
unfolding find_key
chain zero cur bases = err out_of_fuel
chain (suc fuel) cur bases = chain_step (λ next. chain fuel next bases) cur (find_key cur bases)

-- The loop from the last class to the first, each appended to what is there.
unfoldable pub fields_of : List String → Layouts → List Field
unfolding own_fields
fields_of classes own = foldl (λ fields c. fields ++ own_fields own c) [] (reverse classes)

abbrev pub fallback : List Field → List Field → List Field
fallback [] other = other
fallback (f ∷ fs) other = f ∷ fs

-- One round of buildStructs.
unfoldable pub layout_of : ℕ → Layouts → Bases → String → Result GenError (List Field)
unfolding chain fields_of
layout_of fuel own bases name = do
  classes ← chain fuel name bases
  ok (fallback (fields_of classes own) (own_fields own name))

unfoldable pub build_from :
    (String → Result GenError (List Field)) → Layouts → Result GenError Layouts
build_from layout [] = ok []
build_from layout ((name, _) ∷ rest) = do
  fields ← layout name
  structs ← build_from layout rest
  ok ((name, fields) ∷ structs)

unfoldable pub build_structs : ℕ → Layouts → Bases → Result GenError Layouts
unfolding layout_of build_from
build_structs fuel own bases = build_from (layout_of fuel own bases) own

abbrev pub full_name : TypedMessage → String
full_name m = text_append "Protocol." m.name

unfoldable pub message_fields : ℕ → TypedMessage → Bases → Layouts → Result GenError (List Field)
unfolding chain fields_of
message_fields fuel m bases own = do
  classes ← chain fuel (full_name m) bases
  let prefix = if ltb 1 (length classes) then fields_of (drop 1 classes) own else []
  ok (prefix ++ m.fields)
