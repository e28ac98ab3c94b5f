-- ===== src/Gen/Emit.antt =====
-- cmd/gen/main.go: from the inputs to the catalog that the emitted file declares. Writing the file
-- and formatting it are left out: the catalog is the value of the declarations.
pub mod Sorted
pub mod Loop
pub mod Found
pub mod Sound
pub mod Whole
pub mod Returns
use Prim.Native.String.{compare}
use text.Mathlib.Text.{is_le}
use rom_server_poc.Prelude.{
  ℕ, suc, ◌%◌, ◌^◌, String, Bool, Option, none, some, List, [], ◌∷◌, ◌++◌, map, if◌then◌else◌,
  length,
}
use rom_server_poc.Prelude.Result.{Result, ok, ◌>>=◌}
use rom_server_poc.Protocol.Catalog.{Field, Message, Catalog, find_key, has_key}
use rom_server_poc.Gen.Classes.{
  TypedMessage, DumpType, GenError, Layouts, Bases, load_own, build_structs, message_fields,
  full_name,
}
use rom_server_poc.Gen.Reachable.{Names, collect_fields, collect_reachable}

pub record Resolved : Type 0 where
  pub msg : TypedMessage
  pub fields : List Field

abbrev pub fixed_arrays : List (String × ℕ)
fixed_arrays =
    ("Protocol.ItemOptions|m_optionIndex", 10)
    ∷ ("Protocol.AbilityValue|m_data", 249)
    ∷ ("Protocol.S2C_ContentsSetting|m_levelLimits", 10)
    ∷ ("Protocol.S2C_ContentsSetting|m_values", 3)
    ∷ ("Protocol.S2C_EquipList|m_usePresetSlot", 2)
    ∷ ("Protocol.S2C_EquipList|m_equipItemList", 2)
    ∷ ("Protocol.S2C_EquipList|m_equipCostume", 2)
    ∷ ("Protocol.S2C_EquipList|m_equipPet", 2)
    ∷ ("Protocol.S2C_EquipList|m_monolithEquipItemList", 2)
    ∷ []

abbrev pub visit_structs : Layouts → String → Names → Result GenError Names
visit_structs structs = collect_reachable (suc (length structs)) structs

-- The loop over the messages, with `out` and `reachable` in its state. A walk gets one unit of fuel
-- more than there are structs.
unfoldable pub resolve_messages :
    (TypedMessage → Result GenError (List Field))
    → (String → Names → Result GenError Names)
    → List TypedMessage
    → List Resolved
    → Names
    → Result GenError (List Resolved × Names)
unfolding collect_fields
resolve_messages layout visit [] out reachable = ok (out, reachable)
resolve_messages layout visit (m ∷ ms) out reachable = do
  full ← layout m
  reachable' ← collect_fields visit full reachable
  resolve_messages layout visit ms (out ++ record { msg = m; fields = full } ∷ []) reachable'

-- sort.Strings: the order of UTF-8 bytes is that of code points.
unfoldable pub insert_name : String → List String → List String
insert_name x [] = x ∷ []
insert_name x (y ∷ ys) = if is_le (compare x y) then x ∷ y ∷ ys else y ∷ insert_name x ys

unfoldable pub sort_names : List String → List String
unfolding insert_name
sort_names [] = []
sort_names (x ∷ xs) = insert_name x (sort_names xs)

abbrev or_zero : Option ℕ → ℕ
or_zero none = 0
or_zero (some n) = n

abbrev or_empty : Option (List Field) → List Field
or_empty none = []
or_empty (some fs) = fs

unfoldable pub keys {ℓ} : {A : Type ℓ} → List (String × A) → List String
keys [] = []
keys ((k, _) ∷ rest) = k ∷ keys rest

-- The reachable names that are messages' full names.
unfoldable pub keep_names : List String → List String → List String
unfolding has_key
keep_names full [] = []
keep_names full (x ∷ xs) = if has_key x full then x ∷ keep_names full xs else keep_names full xs

abbrev pub emit_message : Resolved → Message
emit_message r = record {
  name = r.msg.name;
  dir = r.msg.dir;
  id = r.msg.id % 2 ^ 32;
  fields = r.fields;
}

abbrev pub emit_struct : Layouts → String → String × List Field
emit_struct structs name = (name, or_empty (find_key name structs))

unfoldable pub emit : List Resolved → Layouts → Names → List TypedMessage → Catalog
unfolding sort_names find_key keys keep_names
emit resolved structs reachable messages = record {
  messages = map emit_message resolved;
  structs = map (emit_struct structs) (sort_names reachable);
  fixed_arrays = map (λ k. (k, or_zero (find_key k fixed_arrays))) (sort_names (keys fixed_arrays));
  message_full_names = sort_names (keep_names (map full_name messages) reachable);
}

abbrev pub emit_from : Layouts → List TypedMessage → List Resolved × Names → Catalog
emit_from structs messages (resolved, reachable) = emit resolved structs reachable messages

-- `main`, on the decoded files. `fuel` bounds the length of a chain of classes.
unfoldable pub generate : ℕ → List TypedMessage → List DumpType → Bases → Result GenError Catalog
unfolding load_own build_structs message_fields collect_reachable resolve_messages emit
generate fuel messages dump bases = do
  let own = load_own dump
  structs ← build_structs fuel own bases
  found ←
      resolve_messages (λ m. message_fields fuel m bases own) (visit_structs structs) messages [] []
  ok (emit_from structs messages found)
