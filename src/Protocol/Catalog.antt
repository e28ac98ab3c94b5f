-- ===== src/Protocol/Catalog.antt =====
-- internal/protocol/catalog.go: the catalog's types and its lookups. The tables of catalog_gen.go
-- are a value of `Catalog`; a Go map is the list of its entries.
use Prim.Native.String.{◌++◌ as text_append}
use rom_server_poc.Prelude.{
  ℕ, String, Bool, true, false, Option, none, some, List, [], ◌∷◌, ◌==◌, str_eq, if◌then◌else◌,
}

pub record Field : Type 0 where
  pub name : String
  pub type : String

abbrev pub field : String → String → Field
field name type = record { name = name; type = type }

pub record Message : Type 0 where
  pub name : String
  pub dir : String
  pub id : ℕ
  pub fields : List Field

pub record Catalog : Type 0 where
  pub messages : List Message
  pub structs : List (String × List Field)
  pub fixed_arrays : List (String × ℕ)
  pub message_full_names : List String

-- `messages[opcode]`, of the map from opcodes.
pub find_opcode : ℕ → List Message → Option Message
find_opcode opcode [] = none
find_opcode opcode (m ∷ ms) = if m.id == opcode then some m else find_opcode opcode ms

unfoldable pub find_name : String → List Message → Option Message
find_name name [] = none
find_name name (m ∷ ms) = if str_eq m.name name then some m else find_name name ms

unfoldable pub lookup : Catalog → ℕ → Option Message
unfolding find_opcode
lookup cat opcode = find_opcode opcode cat.messages

-- `byName[name]`
unfoldable pub lookup_name : Catalog → String → Option Message
unfolding find_name
lookup_name cat name = find_name name cat.messages

abbrev id_of : Option Message → Option ℕ
id_of none = none
id_of (some m) = some m.id

unfoldable pub opcode_of : Catalog → String → Option ℕ
unfolding lookup_name
opcode_of cat name = id_of (lookup_name cat name)

-- A map from texts.
unfoldable pub find_key {ℓ} : {A : Type ℓ} → String → List (String × A) → Option A
find_key key [] = none
find_key key ((k, a) ∷ rest) = if str_eq k key then some a else find_key key rest

unfoldable pub has_key : String → List String → Bool
has_key key [] = false
has_key key (k ∷ rest) = if str_eq k key then true else has_key key rest

-- `fixedArrays[owner+"|"+fname]`
unfoldable pub array_size : Catalog → String → String → Option ℕ
unfolding find_key
array_size cat owner fname = find_key (text_append owner (text_append "|" fname)) cat.fixed_arrays

-- `structs[ftype]`
unfoldable pub struct_layout : Catalog → String → Option (List Field)
unfolding find_key
struct_layout cat ftype = find_key ftype cat.structs

-- `messageFullNames[ftype]`
unfoldable pub is_message : Catalog → String → Bool
unfolding has_key
is_message cat ftype = has_key ftype cat.message_full_names
