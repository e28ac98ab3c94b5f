-- ===== src/Protocol/Messages/Distinct.antt =====
-- The catalog's tables meet what the codec relies on: message layouts have their opcodes, and no
-- layout names a field twice.
use rom_server_poc.Prelude.{
  ℕ, ◌≡◌, refl, subst, inl, inr, Bool, true, false, not, ◌&&◌, Bool-cases, some, List, [], ◌∷◌,
  arith, eq_iff, str_eq, All, String,
}
use rom_server_poc.Protocol.Catalog.{Field, find_key, has_key, struct_layout, is_message, opcode_of}
use rom_server_poc.Protocol.Messages.{server_catalog}
use rom_server_poc.Protocol.Codec.{message_name}
use rom_server_poc.Protocol.Codec.Layers.{PrefixesKnown}
use rom_server_poc.Protocol.Zero.Complete.{DistinctNames, DistinctLayouts}

has_key-All :
    (P : String → Type 0) (key : String) (ks : List String)
    → has_key key ks ≡ true
    → All P ks
    → P key
unfolding has_key
has_key-All P key [] h all = absurd (ground arith)
has_key-All P key (k ∷ ks) h all = elim (Bool-cases (str_eq k key)) [
  | inl same ↦ subst P ((eq_iff k key).0 same) all.0
  | inr other ↦ has_key-All P key ks (ground arith) all.1
]

find_key-All {ℓ} :
    {A : Type ℓ} (P : A → Type 0) (key : String) (a : A) (entries : List (String × A))
    → find_key key entries ≡ some a
    → All (λ e. P e.1) entries
    → P a
unfolding find_key
find_key-All P key a [] h all = absurd (ground arith)
find_key-All P key a ((k, b) ∷ rest) h all = elim (Bool-cases (str_eq k key)) [
  | inl same ↦ let found : b ≡ a = ground arith in subst P found all.0
  | inr other ↦ find_key-All P key a rest (ground arith) all.1
]

abbrev absent : String → List Field → Bool
absent name [] = true
absent name (f ∷ fs) = not (str_eq name f.name) && absent name fs

abbrev pub distinct : List Field → Bool
distinct [] = true
distinct (f ∷ fs) = absent f.name fs && distinct fs

absent-All :
    (name : String) (fs : List Field)
    → absent name fs ≡ true
    → All (λ (g : Field). str_eq name g.name ≡ false) fs
absent-All name [] h = tt
absent-All name (f ∷ fs) h = (ground arith, absent-All name fs (ground arith))

pub distinct-DistinctNames : (fs : List Field) → distinct fs ≡ true → DistinctNames fs
distinct-DistinctNames [] h = tt
distinct-DistinctNames (f ∷ fs) h =
    (absent-All f.name fs (ground arith), distinct-DistinctNames fs (ground arith))

pub server_catalog-PrefixesKnown : PrefixesKnown server_catalog
unfolding is_message opcode_of
server_catalog-PrefixesKnown t h =
    has_key-All (λ k. (op : ℕ) × (opcode_of server_catalog (message_name k) ≡ some op)) t
      server_catalog.message_full_names h ((_, refl), tt)

abbrev all_distinct : List (String × List Field) → Bool
all_distinct [] = true
all_distinct ((k, fs) ∷ rest) = distinct fs && all_distinct rest

all_distinct-All :
    (entries : List (String × List Field))
    → all_distinct entries ≡ true
    → All (λ e. DistinctNames e.1) entries
all_distinct-All [] h = tt
all_distinct-All ((k, fs) ∷ rest) h =
    (distinct-DistinctNames fs (ground arith), all_distinct-All rest (ground arith))

pub server_catalog-DistinctLayouts : DistinctLayouts server_catalog
unfolding struct_layout
server_catalog-DistinctLayouts t layout h =
    find_key-All DistinctNames t layout server_catalog.structs h
      (all_distinct-All server_catalog.structs refl)
