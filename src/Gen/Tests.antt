-- ===== src/Gen/Tests.antt =====
-- A catalog of two messages, one of them with a base class and an element that is a message.
use rom_server_poc.Prelude.{
  ℕ, ◌<◌, ◌≡◌, ◌≢◌, ◌⊎◌, refl, List, [], ◌∷◌, String, true, false, some, str_eq, eq_iff,
  if◌then◌else◌, arith, ap, subst, inl, inr, Bool-cases,
}
use rom_server_poc.Prelude.Result.{ok}
use rom_server_poc.Protocol.Catalog.{field, Catalog, find_key}
use rom_server_poc.Protocol.Messages.{server_catalog}
use rom_server_poc.Protocol.Codec.Layers.{PrefixesKnown}
use rom_server_poc.Gen.Classes.{
  TypedMessage, DumpType, DumpField, Bases, Layouts, layout_of, load_own, own_fields,
  message_fields, full_name, build_structs,
}
use rom_server_poc.Gen.Classes.Inherit.{Descends, layout_of_inherits}
use rom_server_poc.Gen.Emit.{generate}
use rom_server_poc.Gen.Emit.Found.{IsClosed, IsNeeded}
use rom_server_poc.Gen.Emit.Whole.{generate_exact, generate-PrefixesKnown}
use rom_server_poc.Gen.Emit.Returns.{generate_returns, Panics}

abbrev dumped : String → String → DumpField
dumped name type = record { name = name; type = type; is_static = false }

abbrev sample_dump : List DumpType
sample_dump =
    record { full = "Protocol.Base"; fields = dumped "m_oid" "System.UInt32" ∷ [] }
    ∷ record {
      full = "Protocol.Move";
      fields =
          record { name = "__ID__"; type = "System.Int32"; is_static = true }
          ∷ dumped "m_to" "Protocol.Point"
          ∷ [];
    }
    ∷ record { full = "Protocol.Point"; fields = dumped "m_x" "System.Single" ∷ [] }
    ∷ record { full = "Protocol.Unused"; fields = dumped "m_x" "System.Single" ∷ [] }
    ∷ record { full = "Protocol.Broken"; fields = dumped "m_x" "" ∷ [] }
    ∷ []

abbrev sample_bases : Bases
sample_bases = ("Protocol.Move", "Protocol.Base") ∷ ("Protocol.Base", "") ∷ []

abbrev sample_messages : List TypedMessage
sample_messages =
    record { name = "Move"; dir = "S2C"; id = 7; fields = field "m_to" "Protocol.Point" ∷ [] }
    ∷ record {
      name = "Moves";
      dir = "S2C";
      id = 8;
      fields = field "m_list" "System.Collections.Generic.List<Protocol.Move>" ∷ [];
    }
    ∷ []

abbrev sample_catalog : Catalog
sample_catalog = record {
  messages =
      record {
        name = "Move";
        dir = "S2C";
        id = 7;
        fields = field "m_oid" "System.UInt32" ∷ field "m_to" "Protocol.Point" ∷ [];
      }
      ∷ record {
        name = "Moves";
        dir = "S2C";
        id = 8;
        fields = field "m_list" "System.Collections.Generic.List<Protocol.Move>" ∷ [];
      }
      ∷ [];
  structs =
      ("Protocol.Move", field "m_oid" "System.UInt32" ∷ field "m_to" "Protocol.Point" ∷ [])
      ∷ ("Protocol.Point", field "m_x" "System.Single" ∷ [])
      ∷ [];
  fixed_arrays = server_catalog.fixed_arrays;
  message_full_names = "Protocol.Move" ∷ [];
}

generate_sample : generate 4 sample_messages sample_dump sample_bases ≡ ok sample_catalog
unfolding generate
generate_sample = refl

sample_rank : String → ℕ
sample_rank c = if str_eq c "Protocol.Move" then 2 else if str_eq c "Protocol.Base" then 1 else 0

below_move :
    (base : String)
    → some "Protocol.Base" ≡ some base
    → sample_rank base < sample_rank "Protocol.Move"
unfolding sample_rank
below_move base e =
    let same : "Protocol.Base" ≡ base = cc in
    subst (λ b. sample_rank b < sample_rank "Protocol.Move") same (omega arith)

below_base : (base : String) → some "" ≡ some base → sample_rank base < sample_rank "Protocol.Base"
unfolding sample_rank
below_base base e =
    let same : "" ≡ base = cc in
    subst (λ b. sample_rank b < sample_rank "Protocol.Base") same (omega arith)

sample_bases-Descends : Descends sample_rank sample_bases
unfolding find_key
sample_bases-Descends c base found = elim (Bool-cases (str_eq "Protocol.Move" c)) [
  | inl move ↦
      subst (λ x. (b : String) → find_key x sample_bases ≡ some b → sample_rank b < sample_rank x)
        ((eq_iff "Protocol.Move" c).0 move) below_move base found
  | inr other_class ↦ elim (Bool-cases (str_eq "Protocol.Base" c)) [
    | inl root ↦
        subst (λ x. (b : String) → find_key x sample_bases ≡ some b → sample_rank b < sample_rank x)
          ((eq_iff "Protocol.Base" c).0 root) below_base base found
    | inr nothing ↦ absurd (ground (arith, found, other_class, nothing))
  ]
]

base_named : ◌≢◌ {A = String} "Protocol.Base" ""
base_named e = let h : false ≡ true = ap (λ s. str_eq s "") e in cc

base_laid :
    layout_of 2 (load_own sample_dump) sample_bases "Protocol.Base"
    ≡ ok (field "m_oid" "System.UInt32" ∷ [])
unfolding layout_of load_own
base_laid = refl

sample_rank-lt : (c : String) → sample_rank c < 4
unfolding sample_rank
sample_rank-lt c = ground arith

generate_exact_example :
    (structs : Layouts) × (build_structs 4 (load_own sample_dump) sample_bases ≡ ok structs)
    × IsClosed structs sample_catalog
    × IsNeeded structs sample_catalog
generate_exact_example =
    generate_exact 4 sample_messages sample_dump sample_bases sample_catalog generate_sample

generate-PrefixesKnown_example : PrefixesKnown sample_catalog
generate-PrefixesKnown_example =
    generate-PrefixesKnown 4 sample_messages sample_dump sample_bases sample_catalog generate_sample

generate_returns_example :
    ((cat : Catalog) × (generate 4 sample_messages sample_dump sample_bases ≡ ok cat))
    ⊎ Panics 4 sample_messages sample_dump sample_bases
generate_returns_example =
    generate_returns sample_rank 4 sample_messages sample_dump sample_bases sample_bases-Descends
      sample_rank-lt

layout_of_inherits_example :
    ((c : String)
      → c ≢ ""
      → find_key c sample_bases ≡ some "Protocol.Base"
      → layout_of 3 (load_own sample_dump) sample_bases c
        ≡ ok (field "m_oid" "System.UInt32" ∷ own_fields (load_own sample_dump) c))
    × ((m : TypedMessage)
        → find_key (full_name m) sample_bases ≡ some "Protocol.Base"
        → message_fields 3 m sample_bases (load_own sample_dump)
          ≡ ok (field "m_oid" "System.UInt32" ∷ m.fields))
layout_of_inherits_example =
    layout_of_inherits 2 (load_own sample_dump) sample_bases "Protocol.Base"
      (field "m_oid" "System.UInt32" ∷ []) base_named base_laid
