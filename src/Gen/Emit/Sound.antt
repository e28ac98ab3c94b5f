-- ===== src/Gen/Emit/Sound.antt =====
-- cmd/gen/main.go: the emitted layouts against the structs that were found.
use mathlib.Core.List.{Memᴰ}
use mathlib.Core.List.Memᴰ
use rom_server_poc.Prelude.{
  ℕ, ◌≡◌, refl, sym, subst, ◌∙◌, inl, inr, String, true, false, some, List, [],
}
use rom_server_poc.Prelude.Result.{ok}
use rom_server_poc.Protocol.Catalog.{Field, Message, Catalog, find_key, has_key, struct_layout}
use rom_server_poc.Gen.Classes.{TypedMessage, DumpType, Layouts, Bases}
use rom_server_poc.Gen.Reachable.{element_type, Names}
use rom_server_poc.Gen.Reachable.Walk.{types_of, Covered, Met, Walked}
use rom_server_poc.Gen.Emit.{Resolved, emit, emit_message, sort_names}
use rom_server_poc.Gen.Emit.Sorted.{has_key-sort_names, find_key-emitted, has_key-emitted}
use rom_server_poc.Gen.Emit.Loop.{roots_of}
use rom_server_poc.Gen.Emit.Found.{Found, Memᴰ-roots_of, roots_of-Memᴰ, Laid, IsClosed, IsNeeded}

module _ (structs : Layouts) (rs : List Resolved) (reached : Names) (messages : List TypedMessage)
    (walked : Walked structs (roots_of rs) [] reached) where
  layout_emitted :
      (k : String) (layout : List Field)
      → has_key k reached ≡ true
      → find_key k structs ≡ some layout
      → struct_layout (emit rs structs reached messages) k ≡ some layout
  unfolding emit struct_layout
  layout_emitted k layout there found =
      find_key-emitted structs k layout (sort_names reached) (has_key-sort_names k reached ∙ there)
        found

  emitted_reached :
      (k : String) (layout : List Field)
      → struct_layout (emit rs structs reached messages) k ≡ some layout
      → has_key k reached ≡ true
  unfolding emit struct_layout
  emitted_reached k layout found =
      sym (has_key-sort_names k reached)
      ∙ has_key-emitted structs k layout (sort_names reached) found

unset : (k : String) → has_key k [] ≡ true → ⊥
unfolding has_key
unset k h = cc

unset_false : (k : String) → has_key k [] ≡ false
unfolding has_key
unset_false k = refl

module _ (fuel : ℕ) (messages : List TypedMessage) (dump : List DumpType) (bases : Bases)
    (cat : Catalog) (f : Found fuel messages dump bases cat) where
  open f use {structs, resolved, reached, walked}

  found_layout :
      (k : String) (layout : List Field)
      → struct_layout cat k ≡ some layout
      → has_key k reached ≡ true
  found_layout k layout h =
      emitted_reached structs resolved reached messages walked k layout
        (subst (λ c. struct_layout c k ≡ some layout) f.emitted h)

  emitted_layout :
      (k : String) (layout : List Field)
      → has_key k reached ≡ true
      → find_key k structs ≡ some layout
      → struct_layout cat k ≡ some layout
  emitted_layout k layout there found =
      subst (λ c. struct_layout c k ≡ some layout) (sym f.emitted)
        (layout_emitted structs resolved reached messages walked k layout there found)

  laid : (t : String) → Covered structs reached t → Laid structs cat t
  laid t covered base layout e found =
      emitted_layout base layout (covered base layout e found) found

  -- The struct behind an emitted layout.
  needed :
      (k : String) (layout : List Field)
      → struct_layout cat k ≡ some layout
      → (u : String) × Met structs (roots_of resolved) u
        × (element_type u ≡ ok k)
        × (find_key k structs ≡ some layout)
  needed k layout h =
      let there = found_layout k layout h in
      elim (walked.sound k there) [
        | inl before ↦ absurd (unset k before)
        | inr (u, l, met, e, found) ↦
            let emitted = emitted_layout k l there found in
            let same : l ≡ layout = cc in
            (u, met, e, subst (λ x. find_key k structs ≡ some x) same found)
      ]

  message_behind :
      (m : Message) → Memᴰ m cat.messages → (r : Resolved) × Memᴰ r resolved × (m ≡ emit_message r)
  unfolding emit
  message_behind m there =
      let (r, at, e) =
        Memᴰ.of_map emit_message resolved (subst (λ c. Memᴰ m c.messages) f.emitted there) in
      (r, at, sym e)

  message_of : (r : Resolved) → Memᴰ r resolved → Memᴰ (emit_message r) cat.messages
  unfolding emit
  message_of r at =
      subst (λ c. Memᴰ (emit_message r) c.messages) (sym f.emitted) (Memᴰ.map emit_message at)

  pub Found-IsClosed : IsClosed structs cat
  Found-IsClosed = (
    λ m there t at.
        let (r, behind, e) = message_behind m there in
        laid t (
          walked.covers t (
            Memᴰ-roots_of r resolved t behind
              (subst (λ (x : Message). Memᴰ t (types_of x.fields)) e at))),
    λ k layout h t at.
        let (u, met, e, found) = needed k layout h in
        laid t (walked.closed k layout (found_layout k layout h) (unset_false k) found t at),
  )

  pub Found-IsNeeded : IsNeeded structs cat
  Found-IsNeeded k layout h =
      let (u, (root, at, o), e, found) = needed k layout h in
      let (r, behind, there) = roots_of-Memᴰ resolved root at in
      (emit_message r, u, message_of r behind, (root, there, o), e, found)
