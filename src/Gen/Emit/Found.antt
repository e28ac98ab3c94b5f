-- ===== src/Gen/Emit/Found.antt =====
-- cmd/gen/main.go: what main has found when it emits the catalog.
use mathlib.Core.List.{Memᴰ}
use mathlib.Core.List.Memᴰ
use rom_server_poc.Prelude.{ℕ, ◌≡◌, refl, sym, subst, inl, inr, String, some, List, [], ◌∷◌}
use rom_server_poc.Prelude.Result.{Result, ok, >>=-eq-ok}
use rom_server_poc.Protocol.Catalog.{Field, Message, Catalog, find_key, struct_layout}
use rom_server_poc.Gen.Classes.{
  TypedMessage, DumpType, GenError, Layouts, Bases, load_own, build_structs, message_fields,
}
use rom_server_poc.Gen.Reachable.{element_type, Names}
use rom_server_poc.Gen.Reachable.Walk.{types_of, Met, Walked}
use rom_server_poc.Gen.Emit.{Resolved, visit_structs, resolve_messages, emit, generate}
use rom_server_poc.Gen.Emit.Loop.{roots_of, msgs_of, LoopEnds, resolve_messages-LoopEnds}

-- What `main` has at hand when it emits.
pub record Found (fuel : ℕ) (messages : List TypedMessage) (dump : List DumpType) (bases : Bases)
    (cat : Catalog) : Type 0 where
  pub structs : Layouts
  pub resolved : List Resolved
  pub reached : Names
  pub built : build_structs fuel (load_own dump) bases ≡ ok structs
  pub walked : Walked structs (roots_of resolved) [] reached
  pub msgs : msgs_of resolved ≡ messages
  pub emitted : cat ≡ emit resolved structs reached messages

module _ (fuel : ℕ) (messages : List TypedMessage) (dump : List DumpType) (bases : Bases) where
  unfoldable pub loop : Layouts → Result GenError (List Resolved × Names)
  loop structs =
      resolve_messages (λ m. message_fields fuel m bases (load_own dump)) (visit_structs structs)
        messages [] []

  pub loop_ends :
      (structs : Layouts)
      → LoopEnds structs
          (λ m. message_fields fuel m bases (load_own dump))
          messages
          []
          []
          (loop structs)
  unfolding loop
  loop_ends structs =
      resolve_messages-LoopEnds structs (λ m. message_fields fuel m bases (load_own dump)) messages
        [] []

  pub generate-Found :
      (cat : Catalog)
      → generate fuel messages dump bases ≡ ok cat
      → Found fuel messages dump bases cat
  unfolding generate loop
  generate-Found cat e =
      let (structs, built, e₁) = >>=-eq-ok (build_structs fuel (load_own dump) bases) _ e in
      let ((out, reached), looped, e₂) = >>=-eq-ok (loop structs) _ e₁ in
      let (rs, whole, msgs, walked) =
        subst (LoopEnds structs (λ m. message_fields fuel m bases (load_own dump)) messages [] [])
          looped (loop_ends structs) in
      record {
        structs = structs;
        resolved = rs;
        reached = reached;
        built = built;
        walked = walked;
        msgs = msgs;
        emitted =
            let final : emit out structs reached messages ≡ cat = cc in
            subst (λ o. cat ≡ emit o structs reached messages) whole (sym final);
      }

pub Memᴰ-roots_of :
    (r : Resolved) (rs : List Resolved) (t : String)
    → Memᴰ r rs
    → Memᴰ t (types_of r.fields)
    → Memᴰ t (roots_of rs)
Memᴰ-roots_of r [] t there m = absurd (Memᴰ.not-nil there)
Memᴰ-roots_of r (x ∷ xs) t (Memᴰ.head e) m =
    Memᴰ.append_left (roots_of xs) (subst (λ (y : Resolved). Memᴰ t (types_of y.fields)) e m)
Memᴰ-roots_of r (x ∷ xs) t (Memᴰ.tail there) m =
    Memᴰ.append_right (types_of x.fields) (Memᴰ-roots_of r xs t there m)

pub roots_of-Memᴰ :
    (rs : List Resolved) (t : String)
    → Memᴰ t (roots_of rs)
    → (r : Resolved) × Memᴰ r rs × Memᴰ t (types_of r.fields)
roots_of-Memᴰ [] t m = absurd (Memᴰ.not-nil m)
roots_of-Memᴰ (r ∷ rs) t m = elim (Memᴰ.append_cases (types_of r.fields) m) [
  | inl own ↦ (r, Memᴰ.head refl, own)
  | inr later ↦ let (s, there, at) = roots_of-Memᴰ rs t later in (s, Memᴰ.tail there, at)
]

-- A type that names a struct of the inputs names one of the catalog.
abbrev pub Laid : Layouts → Catalog → String → Type 0
Laid structs cat t =
    (base : String) (layout : List Field)
    → element_type t ≡ ok base
    → find_key base structs ≡ some layout
    → struct_layout cat base ≡ some layout

-- Every struct that a message's field or an emitted layout names has its layout in the catalog.
abbrev pub IsClosed : Layouts → Catalog → Type 0
IsClosed structs cat =
    ((m : Message)
      → Memᴰ m cat.messages
      → (t : String) → Memᴰ t (types_of m.fields)
      → Laid structs cat t)
    × ((k : String) (layout : List Field)
        → struct_layout cat k ≡ some layout
        → (t : String) → Memᴰ t (types_of layout)
        → Laid structs cat t)

-- Every layout in the catalog is that of a struct which some message's fields lead to.
abbrev pub IsNeeded : Layouts → Catalog → Type 0
IsNeeded structs cat =
    (k : String) (layout : List Field)
    → struct_layout cat k ≡ some layout
    → (m : Message) × (u : String) × Memᴰ m cat.messages
      × Met structs (types_of m.fields) u
      × (element_type u ≡ ok k)
      × (find_key k structs ≡ some layout)
