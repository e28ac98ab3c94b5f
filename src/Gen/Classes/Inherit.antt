-- ===== src/Gen/Classes/Inherit.antt =====
-- cmd/gen/main.go: chain, fieldsOf and their callers, for classes with their bases.
use mathlib.Core.List.{reverse, reverse-cons, foldl-append}
use rom_server_poc.Prelude.{
  ℕ, zero, suc, ◌<◌, ◌≡◌, ◌≢◌, refl, sym, subst, ◌∙◌, inl, inr, ap, String, some, Option-cases,
  List, [], ◌∷◌, ◌++◌, arith, eq_iff, str_eq, ltb, length, drop, if◌then◌else◌,
}
use rom_server_poc.Prelude.Result.{Result, ok, >>=-eq-ok}
use rom_server_poc.Protocol.Catalog.{Field, find_key}
use rom_server_poc.Gen.Classes.{
  TypedMessage, GenError, Layouts, Bases, own_fields, chain, fields_of, layout_of, build_from,
  build_structs, message_fields, full_name, fallback,
}

-- A number falls from a class to its base: no class is above itself.
abbrev pub Descends : (String → ℕ) → Bases → Type 0
Descends rank bases = (c base : String) → find_key c bases ≡ some base → rank base < rank c

pub chain_ends :
    (rank : String → ℕ) (bases : Bases)
    → Descends rank bases
    → (fuel : ℕ) (c : String) → rank c < fuel
    → (cs : List String) × (chain fuel c bases ≡ ok cs)
unfolding chain
chain_ends rank bases down zero c h = absurd (omega arith)
chain_ends rank bases down (suc fuel) c h = elim (Option-cases (find_key c bases)) [
  | inl root ↦ (if str_eq c "" then [] else c ∷ [], rw root refl)
  | inr (base, found) ↦
      let below = down c base found in
      let (cs, e) = chain_ends rank bases down fuel base (omega arith) in
      (c ∷ cs, rw (found, e) refl)
]

pub fields_of-cons :
    (own : Layouts) (c : String) (cs : List String)
    → fields_of (c ∷ cs) own ≡ fields_of cs own ++ own_fields own c
unfolding fields_of
fields_of-cons own c cs = rw (reverse-cons c cs) (foldl-append _ [] (reverse cs) (c ∷ []))

chain-head :
    (fuel : ℕ) (bases : Bases) (c : String) (cs : List String)
    → c ≢ ""
    → chain fuel c bases ≡ ok cs
    → (rest : List String) × (cs ≡ c ∷ rest)
unfolding chain
chain-head zero bases c cs named e = cc
chain-head (suc fuel) bases c cs named e = elim (Option-cases (find_key c bases)) [
  | inl root ↦ ([], ground (arith, eq_iff c ""))
  | inr (base, found) ↦
      let (base_rest, e₁, e₂) = >>=-eq-ok (chain fuel base bases) _ (rw found at e) in
      (base_rest, cc)
]

fallback-append : (xs ys : List Field) → fallback (xs ++ ys) ys ≡ xs ++ ys
fallback-append [] [] = refl
fallback-append [] (f ∷ fs) = refl
fallback-append (f ∷ fs) ys = refl

-- The fallback of buildStructs is never taken for a class with a name.
pub layout_of-chain :
    (fuel : ℕ) (own : Layouts) (bases : Bases) (c : String) (cs : List String)
    → c ≢ ""
    → chain fuel c bases ≡ ok cs
    → layout_of fuel own bases c ≡ ok (fields_of cs own)
unfolding layout_of
layout_of-chain fuel own bases c cs named e =
    let (rest, whole) = chain-head fuel bases c cs named e in
    let unchanged : fallback (fields_of cs own) (own_fields own c) ≡ fields_of cs own =
      subst (λ l. fallback (fields_of l own) (own_fields own c) ≡ fields_of l own) (sym whole)
        (rw (fields_of-cons own c rest)
          (fallback-append (fields_of rest own) (own_fields own c))) in
    rw e (ap ok unchanged)

chain-cons :
    (fuel : ℕ) (bases : Bases) (c base : String) (cs : List String)
    → find_key c bases ≡ some base
    → chain fuel base bases ≡ ok cs
    → chain (suc fuel) c bases ≡ ok (c ∷ cs)
unfolding chain
chain-cons fuel bases c base cs found e = rw (found, e) refl

-- The fields of the classes above the first, as messageFields takes them.
prefix_lem :
    (c : String) (cs : List String) (own : Layouts)
    → (if ltb 1 (length (c ∷ cs)) then fields_of (drop 1 (c ∷ cs)) own else []) ≡ fields_of cs own
prefix_lem c [] own = unfold fields_of in refl
prefix_lem c (b ∷ bs) own = ground (arith)

module _ (fuel : ℕ) (own : Layouts) (bases : Bases) (base : String) (layout : List Field)
    (named : base ≢ "") (laid : layout_of fuel own bases base ≡ ok layout) where
  base_chain : (cs : List String) × (chain fuel base bases ≡ ok cs) × (fields_of cs own ≡ layout)
  unfolding layout_of
  base_chain =
      let (cs, e, e') = >>=-eq-ok (chain fuel base bases) _ laid in
      let whole = layout_of-chain fuel own bases base cs named e in (cs, e, cc)

  layout_of-derived :
      (c : String)
      → c ≢ ""
      → find_key c bases ≡ some base
      → layout_of (suc fuel) own bases c ≡ ok (layout ++ own_fields own c)
  layout_of-derived c named' found =
      let (cs, e, fields) = base_chain in
      layout_of-chain (suc fuel) own bases c (c ∷ cs) named'
        (chain-cons fuel bases c base cs found e)
      ∙ ap ok (fields_of-cons own c cs ∙ ap (λ l. l ++ own_fields own c) fields)

  -- messageFields puts the base class's whole layout before the message's own fields.
  message_fields-derived :
      (m : TypedMessage)
      → find_key (full_name m) bases ≡ some base
      → message_fields (suc fuel) m bases own ≡ ok (layout ++ m.fields)
  unfolding message_fields
  message_fields-derived m found =
      let (cs, e, fields) = base_chain in
      rw (chain-cons fuel bases (full_name m) base cs found e)
        (ap ok (ap (λ l. l ++ m.fields) (prefix_lem (full_name m) cs own ∙ fields)))

-- A class's layout is that of its base class followed by the class's own fields, and a message's
-- fields are the layout of its base class followed by the message's own fields, where the base
-- class has a name and its chain of classes ends.
pub layout_of_inherits :
    (fuel : ℕ) (own : Layouts) (bases : Bases) (base : String) (layout : List Field)
    → base ≢ ""
    → layout_of fuel own bases base ≡ ok layout
    → ((c : String)
        → c ≢ ""
        → find_key c bases ≡ some base
        → layout_of (suc fuel) own bases c ≡ ok (layout ++ own_fields own c))
      × ((m : TypedMessage)
          → find_key (full_name m) bases ≡ some base
          → message_fields (suc fuel) m bases own ≡ ok (layout ++ m.fields))
layout_of_inherits fuel own bases base layout named laid = (
  layout_of-derived fuel own bases base layout named laid,
  message_fields-derived fuel own bases base layout named laid,
)

build_from_ends :
    (layout : String → Result GenError (List Field))
    → ((name : String) → (fs : List Field) × (layout name ≡ ok fs))
    → (own : Layouts) → (structs : Layouts) × (build_from layout own ≡ ok structs)
unfolding build_from
build_from_ends layout ends [] = ([], refl)
build_from_ends layout ends ((name, _) ∷ rest) =
    let (fs, e) = ends name in
    let (structs, e') = build_from_ends layout ends rest in ((name, fs) ∷ structs, rw (e, e') refl)

module _ (rank : String → ℕ) (bases : Bases) (down : Descends rank bases) (fuel : ℕ)
    (low : (c : String) → rank c < fuel) (own : Layouts) where
  pub build_structs_ends : (structs : Layouts) × (build_structs fuel own bases ≡ ok structs)
  unfolding build_structs
  build_structs_ends =
      build_from_ends (layout_of fuel own bases)
        (λ name.
          let (cs, e) = chain_ends rank bases down fuel name (low name) in
          (fallback (fields_of cs own) (own_fields own name), unfold layout_of in rw e refl))
        own

  pub message_fields_ends :
      (m : TypedMessage) → (fs : List Field) × (message_fields fuel m bases own ≡ ok fs)
  unfolding message_fields
  message_fields_ends m =
      let (cs, e) = chain_ends rank bases down fuel (full_name m) (low (full_name m)) in
      ((if ltb 1 (length cs) then fields_of (drop 1 cs) own else []) ++ m.fields, rw e refl)
