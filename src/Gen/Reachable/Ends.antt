-- ===== src/Gen/Reachable/Ends.antt =====
-- cmd/gen/main.go: collectReachable, whatever it is called on.
use mathlib.Core.List.{Memᴰ}
use mathlib.Core.List.Memᴰ
use rom_server_poc.Prelude.{
  ℕ, zero, suc, ◌<◌, ◌≡◌, ◌≢◌, refl, sym, subst, ◌∙◌, inl, inr, String, Bool, true, false,
  Bool-cases, Option, none, some, List, [], ◌∷◌, arith, eq_iff, str_eq,
}
use rom_server_poc.Prelude.Result.{Result, ok, err, ◌>>=◌}
use rom_server_poc.Protocol.Catalog.{Field, find_key, has_key}
use rom_server_poc.Gen.Classes.{GenError, slice_out_of_range, out_of_fuel, Layouts}
use rom_server_poc.Gen.Reachable.{
  element_type, Names, Visit, collect_fields, collect_struct, collect_reachable,
}
use rom_server_poc.Gen.Reachable.Walk.{
  itself, inside, types_of, unseen, unseen-le, unseen-lt, Grows, Grows-trans, Grows-cons,
  has_key-cons_ne, has_key-cons_self, Covered, Met, Walked, Ends, Ends-append, Walked-nil,
}

-- The walk over a layout, if each call of `visit` ends.
pub collect_fields-Ends :
    (structs : Layouts) (visit : Visit) (seen : Names)
    → ((t : String) (s : Names) → Grows seen s → Ends structs (t ∷ []) s (visit t s))
    → (fs : List Field) (s : Names) → Grows seen s
    → Ends structs (types_of fs) s (collect_fields visit fs s)
unfolding collect_fields
collect_fields-Ends structs visit seen ends [] s g = Walked-nil structs s
collect_fields-Ends structs visit seen ends (f ∷ fs) s g =
    Ends-append structs (f.type ∷ []) (types_of fs) s (visit f.type s) (collect_fields visit fs)
      (ends f.type s g)
      (λ mid g'. collect_fields-Ends structs visit seen ends fs mid (Grows-trans seen s mid g g'))

module _ (structs : Layouts) (t base : String) (layout : List Field) (seen : Names)
    (stripped : element_type t ≡ ok base) (found : find_key base structs ≡ some layout) where
  Met-inside : (u : String) → Met structs (types_of layout) u → Met structs (t ∷ []) u
  Met-inside u (r, m, o) = (t, Memᴰ.head refl, inside stripped found m o)

  Walked-inside :
      (out : Names)
      → Walked structs (types_of layout) (base ∷ seen) out
      → Walked structs (t ∷ []) seen out
  Walked-inside out w = record {
    grows = Grows-trans seen (base ∷ seen) out (Grows-cons seen base) w.grows;
    covers = λ t' m b l e found'.
        let same_type : t' ≡ t = Memᴰ.eq_of_singleton m in
        let stripped' : element_type t' ≡ ok base =
          subst (λ x. element_type x ≡ ok base) (sym same_type) stripped in
        let same : base ≡ b = cc in
        subst (λ k. has_key k out ≡ true) same (w.grows base (has_key-cons_self base seen));
    closed = λ k l there fresh found' t' m. elim (Bool-cases (str_eq k base)) [
      | inl same ↦
          let e : k ≡ base = (eq_iff k base).0 same in
          let found'' : find_key base structs ≡ some l =
            subst (λ x. find_key x structs ≡ some l) e found' in
          let same_layout : l ≡ layout = cc in
          w.covers t' (subst (λ x. Memᴰ t' (types_of x)) same_layout m)
      | inr different ↦
          w.closed k l there (has_key-cons_ne k base seen different ∙ fresh) found' t' m
    ];
    sound = λ k there. elim (w.sound k there) [
      | inl early ↦ elim (Bool-cases (str_eq k base)) [
        | inl same ↦
            let e : base ≡ k = sym ((eq_iff k base).0 same) in
            inr (
              t,
              layout,
              (t, Memᴰ.head refl, itself),
              subst (λ x. element_type t ≡ ok x) e stripped,
              subst (λ x. find_key x structs ≡ some layout) e found,
            )
        | inr different ↦ inl (sym (has_key-cons_ne k base seen different) ∙ early)
      ]
      | inr (u, l, met, e, found') ↦ inr (u, l, Met-inside u met, e, found')
    ];
  }

  Ends-inside :
      (r : Result GenError Names)
      → Ends structs (types_of layout) (base ∷ seen) r
      → Ends structs (t ∷ []) seen r
  Ends-inside (ok out) w = Walked-inside out w
  Ends-inside (err slice_out_of_range) (u, met, e) = (u, Met-inside u met, e)
  Ends-inside (err out_of_fuel) h = h

-- A type that names no struct, or one that is set, adds nothing.
Walked-skip :
    (structs : Layouts) (t : String) (seen : Names)
    → Covered structs seen t
    → Walked structs (t ∷ []) seen seen
Walked-skip structs t seen covered =
    let none_left = Walked-nil structs seen in
    record {
      grows = none_left.grows;
      covers = λ t' m. subst (Covered structs seen) (sym (Memᴰ.eq_of_singleton m)) covered;
      closed = none_left.closed;
      sound = λ k h. inl h;
    }

stripped-eq : (t base b : String) → element_type t ≡ ok base → element_type t ≡ ok b → base ≡ b
stripped-eq t base b e f = cc

collect_struct-Ends :
    (structs : Layouts) (visit : Visit) (t base : String) (seen : Names)
    → element_type t ≡ ok base
    → ((layout : List Field)
        → has_key base seen ≡ false
        → find_key base structs ≡ some layout
        → Ends structs (types_of layout) (base ∷ seen) (collect_fields visit layout (base ∷ seen)))
    → (b : Bool) → has_key base seen ≡ b
    → (o : Option (List Field)) → find_key base structs ≡ o
    → Ends structs (t ∷ []) seen (collect_struct visit base b o seen)
unfolding collect_struct
collect_struct-Ends structs visit t base seen e h true set o found =
    Walked-skip structs t seen
      (λ b l e' found'. subst (λ k. has_key k seen ≡ true) (stripped-eq t base b e e') set)
collect_struct-Ends structs visit t base seen e h false fresh none missing =
    Walked-skip structs t seen
      (λ b l e' found'. absurd (clash b l (stripped-eq t base b e e') found'))
  where
    clash : (b : String) (l : List Field) → base ≡ b → find_key b structs ≡ some l → ⊥
    clash b l same found' = cc
collect_struct-Ends structs visit t base seen e h false fresh (some layout) found =
    Ends-inside structs t base layout seen e found _ (h layout fresh found)

pub element_type-total : (t : String) → element_type t ≢ err out_of_fuel
unfolding element_type
element_type-total t = ground arith

-- One call, whose recursive calls are `visit`, and are made with fewer structs left.
module _ (structs : Layouts) (visit : Visit) (t : String) (seen : Names)
    (visits : (t' : String) (s : Names)
      → unseen structs s < unseen structs seen
      → Ends structs (t' ∷ []) s (visit t' s)) where
  layout-Ends :
      (base : String) (layout : List Field)
      → has_key base seen ≡ false
      → find_key base structs ≡ some layout
      → Ends structs (types_of layout) (base ∷ seen) (collect_fields visit layout (base ∷ seen))
  layout-Ends base layout fresh found =
      let fewer = unseen-lt structs base layout seen found fresh in
      collect_fields-Ends structs visit (base ∷ seen)
        (λ t' s g. let still = unseen-le structs (base ∷ seen) s g in visits t' s (omega arith))
        layout (base ∷ seen) (λ k m. m)

  call-Ends :
      (r : Result GenError String)
      → element_type t ≡ r
      → Ends structs
          (t ∷ [])
          seen
          (r >>= λ base. collect_struct visit base (has_key base seen) (find_key base structs) seen)
  call-Ends (ok base) e =
      collect_struct-Ends structs visit t base seen e (layout-Ends base) (has_key base seen) refl
        (find_key base structs) refl
  call-Ends (err slice_out_of_range) e = (t, (t, Memᴰ.head refl, itself), e)
  call-Ends (err out_of_fuel) e = absurd (element_type-total t e)

-- With more fuel than there are structs not yet set, the walk from a type ends: it sets the struct that
-- the type names and all that their layouts name, and no others.
pub collect_reachable-Ends :
    (structs : Layouts) (fuel : ℕ) (t : String) (seen : Names)
    → unseen structs seen < fuel
    → Ends structs (t ∷ []) seen (collect_reachable fuel structs t seen)
unfolding collect_reachable
collect_reachable-Ends structs zero t seen enough = absurd (omega arith)
collect_reachable-Ends structs (suc fuel) t seen enough =
    call-Ends structs (collect_reachable fuel structs) t seen
      (λ t' s fewer. collect_reachable-Ends structs fuel t' s (omega arith)) (element_type t) refl
