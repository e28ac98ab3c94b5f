-- ===== src/Persist/Postgres/Records.antt =====
-- internal/persist/postgres/store.go: the rows of characters by their ids.
use mathlib.Core.List.{Memᴰ}
use mathlib.Core.List.Memᴰ
use rom_server_poc.Prelude.{
  ℕ, ◌≡◌, ◌≢◌, refl, sym, subst, ◌∙◌, ap, Bool, true, false, Bool-cases, inl, inr, List, [], ◌∷◌,
  ◌++◌, ◌==◌, arith, if◌then◌else◌, ==_iff,
}
use rom_server_poc.Prelude.Result.{Result, ok, err, ok-ne-err}
use rom_server_poc.Persist.{StoreError, not_found, Character}
use rom_server_poc.Persist.Postgres.{update_rows, any_row, select_rows, has_id, first_row}
use rom_server_poc.Persist.Postgres.Rows.{Apart}
use rom_server_poc.Persist.Postgres.Consistent.{same_id}

-- What get_character reads from the rows.
unfoldable pub row_of : ℕ → List Character → Result StoreError Character
unfolding select_rows
row_of id rows = first_row (select_rows (has_id id) rows)

pub row_of-append :
    (id : ℕ) (rows : List Character) (c : Character)
    → row_of id (rows ++ c ∷ []) ≡ (
        if any_row (has_id id) rows
        then row_of id rows
        else if has_id id c
        then ok c
        else err not_found)
unfolding row_of any_row
row_of-append id [] c = ground arith
row_of-append id (d ∷ rows) c = elim (Bool-cases (d.id == id)) [
  | inl same ↦ rw same refl
  | inr different ↦ rw different (row_of-append id rows c)
]

pub row_of-missing :
    (id : ℕ) (rows : List Character)
    → any_row (has_id id) rows ≡ false
    → row_of id rows ≡ err not_found
unfolding row_of any_row
row_of-missing id [] h = refl
row_of-missing id (d ∷ rows) h = elim (Bool-cases (d.id == id)) [
  | inl same ↦ absurd (ground (arith, same))
  | inr different ↦ rw different (row_of-missing id rows (ground (arith, different)))
]

pub row_of-found :
    (id : ℕ) (rows : List Character)
    → any_row (has_id id) rows ≡ true
    → (c : Character) × (row_of id rows ≡ ok c) × Memᴰ c rows × (c.id ≡ id)
unfolding row_of any_row
row_of-found id [] h = cc
row_of-found id (d ∷ rows) h = elim (Bool-cases (d.id == id)) [
  | inl same ↦ (d, rw same refl, Memᴰ.head refl, (==_iff d.id id).0 same)
  | inr different ↦
      let (c, e, there, e') = row_of-found id rows (ground (arith, different)) in
      (c, rw different e, Memᴰ.tail there, e')
]

row_of-here :
    (id : ℕ) (d : Character) (rows : List Character)
    → (d.id == id) ≡ true
    → row_of id (d ∷ rows) ≡ ok d
unfolding row_of
row_of-here id d rows h = rw h refl

row_of-there :
    (id : ℕ) (d : Character) (rows : List Character)
    → (d.id == id) ≡ false
    → row_of id (d ∷ rows) ≡ row_of id rows
unfolding row_of
row_of-there id d rows h = rw h refl

map_row : (Character → Character) → Result StoreError Character → Result StoreError Character
map_row f (ok c) = ok (f c)
map_row f (err e) = err e

other_id : (n k id : ℕ) → (n == k) ≡ true → id ≢ k → (n == id) ≡ false
other_id n k id h ne = ground arith

module _ (k : ℕ) (f : Character → Character) (keeps : (c : Character) → (f c).id ≡ c.id) where
  kept : (d : Character) (id : ℕ) (b : Bool) → (d.id == id) ≡ b → ((f d).id == id) ≡ b
  kept d id b h = ap (λ n. n == id) (keeps d) ∙ h

  pub row_of-update_rows :
      (c : Character) (rows : List Character)
      → row_of k rows ≡ ok c
      → row_of k (update_rows (has_id k) f rows) ≡ ok (f c)
  unfolding update_rows map_row
  row_of-update_rows c [] e = unfold row_of in cc
  row_of-update_rows c (d ∷ rows) e = elim (Bool-cases (d.id == k)) [
    | inl same ↦ rw same (
        row_of-here k (f d) _ (kept d k true same)
        ∙ ap (λ r. map_row f r) (sym (row_of-here k d rows same) ∙ e))
    | inr different ↦ rw different (
        row_of-there k d _ different
        ∙ row_of-update_rows c rows (sym (row_of-there k d rows different) ∙ e))
  ]

  pub row_of-update_rows_ne :
      (id : ℕ)
      → id ≢ k
      → (rows : List Character) → row_of id (update_rows (has_id k) f rows) ≡ row_of id rows
  unfolding update_rows
  row_of-update_rows_ne id ne [] = refl
  row_of-update_rows_ne id ne (d ∷ rows) =
      let rest = row_of-update_rows_ne id ne rows in
      elim (Bool-cases (d.id == k)) [
        | inl same ↦
            let away = other_id d.id k id same ne in
            rw same (
              row_of-there id (f d) _ (kept d id false away)
              ∙ rest
              ∙ sym (row_of-there id d rows away))
        | inr different ↦ rw different (elim (Bool-cases (d.id == id)) [
          | inl here ↦ row_of-here id d _ here ∙ sym (row_of-here id d rows here)
          | inr away ↦ row_of-there id d _ away ∙ rest ∙ sym (row_of-there id d rows away)
        ])
      ]

pub any_row-Memᴰ :
    (p : Character → Bool) (c : Character) (rows : List Character)
    → any_row p rows ≡ false
    → Memᴰ c rows
    → p c ≡ false
unfolding any_row
any_row-Memᴰ p c [] none_hit there = absurd (Memᴰ.not-nil there)
any_row-Memᴰ p c (d ∷ rows) none_hit there = elim (Memᴰ.cases_cons there) [
  | inl e ↦ subst (λ x. p x ≡ false) (sym e) (ground arith)
  | inr later ↦ any_row-Memᴰ p c rows (ground arith) later
]

apart-ne :
    (c d : Character) (rows : List Character)
    → any_row (same_id d) rows ≡ false
    → Memᴰ c rows
    → (d.id == c.id) ≡ false
apart-ne c d rows apart there = let e = any_row-Memᴰ (same_id d) c rows apart there in ground arith

-- Where ids are unique, each row is the one that its id finds.
pub row_of-Memᴰ :
    (c : Character) (rows : List Character)
    → Apart same_id rows
    → Memᴰ c rows
    → row_of c.id rows ≡ ok c
row_of-Memᴰ c [] apart there = absurd (Memᴰ.not-nil there)
row_of-Memᴰ c (d ∷ rows) apart there = elim (Memᴰ.cases_cons there) [
  | inl e ↦
      subst (λ x. row_of x.id (d ∷ rows) ≡ ok x) (sym e) (row_of-here d.id d rows (ground arith))
  | inr later ↦
      row_of-there c.id d rows (apart-ne c d rows apart.0 later) ∙ row_of-Memᴰ c rows apart.1 later
]

pub row_of-append_self :
    (rows : List Character) (c : Character)
    → any_row (has_id c.id) rows ≡ false
    → row_of c.id (rows ++ c ∷ []) ≡ ok c
row_of-append_self rows c free =
    row_of-append c.id rows c ∙ rw free (rw ((==_iff c.id c.id).1 refl) refl)

pub row_of-append_ne :
    (id : ℕ) (rows : List Character) (c : Character)
    → id ≢ c.id
    → row_of id (rows ++ c ∷ []) ≡ row_of id rows
row_of-append_ne id rows c ne =
    row_of-append id rows c ∙ elim (Bool-cases (any_row (has_id id) rows)) [
      | inl there ↦ rw there refl
      | inr free ↦
          let new : (c.id == id) ≡ false = ground arith in
          rw (free, new) (sym (row_of-missing id rows free))
    ]

pub Memᴰ-row_of :
    (id : ℕ) (c : Character) (rows : List Character) → row_of id rows ≡ ok c → Memᴰ c rows
Memᴰ-row_of id c rows found = elim (Bool-cases (any_row (has_id id) rows)) [
  | inr free ↦ absurd (ok-ne-err (sym found ∙ row_of-missing id rows free))
  | inl there ↦
      let (d, e, m, _) = row_of-found id rows there in
      let same : d ≡ c = cc in subst (λ x. Memᴰ x rows) same m
]
