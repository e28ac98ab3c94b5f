-- ===== src/Persist/Postgres/Rows.antt =====
-- internal/persist/postgres/store.go: statements on the rows of a table.
use rom_server_poc.Prelude.{
  ◌≡◌, refl, ◌∙◌, Bool, true, false, ◌&&◌, ◌||◌, Bool-cases, inl, inr, List, [], ◌∷◌, ◌++◌, arith,
  All,
}
use rom_server_poc.Persist.Postgres.{update_rows, any_row}

module _ {A : Type 0} where
  -- No two rows clash.
  abbrev pub Apart : (A → A → Bool) → List A → Type 0
  Apart clash [] = Unit {0}
  Apart clash (a ∷ rows) = (any_row (clash a) rows ≡ false) × Apart clash rows

  pub any_row-append :
      (p : A → Bool) (rows : List A) (a : A) → any_row p (rows ++ a ∷ []) ≡ (any_row p rows || p a)
  unfolding any_row
  any_row-append p [] a = ground arith
  any_row-append p (b ∷ rows) a = ground (arith, any_row-append p rows a)

  pub Apart-append :
      (clash : A → A → Bool)
      → ((a b : A) → clash a b ≡ clash b a)
      → (rows : List A) (a : A) → Apart clash rows
      → any_row (clash a) rows ≡ false
      → Apart clash (rows ++ a ∷ [])
  unfolding any_row
  Apart-append clash swap [] a apart new = (refl, tt)
  Apart-append clash swap (b ∷ rows) a apart new = (
    any_row-append (clash b) rows a ∙ ground (arith, apart.0, swap a b),
    Apart-append clash swap rows a apart.1 (ground arith),
  )

  pub any_row-eq :
      (p q : A → Bool) → ((a : A) → p a ≡ q a) → (rows : List A) → any_row p rows ≡ any_row q rows
  unfolding any_row
  any_row-eq p q same [] = refl
  any_row-eq p q same (a ∷ rows) = ground (arith, same a, any_row-eq p q same rows)

  pub any_row-update_rows :
      (hit p : A → Bool) (f : A → A)
      → ((a : A) → p (f a) ≡ p a)
      → (rows : List A) → any_row p (update_rows hit f rows) ≡ any_row p rows
  unfolding any_row update_rows
  any_row-update_rows hit p f keeps [] = refl
  any_row-update_rows hit p f keeps (a ∷ rows) = elim (Bool-cases (hit a)) [
    | inl there ↦ rw there (ground (arith, keeps a, any_row-update_rows hit p f keeps rows))
    | inr not_there ↦ rw not_there (ground (arith, any_row-update_rows hit p f keeps rows))
  ]

  pub Apart-update_rows :
      (clash : A → A → Bool) (hit : A → Bool) (f : A → A)
      → ((a b : A) → clash (f a) b ≡ clash a b)
      → ((a b : A) → clash a (f b) ≡ clash a b)
      → (rows : List A) → Apart clash rows
      → Apart clash (update_rows hit f rows)
  unfolding update_rows
  Apart-update_rows clash hit f left right [] apart = tt
  Apart-update_rows clash hit f left right (a ∷ rows) apart =
      let others = Apart-update_rows clash hit f left right rows apart.1 in
      let old = any_row-update_rows hit (clash a) f (right a) rows ∙ apart.0 in
      elim (Bool-cases (hit a)) [
        | inl there ↦
            rw there
              (any_row-eq (clash (f a)) (clash a) (left a) (update_rows hit f rows) ∙ old, others)
        | inr not_there ↦ rw not_there (old, others)
      ]

  pub All-update_rows :
      (P : A → Type 0) (hit : A → Bool) (f : A → A)
      → ((a : A) → P a → P (f a))
      → (rows : List A) → All P rows
      → All P (update_rows hit f rows)
  unfolding update_rows
  All-update_rows P hit f keeps [] all = tt
  All-update_rows P hit f keeps (a ∷ rows) all =
      let others = All-update_rows P hit f keeps rows all.1 in
      elim (Bool-cases (hit a)) [
        | inl there ↦ rw there (keeps a all.0, others)
        | inr not_there ↦ rw not_there (all.0, others)
      ]

  pub any_row-and :
      (b : Bool) (p : A → Bool) (rows : List A)
      → any_row (λ a. b && p a) rows ≡ (b && any_row p rows)
  unfolding any_row
  any_row-and true p [] = refl
  any_row-and false p [] = refl
  any_row-and true p (a ∷ rows) = ground (arith, any_row-and true p rows)
  any_row-and false p (a ∷ rows) = ground (arith, any_row-and false p rows)

  pub All-mono :
      (P Q : A → Type 0) → ((a : A) → P a → Q a) → (rows : List A) → All P rows → All Q rows
  All-mono P Q weaker [] all = tt
  All-mono P Q weaker (a ∷ rows) all = (weaker a all.0, All-mono P Q weaker rows all.1)
