-- ===== src/Persist/Postgres/Listing.antt =====
-- internal/persist/postgres/store.go: the rows that a listing selects, and their order.
use mathlib.Core.List.{Memᴰ}
use mathlib.Core.List.Memᴰ
use rom_server_poc.Prelude.{
  ℕ, ◌≤◌, ◌≡◌, ◌↔◌, sym, subst, Bool, true, false, Bool-cases, inl, inr, List, [], ◌∷◌, arith, All,
  leb, leb→le,
}
use rom_server_poc.Persist.{Character}
use rom_server_poc.Persist.Laws.{signed32, BySlot}
use rom_server_poc.Persist.Postgres.{select_rows, insert_slot, order_by_slot}
use rom_server_poc.Persist.Postgres.Rows.{All-mono}

le_trans : {a b c : ℕ} → a ≤ b → b ≤ c → a ≤ c
le_trans h g = omega arith

not_leb : (a b : ℕ) → leb a b ≡ false → b ≤ a
not_leb a b h = ground arith

pub select_rows-Memᴰ :
    (p : Character → Bool) (c : Character) (rows : List Character)
    → Memᴰ c (select_rows p rows) ↔ (Memᴰ c rows × (p c ≡ true))
unfolding select_rows
select_rows-Memᴰ p c [] = (λ m. absurd (Memᴰ.not-nil m), λ m. m.0)
select_rows-Memᴰ p c (d ∷ rows) =
    let (to, from) = select_rows-Memᴰ p c rows in
    elim (Bool-cases (p d)) [
      | inl hit ↦ rw hit (
        λ m. elim (Memᴰ.cases_cons m) [
          | inl e ↦ (Memᴰ.head e, subst (λ x. p x ≡ true) (sym e) hit)
          | inr later ↦ let (there, h) = to later in (Memᴰ.tail there, h)
        ],
        λ m. elim (Memᴰ.cases_cons m.0) [
          | inl e ↦ Memᴰ.head e
          | inr later ↦ Memᴰ.tail (from (later, m.1))
        ],
      )
      | inr skipped ↦ rw skipped (
        λ m. let (there, h) = to m in (Memᴰ.tail there, h),
        λ m. elim (Memᴰ.cases_cons m.0) [
          | inl e ↦ absurd (clash c d e m.1 skipped)
          | inr later ↦ from (later, m.1)
        ],
      )
    ]
  where
    clash : (x y : Character) → x ≡ y → p x ≡ true → p y ≡ false → ⊥
    clash x y e a b = let b' : p x ≡ false = subst (λ z. p z ≡ false) (sym e) b in cc

insert_slot-Memᴰ :
    (c d : Character) (rows : List Character) → Memᴰ c (insert_slot d rows) ↔ Memᴰ c (d ∷ rows)
unfolding insert_slot
insert_slot-Memᴰ c d [] = (λ m. m, λ m. m)
insert_slot-Memᴰ c d (e ∷ rows) =
    let (to, from) = insert_slot-Memᴰ c d rows in
    elim (Bool-cases (leb (signed32 d.slot_index) (signed32 e.slot_index))) [
      | inl before ↦ rw before (λ m. m, λ m. m)
      | inr after ↦ rw after (
        λ m. elim (Memᴰ.cases_cons m) [
          | inl same ↦ Memᴰ.tail (Memᴰ.head same)
          | inr later ↦ elim (Memᴰ.cases_cons (to later)) [
            | inl new ↦ Memᴰ.head new
            | inr old ↦ Memᴰ.tail (Memᴰ.tail old)
          ]
        ],
        λ m. elim (Memᴰ.cases_cons m) [
          | inl new ↦ Memᴰ.tail (from (Memᴰ.head new))
          | inr rest ↦ elim (Memᴰ.cases_cons rest) [
            | inl same ↦ Memᴰ.head same
            | inr old ↦ Memᴰ.tail (from (Memᴰ.tail old))
          ]
        ],
      )
    ]

pub order_by_slot-Memᴰ :
    (c : Character) (rows : List Character) → Memᴰ c (order_by_slot rows) ↔ Memᴰ c rows
unfolding order_by_slot
order_by_slot-Memᴰ c [] = (λ m. m, λ m. m)
order_by_slot-Memᴰ c (d ∷ rows) =
    let (to, from) = order_by_slot-Memᴰ c rows in
    let (to', from') = insert_slot-Memᴰ c d (order_by_slot rows) in
    (
      λ m. elim (Memᴰ.cases_cons (to' m)) [
        | inl new ↦ Memᴰ.head new
        | inr old ↦ Memᴰ.tail (to old)
      ],
      λ m. elim (Memᴰ.cases_cons m) [
        | inl new ↦ from' (Memᴰ.head new)
        | inr old ↦ from' (Memᴰ.tail (from old))
      ],
    )

abbrev NotBefore : Character → Character → Type 0
NotBefore c d = signed32 c.slot_index ≤ signed32 d.slot_index

insert_slot-All :
    (P : Character → Type 0) (c : Character) (rows : List Character)
    → P c
    → All P rows
    → All P (insert_slot c rows)
unfolding insert_slot
insert_slot-All P c [] h all = (h, tt)
insert_slot-All P c (d ∷ rows) h all =
    elim (Bool-cases (leb (signed32 c.slot_index) (signed32 d.slot_index))) [
      | inl before ↦ rw before (h, all)
      | inr after ↦ rw after (all.0, insert_slot-All P c rows h all.1)
    ]

insert_slot-BySlot :
    (c : Character) (rows : List Character) → BySlot rows → BySlot (insert_slot c rows)
unfolding insert_slot
insert_slot-BySlot c [] sorted = (tt, tt)
insert_slot-BySlot c (d ∷ rows) sorted =
    elim (Bool-cases (leb (signed32 c.slot_index) (signed32 d.slot_index))) [
      | inl before ↦
          let first = leb→le (signed32 c.slot_index) (signed32 d.slot_index) before in
          rw before (
            (first, All-mono (NotBefore d) (NotBefore c) (λ x h. le_trans first h) rows sorted.0),
            sorted,
          )
      | inr after ↦ rw after (
        insert_slot-All (NotBefore d) c rows (not_leb _ _ after) sorted.0,
        insert_slot-BySlot c rows sorted.1,
      )
    ]

pub order_by_slot-BySlot : (rows : List Character) → BySlot (order_by_slot rows)
unfolding order_by_slot
order_by_slot-BySlot [] = tt
order_by_slot-BySlot (c ∷ rows) =
    insert_slot-BySlot c (order_by_slot rows) (order_by_slot-BySlot rows)
