-- ===== src/Gen/Emit/Sorted.antt =====
-- cmd/gen/main.go: the names that emit sorts, and the map that it writes from them.
use rom_server_poc.Prelude.{
  ◌≡◌, refl, ◌∙◌, inl, inr, String, true, Bool-cases, some, List, [], ◌∷◌, map, arith, eq_iff,
  str_eq, if◌then◌else◌, ap, subst,
}
use rom_server_poc.Protocol.Catalog.{Field, find_key, has_key}
use rom_server_poc.Gen.Classes.{Layouts}
use rom_server_poc.Gen.Emit.{insert_name, sort_names, keep_names, emit_struct}

has_key-insert_name :
    (k x : String) (ys : List String) → has_key k (insert_name x ys) ≡ has_key k (x ∷ ys)
unfolding has_key insert_name
has_key-insert_name k x [] = refl
has_key-insert_name k x (y ∷ ys) = ground (arith, has_key-insert_name k x ys)

pub has_key-sort_names : (k : String) (xs : List String) → has_key k (sort_names xs) ≡ has_key k xs
unfolding sort_names has_key
has_key-sort_names k [] = refl
has_key-sort_names k (x ∷ xs) =
    has_key-insert_name k x (sort_names xs)
    ∙ ap (λ b. if str_eq x k then true else b) (has_key-sort_names k xs)

pub has_key-keep_names :
    (k : String) (full xs : List String)
    → has_key k (keep_names full xs) ≡ true
    → (has_key k full ≡ true) × (has_key k xs ≡ true)
unfolding keep_names has_key
has_key-keep_names k full [] h = cc
has_key-keep_names k full (x ∷ xs) h = elim (Bool-cases (has_key x full)) [
  | inl kept ↦
      let h' : (if str_eq x k then true else has_key k (keep_names full xs)) ≡ true =
        rw kept at h in
      elim (Bool-cases (str_eq x k)) [
        | inl same ↦ (subst (λ y. has_key y full ≡ true) ((eq_iff x k).0 same) kept, rw same refl)
        | inr different ↦
            let (a, b) = has_key-keep_names k full xs (rw different at h') in (a, rw different b)
      ]
  | inr dropped ↦ let (a, b) = has_key-keep_names k full xs (rw dropped at h) in (a, ground arith)
]

-- The layout of an emitted name is that of the struct.
pub find_key-emitted :
    (structs : Layouts) (k : String) (layout : List Field) (names : List String)
    → has_key k names ≡ true
    → find_key k structs ≡ some layout
    → find_key k (map (emit_struct structs) names) ≡ some layout
unfolding has_key find_key
find_key-emitted structs k layout [] there found = cc
find_key-emitted structs k layout (x ∷ xs) there found = elim (Bool-cases (str_eq x k)) [
  | inl same ↦ ground (arith, eq_iff x k)
  | inr different ↦ ground (arith, find_key-emitted structs k layout xs)
]

pub has_key-emitted :
    (structs : Layouts) (k : String) (layout : List Field) (names : List String)
    → find_key k (map (emit_struct structs) names) ≡ some layout
    → has_key k names ≡ true
unfolding has_key find_key
has_key-emitted structs k layout [] found = cc
has_key-emitted structs k layout (x ∷ xs) found =
    ground (arith, has_key-emitted structs k layout xs)
