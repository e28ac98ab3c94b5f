-- ===== src/World/Players.antt =====
-- What each command does to each player.
use rom_server_poc.Prelude.{
  ℕ, ◌≡◌, ◌≢◌, refl, subst, ◌∙◌, false, Option, none, some, [], ◌∷◌, ◌==◌, if◌then◌else◌, arith,
  inl, inr, Option-cases, Bool-cases, ==_iff,
}
use rom_server_poc.World.{Player, Players, find, put, delete, Command, join, leave, move, execute}

pub find-put :
    (id j : ℕ) (q : Player) (ps : Players)
    → find j (put id q ps) ≡ (if id == j then some q else find j ps)
unfolding find put
find-put id j q [] = refl
find-put id j q ((k, p) ∷ ps) = ground (arith, find-put id j q ps)

pub find-delete :
    (id j : ℕ) (ps : Players) → find j (delete id ps) ≡ (if id == j then none else find j ps)
unfolding find delete
find-delete id j [] = ground arith
find-delete id j ((k, p) ∷ ps) = ground (arith, find-delete id j ps)

abbrev moved : ℕ → ℕ → ℕ → ℕ → Option Player → Option Player
moved x y z dir none = none
moved x y z dir (some p) = some (record p { x = x; y = y; z = z; dir = dir })

-- What a command makes of one character's entry.
abbrev pub effect : ℕ → Command → Option Player → Option Player
effect j (join p) o = if p.character_id == j then some p else o
effect j (leave id) o = if id == j then none else o
effect j (move id x y z dir) o = if id == j then moved x y z dir o else o

find-execute_self :
    (id x y z dir : ℕ) (ps : Players)
    → (find id (execute ps (leave id)) ≡ none)
      × (find id (execute ps (move id x y z dir)) ≡ moved x y z dir (find id ps))
unfolding execute
find-execute_self id x y z dir ps = elim (Option-cases (find id ps)) [
  | inl absent ↦ rw absent (absent, absent)
  | inr (p, present) ↦ rw present (
    ground (arith, find-delete id id ps),
    ground (arith, find-put id id (record p { x = x; y = y; z = z; dir = dir }) ps),
  )
]

find-execute_other :
    (id j x y z dir : ℕ) (ps : Players)
    → (id == j) ≡ false
    → (find j (execute ps (leave id)) ≡ find j ps)
      × (find j (execute ps (move id x y z dir)) ≡ find j ps)
unfolding execute
find-execute_other id j x y z dir ps ne = elim (Option-cases (find id ps)) [
  | inl absent ↦ rw absent (refl, refl)
  | inr (p, present) ↦ rw present (
    ground (arith, find-delete id j ps),
    ground (arith, find-put id j (record p { x = x; y = y; z = z; dir = dir }) ps),
  )
]

-- Every command changes the entry of its own character, as `effect` says, and no other.
pub find-execute :
    (j : ℕ) (c : Command) (ps : Players) → find j (execute ps c) ≡ effect j c (find j ps)
find-execute j (join p) ps = unfold execute in find-put p.character_id j p ps
find-execute j (leave id) ps = elim (Bool-cases (id == j)) [
  | inl same ↦
      let e : id ≡ j = (==_iff id j).0 same in
      rw same
        (subst (λ k. find k (execute ps (leave id)) ≡ none) e (find-execute_self id 0 0 0 0 ps).0)
  | inr other ↦ rw other (find-execute_other id j 0 0 0 0 ps other).0
]
find-execute j (move id x y z dir) ps = elim (Bool-cases (id == j)) [
  | inl same ↦
      let e : id ≡ j = (==_iff id j).0 same in
      rw same (
        subst (λ k. find k (execute ps (move id x y z dir)) ≡ moved x y z dir (find k ps)) e
          (find-execute_self id x y z dir ps).1)
  | inr other ↦ rw other (find-execute_other id j x y z dir ps other).1
]

-- The command names no connection: after two different connections have joined with one character,
-- the second's player stands there, and the leave of the first removes it.
pub leave_removes_newcomer :
    (p q : Player) (ps : Players)
    → p.character_id ≡ q.character_id
    → p.conn ≢ q.conn
    → (find q.character_id (execute (execute ps (join p)) (join q)) ≡ some q)
      × (find q.character_id
            (execute (execute (execute ps (join p)) (join q)) (leave p.character_id))
          ≡ none)
leave_removes_newcomer p q ps same other = (
  find-execute q.character_id (join q) (execute ps (join p)) ∙ ground arith,
  find-execute q.character_id (leave p.character_id) (execute (execute ps (join p)) (join q))
      ∙ ground arith,
)

-- Every player stands under its own character, once.
abbrev pub OwnKeys : Players → Type 0
OwnKeys ps = (id : ℕ) (p : Player) → find id ps ≡ some p → p.character_id ≡ id

pub execute-OwnKeys : (c : Command) (ps : Players) → OwnKeys ps → OwnKeys (execute ps c)
execute-OwnKeys (join q) ps own id p e = ground (arith, find-execute id (join q) ps, own id p)
execute-OwnKeys (leave j) ps own id p e = ground (arith, find-execute id (leave j) ps, own id p)
execute-OwnKeys (move j x y z dir) ps own id p e = elim (Option-cases (find id ps)) [
  | inl absent ↦ ground (arith, find-execute id (move j x y z dir) ps)
  | inr (q, present) ↦ ground (arith, find-execute id (move j x y z dir) ps, own id q)
]
