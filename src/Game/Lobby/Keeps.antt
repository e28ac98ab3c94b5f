-- ===== src/Game/Lobby/Keeps.antt =====
-- internal/game/lobby.go: handleCreatePlayer over a store behind its laws.
use rom_server_poc.Prelude.{ℕ, ◌≡◌, ◌≢◌, refl, sym, subst, ◌⊎◌, inl, inr}
use rom_server_poc.Prelude.Result.{Result, ok, err}
use rom_server_poc.Protocol.Value.{Values}
use rom_server_poc.Persist.{StoreError, not_found, Character}
use rom_server_poc.Persist.Laws.{IsLawful, SameRecords}
use rom_server_poc.Game.Session.{Env, Conn}
use rom_server_poc.Game.Lobby.{handle_create_player}
use rom_server_poc.Game.Lobby.Create.{IsAsked, Declined, handle_create_player-db}

module _ {S : Type 0} (env : Env S) where
  -- `db'` has a new record of a character that was asked for, and all records of `db`.
  abbrev pub Added : Values → Conn S → S → S → Type 0
  Added vs s db db' =
      (c : Character) × IsAsked env vs s c
      × (env.store.get_character c.id db ≡ err not_found)
      × (env.store.get_character c.id db' ≡ ok c)
      × ((id : ℕ) → id ≢ c.id → env.store.get_character id db' ≡ env.store.get_character id db)

  -- What a request makes of the records: nothing, or a new one beside those that others left.
  abbrev pub Kept : Values → Conn S → S → Type 0
  Kept vs s db' =
      (Declined env vs s × (db' ≡ s.db))
      ⊎ (SameRecords env.store (env.others s.db) db' ⊎ Added vs s (env.others s.db) db')

  -- The id and the time that the store gives a character are not asked for.
  IsAsked-stored :
      (vs : Values) (s : Conn S) (c : Character) (id created_at : ℕ)
      → IsAsked env vs s c
      → IsAsked env vs s (record c { id = id; created_at = created_at })
  IsAsked-stored vs s c id created_at asked = record {
    characters = asked.characters;
    listed = asked.listed;
    free = asked.free;
    owner = asked.owner;
    named = asked.named;
    not_empty = asked.not_empty;
    not_long = asked.not_long;
    class_type = asked.class_type;
    head_type = asked.head_type;
    beginner = asked.beginner;
  }

module _ {S : Type 0} (env : Env S) (Inv : S → Type 0) (lawful : IsLawful env.store Inv)
    (fair : (db : S) → Inv db → Inv (env.others db)) where
  Kept-result :
      (vs : Values) (s : Conn S) (c : Character)
      → Inv (env.others s.db)
      → IsAsked env vs s c
      → (r : Result StoreError Character) → (env.store.create_character c (env.others s.db)).0 ≡ r
      → Kept env vs s (env.store.create_character c (env.others s.db)).1
  Kept-result vs s c inv asked (err e) refused =
      inr (inl (lawful.refused c e (env.others s.db) inv refused))
  Kept-result vs s c inv asked (ok c') created =
      let (data_of, free, stored, others) = lawful.created c c' (env.others s.db) inv created in
      inr (
        inr (
          c',
          subst (IsAsked env vs s) (sym data_of)
              (IsAsked-stored env vs s c c'.id c'.created_at asked),
          free,
          stored,
          others,
        ))

  -- Over a store that keeps the interface's laws, whose invariant others keep too, a request for a
  -- new character keeps the invariant, and adds at most one record to those that others left: a
  -- character that was asked for, under an id that was free. Every other record stays as it was.
  pub handle_create_player-Kept :
      (vs : Values) (s : Conn S)
      → Inv s.db
      → Inv (handle_create_player env vs s).1.db
        × Kept env vs s (handle_create_player env vs s).1.db
  handle_create_player-Kept vs s inv = elim (handle_create_player-db env vs s) [
    | inl (why, same) ↦ (subst Inv (sym same) inv, inl (why, same))
    | inr (c, asked, made) ↦
        let left = fair s.db inv in
        subst (λ db. Inv db × Kept env vs s db) (sym made)
          (lawful.create_keeps c (env.others s.db) left, Kept-result vs s c left asked _ refl)
  ]
