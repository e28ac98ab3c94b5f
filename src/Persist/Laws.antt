-- ===== src/Persist/Laws.antt =====
-- internal/persist/store.go: the contract of the store, by what get_character reads.
use mathlib.Core.List.{Memᴰ}
use rom_server_poc.Prelude.{ℕ, ◌+◌, ◌%◌, ◌^◌, ◌≤◌, ◌≡◌, ◌≢◌, ◌↔◌, List, [], ◌∷◌, All}
use rom_server_poc.Prelude.Result.{ok, err}
use rom_server_poc.Persist.{StoreError, not_found, Character, Store}

-- The signed order of an int32.
abbrev pub signed32 : ℕ → ℕ
signed32 n = (n + 2 ^ 31) % 2 ^ 32

abbrev pub BySlot : List Character → Type 0
BySlot [] = Unit {0}
BySlot (c ∷ cs) =
    All (λ (d : Character). signed32 c.slot_index ≤ signed32 d.slot_index) cs × BySlot cs

module _ {S : Type 0} (store : Store S) where
  abbrev pub SameRecords : S → S → Type 0
  SameRecords s s' = (id : ℕ) → store.get_character id s' ≡ store.get_character id s

  -- A record with the data of `c` is stored under an id that was free, and nothing else changes.
  abbrev pub Created : Character → Character → S → S → Type 0
  Created c c' s s' =
      (c' ≡ record c { id = c'.id; created_at = c'.created_at })
      × (store.get_character c'.id s ≡ err not_found)
      × (store.get_character c'.id s' ≡ ok c')
      × ((id : ℕ) → id ≢ c'.id → store.get_character id s' ≡ store.get_character id s)

  -- The record of `id` has the new position, and nothing else changes.
  abbrev pub Moved : ℕ → ℕ → ℕ → ℕ → ℕ → ℕ → S → S → Type 0
  Moved id map_id x y z dir s s' =
      (c : Character) × (store.get_character id s ≡ ok c)
      × (store.get_character id s'
          ≡ ok (record c { map_id = map_id; x = x; y = y; z = z; dir = dir }))
      × ((j : ℕ) → j ≢ id → store.get_character j s' ≡ store.get_character j s)

  pub record IsLawful (Inv : S → Type 0) : Type 0 where
    pub upsert_keeps :
        (id : ℕ) (code : List ℕ) (s : S)
        → Inv s
        → Inv (store.upsert_account id code s).1 × SameRecords s (store.upsert_account id code s).1
    pub options_keep :
        (id options : ℕ) (s : S)
        → Inv s
        → Inv (store.save_options id options s).1
          × SameRecords s (store.save_options id options s).1
    pub create_keeps : (c : Character) (s : S) → Inv s → Inv (store.create_character c s).1
    pub created :
        (c c' : Character) (s : S)
        → Inv s
        → (store.create_character c s).0 ≡ ok c'
        → Created c c' s (store.create_character c s).1
    pub refused :
        (c : Character) (e : StoreError) (s : S)
        → Inv s
        → (store.create_character c s).0 ≡ err e
        → SameRecords s (store.create_character c s).1
    pub position_keeps :
        (id map_id x y z dir : ℕ) (s : S)
        → Inv s
        → Inv (store.save_position id map_id x y z dir s).1
    pub moved :
        (id map_id x y z dir : ℕ) (s : S)
        → Inv s
        → (store.save_position id map_id x y z dir s).0 ≡ ok tt
        → Moved id map_id x y z dir s (store.save_position id map_id x y z dir s).1
    pub unmoved :
        (id map_id x y z dir : ℕ) (e : StoreError) (s : S)
        → Inv s
        → (store.save_position id map_id x y z dir s).0 ≡ err e
        → SameRecords s (store.save_position id map_id x y z dir s).1
    pub listed :
        (account : ℕ) (cs : List Character) (s : S)
        → Inv s
        → store.list_characters account s ≡ ok cs
        → (c : Character)
        → Memᴰ c cs
          ↔ ((store.get_character c.id s ≡ ok c) × (c.account_id ≡ account) × (c.deleted_time ≡ 0))
    pub ordered :
        (account : ℕ) (cs : List Character) (s : S)
        → Inv s
        → store.list_characters account s ≡ ok cs
        → BySlot cs
