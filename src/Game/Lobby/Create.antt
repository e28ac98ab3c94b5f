-- ===== src/Game/Lobby/Create.antt =====
-- handleCreatePlayer, against what the store gets to see.
use Prim.Native.String.{String}
use rom_server_poc.Prelude.{
  ℕ, ◌%◌, ◌^◌, ◌≤◌, ◌<◌, ◌≡◌, refl, ◌⊎◌, inl, inr, Bool-cases, ltb, length, arith, ◌&&◌, Bool, true,
  false, Option, none, some, List, if◌then◌else◌,
}
use rom_server_poc.Prelude.Result.{Result, ok, err}
use rom_server_poc.Protocol.Primitives.{CodecError}
use rom_server_poc.Protocol.Codec.{encode}
use rom_server_poc.Protocol.Zero.{zero_values}
use rom_server_poc.Protocol.Value.{Values, get}
use rom_server_poc.Persist.{StoreError, name_taken, slot_taken, not_found, other, Character}
use rom_server_poc.Game.Session.{
  Env, Conn, Action, HandlerError, continue, lift_codec, lift_store, written, ◌>>=◌, send, zeroed,
  as_string, as_uint64,
}
use rom_server_poc.Game.Lobby.Slots.{FirstFree, free_slot-FirstFree}
use rom_server_poc.Game.Lobby.{
  bad_name, trim_space, free_slot, requested, answer_created, create_in_slot, send_create_result,
  handle_create_player, to_lobby_player_info, start_map_for_class,
}

module _ {S : Type 0} where
  -- The action leaves the store alone.
  abbrev KeepsStore : {A : Type 0} → Action S A → Type 0
  KeepsStore m = (s : Conn S) → (m s).1.db ≡ s.db

  written-KeepsStore : (up : Bool) (name : String) (vs : Values) → KeepsStore (written up name vs)
  written-KeepsStore true name vs s = refl
  written-KeepsStore false name vs s = refl

  module _ (env : Env S) where
    sent-KeepsStore :
        (r : Result CodecError (List ℕ)) (name : String) (vs : Values) (s : Conn S)
        → (continue (lift_codec r s).0 (λ _. written (s.link_up && env.writes name) name vs) s).1.db
          ≡ s.db
    sent-KeepsStore (ok bytes) name vs s =
        written-KeepsStore (s.link_up && env.writes name) name vs s
    sent-KeepsStore (err e) name vs s = refl

    send-KeepsStore : (name : String) (vs : Values) → KeepsStore (send env name vs)
    unfolding send
    send-KeepsStore name vs s =
        sent-KeepsStore (encode env.floats env.catalog env.fuel name vs) name vs s

    zeroed-KeepsStore :
        (r : Result CodecError Values) (name : String) (f : Values → Values)
        → KeepsStore (lift_codec r >>= λ reply. send env name (f reply))
    zeroed-KeepsStore (ok reply) name f s = send-KeepsStore name (f reply) s
    zeroed-KeepsStore (err c) name f s = refl

    send_create_result-KeepsStore :
        (result : ℕ) (player : Option Values) → KeepsStore (send_create_result env result player)
    unfolding send_create_result zeroed
    send_create_result-KeepsStore result player =
        zeroed-KeepsStore (zero_values env.catalog env.fuel "S2C_CreatePlayer") "S2C_CreatePlayer" _

    answer_created-KeepsStore :
        (r : Result StoreError Character) → KeepsStore (answer_created env r)
    answer_created-KeepsStore (ok created) s =
        send_create_result-KeepsStore 0 (some (to_lobby_player_info created)) s
    answer_created-KeepsStore (err name_taken) s = send_create_result-KeepsStore 50102 none s
    answer_created-KeepsStore (err slot_taken) s = send_create_result-KeepsStore 55001 none s
    answer_created-KeepsStore (err not_found) s = refl
    answer_created-KeepsStore (err other) s = refl

    -- The name that the message asks for.
    abbrev pub asked_name : Values → List ℕ
    asked_name vs = trim_space (as_string (get "m_name" vs))

    -- A character as the message `vs` asks for it in the session `s`.
    pub record IsAsked (vs : Values) (s : Conn S) (c : Character) : Type 0 where
      pub characters : List Character
      pub listed : env.store.list_characters s.account_id s.db ≡ ok characters
      pub free : FirstFree 0 3 characters (some c.slot_index)
      pub owner : c.account_id ≡ s.account_id
      pub named : c.name ≡ asked_name vs
      pub not_empty : 1 ≤ length c.name
      pub not_long : length c.name ≤ 16
      pub class_type : c.class_type ≡ as_uint64 (get "m_classType" vs) % 2 ^ 32
      pub head_type : c.head_type ≡ as_uint64 (get "m_headType" vs) % 2 ^ 32
      pub beginner : (c.level ≡ 1) × (c.map_id ≡ 501) × (c.deleted_time ≡ 0)

    -- Why no character is asked for.
    pub data Declined (vs : Values) (s : Conn S) : Type 0 where
      no_name : length (asked_name vs) ≡ 0 → Declined vs s
      long_name : 16 < length (asked_name vs) → Declined vs s
      no_list :
          (e : StoreError) → env.store.list_characters s.account_id s.db ≡ err e → Declined vs s
      no_slot :
          (characters : List Character)
          → env.store.list_characters s.account_id s.db ≡ ok characters
          → FirstFree 0 3 characters none
          → Declined vs s

    abbrev CreateEnds : Values → Conn S → Conn S → Type 0
    CreateEnds vs s t =
        (Declined vs s × (t.db ≡ s.db))
        ⊎ ((c : Character) × IsAsked vs s c
            × (t.db ≡ (env.store.create_character c (env.others s.db)).1))

    bad_name-Declined : (vs : Values) (s : Conn S) → bad_name (asked_name vs) ≡ true → Declined vs s
    bad_name-Declined vs s bad = elim (Bool-cases (ltb (length (asked_name vs)) 1)) [
      | inl short ↦ no_name (ground arith)
      | inr long ↦ long_name (ground arith)
    ]

    start_map_lem : (class_type : ℕ) → start_map_for_class class_type ≡ 501
    unfolding start_map_for_class
    start_map_lem class_type = ground arith

    create_in_slot-CreateEnds :
        (vs : Values) (s : Conn S) (characters : List Character) (o : Option ℕ)
        → env.store.list_characters s.account_id s.db ≡ ok characters
        → bad_name (asked_name vs) ≡ false
        → FirstFree 0 3 characters o
        → CreateEnds vs s
            (create_in_slot env
              (asked_name vs)
              (as_uint64 (get "m_classType" vs))
              (as_uint64 (get "m_headType" vs))
              o
              s).1
    create_in_slot-CreateEnds vs s characters none listed good full =
        inl (no_slot characters listed full, send_create_result-KeepsStore 55001 none s)
    create_in_slot-CreateEnds vs s characters (some slot) listed good free =
        let c =
          requested env s.account_id slot (asked_name vs) (as_uint64 (get "m_classType" vs))
            (as_uint64 (get "m_headType" vs)) in
        let created = env.store.create_character c (env.others s.db) in
        inr (
          c,
          record {
            characters = characters;
            listed = listed;
            free = free;
            owner = refl;
            named = refl;
            not_empty = ground arith;
            not_long = ground arith;
            class_type = refl;
            head_type = refl;
            beginner = (refl, start_map_lem c.class_type, refl);
          },
          answer_created-KeepsStore created.0 (record s { db = created.1 }),
        )

    listed-CreateEnds :
        (vs : Values) (s : Conn S) (r : Result StoreError (List Character))
        → env.store.list_characters s.account_id s.db ≡ r
        → bad_name (asked_name vs) ≡ false
        → CreateEnds vs s
            ((lift_store r >>= λ characters.
                create_in_slot env
                  (asked_name vs)
                  (as_uint64 (get "m_classType" vs))
                  (as_uint64 (get "m_headType" vs))
                  (free_slot characters))
              s).1
    listed-CreateEnds vs s (err e) h good = inl (no_list e h, refl)
    listed-CreateEnds vs s (ok characters) h good =
        create_in_slot-CreateEnds vs s characters (free_slot characters) h good
          (free_slot-FirstFree characters)

    if-CreateEnds :
        {A : Type 0} (vs : Values) (s : Conn S) (b : Bool) (x y : Result HandlerError A × Conn S)
        → (b ≡ true → CreateEnds vs s x.1)
        → (b ≡ false → CreateEnds vs s y.1)
        → CreateEnds vs s (if b then x else y).1
    if-CreateEnds vs s true x y hx hy = hx refl
    if-CreateEnds vs s false x y hx hy = hy refl

    -- A request for a new character leaves the store alone, or makes one create_character call, after
    -- what others have done since the list was read. In the first case the trimmed name is empty or
    -- has more than 16 runes, or the account's characters cannot be listed, or they fill slots 0 to
    -- 2. In the second the character belongs to the account, has the trimmed name, of 1 to 16 runes,
    -- the first slot that no listed character has, the class and the head of the message, level 1
    -- and map 501.
    pub handle_create_player-db :
        (vs : Values) (s : Conn S)
        → (Declined vs s × ((handle_create_player env vs s).1.db ≡ s.db))
          ⊎ ((c : Character) × IsAsked vs s c
              × ((handle_create_player env vs s).1.db
                  ≡ (env.store.create_character c (env.others s.db)).1))
    unfolding handle_create_player
    handle_create_player-db vs s =
        if-CreateEnds vs s (bad_name (asked_name vs)) _ _
          (λ bad. inl (bad_name-Declined vs s bad, send_create_result-KeepsStore 26 none s))
          (listed-CreateEnds vs s (env.store.list_characters s.account_id s.db) refl)
