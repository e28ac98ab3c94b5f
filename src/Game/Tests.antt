-- ===== src/Game/Tests.antt =====
-- Concrete connections: a guest, a player, a map load and a new character.
use rom_server_poc.Prelude.{ℕ, ◌≡◌, refl, true, false, some, List, [], ◌∷◌, ◌⊎◌, arith}
use rom_server_poc.Prelude.Result.{ok}
use rom_server_poc.Protocol.Value.{num, int64, uint64, text, Values, empty, entry, get}
use rom_server_poc.Protocol.Messages.Login.{c2s_session_auth_login}
use rom_server_poc.Protocol.Messages.Lobby.{c2s_player_list}
use rom_server_poc.Protocol.Messages.Enter.{c2s_enter_world}
use rom_server_poc.Persist.{Character}
use rom_server_poc.Game.Session.{Context, Conn, as_int64}
use mathlib.Core.List.{foldl}
use rom_server_poc.World.{find, execute}
use rom_server_poc.Game.Enter.{admit, handle_enter_world, handle_map_enter}
use rom_server_poc.Game.Enter.Token.{handle_map_enter-token}
use rom_server_poc.Game.Lobby.{free_slot, max_character_slots, handle_create_player}
use rom_server_poc.Game.Lobby.Create.{IsAsked, Declined, handle_create_player-db}
use rom_server_poc.Game.Lobby.Slots.{FirstFree, free_slot-FirstFree}
use rom_server_poc.Game.Handler.Keeps.{view}
use rom_server_poc.Game.Handler.Life.{
  Accepted, bound_view, Admitted, Refused, entered_view, player_in, handle_login-outcome,
  handle_enter_world-outcome,
}
use rom_server_poc.Game.Handler.Sound.{
  IsSound, IsFresh, IsFresh-IsSound, serve_loop-IsSound, serve-guest, Departed, serve-departs,
}
use rom_server_poc.Game.Handler.Switch.{switch-leaks}
use rom_server_poc.Game.Samples.{sample_env, sample_conn, sample_character}
use rom_server_poc.Game.Handler.{
  Event, message, unknown_opcode, ended, serve, serve_loop, dispatch, handle_login,
}

abbrev live : Context
live = record { cancelled = false; gives_up = false }

abbrev login_values : ℕ → Values
login_values key =
    entry "m_accountCode" (text (97 ∷ [])) (entry "m_sessionKey" (num int64 key) empty)

abbrev enter_values : ℕ → Values
enter_values slot = entry "m_playerSlotIndex" (num uint64 slot) empty

abbrev playing : List (Event (List Character))
playing =
    message sample_env c2s_session_auth_login (login_values 5)
    ∷ unknown_opcode
    ∷ message sample_env c2s_enter_world (enter_values 0)
    ∷ ended
    ∷ []

abbrev refused : List (Event (List Character))
refused =
    message sample_env c2s_session_auth_login (login_values 6)
    ∷ message sample_env c2s_player_list empty
    ∷ message sample_env c2s_enter_world (enter_values 0)
    ∷ []

sample_conn-IsFresh : IsFresh (view sample_conn)
unfolding view
sample_conn-IsFresh = (refl, refl, refl)

serve-guest_example : (serve live refused sample_conn).commands ≡ []
unfolding serve
serve-guest_example = serve-guest live refused sample_conn sample_conn-IsFresh refl

serve-departs_example :
    (c : Character) × ((serve_loop playing sample_conn).character ≡ some c)
    × Departed live c []
        (serve_loop playing sample_conn).commands
        (serve live playing sample_conn).commands
unfolding serve_loop
serve-departs_example = serve-departs live playing sample_conn [] sample_conn-IsFresh refl

serve_loop-IsSound_example : IsSound (view (serve_loop playing sample_conn))
serve_loop-IsSound_example =
    serve_loop-IsSound playing sample_conn (IsFresh-IsSound (view sample_conn) sample_conn-IsFresh)

handle_login-outcome_example :
    (view (handle_login sample_env (login_values 5) sample_conn).1 ≡ view sample_conn)
    ⊎ ((a : Accepted sample_env 5 (97 ∷ []) sample_conn.db) × (view
            (handle_login sample_env (login_values 5) sample_conn).1
          ≡ bound_view a.session (view sample_conn)))
unfolding get
handle_login-outcome_example = handle_login-outcome sample_env (login_values 5) sample_conn

handle_enter_world-outcome_example :
    (Refused sample_env 0 0 sample_conn.db
      × (view (handle_enter_world sample_env (enter_values 0) sample_conn).1 ≡ view sample_conn))
    ⊎ ((a : Admitted sample_env 0 0 sample_conn.db) × (view
            (handle_enter_world sample_env (enter_values 0) sample_conn).1
          ≡ entered_view sample_env a.character a.token (view sample_conn)))
unfolding get
handle_enter_world-outcome_example =
    handle_enter_world-outcome sample_env (enter_values 0) sample_conn

abbrev entered : Conn (List Character)
entered = admit sample_env (sample_character 30 0) 9 sample_conn

abbrev map_values : Values
map_values = entry "m_warpToken" (num int64 9) (entry "m_mapIndex" (num int64 501) empty)

handle_map_enter-token_example :
    ((c : Character) × (some (sample_character 30 0) ≡ some c)
      × (as_int64 (get "m_warpToken" map_values) ≡ 9))
    × ((handle_map_enter sample_env map_values (handle_map_enter sample_env map_values entered).1).0
        ≡ ok tt)
unfolding handle_map_enter
handle_map_enter-token_example = handle_map_enter-token sample_env map_values entered refl

abbrev create_values : Values
create_values =
    entry "m_name" (text (32 ∷ 66 ∷ 111 ∷ 98 ∷ []))
      (entry "m_classType" (num uint64 2) (entry "m_headType" (num uint64 1) empty))

handle_create_player-db_example :
    (Declined sample_env create_values sample_conn
      × ((handle_create_player sample_env create_values sample_conn).1.db ≡ sample_conn.db))
    ⊎ ((c : Character) × IsAsked sample_env create_values sample_conn c
        × ((handle_create_player sample_env create_values sample_conn).1.db ≡ c ∷ sample_conn.db))
handle_create_player-db_example = handle_create_player-db sample_env create_values sample_conn

free_slot-FirstFree_example :
    FirstFree 0 max_character_slots sample_conn.db (free_slot sample_conn.db)
free_slot-FirstFree_example = free_slot-FirstFree sample_conn.db

-- A session of account 7, which has two characters.
abbrev choosing : Conn (List Character)
choosing = record sample_conn {
  account_id = 7;
  authed = true;
  db = sample_character 30 0 ∷ sample_character 31 1 ∷ [];
}

abbrev switching : List (Event (List Character))
switching =
    message sample_env c2s_enter_world (enter_values 0)
    ∷ message sample_env c2s_enter_world (enter_values 1)
    ∷ ended
    ∷ []

switch-leaks_example :
    find 30 (foldl execute [] (serve live switching choosing).commands)
    ≡ some (player_in sample_env (sample_character 30 0) (view choosing))
unfolding dispatch
switch-leaks_example =
    switch-leaks live sample_env sample_env (enter_values 0) (enter_values 1)
      (sample_character 30 0) (sample_character 31 1) choosing [] refl refl refl refl refl refl refl
      (omega arith)
