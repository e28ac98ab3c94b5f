-- ===== src/World/Tests.antt =====
-- A world that two connections with one character join, and a run of its goroutine.
use rom_server_poc.Prelude.{ℕ, ◌≡◌, refl, true, none, some, [], ◌∷◌, arith}
use rom_server_poc.World.{
  Player, find, join, leave, move, execute, World, enqueue, receive, cancel, Reach, start, next,
}
use rom_server_poc.World.Players.{find-execute, effect, leave_removes_newcomer, OwnKeys}
use rom_server_poc.World.Run.{IsSerial, Reach-IsSerial, Reach-OwnKeys}

abbrev player : ℕ → Player
player conn = record {
  oid = 1000000030;
  character_id = 30;
  account_id = 7;
  name = 65 ∷ [];
  map_id = 501;
  x = 1;
  y = 2;
  z = 3;
  dir = 4;
  conn = conn;
}

find-execute_example :
    find 30 (execute ((30, player 1) ∷ []) (move 30 5 6 7 8))
    ≡ effect 30 (move 30 5 6 7 8) (find 30 ((30, player 1) ∷ []))
find-execute_example = find-execute 30 (move 30 5 6 7 8) ((30, player 1) ∷ [])

leave_removes_newcomer_example :
    (find 30 (execute (execute [] (join (player 1))) (join (player 2))) ≡ some (player 2))
    × (find 30 (execute (execute (execute [] (join (player 1))) (join (player 2))) (leave 30))
        ≡ none)
leave_removes_newcomer_example = leave_removes_newcomer (player 1) (player 2) [] refl (omega arith)

abbrev one_joined : World
one_joined = record {
  players = execute [] (join (player 1));
  cmds = leave 30 ∷ [];
  cancelled = true;
  running = true;
}

joined : Reach (join (player 1) ∷ leave 30 ∷ []) one_joined
joined =
    next
      (next
        (next (next start (enqueue (join (player 1)) (omega arith)))
          (enqueue (leave 30) (omega arith)))
        (receive (join (player 1)) (leave 30 ∷ []) refl refl))
      cancel

Reach-IsSerial_example : IsSerial (join (player 1) ∷ leave 30 ∷ []) one_joined
Reach-IsSerial_example = Reach-IsSerial joined

Reach-OwnKeys_example : OwnKeys one_joined.players
Reach-OwnKeys_example = Reach-OwnKeys joined
