-- ===== src/World/Run.antt =====
-- The goroutine and its queue, under any interleaving with the goroutines that enqueue.
use rom_server_poc.Prelude.{
  ℕ, ◌≤◌, ◌≡◌, refl, sym, ap, subst, ◌∙◌, none, List, [], ◌∷◌, ◌++◌, arith, length, length-append,
  append_assoc, append-nil,
}
use mathlib.Core.List.{foldl, foldl-append}
use rom_server_poc.World.{
  Players, find, Command, execute, queue_capacity, World, Step, enqueue, give_up, receive, tick,
  cancel, stop, leave, Reach, start, next,
}
use rom_server_poc.World.Players.{find-execute, OwnKeys, execute-OwnKeys}

-- The players after the commands, one at a time.
abbrev pub run_all : List Command → Players
run_all = foldl execute []

-- The commands sent are those done and then those queued; the players are those of the done ones.
pub record IsSerial (sent : List Command) (w : World) : Type 0 where
  pub done : List Command
  pub in_order : done ++ w.cmds ≡ sent
  pub executed : w.players ≡ run_all done
  pub bounded : length w.cmds ≤ queue_capacity

Step-IsSerial :
    {sent cs : List Command} {w v : World} → Step w cs v → IsSerial sent w → IsSerial (sent ++ cs) v
Step-IsSerial {w} (enqueue c room) s = record {
  done = s.done;
  in_order = rw (← append_assoc, s.in_order);
  executed = s.executed;
  bounded = omega (arith, length-append {0} w.cmds (c ∷ []));
}
Step-IsSerial (give_up c h) s = record {
  done = s.done;
  in_order = rw append-nil s.in_order;
  executed = s.executed;
  bounded = s.bounded;
}
Step-IsSerial {w} (receive c rest h e) s = record {
  done = s.done ++ c ∷ [];
  in_order = rw (append_assoc, append-nil) (rw e at s.in_order);
  executed = rw foldl-append (ap (λ ps. execute ps c) s.executed);
  bounded = omega (arith, ap length e, s.bounded);
}
Step-IsSerial (tick h) s = record {
  done = s.done;
  in_order = rw append-nil s.in_order;
  executed = s.executed;
  bounded = s.bounded;
}
Step-IsSerial cancel s = record {
  done = s.done;
  in_order = rw append-nil s.in_order;
  executed = s.executed;
  bounded = s.bounded;
}
Step-IsSerial (stop h) s = record {
  done = s.done;
  in_order = rw append-nil s.in_order;
  executed = s.executed;
  bounded = s.bounded;
}

-- In every reachable world the players are what the commands make of an empty world that were
-- enqueued first, executed one by one in that order; the queue holds the others, at most 256.
pub Reach-IsSerial : {sent : List Command} {w : World} → Reach sent w → IsSerial sent w
Reach-IsSerial start = record { done = []; in_order = refl; executed = refl; bounded = omega arith }
Reach-IsSerial (next r st) = Step-IsSerial st (Reach-IsSerial r)

run_all-OwnKeys : (ps : Players) (cs : List Command) → OwnKeys ps → OwnKeys (foldl execute ps cs)
run_all-OwnKeys ps [] own = own
run_all-OwnKeys ps (c ∷ cs) own = run_all-OwnKeys (execute ps c) cs (execute-OwnKeys c ps own)

-- In every reachable world a player is found under its own character's id.
pub Reach-OwnKeys : {sent : List Command} {w : World} → Reach sent w → OwnKeys w.players
Reach-OwnKeys r =
    let s = Reach-IsSerial r in
    subst OwnKeys (sym s.executed) (run_all-OwnKeys [] s.done (λ id p e. unfold find in cc))

pub run-leave :
    (id : ℕ) (ps : Players) (cs : List Command)
    → find id (foldl execute ps (cs ++ leave id ∷ [])) ≡ none
run-leave id ps cs =
    rw foldl-append (find-execute id (leave id) (foldl execute ps cs) ∙ ground arith)
