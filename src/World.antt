-- ===== src/World.antt =====
-- internal/world/world.go: the players in the world, and the commands that its goroutine runs.
pub mod Players
pub mod Run
mod Tests
use rom_server_poc.Prelude.{
  ℕ, zero, suc, ◌<◌, Bool, true, false, Option, none, some, List, [], ◌∷◌, ◌++◌, ◌==◌, ◌≡◌,
  if◌then◌else◌, length,
}

-- `conn` tells the connections apart; a float32 is its bit pattern, an int64 its 64-bit pattern.
pub record Player : Type 0 where
  pub oid : ℕ
  pub character_id : ℕ
  pub account_id : ℕ
  pub name : List ℕ
  pub map_id : ℕ
  pub x : ℕ
  pub y : ℕ
  pub z : ℕ
  pub dir : ℕ
  pub conn : ℕ

-- `map[int64]*Player`
abbrev pub Players : Type 0
Players = List (ℕ × Player)

unfoldable pub find : ℕ → Players → Option Player
find id [] = none
find id ((k, p) ∷ ps) = if k == id then some p else find id ps

unfoldable pub put : ℕ → Player → Players → Players
put id q [] = (id, q) ∷ []
put id q ((k, p) ∷ ps) = if k == id then (k, q) ∷ ps else (k, p) ∷ put id q ps

unfoldable pub delete : ℕ → Players → Players
delete id [] = []
delete id ((k, p) ∷ ps) = let rest = delete id ps in if k == id then rest else (k, p) ∷ rest

-- The functions that Join, Leave and Move enqueue.
pub data Command : Type 0 where
  join : Player → Command
  leave : ℕ → Command
  move : ℕ → ℕ → ℕ → ℕ → ℕ → Command

abbrev pub move_found : Players → ℕ → ℕ → ℕ → ℕ → ℕ → Option Player → Players
move_found ps id x y z dir none = ps
move_found ps id x y z dir (some p) = put id (record p { x = x; y = y; z = z; dir = dir }) ps

abbrev pub leave_found : Players → ℕ → Option Player → Players
leave_found ps id none = ps
leave_found ps id (some p) = delete id ps

unfoldable pub execute : Players → Command → Players
unfolding find put delete
execute ps (join p) = put p.character_id p ps
execute ps (leave id) = leave_found ps id (find id ps)
execute ps (move id x y z dir) = move_found ps id x y z dir (find id ps)

abbrev pub queue_capacity : ℕ
queue_capacity = 256

-- `cancelled` is that the context is done, `running` that the goroutine of Run has not returned.
pub record World : Type 0 where
  pub players : Players
  pub cmds : List Command
  pub cancelled : Bool
  pub running : Bool

abbrev pub new : World
new = record { players = []; cmds = []; cancelled = false; running = true }

-- One step of the world or of its environment; the list is what the step enqueues.
pub data Step (w : World) : List Command → World → Type 0 where
  -- `do` sends, which blocks while the queue is full
  enqueue :
      (c : Command)
      → length w.cmds < queue_capacity
      → Step w (c ∷ []) (record w { cmds = w.cmds ++ c ∷ [] })
  -- `do` gives up, the command is lost
  give_up : (c : Command) → w.cancelled ≡ true → Step w [] w
  -- Run takes a command and executes it
  receive :
      (c : Command) (rest : List Command)
      → w.running ≡ true
      → w.cmds ≡ c ∷ rest
      → Step w [] (record w { players = execute w.players c; cmds = rest })
  -- the ticker: `step` changes nothing yet
  tick : w.running ≡ true → Step w [] w
  cancel : Step w [] (record w { cancelled = true })
  -- Run sees that the context is done
  stop : w.cancelled ≡ true → Step w [] (record w { running = false })

-- The worlds that `New` leads to, with all commands that were enqueued on the way.
pub data Reach : List Command → World → Type 0 where
  start : Reach [] new
  next : {sent cs : List Command} {w v : World} → Reach sent w → Step w cs v → Reach (sent ++ cs) v
