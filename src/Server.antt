-- ===== src/Server.antt =====
-- cmd/server/main.go: the accept loop, its connections and the shutdown, with the loop of Serve
-- (internal/game/handler.go) as far as its waiting goes. Each step is one of the server's goroutines
-- or of a peer.
pub mod Counted
pub mod Drain
mod Phases
pub mod Shutdown
mod Tests
use rom_server_poc.Prelude.{
  ℕ, zero, suc, ◌+◌, ◌-◌, ◌≡◌, Bool, true, false, Option, none, some, List, [], ◌∷◌, ◌++◌, length,
}
use rom_server_poc.Prelude.Result.{Result, ok, err}
use rom_server_poc.Config.{Config, ConfigError}

-- Where a connection's goroutine stands: before the handshake's write, in it, at the head of Serve's
-- loop, in Recv, with a message, in a write of its handler, or gone. The number is that of the
-- writes that the handler has before it.
pub data Phase : Type 0 where
  handshaking greeting checking receiving : Phase
  dispatching writing : ℕ → Phase
  finished : Phase

-- Where run stands.
pub data Main : Type 0 where
  accepting draining returned : Main

pub record Server : Type 0 where
  pub cancelled : Bool
  pub listening : Bool
  pub main : Main
  pub conns : List Phase
  -- the WaitGroup's counter
  pub wg : ℕ

pub data RunError : Type 0 where
  config_failed : ConfigError → RunError
  database_failed listen_failed : RunError

-- What run does before its loop: the configuration, the database, the listener.
unfoldable pub start : Result ConfigError Config → Bool → Bool → Result RunError Server
start (err e) database listener = err (config_failed e)
start (ok cfg) false listener = err database_failed
start (ok cfg) true false = err listen_failed
start (ok cfg) true true =
    ok (record { cancelled = false; listening = true; main = accepting; conns = []; wg = 0 })

-- Who moves: the server, or the connection's peer, which sends or closes, or takes what is written.
pub data Actor : Type 0 where
  server client reader : Actor

-- One connection's goroutine. Neither Recv nor a write has a deadline: only the peer ends them, the
-- one by a frame or by closing, the other by taking the bytes or by closing. The calls of the store
-- and of the region service take the context or a timeout, and end.
pub data Move : Actor → Bool → Phase → Phase → Type 0 where
  greets : {c : Bool} → Move server c handshaking greeting
  refused : {c : Bool} → Move server c handshaking finished
  keyed : {c : Bool} → Move reader c greeting checking
  unheard : {c : Bool} → Move client c greeting finished
  stops : Move server true checking finished
  waits : Move server false checking receiving
  received : {c : Bool} (writes : ℕ) → Move client c receiving (dispatching writes)
  ignored : {c : Bool} → Move client c receiving checking
  broken : {c : Bool} → Move client c receiving finished
  writes : {c : Bool} (more : ℕ) → Move server c (dispatching (suc more)) (writing more)
  written : {c : Bool} (more : ℕ) → Move reader c (writing more) (dispatching more)
  unwritten : {c : Bool} (more : ℕ) → Move client c (writing more) finished
  handled : {c : Bool} (more : ℕ) → Move server c (dispatching more) checking
  failed : {c : Bool} (more : ℕ) → Move server c (dispatching more) finished

unfoldable pub phase_of : ℕ → List Phase → Option Phase
phase_of i [] = none
phase_of zero (p ∷ ps) = some p
phase_of (suc i) (p ∷ ps) = phase_of i ps

unfoldable pub set_phase : ℕ → Phase → List Phase → List Phase
set_phase i q [] = []
set_phase zero q (p ∷ ps) = q ∷ ps
set_phase (suc i) q (p ∷ ps) = p ∷ set_phase i q ps

abbrev pub released : Phase → ℕ
released finished = 1
released _ = 0

-- `defer wg.Done()` runs at the goroutine's end.
abbrev pub advance : ℕ → Phase → Server → Server
advance i q s = record s { conns = set_phase i q s.conns; wg = s.wg - released q }

-- `if ctx.Err() != nil { break }`
abbrev pub after_error : Bool → Main
after_error true = draining
after_error false = accepting

-- `peer i` and `takes i` are the acts of connection `i`'s peer.
pub data Label : Type 0 where
  inside : Label
  peer takes : ℕ → Label

abbrev pub label_of : Actor → ℕ → Label
label_of server i = inside
label_of client i = peer i
label_of reader i = takes i

pub data Step : Label → Server → Server → Type 0 where
  cancel : (s : Server) → Step inside s (record s { cancelled = true })
  close_listener :
      (s : Server) → s.cancelled ≡ true → Step inside s (record s { listening = false })
  accept :
      (s : Server)
      → s.main ≡ accepting
      → s.listening ≡ true
      → Step inside s (record s { conns = s.conns ++ handshaking ∷ []; wg = s.wg + 1 })
  accept_failed :
      (s : Server)
      → s.main ≡ accepting
      → Step inside s (record s { main = after_error s.cancelled })
  drained :
      (s : Server) → s.main ≡ draining → s.wg ≡ 0 → Step inside s (record s { main = returned })
  moves :
      (s : Server) (who : Actor) (i : ℕ) (p q : Phase) (l : Label)
      → l ≡ label_of who i
      → phase_of i s.conns ≡ some p
      → Move who s.cancelled p q
      → Step l s (advance i q s)
