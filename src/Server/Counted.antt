-- ===== src/Server/Counted.antt =====
-- cmd/server/main.go: the WaitGroup counts the connections that run.
use rom_server_poc.Prelude.{ℕ, ◌+◌, ◌≡◌, ◌≢◌, refl, sym, subst, Bool, true, false, List, arith}
use rom_server_poc.Prelude.Result.{Result, ok, err, ok-ne-err, ok-inj}
use rom_server_poc.Config.{Config, ConfigError}
use rom_server_poc.Server.{
  Phase, handshaking, checking, receiving, dispatching, finished, Main, accepting, returned, Server,
  start, Actor, Move, keyed, refused, stops, waits, received, ignored, broken, handled, failed,
  greets, unheard, writes, written, unwritten, greeting, writing, released, after_error, Label,
  Step, cancel, close_listener, accept, accept_failed, drained, moves,
}
use rom_server_poc.Server.Phases.{total, total-append, total-set_phase, total-phase_of}

abbrev pub counts : Phase → ℕ
counts finished = 0
counts _ = 1

-- The connections whose goroutines run.
abbrev pub running : List Phase → ℕ
running = total counts

pub data Reach : Server → Type 0 where
  begin :
      (r : Result ConfigError Config) (database listener : Bool) (s : Server)
      → start r database listener ≡ ok s
      → Reach s
  next : {s t : Server} {l : Label} → Reach s → Step l s t → Reach t

pub record Counted (s : Server) : Type 0 where
  pub counter : s.wg ≡ running s.conns
  pub over : s.main ≡ returned → running s.conns ≡ 0

mover_runs : {who : Actor} {c : Bool} {p q : Phase} → Move who c p q → counts p ≡ 1
mover_runs greets = refl
mover_runs refused = refl
mover_runs keyed = refl
mover_runs unheard = refl
mover_runs stops = refl
mover_runs waits = refl
mover_runs (received n) = refl
mover_runs ignored = refl
mover_runs broken = refl
mover_runs (writes n) = refl
mover_runs (written n) = refl
mover_runs (unwritten n) = refl
mover_runs (handled n) = refl
mover_runs (failed n) = refl

counts-released : (p : Phase) → counts p + released p ≡ 1
counts-released handshaking = refl
counts-released checking = refl
counts-released receiving = refl
counts-released greeting = refl
counts-released (dispatching n) = refl
counts-released (writing n) = refl
counts-released finished = refl

not_returned : (c : Bool) → after_error c ≢ returned
not_returned true e = cc
not_returned false e = cc

Step-Counted : {l : Label} {s t : Server} → Step l s t → Counted s → Counted t
Step-Counted (cancel s) h = record { counter = h.counter; over = h.over }
Step-Counted (close_listener s e) h = record { counter = h.counter; over = h.over }
Step-Counted (accept s e open_) h = record {
  counter = omega (arith, h.counter, total-append counts s.conns);
  over = λ r. absurd (clash s.main e r);
}
  where
    clash : (m : Main) → m ≡ accepting → m ≡ returned → ⊥
    clash m a b = cc
Step-Counted (accept_failed s e) h = record {
  counter = h.counter;
  over = λ r. absurd (not_returned s.cancelled r);
}
Step-Counted (drained s e empty) h = record {
  counter = h.counter;
  over = λ r. omega (arith, h.counter, empty);
}
Step-Counted (moves s who i p q l named there move) h =
    let total = total-set_phase counts i p q s.conns there in
    let one = mover_runs move in
    let leaves = counts-released q in
    let there_runs = total-phase_of counts i p s.conns there in
    record {
      counter = omega (arith, h.counter);
      over = λ r. let nothing = h.over r in absurd (omega arith);
    }

start-Counted :
    (r : Result ConfigError Config) (database listener : Bool) (s : Server)
    → start r database listener ≡ ok s
    → Counted s
unfolding start
start-Counted (err e) database listener s h = absurd (ok-ne-err (sym h))
start-Counted (ok cfg) false listener s h = absurd (ok-ne-err (sym h))
start-Counted (ok cfg) true false s h = absurd (ok-ne-err (sym h))
start-Counted (ok cfg) true true s h =
    subst Counted (ok-inj h)
      (record { counter = unfold total in refl; over = λ r. unfold total in refl })

pub Reach-Counted : {s : Server} → Reach s → Counted s
Reach-Counted (begin r database listener s e) = start-Counted r database listener s e
Reach-Counted (next r st) = Step-Counted st (Reach-Counted r)
