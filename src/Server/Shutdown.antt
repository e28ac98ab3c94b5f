-- ===== src/Server/Shutdown.antt =====
-- cmd/server/main.go: the shutdown of a server whose connections do not wait in Recv.
use rom_server_poc.Prelude.{
  ℕ, zero, suc, ◌+◌, ◌*◌, ◌≤◌, ◌<◌, ◌≡◌, ◌≢◌, refl, sym, subst, ap, Bool, true, false, ◌⊎◌, inl,
  inr, some, List, [], ◌∷◌, arith,
}
use rom_server_poc.Server.{
  greeting, writing, reader, takes, peer, greets, unheard, writes, written, unwritten, client,
  Phase, handshaking, checking, receiving, dispatching, finished, Main, accepting, draining,
  returned, Server, Actor, server, Move, keyed, refused, stops, waits, received, ignored, broken,
  handled, failed, phase_of, advance, after_error, client, Label, inside, label_of, Step, cancel,
  close_listener, accept, accept_failed, drained, moves,
}
use rom_server_poc.Server.Phases.{total, total-set_phase, total-phase_of}
use rom_server_poc.Server.Counted.{counts, running, Reach, next, Counted, Reach-Counted}

-- The server's own steps, and those in which a peer takes what is written to it.
abbrev pub Unprompted : Label → Type 0
Unprompted inside = Unit {0}
Unprompted (takes i) = Unit {0}
Unprompted (peer i) = ⊥

-- Whatever the server does by itself, and its peers by reading, it comes to a state in which run has
-- returned. Steps that change nothing, such as closing a closed listener, do not count.
pub data Returns : Server → Type 0 where
  over : {s : Server} → s.main ≡ returned → Returns s
  onward :
      {s t : Server} {l : Label}
      → Unprompted l
      → Step l s t
      → s ≢ t
      → ((u : Server) (k : Label) → Unprompted k → Step k s u → s ≢ u → Returns u)
      → Returns s

-- Connections in Recv.
abbrev pub in_recv : Phase → ℕ
in_recv receiving = 1
in_recv _ = 0

-- The context is cancelled, the listener closed, and no connection waits for a frame.
pub record Stopping (s : Server) : Type 0 where
  pub told : s.cancelled ≡ true
  pub closed : s.listening ≡ false
  pub none_wait : total in_recv s.conns ≡ 0

-- The steps that a connection has before it, at most.
abbrev ahead : Phase → ℕ
ahead handshaking = 3
ahead greeting = 2
ahead checking = 1
ahead receiving = 0
ahead (dispatching n) = 2 + 2 * n
ahead (writing n) = 3 + 2 * n
ahead finished = 0

abbrev main_ahead : Main → ℕ
main_ahead accepting = 2
main_ahead draining = 1
main_ahead returned = 0

abbrev left : Server → ℕ
left s = main_ahead s.main + total ahead s.conns

Move-ahead :
    {who : Actor} {c : Bool} {p q : Phase}
    → Move who c p q
    → who ≢ client
    → c ≡ true
    → (ahead q < ahead p) × (in_recv q ≡ 0)
Move-ahead greets w e = (omega arith, refl)
Move-ahead refused w e = (omega arith, refl)
Move-ahead keyed w e = (omega arith, refl)
Move-ahead unheard w e = absurd (w refl)
Move-ahead stops w e = (omega arith, refl)
Move-ahead waits w e = cc
Move-ahead (received n) w e = absurd (w refl)
Move-ahead ignored w e = absurd (w refl)
Move-ahead broken w e = absurd (w refl)
Move-ahead (writes n) w e = (omega arith, refl)
Move-ahead (written n) w e = (omega arith, refl)
Move-ahead (unwritten n) w e = absurd (w refl)
Move-ahead (handled n) w e = (omega arith, refl)
Move-ahead (failed n) w e = (omega arith, refl)

Unprompted-client : (who : Actor) (i : ℕ) → Unprompted (label_of who i) → who ≢ client
Unprompted-client server i h e = cc
Unprompted-client reader i h e = cc
Unprompted-client client i h e = h

accept_failed-left :
    (m : Main) (c : Bool) → m ≡ accepting → c ≡ true → main_ahead (after_error c) < main_ahead m
accept_failed-left accepting true e h = omega arith
accept_failed-left draining c e h = cc
accept_failed-left returned c e h = cc
accept_failed-left accepting false e h = cc

drained-left : (m : Main) → m ≡ draining → 0 < main_ahead m
drained-left draining e = omega arith
drained-left accepting e = cc
drained-left returned e = cc

advance-left :
    (s : Server) (i : ℕ) (p q : Phase)
    → phase_of i s.conns ≡ some p
    → ahead q < ahead p
    → left (advance i q s) < left s
advance-left s i p q there lower =
    let todo = total-set_phase ahead i p q s.conns there in omega arith

-- A step of the server's own keeps the server stopping, and changes nothing or leaves less to do.
Step-left :
    {l : Label} {s t : Server}
    → Step l s t
    → Unprompted l
    → Stopping s
    → Stopping t × ((s ≡ t) ⊎ (left t < left s))
Step-left (cancel s) e h = (
  record { told = refl; closed = h.closed; none_wait = h.none_wait },
  inl (ap (λ c. record s { cancelled = c }) h.told),
)
Step-left (close_listener s c) e h = (
  record { told = h.told; closed = refl; none_wait = h.none_wait },
  inl (ap (λ c. record s { listening = c }) h.closed),
)
Step-left (accept s m open_) e h = let no = h.closed in cc
Step-left (accept_failed s m) e h = (
  record { told = h.told; closed = h.closed; none_wait = h.none_wait },
  inr (let less = accept_failed-left s.main s.cancelled m h.told in omega arith),
)
Step-left (drained s m empty) e h = (
  record { told = h.told; closed = h.closed; none_wait = h.none_wait },
  inr (let less = drained-left s.main m in omega arith),
)
Step-left (moves s who i p q l named there move) e h =
    let (lower, no_wait) =
      Move-ahead move (Unprompted-client who i (subst Unprompted named e)) h.told in
    let waiting = total-set_phase in_recv i p q s.conns there in
    let none = h.none_wait in
    (
      record { told = h.told; closed = h.closed; none_wait = omega arith },
      inr (advance-left s i p q there lower),
    )

counts-cases : (p : Phase) → (counts p ≡ 1) ⊎ (counts p ≡ 0)
counts-cases handshaking = inl refl
counts-cases greeting = inl refl
counts-cases checking = inl refl
counts-cases receiving = inl refl
counts-cases (dispatching n) = inl refl
counts-cases (writing n) = inl refl
counts-cases finished = inr refl

find_running :
    (ps : List Phase)
    → 0 < running ps
    → (i : ℕ) × (p : Phase) × (phase_of i ps ≡ some p) × (counts p ≡ 1)
unfolding total phase_of
find_running [] h = absurd (omega arith)
find_running (p ∷ ps) h = elim (counts-cases p) [
  | inl one ↦ (0, p, refl, one)
  | inr none ↦ let (i, q, there, one) = find_running ps (omega arith) in (suc i, q, there, one)
]

-- A running connection that is not in Recv can go on without a frame from its peer.
next_move :
    (p : Phase)
    → counts p ≡ 1
    → in_recv p ≡ 0
    → (who : Actor) × (q : Phase) × ((i : ℕ) → Unprompted (label_of who i)) × Move who true p q
next_move handshaking h w = (server, greeting, λ i. tt, greets)
next_move greeting h w = (reader, checking, λ i. tt, keyed)
next_move checking h w = (server, finished, λ i. tt, stops)
next_move receiving h w = absurd (omega arith)
next_move (dispatching n) h w = (server, checking, λ i. tt, handled n)
next_move (writing n) h w = (reader, dispatching n, λ i. tt, written n)
next_move finished h w = absurd (omega arith)

main-cases : (m : Main) → (m ≡ accepting) ⊎ ((m ≡ draining) ⊎ (m ≡ returned))
main-cases accepting = inl refl
main-cases draining = inr (inl refl)
main-cases returned = inr (inr refl)

abbrev Moves : Server → Type 0
Moves s = (l : Label) × (t : Server) × Unprompted l × Step l s t × (left t < left s)

conn-Moves : (s : Server) → Stopping s → 0 < running s.conns → Moves s
conn-Moves s h some_run =
    let (i, p, there, one) = find_running s.conns some_run in
    let below = total-phase_of in_recv i p s.conns there in
    let none = h.none_wait in
    let (who, q, free, move) = next_move p one (omega arith) in
    let lower = (Move-ahead move (Unprompted-client who i (free i)) refl).0 in
    (
      label_of who i,
      advance i q s,
      free i,
      moves s who i p q (label_of who i) refl there (subst (λ c. Move who c p q) (sym h.told) move),
      advance-left s i p q there lower,
    )

-- A stopping server whose run has not returned has a step to take.
progress : (s : Server) → Stopping s → Counted s → (s.main ≡ returned) ⊎ Moves s
progress s h counted = elim (main-cases s.main) [
  | inl m ↦
      let less = accept_failed-left s.main s.cancelled m h.told in
      inr (inside, _, tt, accept_failed s m, omega arith)
  | inr (inr m) ↦ inl m
  | inr (inl m) ↦ elim (zero-cases s.wg) [
    | inl empty ↦
        let less = drained-left s.main m in inr (inside, _, tt, drained s m empty, omega arith)
    | inr some_run ↦ let counter = counted.counter in inr (conn-Moves s h (omega arith))
  ]
]
  where
    zero-cases : (n : ℕ) → (n ≡ 0) ⊎ (0 < n)
    zero-cases zero = inl refl
    zero-cases (suc n) = inr (omega arith)

changed_less :
    {s u : Server} (n : ℕ) → left s ≤ suc n → s ≢ u → (s ≡ u) ⊎ (left u < left s) → left u ≤ n
changed_less n bound ne (inl same) = absurd (ne same)
changed_less n bound ne (inr less) = omega arith

less-ne : {s t : Server} → left t < left s → s ≢ t
less-ne less e = let same = ap left e in absurd (omega arith)

left-Returns : (n : ℕ) {s : Server} → left s ≤ n → Reach s → Stopping s → Returns s
left-Returns zero {s = s} bound r h = elim (progress s h (Reach-Counted r)) [
  | inl m ↦ over m
  | inr (_, t, _, st, less) ↦ absurd (omega arith)
]
left-Returns (suc n) {s = s} bound r h = elim (progress s h (Reach-Counted r)) [
  | inl m ↦ over m
  | inr (l, t, free, st, less) ↦ onward free st (less-ne less) (λ u k free' st' ne.
      let (stopping, way) = Step-left st' free' h in
      left-Returns n (changed_less n bound ne way) (next r st') stopping)
]

-- Once the context is cancelled and the listener closed, and while no connection waits in Recv, run
-- returns if the peers read what is written to them: whichever steps the server's goroutines take,
-- and whichever peers read, as long as the steps change something and the peers send nothing and do
-- not close, there is a next step until run has returned, and it comes to that. The next step may be
-- a peer's reading, without which a write waits for ever.
pub shutdown-Returns : {s : Server} → Reach s → Stopping s → Returns s
shutdown-Returns {s = s} r h = left-Returns (left s) (omega arith) r h
