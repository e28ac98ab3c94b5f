-- ===== src/Server/Drain.antt =====
-- cmd/server/main.go: the shutdown, and connections that wait in Recv.
use rom_server_poc.Prelude.{
  ℕ, zero, suc, ◌≡◌, ◌≢◌, refl, sym, subst, ◌∙◌, ap, Bool, true, false, Bool-cases, inl, inr, some,
  List, [], ◌∷◌, ◌++◌, ◌==◌, ==_iff, arith,
}
use rom_server_poc.Server.{
  Phase, handshaking, receiving, returned, Server, Actor, client, takes, Move, keyed, refused,
  stops, waits, received, ignored, broken, handled, failed, greets, unheard, writes, written,
  unwritten, greeting, writing, phase_of, set_phase, Label, peer, label_of, Step, cancel,
  close_listener, accept, accept_failed, drained, moves,
}
use rom_server_poc.Server.Phases.{total-phase_of}
use rom_server_poc.Server.Counted.{counts, Reach, next, Reach-Counted}

-- An execution whose steps all have labels that are allowed.
pub data Runs (Ok : Label → Type 0) (s : Server) : Server → Type 0 where
  here : Runs Ok s s
  further : {t u : Server} {l : Label} → Runs Ok s t → Ok l → Step l t u → Runs Ok s u

-- An execution in which the peer of connection `i` neither sends nor closes.
abbrev pub Quiet : ℕ → Server → Server → Type 0
Quiet i = Runs (λ l. l ≢ peer i)

-- One in which it does not take what is written to it either.
abbrev pub Silent : ℕ → Server → Server → Type 0
Silent i = Runs (λ l. (l ≢ peer i) × (l ≢ takes i))

phase_of-append :
    (i : ℕ) (p : Phase) (ps : List Phase)
    → phase_of i ps ≡ some p
    → phase_of i (ps ++ handshaking ∷ []) ≡ some p
unfolding phase_of
phase_of-append i p [] e = cc
phase_of-append zero p (r ∷ ps) e = e
phase_of-append (suc i) p (r ∷ ps) e = phase_of-append i p ps e

phase_of-set_phase_ne :
    (i j : ℕ) (q : Phase) (ps : List Phase) → i ≢ j → phase_of i (set_phase j q ps) ≡ phase_of i ps
unfolding phase_of set_phase
phase_of-set_phase_ne i j q [] ne = refl
phase_of-set_phase_ne zero zero q (r ∷ ps) ne = absurd (ne refl)
phase_of-set_phase_ne zero (suc j) q (r ∷ ps) ne = refl
phase_of-set_phase_ne (suc i) zero q (r ∷ ps) ne = refl
phase_of-set_phase_ne (suc i) (suc j) q (r ∷ ps) ne =
    phase_of-set_phase_ne i j q ps (λ e. ne (omega arith))

-- In the handshake's write, or in one of a handler.
abbrev pub in_write : Phase → Bool
in_write greeting = true
in_write (writing n) = true
in_write _ = false

-- Only its peer takes a connection out of Recv.
client_moves :
    {who : Actor} {c : Bool} {p q : Phase} → Move who c p q → p ≡ receiving → who ≡ client
client_moves greets e = cc
client_moves refused e = cc
client_moves keyed e = cc
client_moves unheard e = cc
client_moves stops e = cc
client_moves waits e = cc
client_moves (received n) e = refl
client_moves ignored e = refl
client_moves broken e = refl
client_moves (writes n) e = cc
client_moves (written n) e = cc
client_moves (unwritten n) e = cc
client_moves (handled n) e = cc
client_moves (failed n) e = cc

-- A phase stays that no allowed move of its connection leaves.
module _ (i : ℕ) (w : Phase) (Ok : Label → Type 0)
    (stuck : (who : Actor) (c : Bool) (q : Phase) → Move who c w q → Ok (label_of who i) → ⊥) where
  Step-stays :
      {l : Label} {s t : Server}
      → Step l s t
      → Ok l
      → phase_of i s.conns ≡ some w
      → phase_of i t.conns ≡ some w
  Step-stays (cancel s) quiet e = e
  Step-stays (close_listener s c) quiet e = e
  Step-stays (accept s m open_) quiet e = phase_of-append i w s.conns e
  Step-stays (accept_failed s m) quiet e = e
  Step-stays (drained s m empty) quiet e = e
  Step-stays (moves s who j p q l named there move) quiet e = elim (Bool-cases (i == j)) [
    | inr different ↦ phase_of-set_phase_ne i j q s.conns (λ same. apart i j different same) ∙ e
    | inl same ↦
        let at : j ≡ i = sym ((==_iff i j).0 same) in
        let there' : phase_of i s.conns ≡ some p =
          subst (λ k. phase_of k s.conns ≡ some p) at there in
        let waiting : p ≡ w = cc in
        absurd (
          stuck who s.cancelled q (subst (λ x. Move who s.cancelled x q) waiting move)
            (subst (λ k. Ok (label_of who k)) at (subst Ok named quiet)))
  ]
    where
      apart : (a b : ℕ) → (a == b) ≡ false → a ≡ b → ⊥
      apart a b different same = absurd (ground arith)

  Runs-stays :
      {s t : Server}
      → Reach s
      → phase_of i s.conns ≡ some w
      → Runs Ok s t
      → Reach t × (phase_of i t.conns ≡ some w)
  Runs-stays r waiting here = (r, waiting)
  Runs-stays r waiting (further q quiet st) =
      let (r', waiting') = Runs-stays r waiting q in (next r' st, Step-stays st quiet waiting')

  Runs-blocks :
      {s t : Server}
      → counts w ≡ 1
      → Reach s
      → phase_of i s.conns ≡ some w
      → Runs Ok s t
      → (phase_of i t.conns ≡ some w) × (t.main ≢ returned)
  Runs-blocks one r waiting quiet =
      let (reached, waits_on) = Runs-stays r waiting quiet in
      let counted = Reach-Counted reached in
      (
        waits_on,
        λ over.
            let none_runs = counted.over over in
            let one_runs = total-phase_of counts i w _ waits_on in absurd (omega arith),
      )

-- If a connection waits in Recv, then in every execution from there in which its peer neither sends
-- nor closes it still waits, and run has not returned, whatever else happens, a cancelled context
-- included.
pub idle_blocks :
    (i : ℕ) {s t : Server}
    → Reach s
    → phase_of i s.conns ≡ some receiving
    → Quiet i s t
    → (phase_of i t.conns ≡ some receiving) × (t.main ≢ returned)
idle_blocks i =
    Runs-blocks i receiving _
      (λ who c q move quiet. quiet (ap (λ w. label_of w i) (client_moves move refl))) refl
