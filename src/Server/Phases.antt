-- ===== src/Server/Phases.antt =====
-- cmd/server/main.go: sums over the phases of the connections, and what a step does to them.
use rom_server_poc.Prelude.{ℕ, zero, suc, ◌+◌, ◌≤◌, ◌≡◌, subst, some, List, [], ◌∷◌, ◌++◌, arith}
use rom_server_poc.Server.{Phase, handshaking, phase_of, set_phase}

unfoldable pub total : (Phase → ℕ) → List Phase → ℕ
total f [] = 0
total f (p ∷ ps) = f p + total f ps

pub total-append :
    (f : Phase → ℕ) (ps : List Phase)
    → total f (ps ++ handshaking ∷ []) ≡ total f ps + f handshaking
unfolding total
total-append f [] = omega arith
total-append f (p ∷ ps) = omega (arith, total-append f ps)

pub total-set_phase :
    (f : Phase → ℕ) (i : ℕ) (p q : Phase) (ps : List Phase)
    → phase_of i ps ≡ some p
    → total f (set_phase i q ps) + f p ≡ total f ps + f q
unfolding total phase_of set_phase
total-set_phase f i p q [] e = cc
total-set_phase f zero p q (r ∷ ps) e =
    let same : r ≡ p = cc in
    subst (λ x. (f q + total f ps) + f x ≡ (f r + total f ps) + f q) same (omega arith)
total-set_phase f (suc i) p q (r ∷ ps) e = omega (arith, total-set_phase f i p q ps e)

pub total-phase_of :
    (f : Phase → ℕ) (i : ℕ) (p : Phase) (ps : List Phase)
    → phase_of i ps ≡ some p
    → f p ≤ total f ps
unfolding total phase_of
total-phase_of f i p [] e = cc
total-phase_of f zero p (r ∷ ps) e =
    let same : r ≡ p = cc in subst (λ x. f x ≤ f r + total f ps) same (omega arith)
total-phase_of f (suc i) p (r ∷ ps) e = omega (arith, total-phase_of f i p ps e)
