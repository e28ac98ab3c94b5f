-- ===== src/Transport/Rabbit/Words.antt =====
-- The shape of a cipher state, and that `next` and `NewRabbit` keep it.
use Prim.Native.Nat.{bit_and}
use rom_server_poc.Prelude.{
  ℕ, zero, suc, ◌+◌, ◌*◌, ◌%◌, ◌^◌, ◌≤◌, ◌<◌, ◌≡◌, refl, List, [], ◌∷◌, arith, length, All, Option,
  none, some, take, drop, ◌∙◌, ap, Bool-cases, ◌==◌, inl, inr,
}
use rom_server_poc.Prelude.Bits.{bit_xor-lt, bit_or-lt, bit_and-lt}
use rom_server_poc.Prelude.Bytes.{IsByte, from_le}
use rom_server_poc.Transport.Rabbit.{
  Rabbit, shl32, shr, at, rabbit_a, count_up, g_words, mix, next, next_n, key_words, key_setup,
  fold_state, xor_words, iv_words, iv_setup, new_rabbit, pair,
}
use rom_server_poc.Transport.Rabbit.Counters.{IsWord, wide, count_up-wide}

-- Eight words of state, eight counters, a carry bit.
pub record IsState (r : Rabbit) : Type 0 where
  pub words : All IsWord r.x
  pub eight : length r.x ≡ 8
  pub counters : All IsWord r.c
  pub eight_counters : length r.c ≡ 8
  pub carry : r.b ≤ 1

pub at-IsWord : (ws : List ℕ) (i : ℕ) → All IsWord ws → IsWord (at ws i)
at-IsWord [] i h = omega arith
at-IsWord (w ∷ ws) zero h = h.0
at-IsWord (w ∷ ws) (suc i) h = at-IsWord ws i h.1

mix-IsWord : (g : List ℕ) → All IsWord (mix g) × (length (mix g) ≡ 8)
unfolding mix
mix-IsWord g = (omega arith, refl)

-- On a well-formed state `next` adds the constant A and the old carry to the counters, read as one
-- 256-bit number: the new carry is what does not fit.
pub next_counters :
    (r : Rabbit)
    → IsState r
    → wide (next r).c + 2 ^ 256 * (next r).b ≡ wide r.c + wide rabbit_a + r.b
unfolding next
next_counters r s =
    rw s.eight_counters at
      (count_up-wide r.c rabbit_a r.b s.eight_counters s.counters (omega arith) s.carry).0

next-IsState : (r : Rabbit) → IsState r → IsState (next r)
unfolding next
next-IsState r s =
    let (_, words, same, last) =
      count_up-wide r.c rabbit_a r.b s.eight_counters s.counters (omega arith) s.carry in
    let (mixed, eight) = mix-IsWord (g_words r.x (count_up r.c rabbit_a r.b).0) in
    record {
      words = mixed;
      eight = eight;
      counters = words;
      eight_counters = same ∙ s.eight_counters;
      carry = last;
    }

pub next_n-IsState : (n : ℕ) (r : Rabbit) → IsState r → IsState (next_n n r)
unfolding next_n
next_n-IsState zero r s = s
next_n-IsState (suc n) r s = next_n-IsState n (next r) (next-IsState r s)

abbrev IsHalf : ℕ → Type 0
IsHalf w = w < 2 ^ 16

key_words-IsHalf : (key : List ℕ) → All IsByte key → All IsHalf (key_words key)
unfolding key_words
key_words-IsHalf [] h = tt
key_words-IsHalf (lo ∷ []) h = tt
key_words-IsHalf (lo ∷ hi ∷ key) h =
    (bit_or-lt 16 lo (shl32 hi 8) (omega arith) (omega arith), key_words-IsHalf key h.1.1)

at-IsHalf : (ws : List ℕ) (i : ℕ) → All IsHalf ws → IsHalf (at ws i)
at-IsHalf [] i h = omega arith
at-IsHalf (w ∷ ws) zero h = h.0
at-IsHalf (w ∷ ws) (suc i) h = at-IsHalf ws i h.1

pair-IsWord : (k : List ℕ) (i j : ℕ) → All IsHalf k → IsWord (pair k i j)
pair-IsWord k i j h = bit_or-lt 32 _ _ (omega arith) (omega (arith, at-IsHalf k (j % 8) h))

key_setup-IsWord :
    (k : List ℕ) (j n : ℕ)
    → All IsHalf k
    → All IsWord (key_setup k j n).0
      × (length (key_setup k j n).0 ≡ n)
      × All IsWord (key_setup k j n).1
      × (length (key_setup k j n).1 ≡ n)
unfolding key_setup
key_setup-IsWord k j zero h = (tt, refl, tt, refl)
key_setup-IsWord k j (suc n) h =
    let (xs, lx, cs, lc) = key_setup-IsWord k (j + 1) n h in
    elim (Bool-cases (j % 2 == 0)) [
      | inl even ↦ rw even (
        (pair-IsWord k (j + 1) j h, xs),
        ap suc lx,
        (pair-IsWord k (j + 4) (j + 5) h, cs),
        ap suc lc,
      )
      | inr odd ↦ rw odd (
        (pair-IsWord k (j + 5) (j + 4) h, xs),
        ap suc lx,
        (pair-IsWord k j (j + 1) h, cs),
        ap suc lc,
      )
    ]

fold_state-IsWord :
    (x : List ℕ) (j : ℕ) (cs : List ℕ)
    → All IsWord x
    → All IsWord cs
    → All IsWord (fold_state x j cs) × (length (fold_state x j cs) ≡ length cs)
unfolding fold_state
fold_state-IsWord x j [] hx hc = (tt, refl)
fold_state-IsWord x j (c ∷ cs) hx hc =
    let (words, same) = fold_state-IsWord x (j + 1) cs hx hc.1 in
    ((bit_xor-lt 32 c _ hc.0 (at-IsWord x ((j + 4) % 8) hx), words), ap suc same)

xor_words-IsWord :
    (cs is : List ℕ)
    → All IsWord cs
    → All IsWord is
    → length cs ≡ length is
    → All IsWord (xor_words cs is) × (length (xor_words cs is) ≡ length cs)
unfolding xor_words
xor_words-IsWord [] is hc hi e = (tt, refl)
xor_words-IsWord (c ∷ cs) [] hc hi e = absurd (omega arith)
xor_words-IsWord (c ∷ cs) (i ∷ is) hc hi e =
    let (words, same) = xor_words-IsWord cs is hc.1 hi.1 (omega arith) in
    ((bit_xor-lt 32 c i hc.0 hi.0, words), ap suc same)

from_le_four : (bs : List ℕ) → All IsByte bs → IsWord (from_le (take 4 bs))
from_le_four [] h = omega arith
from_le_four (a ∷ []) h = omega arith
from_le_four (a ∷ b ∷ []) h = omega arith
from_le_four (a ∷ b ∷ c ∷ []) h = omega arith
from_le_four (a ∷ b ∷ c ∷ d ∷ bs) h = omega arith

All-drop {ℓ κ} : {A : Type ℓ} (P : A → Type κ) (n : ℕ) (xs : List A) → All P xs → All P (drop n xs)
All-drop P zero xs h = h
All-drop P (suc n) [] h = tt
All-drop P (suc n) (x ∷ xs) h = All-drop P n xs h.1

iv_words-IsWord : (iv : List ℕ) → All IsByte iv → All IsWord (iv_words iv)
unfolding iv_words
iv_words-IsWord iv h =
    let i0 = from_le_four iv h in
    let i1 = from_le_four (drop 4 iv) (All-drop IsByte 4 iv h) in
    let hi =
      bit_or-lt 32 (shl32 (shr (from_le (take 4 (drop 4 iv))) 16) 16) (shr (from_le (take 4 iv)) 16)
        (omega arith) (omega arith) in
    let lo =
      bit_or-lt 32 (shl32 (bit_and (from_le (take 4 (drop 4 iv))) 0xFFFF) 16)
        (bit_and (from_le (take 4 iv)) 0xFFFF) (omega arith) (bit_and-lt 32 _ _ i0) in
    (i0, (hi, (i1, (lo, (i0, (hi, (i1, (lo, tt))))))))

abbrev pub IvBytes : Option (List ℕ) → Type 0
IvBytes none = Unit
IvBytes (some iv) = All IsByte iv

iv_setup-IsState :
    (iv : Option (List ℕ)) (r : Rabbit) → IvBytes iv → IsState r → IsState (iv_setup iv r)
unfolding iv_setup
iv_setup-IsState none r h s = s
iv_setup-IsState (some iv) r h s =
    let (words, same) =
      xor_words-IsWord r.c (iv_words iv) s.counters (iv_words-IsWord iv h)
        (s.eight_counters ∙ unfold iv_words in refl) in
    next_n-IsState 4 _ (record {
      words = s.words;
      eight = s.eight;
      counters = words;
      eight_counters = same ∙ s.eight_counters;
      carry = s.carry;
    })

-- From a key of bytes, and an IV of bytes or none, NewRabbit makes a well-formed state.
pub new_rabbit-IsState :
    (key : List ℕ) (iv : Option (List ℕ))
    → All IsByte key
    → IvBytes iv
    → IsState (new_rabbit key iv)
unfolding new_rabbit
new_rabbit-IsState key iv hk hi =
    let (xs, lx, cs, lc) = key_setup-IsWord (key_words key) 0 8 (key_words-IsHalf key hk) in
    let (x, c) = key_setup (key_words key) 0 8 in
    let start : IsState (record { x = x; c = c; b = 0; buf = [] }) = record {
      words = xs;
      eight = lx;
      counters = cs;
      eight_counters = lc;
      carry = omega arith;
    } in
    let s = next_n-IsState 4 _ start in
    let (words, same) = fold_state-IsWord _ 0 _ s.words s.counters in
    iv_setup-IsState iv _ hi (record {
      words = s.words;
      eight = s.eight;
      counters = words;
      eight_counters = same ∙ s.eight_counters;
      carry = s.carry;
    })
