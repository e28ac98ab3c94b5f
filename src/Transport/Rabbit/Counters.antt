-- ===== src/Transport/Rabbit/Counters.antt =====
-- The counter loop of `next` is an addition of 256-bit numbers.
use rom_server_poc.Prelude.{
  ℕ, zero, suc, ◌+◌, ◌*◌, ◌^◌, ◌≤◌, ◌<◌, ◌≡◌, refl, List, [], ◌∷◌, arith, ltb, length, All,
  if◌then◌else◌,
}
use rom_server_poc.Transport.Rabbit.{count_up, u32}

abbrev pub IsWord : ℕ → Type 0
IsWord w = w < 2 ^ 32

-- The number whose 32-bit digits are the words, lowest first.
abbrev pub wide : List ℕ → ℕ
wide [] = 0
wide (w ∷ ws) = w + 2 ^ 32 * wide ws

-- A constant that leaves room for the carry: `t < c` is then the carry test, also with a carry in.
abbrev HasRoom : ℕ → Type 0
HasRoom a = a + 1 < 2 ^ 32

-- 2 ^ (32 * n)
abbrev pub word_span : ℕ → ℕ
word_span zero = 1
word_span (suc n) = 2 ^ 32 * word_span n

abbrev carry_of : ℕ → ℕ → ℕ
carry_of t c = if ltb t c then 1 else 0

-- One round of the loop.
count_up_round :
    (c a b : ℕ)
    → IsWord c
    → HasRoom a
    → b ≤ 1
    → let t = u32 (u32 (c + a) + b) in
      (t + 2 ^ 32 * carry_of t c ≡ c + a + b) × IsWord t × (carry_of t c ≤ 1)
count_up_round c a b hc ha hb = ground arith

-- The whole loop, over any number of words.
pub count_up-wide :
    (cs as' : List ℕ) (b : ℕ)
    → length cs ≡ length as'
    → All IsWord cs
    → All HasRoom as'
    → b ≤ 1
    → (wide (count_up cs as' b).0 + word_span (length cs) * (count_up cs as' b).1
        ≡ wide cs + wide as' + b)
      × All IsWord (count_up cs as' b).0
      × (length (count_up cs as' b).0 ≡ length cs)
      × ((count_up cs as' b).1 ≤ 1)
unfolding count_up
count_up-wide [] [] b e hc ha hb = (omega arith, tt, refl, hb)
count_up-wide [] (a ∷ as') b e hc ha hb = absurd (omega arith)
count_up-wide (c ∷ cs) [] b e hc ha hb = absurd (omega arith)
count_up-wide (c ∷ cs) (a ∷ as') b e hc ha hb =
    let t = u32 (u32 (c + a) + b) in
    let (sum, word, carry) = count_up_round c a b hc.0 ha.0 hb in
    let (ih, words, same, last) =
      count_up-wide cs as' (carry_of t c) (omega arith) hc.1 ha.1 carry in
    (omega arith, (word, words), omega arith, last)
