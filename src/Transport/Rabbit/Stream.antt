-- ===== src/Transport/Rabbit/Stream.antt =====
-- What `Keystream` returns, against the stream of 16-byte blocks of the successive states.
use rom_server_poc.Prelude.{
  ℕ, zero, suc, ◌+◌, ◌*◌, ◌-◌, ◌/◌, ◌≤◌, ◌<◌, ◌≡◌, refl, sym, ap, ap₂, ◌∙◌, List, [], ◌++◌, arith,
  length, take, drop, take_all, drop_all, take-append-drop, ltb, lt→ltb, length-append, length-take,
  append_assoc, append-nil, Bool-cases, inl, inr, ltb→lt, All, All-append,
}
use rom_server_poc.Prelude.Bytes.{IsByte}
use rom_server_poc.Transport.Rabbit.{Rabbit, next, next_n, block, refill, fill, keystream}

length-block : (r : Rabbit) → length (block r) ≡ 16
unfolding block
length-block r = refl

block-IsByte : (r : Rabbit) → All IsByte (block r)
unfolding block
block-IsByte r = omega arith

-- The blocks of the next `n` states.
pub blocks : ℕ → Rabbit → List ℕ
blocks zero r = []
blocks (suc n) r = block (next r) ++ blocks n (next r)

pub length-blocks : (n : ℕ) (r : Rabbit) → length (blocks n r) ≡ 16 * n
unfolding blocks
length-blocks zero r = refl
length-blocks (suc n) r = omega (
  arith,
  length-append (block (next r)) (blocks n (next r)),
  length-block (next r),
  length-blocks n (next r),
)

pub blocks-IsByte : (n : ℕ) (r : Rabbit) → All IsByte (blocks n r)
unfolding blocks
blocks-IsByte zero r = tt
blocks-IsByte (suc n) r =
    All-append IsByte (block (next r)) _ (block-IsByte (next r)) (blocks-IsByte n (next r))

-- Two ciphers that agree on everything but the spare bytes.
abbrev pub with_buf : List ℕ → Rabbit → Rabbit
with_buf bs r = record r { buf = bs }

next-with_buf : (bs : List ℕ) (r : Rabbit) → next (with_buf bs r) ≡ with_buf bs (next r)
unfolding next
next-with_buf bs r = refl

next_n-with_buf :
    (n : ℕ) (bs : List ℕ) (r : Rabbit) → next_n n (with_buf bs r) ≡ with_buf bs (next_n n r)
unfolding next_n next
next_n-with_buf zero bs r = refl
next_n-with_buf (suc n) bs r = next_n-with_buf n bs (next r)

blocks-with_buf : (n : ℕ) (bs : List ℕ) (r : Rabbit) → blocks n (with_buf bs r) ≡ blocks n r
unfolding blocks next block
blocks-with_buf zero bs r = refl
blocks-with_buf (suc n) bs r = ap (λ t. block (next r) ++ t) (blocks-with_buf n bs (next r))

-- The loop of `Keystream` takes `k` rounds where `16 * k` bytes are what is missing, rounded up.
fill_stop : (fuel n : ℕ) (r : Rabbit) → n ≤ length r.buf → fill fuel n r ≡ r
unfolding fill
fill_stop zero n r h = refl
fill_stop (suc fuel) n r h = elim (Bool-cases (ltb (length r.buf) n)) [
  | inl short ↦ absurd (omega (arith, ltb→lt (length r.buf) n short))
  | inr enough ↦ rw (enough, fill)
]

fill_go :
    (fuel n : ℕ) (r : Rabbit) → length r.buf < n → fill (suc fuel) n r ≡ fill fuel n (refill r)
unfolding fill
fill_go fuel n r h = rw (lt→ltb (length r.buf) n h, fill)

length-refill : (r : Rabbit) → length (refill r).buf ≡ length r.buf + 16
unfolding refill next
length-refill r = omega (arith, length-append r.buf (block (next r)), length-block (next r))

refill_rounds :
    (k : ℕ) (r : Rabbit)
    → with_buf ((refill r).buf ++ blocks k (refill r)) (next_n k (refill r))
      ≡ with_buf (r.buf ++ blocks (suc k) r) (next_n (suc k) r)
unfolding refill next_n next blocks
refill_rounds k r = rw (
  blocks-with_buf k (r.buf ++ block (next r)) (next r),
  next_n-with_buf k (r.buf ++ block (next r)) (next r),
  append_assoc,
)

fill_rounds :
    (k fuel n : ℕ) (r : Rabbit)
    → k ≤ fuel
    → n ≤ length r.buf + 16 * k
    → 16 * k < n - length r.buf + 16
    → fill fuel n r ≡ with_buf (r.buf ++ blocks k r) (next_n k r)
fill_rounds zero fuel n r hf lo hi =
    fill_stop fuel n r (omega arith) ∙ unfold blocks next_n in rw append-nil
fill_rounds (suc k) zero n r hf lo hi = absurd (omega arith)
fill_rounds (suc k) (suc fuel) n r hf lo hi =
    fill_go fuel n r (omega arith)
    ∙ fill_rounds k fuel n (refill r) (omega arith) (omega (arith, length-refill r))
        (omega (arith, length-refill r))
    ∙ refill_rounds k r

-- The rounds that a request for `n` bytes takes.
abbrev pub rounds : ℕ → Rabbit → ℕ
rounds n r = (n - length r.buf + 15) / 16

fill_lem :
    (n : ℕ) (r : Rabbit)
    → fill n n r ≡ with_buf (r.buf ++ blocks (rounds n r) r) (next_n (rounds n r) r)
fill_lem n r = fill_rounds (rounds n r) n n r (omega arith) (omega arith) (omega arith)

keystream-fill :
    (n : ℕ) (r : Rabbit)
    → let spare : List ℕ = r.buf ++ blocks (rounds n r) r in
      keystream n r ≡ (take n spare, with_buf (drop n spare) (next_n (rounds n r) r))
unfolding keystream
keystream-fill n r = rw (fill_lem n r)

buf-next_n : (k : ℕ) (r : Rabbit) → (next_n k r).buf ≡ r.buf
unfolding next_n next
buf-next_n zero r = refl
buf-next_n (suc k) r = buf-next_n k (next r)

with_nil : (r : Rabbit) → r.buf ≡ [] → with_buf [] r ≡ r
with_nil r e = ap (λ bs. with_buf bs r) (sym e)

-- A request for `n` bytes that is served from `spare` when the state has become `r`.
abbrev serve : ℕ → List ℕ → Rabbit → List ℕ × Rabbit
serve n spare r = (take n spare, with_buf (drop n spare) r)

serve_all :
    (n : ℕ) (spare : List ℕ) (r : Rabbit)
    → length spare ≡ n
    → r.buf ≡ []
    → serve n spare r ≡ (spare, r)
serve_all n spare r h e =
    ap (λ m. serve m spare r) (sym h)
    ∙ ap₂ (λ t d. (t, with_buf d r)) (take_all spare) (drop_all spare)
    ∙ ap (λ s. (spare, s)) (with_nil r e)

-- With no spare bytes, asking for `16 * k` bytes gives exactly the next `k` blocks, moves the
-- state on by `k` calls of `next` and leaves no spare bytes.
pub keystream_aligned :
    (k : ℕ) (r : Rabbit)
    → r.buf ≡ []
    → (keystream (16 * k) r ≡ (blocks k r, next_n k r)) × ((next_n k r).buf ≡ [])
keystream_aligned k r e = (
  keystream-fill (16 * k) r
      ∙ ap (λ m. serve (16 * k) (r.buf ++ blocks m r) (next_n m r)) (rw e (omega arith))
      ∙ ap (λ b. serve (16 * k) (b ++ blocks k r) (next_n k r)) e
      ∙ serve_all (16 * k) (blocks k r) (next_n k r) (length-blocks k r) ends,
  ends,
)
  where
    ends : (next_n k r).buf ≡ []
    ends = buf-next_n k r ∙ e

-- However many spare bytes there are, `Keystream(n)` returns `n` bytes, and these followed by the
-- new spare bytes are the old spare bytes followed by whole blocks of the stream.
pub keystream_lem :
    (n : ℕ) (r : Rabbit)
    → (length (keystream n r).0 ≡ n)
      × ((keystream n r).0 ++ (keystream n r).1.buf ≡ r.buf ++ blocks (rounds n r) r)
keystream_lem n r = rw (keystream-fill n r) (
  omega (
    arith,
    length-take n (r.buf ++ blocks (rounds n r) r),
    length-append r.buf (blocks (rounds n r) r),
    length-blocks (rounds n r) r,
  ),
  take-append-drop n _,
)
