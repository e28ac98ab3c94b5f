-- ===== src/Prelude/Decimal/RoundTrip.antt =====
-- The decimal texts of integers, formatted and parsed.
use rom_server_poc.Prelude.{
  ℕ, zero, suc, ◌+◌, ◌-◌, ◌*◌, ◌/◌, ◌%◌, ◌^◌, ◌<◌, ◌≤◌, ◌≡◌, refl, sym, ◌∙◌, ap, false, Bool-cases,
  inl, inr, Option, none, some, List, [], ◌∷◌, ◌++◌, ◌==◌, ltb, arith, subst, All, All-append,
}
use rom_server_poc.Prelude.Decimal.{
  ℤ, pos, negsuc, is_digit, parse_digits, parse_nat, parse_int, digits, format_int,
}

-- A 64-bit integer.
abbrev pub Fits64 : ℤ → Type 0
Fits64 (pos n) = n < 2 ^ 63
Fits64 (negsuc n) = n < 2 ^ 63

abbrev pub IsDigits : List ℕ → Type 0
IsDigits = All (λ c. (b'0' ≤ c) × (c ≤ b'9'))

parse_digits-append :
    (acc : ℕ) (cs : List ℕ) (d n : ℕ)
    → parse_digits acc cs ≡ some n
    → d < 10
    → parse_digits acc (cs ++ (b'0' + d) ∷ []) ≡ some (n * 10 + d)
unfolding parse_digits
parse_digits-append acc [] d n e h = ground arith
parse_digits-append acc (c ∷ cs) d n e h = elim (Bool-cases (is_digit c)) [
  | inl digit ↦ rw digit (parse_digits-append (acc * 10 + (c - b'0')) cs d n (rw digit at e) h)
  | inr letter ↦ absurd (refused (rw letter at e))
]
  where
    refused : ◌≡◌ {A = Option ℕ} none (some n) → ⊥
    refused h = cc

parse_digits-digits : (fuel n : ℕ) → n < fuel → parse_digits 0 (digits fuel n) ≡ some n
unfolding digits
parse_digits-digits zero n h = absurd (omega arith)
parse_digits-digits (suc fuel) n h = elim (Bool-cases (ltb n 10)) [
  | inl small ↦ rw small (unfold parse_digits in ground arith)
  | inr large ↦
      let low : 10 ≤ n = ground arith in
      rw large (
        parse_digits-append 0 (digits fuel (n / 10)) (n % 10) (n / 10)
          (parse_digits-digits fuel (n / 10) (omega arith)) (omega arith)
        ∙ ap some (omega arith))
]

digits-cons :
    (fuel n : ℕ)
    → n < fuel
    → (c : ℕ) × (cs : List ℕ) × (digits fuel n ≡ c ∷ cs) × (b'0' ≤ c) × (c ≤ b'9')
unfolding digits
digits-cons zero n h = absurd (omega arith)
digits-cons (suc fuel) n h = elim (Bool-cases (ltb n 10)) [
  | inl small ↦ (b'0' + n, [], rw small refl, omega arith, ground arith)
  | inr large ↦
      let low : 10 ≤ n = ground arith in
      let (c, cs, e, above, below) = digits-cons fuel (n / 10) (omega arith) in
      (c, cs ++ (b'0' + n % 10) ∷ [], rw (large, e) refl, above, below)
]

parse_nat-digits : (fuel n : ℕ) → n < fuel → parse_nat (digits fuel n) ≡ some n
unfolding parse_nat
parse_nat-digits fuel n h =
    let (c, cs, e, _, _) = digits-cons fuel n h in
    rw e (subst (λ l. parse_digits 0 l ≡ some n) e (parse_digits-digits fuel n h))

parse_int-unsigned :
    (c n : ℕ) (cs : List ℕ)
    → b'0' ≤ c
    → parse_nat (c ∷ cs) ≡ some n
    → n < 2 ^ 63
    → parse_int (c ∷ cs) ≡ some (pos n)
unfolding parse_int
parse_int-unsigned c n cs digit e h =
    let minus : (c == b'-') ≡ false = ground arith in
    let plus : (c == b'+') ≡ false = ground arith in rw (minus, plus, e) (ground arith)

-- A 64-bit integer's decimal text is parsed to the integer.
pub parse_int-format_int : (i : ℤ) → Fits64 i → parse_int (format_int i) ≡ some i
unfolding format_int
parse_int-format_int (pos n) h =
    let (c, cs, e, above, _) = digits-cons (suc n) n (omega arith) in
    subst (λ l. parse_int l ≡ some (pos n)) (sym e)
      (parse_int-unsigned c n cs above
        (subst (λ l. parse_nat l ≡ some n) e (parse_nat-digits (suc n) n (omega arith))) h)
parse_int-format_int (negsuc n) h =
    unfold parse_int in rw (parse_nat-digits (suc (suc n)) (suc n) (omega arith)) (ground arith)

digits-IsDigits : (fuel n : ℕ) → IsDigits (digits fuel n)
unfolding digits
digits-IsDigits zero n = tt
digits-IsDigits (suc fuel) n = elim (Bool-cases (ltb n 10)) [
  | inl small ↦ rw small ((omega arith, ground arith), tt)
  | inr large ↦ rw large (
      All-append (λ c. (b'0' ≤ c) × (c ≤ b'9')) (digits fuel (n / 10)) ((b'0' + n % 10) ∷ [])
        (digits-IsDigits fuel (n / 10)) ((omega arith, omega arith), tt))
]

abbrev pub IsPlain : List ℕ → Type 0
IsPlain = All (λ c. (b'-' ≤ c) × (c ≤ b'9'))

digits-IsPlain : (cs : List ℕ) → IsDigits cs → IsPlain cs
digits-IsPlain [] all = tt
digits-IsPlain (c ∷ cs) all = ((omega arith, omega arith), digits-IsPlain cs all.1)

-- A formatted integer is a text of digits and '-', with one character at least.
pub format_int-IsPlain :
    (i : ℤ) → (c : ℕ) × (cs : List ℕ) × (format_int i ≡ c ∷ cs) × IsPlain (c ∷ cs)
unfolding format_int
format_int-IsPlain (pos n) =
    let (c, cs, e, _, _) = digits-cons (suc n) n (omega arith) in
    (c, cs, e, digits-IsPlain (c ∷ cs) (subst IsDigits e (digits-IsDigits (suc n) n)))
format_int-IsPlain (negsuc n) =
    let digit_part =
      digits-IsPlain (digits (suc (suc n)) (suc n)) (digits-IsDigits (suc (suc n)) (suc n)) in
    (b'-', digits (suc (suc n)) (suc n), refl, ((omega arith, omega arith), digit_part))
