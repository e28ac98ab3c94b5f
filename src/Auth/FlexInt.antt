-- ===== src/Auth/FlexInt.antt =====
-- internal/auth/client.go: flexInt64, on numbers and on their quoted texts.
use rom_server_poc.Prelude.{
  ℕ, ◌≤◌, ◌≡◌, refl, ◌∙◌, ap, subst, false, some, List, [], ◌∷◌, ◌++◌, arith,
}
use rom_server_poc.Prelude.Text.{codes, same_text, trim_left, trim_right, keep_right}
use rom_server_poc.Prelude.Decimal.{ℤ, parse_int, format_int}
use rom_server_poc.Prelude.Decimal.RoundTrip.{
  Fits64, IsPlain, parse_int-format_int, format_int-IsPlain,
}
use rom_server_poc.Auth.{is_quote, number_in, unmarshal_flex}

abbrev quote : List ℕ
quote = 34 ∷ []

plain_quote : (c : ℕ) → b'-' ≤ c → is_quote c ≡ false
plain_quote c h = ground arith

keep_right-plain : (c : ℕ) (s : List ℕ) → b'-' ≤ c → keep_right is_quote c s ≡ c ∷ s
keep_right-plain c [] h = rw (plain_quote c h) refl
keep_right-plain c (d ∷ s) h = refl

trim_right-plain : (s : List ℕ) → IsPlain s → trim_right is_quote s ≡ s
unfolding trim_right
trim_right-plain [] all = refl
trim_right-plain (c ∷ s) all =
    ap (keep_right is_quote c) (trim_right-plain s all.1) ∙ keep_right-plain c s all.0.0

trim_right-quote : (s : List ℕ) → IsPlain s → trim_right is_quote (s ++ quote) ≡ s
unfolding trim_right
trim_right-quote [] all = refl
trim_right-quote (c ∷ s) all =
    ap (keep_right is_quote c) (trim_right-quote s all.1) ∙ keep_right-plain c s all.0.0

trim_left-plain : (c : ℕ) (s : List ℕ) → b'-' ≤ c → trim_left is_quote (c ∷ s) ≡ c ∷ s
unfolding trim_left
trim_left-plain c s h = rw (plain_quote c h) refl

not_null : (c : ℕ) (s : List ℕ) → c ≤ b'9' → same_text (c ∷ s) (codes "null") ≡ false
unfolding same_text
not_null c s h = ground arith

trim_left-quote : (c : ℕ) (s : List ℕ) → b'-' ≤ c → trim_left is_quote (34 ∷ c ∷ s) ≡ c ∷ s
unfolding trim_left
trim_left-quote c s h = rw (plain_quote c h) refl

unmarshal_flex-trimmed :
    (raw : List ℕ)
    → same_text raw (codes "null") ≡ false
    → unmarshal_flex raw ≡ number_in (trim_right is_quote (trim_left is_quote raw))
unfolding unmarshal_flex
unmarshal_flex-trimmed raw h = rw h refl

number_in-cons : (c : ℕ) (s : List ℕ) (i : ℤ) → parse_int (c ∷ s) ≡ some i → number_in (c ∷ s) ≡ i
number_in-cons c s i h = rw h refl

module _ (c : ℕ) (cs : List ℕ) (plain : IsPlain (c ∷ cs)) (i : ℤ)
    (parsed : parse_int (c ∷ cs) ≡ some i) where
  bare : unmarshal_flex (c ∷ cs) ≡ i
  bare =
      unmarshal_flex-trimmed (c ∷ cs) (not_null c cs plain.0.1)
      ∙ ap (λ s. number_in (trim_right is_quote s)) (trim_left-plain c cs plain.0.0)
      ∙ ap number_in (trim_right-plain (c ∷ cs) plain)
      ∙ number_in-cons c cs i parsed

  quoted : unmarshal_flex (34 ∷ (c ∷ cs ++ quote)) ≡ i
  quoted =
      unmarshal_flex-trimmed (34 ∷ (c ∷ cs ++ quote)) (not_null 34 (c ∷ cs ++ quote) (omega arith))
      ∙ ap (λ s. number_in (trim_right is_quote s)) (trim_left-quote c (cs ++ quote) plain.0.0)
      ∙ ap number_in (trim_right-quote (c ∷ cs) plain)
      ∙ number_in-cons c cs i parsed

-- A 64-bit integer, sent as its decimal text or as that text in quotes, is decoded to the integer.
pub unmarshal_flex-format_int :
    (i : ℤ)
    → Fits64 i
    → (unmarshal_flex (format_int i) ≡ i) × (unmarshal_flex (34 ∷ (format_int i ++ 34 ∷ [])) ≡ i)
unmarshal_flex-format_int i fits =
    let (c, cs, e, plain) = format_int-IsPlain i in
    let parsed : parse_int (c ∷ cs) ≡ some i =
      subst (λ l. parse_int l ≡ some i) e (parse_int-format_int i fits) in
    (
      ap unmarshal_flex e ∙ bare c cs plain i parsed,
      ap (λ l. unmarshal_flex (34 ∷ (l ++ quote))) e ∙ quoted c cs plain i parsed,
    )
