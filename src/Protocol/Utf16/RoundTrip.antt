-- ===== src/Protocol/Utf16/RoundTrip.antt =====
-- Texts of Unicode scalar values survive UTF-16.
use rom_server_poc.Prelude.{
  ℕ, ◌+◌, ◌-◌, ◌/◌, ◌%◌, ◌≤◌, ◌<◌, ◌≡◌, ◌⊎◌, refl, List, [], ◌∷◌, All, arith,
}
use rom_server_poc.Protocol.Utf16.Defs.{utf16_encode, utf16_decode}

-- A Unicode scalar value: below 0x110000 and no surrogate.
abbrev pub IsRune : ℕ → Type 0
IsRune r = (r < 0xd800) ⊎ ((0xe000 ≤ r) × (r < 0x110000))

decode_plain :
    (u : ℕ) (us : List ℕ)
    → (u < 0xd800) ⊎ (0xe000 ≤ u)
    → utf16_decode (u ∷ us) ≡ u ∷ utf16_decode us
unfolding utf16_decode
decode_plain u [] h = ground arith
decode_plain u (v ∷ us) h = ground arith

decode_pair :
    (p : ℕ) (us : List ℕ)
    → p < 0x100000
    → utf16_decode ((0xd800 + p / 0x400) ∷ (0xdc00 + p % 0x400) ∷ us)
      ≡ (p + 0x10000) ∷ utf16_decode us
unfolding utf16_decode
decode_pair p us h = ground arith

pub utf16_decode-utf16_encode : (rs : List ℕ) → All IsRune rs → utf16_decode (utf16_encode rs) ≡ rs
unfolding utf16_encode
utf16_decode-utf16_encode [] h = empty_text
  where
    empty_text : utf16_decode [] ≡ []
    empty_text = unfold utf16_decode in refl
utf16_decode-utf16_encode (r ∷ rs) h = ground (
  arith,
  decode_plain r (utf16_encode rs),
  decode_pair (r - 0x10000) (utf16_encode rs),
  utf16_decode-utf16_encode rs h.1,
)
