-- ===== src/Protocol/Utf16/Defs.antt =====
-- utf16.Encode and utf16.Decode. What is no rune, and a surrogate with no partner, becomes U+FFFD.
use rom_server_poc.Prelude.{
  ℕ, ◌+◌, ◌-◌, ◌*◌, ◌/◌, ◌%◌, ◌^◌, ◌<◌, List, [], ◌∷◌, Bool, ◌&&◌, ltb, leb, if◌then◌else◌, All,
  arith,
}

unfoldable pub utf16_encode : List ℕ → List ℕ
utf16_encode [] = []
utf16_encode (r ∷ rs) =
    let rest = utf16_encode rs in
    if ltb r 0xd800
    then r ∷ rest
    else if leb 0xe000 r && ltb r 0x10000
    then r ∷ rest
    else if leb 0x10000 r && ltb r 0x110000
    then (0xd800 + (r - 0x10000) / 0x400) ∷ (0xdc00 + (r - 0x10000) % 0x400) ∷ rest
    else 0xfffd ∷ rest

abbrev pub is_high : ℕ → Bool
is_high u = leb 0xd800 u && ltb u 0xdc00

abbrev pub is_low : ℕ → Bool
is_low u = leb 0xdc00 u && ltb u 0xe000

unfoldable pub utf16_decode : List ℕ → List ℕ
utf16_decode [] = []
utf16_decode (u ∷ []) = (if is_high u then 0xfffd else if is_low u then 0xfffd else u) ∷ []
utf16_decode (u ∷ v ∷ us) =
    let after = utf16_decode us in
    let here = utf16_decode (v ∷ us) in
    if is_high u && is_low v
    then ((u - 0xd800) * 0x400 + (v - 0xdc00) + 0x10000) ∷ after
    else if is_high u
    then 0xfffd ∷ here
    else if is_low u
    then 0xfffd ∷ here
    else u ∷ here

abbrev pub IsUnit : ℕ → Type 0
IsUnit u = u < 2 ^ 16

pub utf16_encode-IsUnit : (rs : List ℕ) → All IsUnit (utf16_encode rs)
unfolding utf16_encode
utf16_encode-IsUnit [] = tt
utf16_encode-IsUnit (r ∷ rs) = ground (arith, utf16_encode-IsUnit rs)
