-- ===== src/Prelude/Text.antt =====
-- Texts as lists of runes: what the code uses of the packages strings and unicode.
use Prim.Native.Char.{code}
use rom_server_poc.Prelude.{
  String, ℕ, ◌+◌, ◌≡◌, refl, ◌↔◌, Bool, true, false, ◌&&◌, ◌||◌, List, [], ◌∷◌, ◌==◌, leb,
  if◌then◌else◌, arith,
}

-- The runes of a literal.
abbrev pub codes : String → List ℕ
codes String.[] = []
codes (String.◌∷◌ c s) = code c ∷ codes s

unfoldable pub same_text : List ℕ → List ℕ → Bool
same_text [] [] = true
same_text [] (d ∷ t) = false
same_text (c ∷ s) [] = false
same_text (c ∷ s) (d ∷ t) = c == d && same_text s t

-- The code points that strings.TrimSpace cuts off (unicode.IsSpace).
unfoldable pub is_space : ℕ → Bool
is_space r =
    leb 9 r && leb r 13
    || r == 0x20
    || r == 0x85
    || r == 0xa0
    || r == 0x1680
    || leb 0x2000 r && leb r 0x200a
    || r == 0x2028
    || r == 0x2029
    || r == 0x202f
    || r == 0x205f
    || r == 0x3000

-- strings.TrimLeftFunc and TrimRightFunc
unfoldable pub trim_left : (ℕ → Bool) → List ℕ → List ℕ
trim_left cut [] = []
trim_left cut (r ∷ rs) = let rest = trim_left cut rs in if cut r then rest else r ∷ rs

abbrev pub keep_right : (ℕ → Bool) → ℕ → List ℕ → List ℕ
keep_right cut r [] = if cut r then [] else r ∷ []
keep_right cut r (q ∷ qs) = r ∷ q ∷ qs

unfoldable pub trim_right : (ℕ → Bool) → List ℕ → List ℕ
trim_right cut [] = []
trim_right cut (r ∷ rs) = keep_right cut r (trim_right cut rs)

unfoldable pub trim_space : List ℕ → List ℕ
unfolding trim_left trim_right is_space
trim_space s = trim_right is_space (trim_left is_space s)

-- unicode.ToLower, where the lower case is an ASCII letter: U+0130 and U+212A have such ones.
unfoldable pub to_lower : ℕ → ℕ
to_lower r =
    if leb b'A' r && leb r b'Z'
    then r + 32
    else if r == 0x130
    then b'i'
    else if r == 0x212a
    then b'k'
    else r

pub same_text_iff : (s t : List ℕ) → (same_text s t ≡ true) ↔ (s ≡ t)
unfolding same_text
same_text_iff [] [] = ground arith
same_text_iff [] (d ∷ t) = ground arith
same_text_iff (c ∷ s) [] = ground arith
same_text_iff (c ∷ s) (d ∷ t) = ground (arith, same_text_iff s t)

pub same_text_comm : (s t : List ℕ) → same_text s t ≡ same_text t s
unfolding same_text
same_text_comm [] [] = refl
same_text_comm [] (d ∷ t) = refl
same_text_comm (c ∷ s) [] = refl
same_text_comm (c ∷ s) (d ∷ t) = ground (arith, same_text_comm s t)
