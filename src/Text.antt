-- ===== src/Text.antt =====
-- Texts as lists of bytes: what the source uses of Go's `strings`.
pub mod Laws
use Prim.Native.Char.{code}
use Prim.Native.String.{String}
use rollytics.Prelude.{
  ℕ, zero, suc, ◌+◌, ◌-◌, ◌≡◌, Bool, true, false, ◌&&◌, List, [], ◌∷◌, ◌++◌, map, leb, ◌==◌,
  if◌then◌else◌, ℕ_discrete, drop, length, replicate,
}

abbrev pub Text : Type 0
Text = List ℕ

abbrev pub text_discrete : Discrete Text
text_discrete = hlevel ℕ_discrete

-- The bytes of an ASCII literal.
abbrev pub codes : String → Text
codes String.[] = []
codes (String.◌∷◌ c s) = code c ∷ codes s

-- `strings.HasPrefix`
unfoldable pub has_prefix : Text → Text → Bool
has_prefix s [] = true
has_prefix [] (p ∷ ps) = false
has_prefix (c ∷ s) (p ∷ ps) = c == p && has_prefix s ps

-- `strings.TrimPrefix`
unfoldable pub trim_prefix : Text → Text → Text
unfolding has_prefix
trim_prefix s p = if has_prefix s p then drop (length p) s else s

-- `strings.TrimLeft` and `strings.TrimRight` with a cutset of one character
unfoldable pub trim_left : Text → ℕ → Text
trim_left [] d = []
trim_left (c ∷ s) d = if c == d then trim_left s d else c ∷ s

unfoldable pub cons_right : ℕ → ℕ → Text → Text
cons_right d c [] = if c == d then [] else c ∷ []
cons_right d c (x ∷ s) = c ∷ x ∷ s

unfoldable pub trim_right : Text → ℕ → Text
unfolding cons_right
trim_right [] d = []
trim_right (c ∷ s) d = cons_right d c (trim_right s d)

-- `strings.ToLower` on ASCII; other bytes stay as they are.
unfoldable pub lower : ℕ → ℕ
lower c = if leb b'A' c && leb c b'Z' then c + 32 else c

unfoldable pub to_lower : Text → Text
unfolding lower
to_lower s = map lower s

-- `strings.Repeat("0", n - len(s)) + s`
unfoldable pub pad_zeros : ℕ → Text → Text
pad_zeros n s = replicate (n - length s) b'0' ++ s
