-- ===== src/Text/Laws.antt =====
-- Laws of the text functions.
use rollytics.Prelude.{
  ℕ, zero, suc, ◌-◌, ◌≤◌, ◌≡◌, ◌≢◌, refl, sym, ap, ◌∙◌, inl, inr, true, [], ◌∷◌, ◌++◌, arith, ◌==◌,
  ==_iff, length, replicate, Bool-cases, length-append,
}
use rollytics.Text.{Text, has_prefix, trim_left, pad_zeros}

pub has_prefix-append : (p s : Text) → has_prefix (p ++ s) p ≡ true
unfolding has_prefix
has_prefix-append [] s = refl
has_prefix-append (c ∷ p) s = ground (arith, has_prefix-append p s)

pub length-trim_left-le : (s : Text) (d : ℕ) → length (trim_left s d) ≤ length s
unfolding trim_left
length-trim_left-le [] d = omega arith
length-trim_left-le (c ∷ s) d = ground (arith, length-trim_left-le s d)

pub length-replicate {ℓ} : {A : Type ℓ} (n : ℕ) (a : A) → length (replicate n a) ≡ n
length-replicate zero a = refl
length-replicate (suc n) a = ap suc (length-replicate n a)

pub length-pad_zeros : (n : ℕ) (s : Text) → length s ≤ n → length (pad_zeros n s) ≡ n
unfolding pad_zeros
length-pad_zeros n s h = omega (
  arith,
  length-append (replicate (n - length s) b'0') s,
  length-replicate {A = ℕ} (n - length s) b'0',
)

replicate-cons : (n d : ℕ) (s : Text) → replicate n d ++ d ∷ s ≡ replicate (suc n) d ++ s
replicate-cons zero d s = refl
replicate-cons (suc n) d s = ap (◌∷◌ d) (replicate-cons n d s)

-- Zeros that are cut off and written again.
pub pad_zeros-trim_left :
    (n : ℕ) (s : Text) → length s ≤ n → pad_zeros n (trim_left s b'0') ≡ pad_zeros n s
unfolding pad_zeros trim_left
pad_zeros-trim_left n [] h = refl
pad_zeros-trim_left n (c ∷ s) h = elim (Bool-cases (c == b'0')) [
  | inr other ↦ rw other refl
  | inl zero_first ↦
      let e : c ≡ b'0' = (==_iff c b'0').0 zero_first in
      let k : n - length s ≡ suc (n - suc (length s)) = omega arith in
      rw zero_first (
        pad_zeros-trim_left n s (omega arith)
        ∙ rw (k, e) (sym (replicate-cons (n - suc (length s)) b'0' s)))
]

pub pad_zeros-length : (s : Text) → pad_zeros (length s) s ≡ s
unfolding pad_zeros
pad_zeros-length s = let e : length s - length s ≡ 0 = omega arith in rw e

pub trim_left-zeros : (n : ℕ) (s : Text) → trim_left (replicate n b'0' ++ s) b'0' ≡ trim_left s b'0'
unfolding trim_left
trim_left-zeros zero s = refl
trim_left-zeros (suc n) s = trim_left-zeros n s

pub trim_left_ne : (c : ℕ) (s : Text) → c ≢ b'0' → trim_left (c ∷ s) b'0' ≡ c ∷ s
unfolding trim_left
trim_left_ne c s h = ground arith
