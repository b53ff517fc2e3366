-- ===== src/Prelude/GoMap.antt =====
-- Go's maps as association lists, over keys with a decidable equality.
use mathlib.Core.Logic.{ite, if_pos, if_neg}
use rollytics.Prelude.{
  ◌≡◌, ◌≢◌, refl, sym, subst, ◌∙◌, List, [], ◌∷◌, Option, none, some, arith, All,
}

module _ {K V : Type 0} (dec : Discrete K) where
  unfoldable pub get : K → List (K × V) → Option V
  get k [] = none
  get k ((j, v) ∷ m) = ite (dec j k) (some v) (get k m)

  -- `m[k] = v`
  unfoldable pub put : K → V → List (K × V) → List (K × V)
  put k v [] = (k, v) ∷ []
  put k v ((j, w) ∷ m) = ite (dec j k) ((j, v) ∷ m) ((j, w) ∷ put k v m)

  -- `delete(m, k)`
  unfoldable pub delete : K → List (K × V) → List (K × V)
  delete k [] = []
  delete k ((j, w) ∷ m) = ite (dec j k) (delete k m) ((j, w) ∷ delete k m)

  pub get-put :
      (k j : K) (v : V) (m : List (K × V)) → get j (put k v m) ≡ ite (dec k j) (some v) (get j m)
  unfolding get put
  get-put k j v [] = refl
  get-put k j v ((i, w) ∷ m) = ground (arith, get-put k j v m)

  pub get-delete : (k j : K) (m : List (K × V)) → get j (delete k m) ≡ ite (dec k j) none (get j m)
  unfolding get delete
  get-delete k j [] = ground arith
  get-delete k j ((i, w) ∷ m) = ground (arith, get-delete k j m)

  pub get-put_self : (k : K) (v : V) (m : List (K × V)) → get k (put k v m) ≡ some v
  get-put_self k v m = get-put k k v m ∙ if_pos (dec k k) refl _ _

  pub get-put_ne : (k j : K) (v : V) (m : List (K × V)) → k ≢ j → get j (put k v m) ≡ get j m
  get-put_ne k j v m h = get-put k j v m ∙ if_neg (dec k j) h _ _

  pub get-delete_self : (k : K) (m : List (K × V)) → get k (delete k m) ≡ none
  get-delete_self k m = get-delete k k m ∙ if_pos (dec k k) refl _ _

  pub get-delete_ne : (k j : K) (m : List (K × V)) → k ≢ j → get j (delete k m) ≡ get j m
  get-delete_ne k j m h = get-delete k j m ∙ if_neg (dec k j) h _ _

  -- The keys of a map differ from each other.
  abbrev pub IsMap : List (K × V) → Type 0
  IsMap [] = Unit
  IsMap ((k, v) ∷ m) = (get k m ≡ none) × IsMap m

  pub put-IsMap : (k : K) (v : V) (m : List (K × V)) → IsMap m → IsMap (put k v m)
  unfolding get put
  put-IsMap k v [] h = (refl, tt)
  put-IsMap k v ((j, w) ∷ m) h = elim (dec j k) [
    | yes same ↦ rw (if_pos _ same) (h)
    | no other ↦
        rw (if_neg _ other) ((get-put_ne k j v m (λ e. other (sym e)) ∙ h.0, put-IsMap k v m h.1))
  ]

  pub delete-IsMap : (k : K) (m : List (K × V)) → IsMap m → IsMap (delete k m)
  unfolding delete
  delete-IsMap k [] h = tt
  delete-IsMap k ((j, w) ∷ m) h = elim (dec j k) [
    | yes same ↦ rw (if_pos _ same) (delete-IsMap k m h.1)
    | no other ↦
        rw (if_neg _ other) ((get-delete_ne k j m (λ e. other (sym e)) ∙ h.0, delete-IsMap k m h.1))
  ]

  -- What holds of every key.
  abbrev pub AllKeys {κ} : (K → Type κ) → List (K × V) → Type κ
  AllKeys P = All (λ e. P e.0)

  pub put-AllKeys {κ} :
      (P : K → Type κ) (k : K) (v : V) (m : List (K × V))
      → P k
      → AllKeys P m
      → AllKeys P (put k v m)
  unfolding put
  put-AllKeys P k v [] p h = (p, tt)
  put-AllKeys P k v ((j, w) ∷ m) p h = elim (dec j k) [
    | yes same ↦ rw (if_pos _ same) (h)
    | no other ↦ rw (if_neg _ other) ((h.0, put-AllKeys P k v m p h.1))
  ]

  pub delete-AllKeys {κ} :
      (P : K → Type κ) (k : K) (m : List (K × V)) → AllKeys P m → AllKeys P (delete k m)
  unfolding delete
  delete-AllKeys P k [] h = tt
  delete-AllKeys P k ((j, w) ∷ m) h = elim (dec j k) [
    | yes same ↦ rw (if_pos _ same) (delete-AllKeys P k m h.1)
    | no other ↦ rw (if_neg _ other) ((h.0, delete-AllKeys P k m h.1))
  ]

  -- What holds of every value.
  pub get-AllValues {κ} :
      (P : V → Type κ) (m : List (K × V)) (k : K) (v : V)
      → All (λ e. P e.1) m
      → get k m ≡ some v
      → P v
  unfolding get
  get-AllValues P [] k v all e = absurd (ground (arith, e))
  get-AllValues P ((j, w) ∷ m) k v all e = elim (dec j k) [
    | yes same ↦ subst P (ground (arith, sym (if_pos (dec j k) same (some w) (get k m)), e)) all.0
    | no other ↦ get-AllValues P m k v all.1 (sym (if_neg (dec j k) other (some w) (get k m)) ∙ e)
  ]
