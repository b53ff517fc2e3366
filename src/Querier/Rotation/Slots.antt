-- ===== src/Querier/Rotation/Slots.antt =====
-- util/querier/querier.go: the endpoint index of the rotation, modulo the number of endpoints.
use native.Mathlib.Nat.{mod-eq_of_lt, mod-add-mod, mod-eq-sub-mod, add-mod_right}
use rollytics.Prelude.{ℕ, ◌+◌, ◌-◌, ◌%◌, ◌<◌, ◌≡◌, ◌≢◌, ap, ◌∙◌, arith, dec_lt}

pub slot_next : (start n q : ℕ) → ((start + q) % n + 1) % n ≡ (start + (q + 1)) % n
slot_next start n q = mod-add-mod (start + q) n 1 ∙ ap (λ t. t % n) (omega arith)

pub slot_turn : (start n q : ℕ) → start < n → q < n → (start + (q + 1)) % n ≡ start → q + 1 ≡ n
slot_turn start n q h k e = elim (dec_lt (start + (q + 1)) n) [
  | yes below ↦ absurd (omega (arith, mod-eq_of_lt below))
  | no past ↦ omega (
    arith,
    mod-eq-sub-mod {n = start + (q + 1)} {m = n} (omega arith),
    mod-eq_of_lt {n = start + (q + 1) - n} {m = n} (omega arith),
  )
]

pub slot_ahead : (start n q : ℕ) → start < n → q < n → (start + (q + 1)) % n ≢ start → q + 1 < n
slot_ahead start n q h k e = elim (dec_lt (q + 1) n) [
  | yes below ↦ below
  | no past ↦
      absurd (
        e (
          let whole : q + 1 ≡ n = omega arith in rw whole (add-mod_right start n ∙ mod-eq_of_lt h)))
]
