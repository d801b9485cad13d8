-- ===== src/Satisfaction/Sets.antt =====
-- Sets of costs, and the bounds on them that the analysis of src/common/wallet.c computes by
-- `sumcheck` and `maxcheck`.
use ledger_app_syscoin.Base.{
  ℕ, ◌+◌, ◌≤◌, ◌≡◌, refl, ◌↔◌, ◌⊎◌, inl, inr, min, ℤ, pos, negsuc, arith, Bool-cases, ltb, ltb→lt,
  ltb→le,
}
use native.Mathlib.Nat.{add_comm}
use ledger_app_syscoin.Policy.Types.{int16_max}
use ledger_app_syscoin.Policy.ExtInfo.{sumcheck, maxcheck}

abbrev pub Only : ℕ → ℕ → Type 0
Only c w = w ≡ c

abbrev pub Never : ℕ → Type 0
Never w = ⊥

abbrev pub Sum : (ℕ → Type 0) → (ℕ → Type 0) → ℕ → Type 0
Sum R S w = (v : ℕ) × (u : ℕ) × R v × S u × (w ≡ v + u)

abbrev pub Either : (ℕ → Type 0) → (ℕ → Type 0) → ℕ → Type 0
Either R S w = R w ⊎ S w

-- The integer is the largest cost in the set, cut off at INT16_MAX; a negative one says that the
-- set is empty.
pub data IsMaximum (R : ℕ → Type 0) : ℤ → Type 0 where
  empty : {n : ℕ} → ((w : ℕ) → R w → ⊥) → IsMaximum R (negsuc n)
  maximum :
      {m w : ℕ}
      → ((v : ℕ) → R v → min v int16_max ≤ m)
      → R w
      → min w int16_max ≡ m
      → IsMaximum R (pos m)

pub Never-IsMaximum : IsMaximum Never (negsuc 0)
Never-IsMaximum = empty (λ w h. h)

pub Only-IsMaximum_eq : (c m : ℕ) → c ≡ m → c ≤ int16_max → IsMaximum (Only c) (pos m)
Only-IsMaximum_eq c m e h = maximum {w = c} (λ w i. omega arith) refl (omega arith)

pub Only-IsMaximum : (c : ℕ) → c ≤ int16_max → IsMaximum (Only c) (pos c)
Only-IsMaximum c h = maximum {w = c} (λ w i. omega arith) refl (omega arith)

-- Two descriptions of the same set.
abbrev pub Same : (ℕ → Type 0) → (ℕ → Type 0) → Type 0
Same R S = (w : ℕ) → R w ↔ S w

pub IsMaximum-Same : {R S : ℕ → Type 0} {a : ℤ} → Same R S → IsMaximum R a → IsMaximum S a
IsMaximum-Same f (empty p) = empty (λ w s. p w ((f w).1 s))
IsMaximum-Same f (maximum p r e) = maximum (λ w s. p w ((f w).1 s)) ((f _).0 r) e

sumcheck_comm : (a b : ℤ) → sumcheck a b ≡ sumcheck b a
unfolding sumcheck
sumcheck_comm (negsuc a) (negsuc b) = refl
sumcheck_comm (negsuc a) (pos b) = refl
sumcheck_comm (pos a) (negsuc b) = refl
sumcheck_comm (pos a) (pos b) = rw (add_comm a b) refl

module _ {R S : ℕ → Type 0} where
  pub Sum-IsMaximum : {a b : ℤ} → IsMaximum R a → IsMaximum S b → IsMaximum (Sum R S) (sumcheck a b)
  unfolding sumcheck
  Sum-IsMaximum (empty p) q = empty (λ w (v, u, r, s, e). p v r)
  Sum-IsMaximum (maximum p r e) (empty q) = empty (λ w (v, u, r, s, e). q u s)
  Sum-IsMaximum (maximum {m = a} {w = v} p r e) (maximum {m = b} {w = u} q s e') =
      elim (Bool-cases (ltb int16_max (a + b))) [
        | inl h ↦ rw h (
            maximum {w = v + u} (λ w (v, u, r, s, e). omega arith) (v, u, r, s, refl)
              (omega (arith, ltb→lt _ _ h)))
        | inr h ↦ rw h (
            maximum {w = v + u} (λ w (v, u, r, s, e). omega (arith, p v r, q u s))
              (v, u, r, s, refl) (omega (arith, ltb→le _ _ h)))
      ]

  pub Sum-IsMaximum_flip :
      {a b : ℤ} → IsMaximum R a → IsMaximum S b → IsMaximum (Sum R S) (sumcheck b a)
  Sum-IsMaximum_flip {a} {b} p q = rw (sumcheck_comm b a) (Sum-IsMaximum p q)

  pub Either-IsMaximum :
      {a b : ℤ} → IsMaximum R a → IsMaximum S b → IsMaximum (Either R S) (maxcheck a b)
  unfolding maxcheck
  Either-IsMaximum (empty p) (empty q) = empty (λ w h. elim h [ inl r ↦ p w r | inr s ↦ q w s ])
  Either-IsMaximum (empty p) (maximum q s e) =
      maximum (λ w h. elim h [ inl r ↦ absurd (p w r) | inr s ↦ q w s ]) (inr s) e
  Either-IsMaximum (maximum p r e) (empty q) =
      maximum (λ w h. elim h [ inl r ↦ p w r | inr s ↦ absurd (q w s) ]) (inl r) e
  Either-IsMaximum (maximum {m = a} p r e) (maximum {m = b} q s e') = elim (Bool-cases (ltb b a)) [
    | inl h ↦ rw h (
        maximum (λ w c. elim c [ inl r ↦ p w r | inr s ↦ omega (arith, q w s, ltb→lt b a h) ])
          (inl r) e)
    | inr h ↦ rw h (
        maximum (λ w c. elim c [ inl r ↦ omega (arith, p w r, ltb→le b a h) | inr s ↦ q w s ])
          (inr s) e')
  ]

module _ {R S : ℕ → Type 0} where
  pub Either-IsMaximum_flip :
      {a b : ℤ} → IsMaximum R a → IsMaximum S b → IsMaximum (Either R S) (maxcheck b a)
  Either-IsMaximum_flip p q =
      IsMaximum-Same
        (λ w. (elim [ inl s ↦ inr s | inr r ↦ inl r ], elim [ inl r ↦ inr r | inr s ↦ inl s ]))
        (Either-IsMaximum q p)

pub Sum-IsMaximum_zero : {R : ℕ → Type 0} {a : ℤ} → IsMaximum R a → IsMaximum (Sum (Only 0) R) a
Sum-IsMaximum_zero {R} = IsMaximum-Same (λ w. (λ r. (0, w, refl, r, omega arith), Sum-zero R w))
  where
    Sum-zero : (R : ℕ → Type 0) (w : ℕ) → Sum (Only 0) R w → R w
    Sum-zero R w (v, u, z, r, e) = let w_eq : w ≡ u = omega arith in rw w_eq r
