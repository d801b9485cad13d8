-- ===== src/Satisfaction/Thresh.antt =====
-- The loop of compute_thresh_ops and compute_thresh_stacksize in src/common/wallet.c: entry j of
-- its array is the maximum over the ways to satisfy exactly j of the children read so far.
use ledger_app_syscoin.Base.{
  ℕ, zero, suc, ◌+◌, ◌≤◌, ◌<◌, ◌≡◌, refl, inl, inr, true, false, List, [], ◌∷◌, length, get_or, ℤ,
  pos, arith,
}
use ledger_app_syscoin.Policy.{PolicyNode, Scriptlist, nil, cons, size}
use ledger_app_syscoin.Policy.ExtInfo.{ExtInfo, sumcheck}
use ledger_app_syscoin.Policy.ExtInfo.Thresh.{next_sats_from, next_sats, sats_loop}
use ledger_app_syscoin.Satisfaction.{Measure, Costs, Chooses}
use ledger_app_syscoin.Satisfaction.Sets.{
  Only, Sum, Either, Never, IsMaximum, Same, IsMaximum-Same, Only-IsMaximum, Sum-IsMaximum,
  Either-IsMaximum,
}

-- The list holds the maxima of R 0, R 1, …, and the sets behind its end are empty.
abbrev AllMaximum : (ℕ → ℕ → Type 0) → List ℤ → Type 0
AllMaximum R [] = (j w : ℕ) → R j w → ⊥
AllMaximum R (a ∷ bs) = IsMaximum (R 0) a × AllMaximum (λ j. R (suc j)) bs

AllMaximum-Same :
    (R S : ℕ → ℕ → Type 0) (bs : List ℤ)
    → ((j : ℕ) → Same (R j) (S j))
    → AllMaximum R bs
    → AllMaximum S bs
AllMaximum-Same R S [] f h = λ j w s. h j w ((f j w).1 s)
AllMaximum-Same R S (a ∷ bs) f (h, t) = (
  IsMaximum-Same (f 0) h,
  AllMaximum-Same (λ j. R (suc j)) (λ j. S (suc j)) bs (λ j. f (suc j)) t,
)

AllMaximum-get_or :
    (R : ℕ → ℕ → Type 0) (bs : List ℤ) (j : ℕ) (d : ℤ)
    → j < length bs
    → AllMaximum R bs
    → IsMaximum (R j) (get_or bs j d)
AllMaximum-get_or R [] j d h m = absurd (omega arith)
AllMaximum-get_or R (a ∷ bs) zero d h (m, t) = m
AllMaximum-get_or R (a ∷ bs) (suc j) d h (m, t) =
    AllMaximum-get_or (λ j. R (suc j)) bs j d (omega arith) t

-- One more child, with the sets of its satisfactions and of its dissatisfactions.
abbrev Step : (ℕ → ℕ → Type 0) → (ℕ → Type 0) → (ℕ → Type 0) → ℕ → ℕ → Type 0
Step R S D zero = Sum (R zero) D
Step R S D (suc j) = Either (Sum (R (suc j)) D) (Sum (R j) S)

module _ (S D : ℕ → Type 0) {sat dsat : ℤ} (p : IsMaximum S sat) (q : IsMaximum D dsat) where
  next_sats_from-AllMaximum :
      (R : ℕ → ℕ → Type 0) (prev : ℤ) (sats : List ℤ)
      → IsMaximum (R 0) prev
      → AllMaximum (λ j. R (suc j)) sats
      → AllMaximum (λ j. Step R S D (suc j)) (next_sats_from sat dsat prev sats)
  unfolding next_sats_from
  next_sats_from-AllMaximum R prev [] m t = (
    IsMaximum-Same (λ w. (λ h. inr h, elim [ inl (a, b, r, d, e) ↦ absurd (t 0 a r) | inr h ↦ h ]))
        (Sum-IsMaximum m p),
    λ j w. elim [ inl (a, b, r, d, e) ↦ t (suc j) a r | inr (a, b, r, c, e) ↦ t j a r ],
  )
  next_sats_from-AllMaximum R prev (cur ∷ sats) m (c, t) = (
    Either-IsMaximum (Sum-IsMaximum c q) (Sum-IsMaximum m p),
    next_sats_from-AllMaximum (λ j. R (suc j)) cur sats c t,
  )

  Step-empty : (R : ℕ → ℕ → Type 0) → ((j w : ℕ) → R j w → ⊥) → (j w : ℕ) → Step R S D j w → ⊥
  Step-empty R t zero w (a, b, r, d, e) = t 0 a r
  Step-empty R t (suc j) w (inl (a, b, r, d, e)) = t (suc j) a r
  Step-empty R t (suc j) w (inr (a, b, r, c, e)) = t j a r

  next_sats-AllMaximum :
      (R : ℕ → ℕ → Type 0) (sats : List ℤ)
      → AllMaximum R sats
      → AllMaximum (Step R S D) (next_sats sat dsat sats)
  unfolding next_sats
  next_sats-AllMaximum R [] t = λ j w h. Step-empty R t j w h
  next_sats-AllMaximum R (first ∷ sats) (m, t) =
      (Sum-IsMaximum m q, next_sats_from-AllMaximum R first sats m t)

length-next_sats_from :
    (sat dsat prev : ℤ) (sats : List ℤ)
    → length (next_sats_from sat dsat prev sats) ≡ suc (length sats)
unfolding next_sats_from
length-next_sats_from sat dsat prev [] = refl
length-next_sats_from sat dsat prev (cur ∷ sats) =
    omega (arith, length-next_sats_from sat dsat cur sats)

length-sats_loop :
    (sat dsat : ExtInfo → ℤ) (first : ℤ) (sats : List ℤ) (ts : List ExtInfo)
    → length (sats_loop sat dsat (first ∷ sats) ts) ≡ suc (length sats + length ts)
unfolding sats_loop next_sats
length-sats_loop sat dsat first sats [] = omega arith
length-sats_loop sat dsat first sats (t ∷ ts) = omega (
  arith,
  length-sats_loop sat dsat (sumcheck first (dsat t)) (next_sats_from (sat t) (dsat t) first sats)
      ts,
  length-next_sats_from (sat t) (dsat t) first sats,
)

module _ (μ : Measure) where
  -- A choice among the children read, and one among those that remain.
  abbrev Combine : (ℕ → ℕ → Type 0) → Scriptlist → ℕ → ℕ → Type 0
  Combine R xs j w =
      (i : ℕ) × (m : ℕ) × (v : ℕ) × (u : ℕ) × R i v × Chooses μ xs m u × (j ≡ i + m) × (w ≡ v + u)

  Chooses-dissatisfied :
      (x : PolicyNode) (xs : Scriptlist) (m d u w : ℕ)
      → Costs μ false x d
      → Chooses μ xs m u
      → w ≡ d + u
      → Chooses μ (cons x xs) m w
  Chooses-dissatisfied x xs zero d u w p c e = (d, u, p, c, e)
  Chooses-dissatisfied x xs (suc m) d u w p c e = inl (d, u, p, c, e)

  Combine-of_Step :
      (R : ℕ → ℕ → Type 0) (x : PolicyNode) (xs : Scriptlist) (j w : ℕ)
      → Combine (Step R (Costs μ true x) (Costs μ false x)) xs j w
      → Combine R (cons x xs) j w
  Combine-of_Step R x xs j w (zero, m, v, u, (a, b, r, d, e), c, ej, ew) =
      (zero, m, a, b + u, r, Chooses-dissatisfied x xs m b u _ d c refl, ej, omega arith)
  Combine-of_Step R x xs j w (suc i, m, v, u, inl (a, b, r, d, e), c, ej, ew) =
      (suc i, m, a, b + u, r, Chooses-dissatisfied x xs m b u _ d c refl, ej, omega arith)
  Combine-of_Step R x xs j w (suc i, m, v, u, inr (a, b, r, s, e), c, ej, ew) =
      (i, suc m, a, b + u, r, inr (b, u, s, c, refl), omega arith, omega arith)

  Step-dissatisfied :
      (R : ℕ → ℕ → Type 0) (x : PolicyNode) (i v d : ℕ)
      → R i v
      → Costs μ false x d
      → Step R (Costs μ true x) (Costs μ false x) i (v + d)
  Step-dissatisfied R x zero v d r p = (v, d, r, p, refl)
  Step-dissatisfied R x (suc i) v d r p = inl (v, d, r, p, refl)

  Step-of_Combine :
      (R : ℕ → ℕ → Type 0) (x : PolicyNode) (xs : Scriptlist) (j w : ℕ)
      → Combine R (cons x xs) j w
      → Combine (Step R (Costs μ true x) (Costs μ false x)) xs j w
  Step-of_Combine R x xs j w (i, zero, v, u, r, (a, b, d, c, e), ej, ew) =
      (i, zero, v + a, b, Step-dissatisfied R x i v a r d, c, ej, omega arith)
  Step-of_Combine R x xs j w (i, suc m, v, u, r, inl (a, b, d, c, e), ej, ew) =
      (i, suc m, v + a, b, Step-dissatisfied R x i v a r d, c, ej, omega arith)
  Step-of_Combine R x xs j w (i, suc m, v, u, r, inr (a, b, s, c, e), ej, ew) =
      (suc i, m, v + a, b, inr (v, a, r, s, refl), c, omega arith, omega arith)

  Combine-nil : (R : ℕ → ℕ → Type 0) (j w : ℕ) → Combine R nil j w → R j w
  Combine-nil R j w (i, zero, v, u, r, c, ej, ew) =
      let j_eq : j ≡ i = omega arith in let w_eq : w ≡ v = omega arith in rw (j_eq, w_eq) r
  Combine-nil R j w (i, suc m, v, u, r, c, ej, ew) = absurd c

  -- Before the first child, only the empty choice is there.
  abbrev NoChild : ℕ → ℕ → Type 0
  NoChild zero = Only 0
  NoChild (suc j) = Never

  Chooses-of_Combine : (xs : Scriptlist) (k w : ℕ) → Combine NoChild xs k w → Chooses μ xs k w
  Chooses-of_Combine xs k w (zero, m, v, u, r, c, ej, ew) =
      let k_eq : k ≡ m = omega arith in let w_eq : w ≡ u = omega arith in rw (k_eq, w_eq) c
  Chooses-of_Combine xs k w (suc i, m, v, u, r, c, ej, ew) = absurd r

  module _ (sat dsat : ExtInfo → ℤ) where
    -- The analysis of each child is right.
    abbrev pub ChildrenMaximum : Scriptlist → List ExtInfo → Type 0
    ChildrenMaximum nil [] = Unit
    ChildrenMaximum (cons x xs) (t ∷ ts) =
        IsMaximum (Costs μ true x) (sat t)
        × IsMaximum (Costs μ false x) (dsat t)
        × ChildrenMaximum xs ts
    ChildrenMaximum _ _ = ⊥

    length-ChildrenMaximum :
        (xs : Scriptlist) (ts : List ExtInfo) → ChildrenMaximum xs ts → length ts ≡ size xs
    length-ChildrenMaximum nil [] h = refl
    length-ChildrenMaximum (cons x xs) (t ∷ ts) h = omega (arith, length-ChildrenMaximum xs ts h.2)
    length-ChildrenMaximum nil (t ∷ ts) h = absurd h
    length-ChildrenMaximum (cons x xs) [] h = absurd h

    sats_loop-AllMaximum :
        (xs : Scriptlist) (ts : List ExtInfo) (R : ℕ → ℕ → Type 0) (sats : List ℤ)
        → ChildrenMaximum xs ts
        → AllMaximum R sats
        → AllMaximum (Combine R xs) (sats_loop sat dsat sats ts)
    unfolding sats_loop
    sats_loop-AllMaximum nil [] R sats h m =
        AllMaximum-Same R (Combine R nil) sats
          (λ j w. (λ r. (j, 0, w, 0, r, refl, omega arith, omega arith), Combine-nil R j w)) m
    sats_loop-AllMaximum (cons x xs) (t ∷ ts) R sats (p, q, h) m =
        AllMaximum-Same _ _ _ (λ j w. (Combine-of_Step R x xs j w, Step-of_Combine R x xs j w))
          (sats_loop-AllMaximum xs ts (Step R (Costs μ true x) (Costs μ false x)) _ h
            (next_sats-AllMaximum (Costs μ true x) (Costs μ false x) p q R sats m))
    sats_loop-AllMaximum nil (t ∷ ts) R sats h m = absurd h
    sats_loop-AllMaximum (cons x xs) [] R sats h m = absurd h

    pub sats_loop-IsMaximum :
        (xs : Scriptlist) (ts : List ExtInfo) (k : ℕ) (d : ℤ)
        → ChildrenMaximum xs ts
        → k ≤ size xs
        → IsMaximum (Chooses μ xs k) (get_or (sats_loop sat dsat (pos 0 ∷ []) ts) k d)
    sats_loop-IsMaximum xs ts k d h le =
        IsMaximum-Same
          (λ w. (Chooses-of_Combine xs k w, λ c. (0, k, 0, w, refl, c, omega arith, omega arith)))
          (AllMaximum-get_or (Combine NoChild xs) _ k d
            (omega (arith, length-sats_loop sat dsat (pos 0) [] ts, length-ChildrenMaximum xs ts h))
            (sats_loop-AllMaximum xs ts NoChild (pos 0 ∷ []) h
              (Only-IsMaximum 0 (omega arith), λ j w n. n)))
