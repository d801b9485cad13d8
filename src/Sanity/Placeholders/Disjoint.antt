-- ===== src/Sanity/Placeholders/Disjoint.antt =====
-- What the loops of is_policy_sane (src/handler/lib/policy.c) over the key placeholders guarantee.
use ledger_app_syscoin.Base.{
  ℕ, zero, suc, ◌+◌, ◌-◌, ◌<◌, ◌≡◌, ◌≢◌, ap, ◌∙◌, Bool, true, some, ◌&&◌, List, [], ◌∷◌, length,
  get_or, get_elem?, arith,
}
use mathlib.Core.Path.{subst}
use ledger_app_syscoin.Policy.{KeyPlaceholder, PolicyNode}
use ledger_app_syscoin.Sanity.Placeholders.{
  get_key_placeholder_by_index, disjoint_derivations, check_against, check_all, check_placeholders,
}
use ledger_app_syscoin.Sanity.Placeholders.Enumeration.{
  placeholders, get_key_placeholder_by_index-entry,
}

get_elem-get_or :
    (xs : List KeyPlaceholder) (i : ℕ) (d a : KeyPlaceholder)
    → get_elem? xs i ≡ some a
    → (get_or xs i d ≡ a) × (i < length xs)
get_elem-get_or [] i d a e = cc
get_elem-get_or (x ∷ xs) zero d a e = (cc, omega arith)
get_elem-get_or (x ∷ xs) (suc i) d a e = let (f, l) = get_elem-get_or xs i d a e in (f, omega arith)

and-left : (a b : Bool) → (a && b) ≡ true → a ≡ true
and-left a b h = ground arith

and-right : (a b : Bool) → (a && b) ≡ true → b ≡ true
and-right a b h = ground arith

module _ (policy : PolicyNode) (tmp : KeyPlaceholder) where
  -- The placeholder that a call retrieves.
  abbrev retrieved : ℕ → KeyPlaceholder
  retrieved i = (get_key_placeholder_by_index policy i tmp).1

  check_against-each :
      (kp : KeyPlaceholder) (rounds j k : ℕ)
      → check_against policy tmp kp rounds j ≡ true
      → k < rounds
      → disjoint_derivations kp (retrieved (j + k)) ≡ true
  unfolding check_against
  check_against-each kp zero j k h l = absurd (omega arith)
  check_against-each kp (suc rounds) j zero h l =
      subst (λ m. disjoint_derivations kp (retrieved m) ≡ true) {x = j} {y = j + 0} (omega arith)
        (and-left _ _ h)
  check_against-each kp (suc rounds) j (suc k) h l =
      subst (λ m. disjoint_derivations kp (retrieved m) ≡ true) {x = j + 1 + k} {y = j + suc k}
        (omega arith) (check_against-each kp rounds (j + 1) k (and-right _ _ h) (omega arith))

  check_all-each :
      (n rounds i k : ℕ)
      → check_all policy tmp n rounds i ≡ true
      → k < rounds
      → check_against policy tmp (retrieved (i + k)) (n - (i + k + 1)) (i + k + 1) ≡ true
  unfolding check_all
  check_all-each n zero i k h l = absurd (omega arith)
  check_all-each n (suc rounds) i zero h l =
      subst (λ m. check_against policy tmp (retrieved m) (n - (m + 1)) (m + 1) ≡ true) {x = i}
        {y = i + 0} (omega arith) (and-left _ _ h)
  check_all-each n (suc rounds) i (suc k) h l =
      subst (λ m. check_against policy tmp (retrieved m) (n - (m + 1)) (m + 1) ≡ true)
        {x = i + 1 + k} {y = i + suc k} (omega arith)
        (check_all-each n rounds (i + 1) k (and-right _ _ h) (omega arith))

  -- The loops compare any two placeholders.
  check_placeholders-each :
      (i j : ℕ)
      → check_placeholders policy tmp ≡ true
      → i < j
      → j < length (placeholders policy)
      → disjoint_derivations (retrieved i) (retrieved j) ≡ true
  unfolding check_placeholders
  check_placeholders-each i j h l l' =
      let n = (get_key_placeholder_by_index policy 0 tmp).0 in
      let count = ap (λ r. r.0) (get_key_placeholder_by_index-entry policy 0 tmp) in
      let row = check_all-each n (n - 1) 0 i h (omega (arith, count)) in
      let row' =
        subst (λ m. check_against policy tmp (retrieved m) (n - (m + 1)) (m + 1) ≡ true) {x = 0 + i}
          {y = i} (omega arith) row in
      subst (λ m. disjoint_derivations (retrieved i) (retrieved m) ≡ true)
        {x = i + 1 + (j - (i + 1))} {y = j} (omega arith)
        (check_against-each (retrieved i) (n - (i + 1)) (i + 1) (j - (i + 1)) row'
          (omega (arith, count)))

disjoint_derivations-differ :
    (a b : KeyPlaceholder)
    → disjoint_derivations a b ≡ true
    → a.key_index ≡ b.key_index
    → (a.num_first ≢ b.num_first)
      × (a.num_first ≢ b.num_second)
      × (a.num_second ≢ b.num_first)
      × (a.num_second ≢ b.num_second)
unfolding disjoint_derivations
disjoint_derivations-differ a b h e =
    (λ f. ground arith, λ f. ground arith, λ f. ground arith, λ f. ground arith)

-- If is_policy_sane passes the check of the placeholders, then any two placeholders of the policy with
-- the same key have no derivation step in common.
pub check_placeholders-disjoint :
    (policy : PolicyNode) (tmp : KeyPlaceholder) (i j : ℕ) (a b : KeyPlaceholder)
    → check_placeholders policy tmp ≡ true
    → i < j
    → get_elem? (placeholders policy) i ≡ some a
    → get_elem? (placeholders policy) j ≡ some b
    → a.key_index ≡ b.key_index
    → (a.num_first ≢ b.num_first)
      × (a.num_first ≢ b.num_second)
      × (a.num_second ≢ b.num_first)
      × (a.num_second ≢ b.num_second)
check_placeholders-disjoint policy tmp i j a b h l ei ej =
    let (fa, la) = get_elem-get_or (placeholders policy) i tmp a ei in
    let (fb, lb) = get_elem-get_or (placeholders policy) j tmp b ej in
    let ra = ap (λ r. r.1) (get_key_placeholder_by_index-entry policy i tmp) ∙ fa in
    let rb = ap (λ r. r.1) (get_key_placeholder_by_index-entry policy j tmp) ∙ fb in
    let each = check_placeholders-each policy tmp i j h l lb in
    disjoint_derivations-differ a b (
      subst (λ x. disjoint_derivations x b ≡ true) ra
        (subst (λ x. disjoint_derivations (get_key_placeholder_by_index policy i tmp).1 x ≡ true) rb
          each))
