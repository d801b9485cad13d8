-- ===== src/Client/Sorted/Increasing.antt =====
-- The order that call_check_merkle_tree_sorted_with_callback
-- (src/handler/lib/check_merkle_tree_sorted.c) checks.
use ledger_app_syscoin.Base.{
  ℕ, zero, suc, ◌+◌, ◌<◌, ◌≤◌, ◌≡◌, refl, sym, ap, ◌∙◌, min, true, false, Option, none, some, ltb,
  ltb→lt, ltb→le, Bool-cases, inl, inr, List, [], ◌∷◌, length, arith, Ensures, success, Ensures->>=,
  Ensures-each, Ensures-test, Ensures-some,
}
use mathlib.Core.Path.{subst}
use ledger_app_syscoin.Client.{Exchange}
use ledger_app_syscoin.Client.LeafElement.{call_get_merkle_leaf_element}
use ledger_app_syscoin.Client.Sorted.{
  Sign, negative, equal, positive, memcmp, compare_rest, compare_byte_arrays, is_negative, in_order,
  check_elements, call_check_merkle_tree_sorted_with_callback,
}

-- Strict lexicographical order.
pub data LexLess : List ℕ → List ℕ → Type 0 where
  shorter : {y : ℕ} {ys : List ℕ} → LexLess [] (y ∷ ys)
  smaller : {x y : ℕ} {xs ys : List ℕ} → x < y → LexLess (x ∷ xs) (y ∷ ys)
  later : {x : ℕ} {xs ys : List ℕ} → LexLess xs ys → LexLess (x ∷ xs) (x ∷ ys)

-- Every element comes after the one before it.
pub data Increasing : Option (List ℕ) → List (List ℕ) → Type 0 where
  ended : {prev : Option (List ℕ)} → Increasing prev []
  first :
      {el : List ℕ} {rest : List (List ℕ)} → Increasing (some el) rest → Increasing none (el ∷ rest)
  next :
      {prev el : List ℕ} {rest : List (List ℕ)}
      → LexLess prev el
      → Increasing (some el) rest
      → Increasing (some prev) (el ∷ rest)

min-suc : (a b : ℕ) → min (suc a) (suc b) ≡ suc (min a b)
min-suc a b = omega arith

ltb-suc : (a b : ℕ) → ltb (suc a) (suc b) ≡ ltb a b
ltb-suc a b = ground arith

ltb_irreflexive : (x : ℕ) → ltb x x ≡ false
ltb_irreflexive x = ground arith

compare-cons :
    (x : ℕ) (xs ys : List ℕ) → compare_byte_arrays (x ∷ xs) (x ∷ ys) ≡ compare_byte_arrays xs ys
unfolding compare_byte_arrays memcmp compare_rest
compare-cons x xs ys =
    rw (compare_byte_arrays, min-suc (length xs) (length ys), ltb_irreflexive x)
      (same_rest _ (length xs) (length ys))
  where
    same_rest :
        (memcmp_result : Sign)
        → (a b : ℕ) → compare_rest memcmp_result (suc a) (suc b) ≡ compare_rest memcmp_result a b
    same_rest negative a b = refl
    same_rest equal a b = rw (ltb-suc a b, ltb-suc b a) refl
    same_rest positive a b = refl

compare-greater :
    (x y : ℕ) (xs ys : List ℕ)
    → ltb x y ≡ false
    → ltb y x ≡ true
    → compare_byte_arrays (x ∷ xs) (y ∷ ys) ≡ positive
unfolding compare_byte_arrays memcmp compare_rest
compare-greater x y xs ys h g = rw (compare_byte_arrays, min-suc (length xs) (length ys), h, g) refl

compare-longer : (x : ℕ) (xs : List ℕ) → compare_byte_arrays (x ∷ xs) [] ≡ positive
unfolding compare_byte_arrays memcmp compare_rest
compare-longer x xs =
    rw
      (
        compare_byte_arrays,
        min_zero (suc (length xs)),
        ltb_zero (suc (length xs)),
        zero_ltb_suc (length xs),
      )
      refl
  where
    min_zero : (a : ℕ) → min a 0 ≡ 0
    min_zero a = omega arith

    ltb_zero : (a : ℕ) → ltb a 0 ≡ false
    ltb_zero a = ground arith

    zero_ltb_suc : (a : ℕ) → ltb 0 (suc a) ≡ true
    zero_ltb_suc a = ground arith

distinct : {xs ys : List ℕ} → negative ≡ positive → LexLess xs ys
distinct h = cc

compare-LexLess : (xs ys : List ℕ) → compare_byte_arrays xs ys ≡ negative → LexLess xs ys
unfolding compare_byte_arrays memcmp compare_rest
compare-LexLess [] [] e = cc
compare-LexLess [] (y ∷ ys) e = shorter
compare-LexLess (x ∷ xs) [] e = distinct (sym e ∙ compare-longer x xs)
compare-LexLess (x ∷ xs) (y ∷ ys) e = elim (Bool-cases (ltb x y)) [
  | inl less ↦ smaller (ltb→lt x y less)
  | inr not_less ↦ elim (Bool-cases (ltb y x)) [
    | inl greater ↦ distinct (sym e ∙ compare-greater x y xs ys not_less greater)
    | inr not_greater ↦
        same_head (le_antisym (ltb→le y x not_greater) (ltb→le x y not_less))
          (compare-LexLess xs ys) e
  ]
]
  where
    le_antisym : {a b : ℕ} → a ≤ b → b ≤ a → a ≡ b
    le_antisym g h = omega arith

    same_head :
        {x y : ℕ} {xs ys : List ℕ}
        → x ≡ y
        → (compare_byte_arrays xs ys ≡ negative → LexLess xs ys)
        → compare_byte_arrays (x ∷ xs) (y ∷ ys) ≡ negative
        → LexLess (x ∷ xs) (y ∷ ys)
    same_head {x} {y} {xs} {ys} h smaller_rest e =
        subst (λ z. compare_byte_arrays (x ∷ xs) (z ∷ ys) ≡ negative → LexLess (x ∷ xs) (z ∷ ys)) h
          (λ f. later (smaller_rest (sym (compare-cons x xs ys) ∙ f))) e

in_order-LexLess :
    (prev_el cur_el : List ℕ) → in_order (some prev_el) cur_el ≡ true → LexLess prev_el cur_el
unfolding in_order is_negative
in_order-LexLess prev_el cur_el = accepted refl
  where
    refused : false ≡ true → LexLess prev_el cur_el
    refused h = cc

    accepted :
        {sign : Sign}
        → compare_byte_arrays prev_el cur_el ≡ sign
        → in_order (some prev_el) cur_el ≡ true
        → LexLess prev_el cur_el
    accepted {sign = negative} compared ordered = compare-LexLess prev_el cur_el compared
    accepted {sign = equal} compared ordered = refused (sym (ap is_negative compared) ∙ ordered)
    accepted {sign = positive} compared ordered = refused (sym (ap is_negative compared) ∙ ordered)

Increasing-cons :
    (prev_el : Option (List ℕ)) (cur_el : List ℕ) (rest : List (List ℕ))
    → in_order prev_el cur_el ≡ true
    → Increasing (some cur_el) rest
    → Increasing prev_el (cur_el ∷ rest)
Increasing-cons none cur_el rest ordered increasing = first increasing
Increasing-cons (some prev_el) cur_el rest ordered increasing =
    next (in_order-LexLess prev_el cur_el ordered) increasing

check_elements-Increasing :
    (sha256 : List ℕ → List ℕ) (root : List ℕ) (size limit : ℕ)
    (callback : ℕ → List ℕ → Exchange → Exchange) (rounds cur_el_idx : ℕ)
    (prev_el : Option (List ℕ)) (exchange : Exchange)
    → Ensures
        (λ (elements, exchange'). Increasing prev_el elements × length elements ≡ rounds)
        (check_elements sha256 root size limit callback rounds cur_el_idx prev_el exchange)
unfolding check_elements
check_elements-Increasing sha256 root size limit callback zero cur_el_idx prev_el exchange =
    success (ended, refl)
check_elements-Increasing sha256 root size limit callback (suc rounds) cur_el_idx prev_el exchange =
    Ensures-each (call_get_merkle_leaf_element sha256 root size cur_el_idx limit exchange)
      (λ (cur_el, cur_el_len, exchange') received.
        Ensures-test (in_order prev_el cur_el) (λ ordered.
          Ensures->>=
            (check_elements-Increasing sha256 root size limit callback rounds (cur_el_idx + 1)
              (some cur_el) (callback cur_el_idx cur_el exchange'))
            (λ (rest, exchange'') (increasing, n).
              success (Increasing-cons prev_el cur_el rest ordered increasing, ap suc n))))

-- For every hash function and every callback: if a run of
-- call_check_merkle_tree_sorted_with_callback is accepted, the elements handed to the callback are as
-- many as the tree has leaves, and each comes strictly after the one before it in lexicographical
-- order.
pub call_check_merkle_tree_sorted_with_callback-Increasing :
    (sha256 : List ℕ → List ℕ) (root : List ℕ) (size limit : ℕ)
    (callback : ℕ → List ℕ → Exchange → Exchange) (exchange : Exchange) (elements : List (List ℕ))
    (exchange' : Exchange)
    → call_check_merkle_tree_sorted_with_callback sha256 root size limit callback exchange
      ≡ some (elements, exchange')
    → Increasing none elements × length elements ≡ size
unfolding call_check_merkle_tree_sorted_with_callback
call_check_merkle_tree_sorted_with_callback-Increasing sha256 root size limit callback exchange
      elements exchange' =
    Ensures-some (check_elements-Increasing sha256 root size limit callback size 0 none exchange)
