-- ===== src/Client/Sorted.antt =====
-- call_check_merkle_tree_sorted_with_callback of src/handler/lib/check_merkle_tree_sorted.c.
pub mod Increasing
mod Examples
use ledger_app_syscoin.Base.{
  ℕ, zero, suc, ◌+◌, min, Bool, true, false, Option, none, some, ◌>>=◌, ◌>>◌, guard, ltb,
  if◌then◌else◌, List, [], ◌∷◌, length,
}
use ledger_app_syscoin.Client.{Exchange}
use ledger_app_syscoin.Client.LeafElement.{call_get_merkle_leaf_element}

-- The sign of an int.
pub data Sign : Type 0 where
  negative equal positive : Sign

unfoldable pub memcmp : ℕ → List ℕ → List ℕ → Sign
memcmp (suc n) (x ∷ xs) (y ∷ ys) =
    let rest = memcmp n xs ys in if ltb x y then negative else if ltb y x then positive else rest
memcmp _ _ _ = equal

-- If the common part is equal, the shorter array comes first.
unfoldable pub compare_rest : Sign → ℕ → ℕ → Sign
compare_rest equal array1_len array2_len =
    if ltb array1_len array2_len
    then negative
    else if ltb array2_len array1_len
    then positive
    else equal
compare_rest memcmp_result array1_len array2_len = memcmp_result

-- A min_len of 0 is the case of memcmp that compares nothing.
unfoldable pub compare_byte_arrays : List ℕ → List ℕ → Sign
unfolding memcmp compare_rest
compare_byte_arrays array1 array2 =
    let array1_len = length array1 in
    let array2_len = length array2 in
    compare_rest (memcmp (min array1_len array2_len) array1 array2) array1_len array2_len

unfoldable pub is_negative : Sign → Bool
is_negative negative = true
is_negative equal = false
is_negative positive = false

-- The test against the element before, if there is one.
unfoldable pub in_order : Option (List ℕ) → List ℕ → Bool
unfolding compare_byte_arrays is_negative
in_order none cur_el = true
in_order (some prev_el) cur_el = is_negative (compare_byte_arrays prev_el cur_el)

-- The loop from cur_el_idx on, with `rounds` left; the result holds the elements that are handed to
-- the callback, in this order. `limit` is MAX_CHECK_MERKLE_TREE_SORTED_PREIMAGE_SIZE. The callback
-- may itself exchange data with the client; it has no result, and is the identity for NULL.
unfoldable pub check_elements :
    (List ℕ → List ℕ)
    → List ℕ
    → ℕ
    → ℕ
    → (ℕ → List ℕ → Exchange → Exchange)
    → ℕ
    → ℕ
    → Option (List ℕ)
    → Exchange
    → Option (List (List ℕ) × Exchange)
unfolding call_get_merkle_leaf_element in_order
check_elements sha256 root size limit callback zero cur_el_idx prev_el exchange =
    some ([], exchange)
check_elements sha256 root size limit callback (suc rounds) cur_el_idx prev_el exchange = do
  (cur_el, cur_el_len, exchange') ←
      call_get_merkle_leaf_element sha256 root size cur_el_idx limit exchange
  guard (in_order prev_el cur_el)
  (rest, exchange'') ←
      check_elements sha256 root size limit callback rounds (cur_el_idx + 1) (some cur_el)
        (callback cur_el_idx cur_el exchange')
  some (cur_el ∷ rest, exchange'')

unfoldable pub call_check_merkle_tree_sorted_with_callback :
    (List ℕ → List ℕ)
    → List ℕ
    → ℕ
    → ℕ
    → (ℕ → List ℕ → Exchange → Exchange)
    → Exchange
    → Option (List (List ℕ) × Exchange)
unfolding check_elements
call_check_merkle_tree_sorted_with_callback sha256 root size limit callback exchange =
    check_elements sha256 root size limit callback size 0 none exchange
