-- ===== src/Client/Sorted/Examples.antt =====
-- Runs of call_check_merkle_tree_sorted_with_callback (src/handler/lib/check_merkle_tree_sorted.c) on
-- a tree of two elements.
use ledger_app_syscoin.Base.{
  ℕ, zero, suc, ◌≡◌, refl, none, some, List, [], ◌∷◌, ◌++◌, length, take, drop,
}
use ledger_app_syscoin.Wire.{varint_read}
use ledger_app_syscoin.Merkle.{ceil_lg, merkle_get_ith_direction}
use ledger_app_syscoin.Client.{Exchange, same_bytes}
use ledger_app_syscoin.Client.LeafHash.{merkle_combine_hashes, call_get_merkle_leaf_hash}
use ledger_app_syscoin.Client.Preimage.{call_get_merkle_preimage}
use ledger_app_syscoin.Client.LeafElement.{call_get_merkle_leaf_element}
use ledger_app_syscoin.Client.Sorted.{
  compare_byte_arrays, call_check_merkle_tree_sorted_with_callback,
}
use ledger_app_syscoin.Client.Sorted.Increasing.{
  Increasing, call_check_merkle_tree_sorted_with_callback-Increasing,
}

abbrev zeros : ℕ → List ℕ
zeros zero = []
zeros (suc n) = 0 ∷ zeros n

-- The first 32 bytes, filled up with zeros.
abbrev prefix32 : List ℕ → List ℕ
prefix32 bytes = take 32 (bytes ++ zeros 32)

-- The callback NULL.
abbrev no_callback : ℕ → List ℕ → Exchange → Exchange
no_callback index element exchange = exchange

abbrev one : List ℕ
one = prefix32 (0 ∷ 1 ∷ [])

abbrev two : List ℕ
two = prefix32 (0 ∷ 2 ∷ [])

abbrev replies_of : ℕ → List ℕ → List ℕ → List (List ℕ) → List (List ℕ)
replies_of element leaf sibling replies =
    (leaf ++ 1 ∷ 1 ∷ sibling) ∷ (2 ∷ 2 ∷ 0 ∷ element ∷ []) ∷ replies

abbrev after_run : List ℕ
after_run = 2 ∷ 2 ∷ 0 ∷ 2 ∷ drop 4 (two ++ 1 ∷ 1 ∷ one)

sorted_run :
    call_check_merkle_tree_sorted_with_callback prefix32
      (prefix32 (0x01 ∷ one ++ two))
      2
      162
      no_callback
      (record { memory = []; replies = replies_of 1 one two (replies_of 2 two one []) })
    ≡ some ((1 ∷ []) ∷ (2 ∷ []) ∷ [], record { memory = after_run; replies = [] })
unfolding call_check_merkle_tree_sorted_with_callback call_get_merkle_leaf_element
    call_get_merkle_leaf_hash call_get_merkle_preimage merkle_combine_hashes
    merkle_get_ith_direction ceil_lg same_bytes varint_read compare_byte_arrays
sorted_run = refl

unsorted_refused :
    call_check_merkle_tree_sorted_with_callback prefix32
      (prefix32 (0x01 ∷ two ++ one))
      2
      162
      no_callback
      (record { memory = []; replies = replies_of 2 two one (replies_of 1 one two []) })
    ≡ none
unfolding call_check_merkle_tree_sorted_with_callback call_get_merkle_leaf_element
    call_get_merkle_leaf_hash call_get_merkle_preimage merkle_combine_hashes
    merkle_get_ith_direction ceil_lg same_bytes varint_read compare_byte_arrays
unsorted_refused = refl

call_check_merkle_tree_sorted_with_callback-Increasing_example :
    Increasing none ((1 ∷ []) ∷ (2 ∷ []) ∷ []) × length {A = List ℕ} ((1 ∷ []) ∷ (2 ∷ []) ∷ []) ≡ 2
call_check_merkle_tree_sorted_with_callback-Increasing_example =
    call_check_merkle_tree_sorted_with_callback-Increasing prefix32 (prefix32 (0x01 ∷ one ++ two)) 2
      162 no_callback
      (record { memory = []; replies = replies_of 1 one two (replies_of 2 two one []) })
      ((1 ∷ []) ∷ (2 ∷ []) ∷ []) (record { memory = after_run; replies = [] }) sorted_run
