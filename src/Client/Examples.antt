-- ===== src/Client/Examples.antt =====
-- Runs of call_get_merkle_leaf_hash and call_get_merkle_leaf_element (src/handler/lib) with simple
-- hash functions.
use ledger_app_syscoin.Base.{ℕ, zero, suc, ◌≡◌, refl, some, none, List, [], ◌∷◌, ◌++◌, take, arith}
use ledger_app_syscoin.Merkle.{ceil_lg, merkle_get_ith_direction}
use ledger_app_syscoin.Client.{Exchange, same_bytes}
use ledger_app_syscoin.Client.LeafHash.{merkle_combine_hashes, call_get_merkle_leaf_hash}
use ledger_app_syscoin.Client.LeafHash.Climb.{Climb, call_get_merkle_leaf_hash-Climb}
use ledger_app_syscoin.Client.LeafHash.Short.{after, empty_proof_accepted}
use ledger_app_syscoin.Client.LeafElement.{call_get_merkle_leaf_element}
use ledger_app_syscoin.Client.LeafElement.InnerNode.{inner_node_as_element}

abbrev repeat : ℕ → ℕ → List ℕ
repeat zero x = []
repeat (suc n) x = x ∷ repeat n x

abbrev identity : List ℕ → List ℕ
identity bytes = bytes

-- The first 32 bytes, filled up with zeros.
abbrev prefix32 : List ℕ → List ℕ
prefix32 bytes = take 32 (bytes ++ repeat 32 0)

abbrev fives : List ℕ
fives = repeat 32 5

abbrev sixes : List ℕ
sixes = repeat 32 6

-- Leaf 0 of a tree of two.
left_leaf :
    call_get_merkle_leaf_hash identity 2 0
      (0x01 ∷ fives ++ sixes)
      (record { memory = []; replies = (fives ++ 1 ∷ 1 ∷ sixes) ∷ [] })
    ≡ some (fives, record { memory = fives ++ 1 ∷ 1 ∷ sixes; replies = [] })
unfolding call_get_merkle_leaf_hash merkle_get_ith_direction ceil_lg same_bytes
left_leaf = refl

-- The same proof for leaf 1.
wrong_side_refused :
    call_get_merkle_leaf_hash identity 2 1
      (0x01 ∷ fives ++ sixes)
      (record { memory = []; replies = (fives ++ 1 ∷ 1 ∷ sixes) ∷ [] })
    ≡ none
unfolding call_get_merkle_leaf_hash merkle_get_ith_direction ceil_lg same_bytes
wrong_side_refused = refl

call_get_merkle_leaf_hash-Climb_example :
    (proof_size : ℕ) × Climb identity 2 0 (0x01 ∷ fives ++ sixes) proof_size fives
call_get_merkle_leaf_hash-Climb_example =
    call_get_merkle_leaf_hash-Climb identity 2 0 (0x01 ∷ fives ++ sixes)
      (record { memory = []; replies = (fives ++ 1 ∷ 1 ∷ sixes) ∷ [] }) fives
      (record { memory = fives ++ 1 ∷ 1 ∷ sixes; replies = [] }) left_leaf

empty_proof_accepted_example :
    call_get_merkle_leaf_hash identity 1000 77 fives
      (record { memory = []; replies = (fives ++ 0 ∷ 0 ∷ []) ∷ [] })
    ≡ some (fives, record { memory = after (fives ++ 0 ∷ 0 ∷ []) []; replies = [] })
empty_proof_accepted_example = empty_proof_accepted identity 1000 77 fives [] [] refl

inner_node_as_element_example :
    (exchange : Exchange) × (call_get_merkle_leaf_element prefix32
        (merkle_combine_hashes prefix32 fives sixes)
        2
        0
        100
        (record {
          memory = [];
          replies =
              (merkle_combine_hashes prefix32 fives sixes ++ 0 ∷ 0 ∷ [])
              ∷ (65 ∷ 65 ∷ 0x01 ∷ fives ++ sixes)
              ∷ [];
        })
      ≡ some (fives ++ sixes, 64, exchange))
unfolding merkle_combine_hashes
inner_node_as_element_example =
    inner_node_as_element prefix32 fives sixes [] 2 0 100 refl refl refl (omega arith)
