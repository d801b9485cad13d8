-- ===== src/Client/LeafIndex/Examples.antt =====
-- Runs of call_get_merkle_leaf_index (src/handler/lib/get_merkle_leaf_index.c), with the identity for
-- the hash function.
use ledger_app_syscoin.Base.{ℕ, zero, suc, ◌^◌, ◌<◌, ◌≡◌, refl, none, some, List, [], ◌∷◌, ◌++◌}
use ledger_app_syscoin.Wire.{varint_read}
use ledger_app_syscoin.Merkle.{ceil_lg, merkle_get_ith_direction}
use ledger_app_syscoin.Client.{same_bytes}
use ledger_app_syscoin.Client.LeafHash.{call_get_merkle_leaf_hash}
use ledger_app_syscoin.Client.LeafHash.Climb.{Climb}
use ledger_app_syscoin.Client.LeafIndex.{call_get_merkle_leaf_index}
use ledger_app_syscoin.Client.LeafIndex.Found.{call_get_merkle_leaf_index-Climb}

abbrev repeat : ℕ → ℕ → List ℕ
repeat zero x = []
repeat (suc n) x = x ∷ repeat n x

abbrev identity : List ℕ → List ℕ
identity bytes = bytes

abbrev fives : List ℕ
fives = repeat 32 5

abbrev sixes : List ℕ
sixes = repeat 32 6

-- The client finds the leaf at index 1.
right_leaf :
    call_get_merkle_leaf_index identity 2
      (0x01 ∷ fives ++ sixes)
      sixes
      (record { memory = []; replies = (1 ∷ 1 ∷ []) ∷ (sixes ++ 1 ∷ 1 ∷ fives) ∷ [] })
    ≡ some (1, record { memory = sixes ++ 1 ∷ 1 ∷ fives; replies = [] })
unfolding call_get_merkle_leaf_index call_get_merkle_leaf_hash merkle_get_ith_direction ceil_lg
    same_bytes varint_read
right_leaf = refl

-- The proof of another leaf.
other_leaf_refused :
    call_get_merkle_leaf_index identity 2
      (0x01 ∷ fives ++ sixes)
      fives
      (record { memory = []; replies = (1 ∷ 1 ∷ []) ∷ (sixes ++ 1 ∷ 1 ∷ fives) ∷ [] })
    ≡ none
unfolding call_get_merkle_leaf_index call_get_merkle_leaf_hash merkle_get_ith_direction ceil_lg
    same_bytes varint_read
other_leaf_refused = refl

call_get_merkle_leaf_index-Climb_example :
    (1 < 2 ^ 31) × ((proof_size : ℕ) × Climb identity 2 1 (0x01 ∷ fives ++ sixes) proof_size sixes)
call_get_merkle_leaf_index-Climb_example =
    call_get_merkle_leaf_index-Climb identity 2 (0x01 ∷ fives ++ sixes) sixes
      (record { memory = []; replies = (1 ∷ 1 ∷ []) ∷ (sixes ++ 1 ∷ 1 ∷ fives) ∷ [] }) 1
      (record { memory = sixes ++ 1 ∷ 1 ∷ fives; replies = [] }) right_leaf
