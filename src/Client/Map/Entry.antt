-- ===== src/Client/Map/Entry.antt =====
-- What get_merkleized_map_value_hash.c of src/handler/lib verifies.
use ledger_app_syscoin.Base.{
  ℕ, ◌%◌, ◌^◌, ◌<◌, ◌≡◌, some, List, Ensures, Ensures-some, Ensures-each, Ensures-result,
}
use ledger_app_syscoin.Client.{Exchange}
use ledger_app_syscoin.Client.LeafHash.{call_get_merkle_leaf_hash}
use ledger_app_syscoin.Client.LeafHash.Climb.{Climb, call_get_merkle_leaf_hash-Climb}
use ledger_app_syscoin.Client.LeafIndex.{call_get_merkle_leaf_index}
use ledger_app_syscoin.Client.LeafIndex.Found.{call_get_merkle_leaf_index-Climb}
use ledger_app_syscoin.Client.Map.{
  MapCommitment, merkle_compute_element_hash, call_get_merkleized_map_value_hash,
}

-- At one index, the hash of the key lies below the root of the keys, and the hash of the value below
-- the root of the values.
abbrev pub IsEntry : (List ℕ → List ℕ) → MapCommitment → List ℕ → List ℕ → Type 0
IsEntry sha256 commitment key value_hash =
    (index : ℕ) × ((n : ℕ) × Climb sha256 (commitment.size % 2 ^ 32) index commitment.keys_root n
        (merkle_compute_element_hash sha256 key))
    × ((n : ℕ) × Climb sha256 (commitment.size % 2 ^ 32) index commitment.values_root n value_hash)

-- If call_get_merkleized_map_value_hash succeeds, there is one index at which the hash of the key,
-- combined upwards on the sides that the directions to the index say, gives the root of the keys, and
-- the hash that is returned gives the root of the values in the same way.
pub call_get_merkleized_map_value_hash-IsEntry :
    (sha256 : List ℕ → List ℕ) (commitment : MapCommitment) (key : List ℕ) (exchange : Exchange)
    (value_hash : List ℕ) (exchange' : Exchange)
    → call_get_merkleized_map_value_hash sha256 commitment key exchange
      ≡ some (value_hash, exchange')
    → IsEntry sha256 commitment key value_hash
unfolding call_get_merkleized_map_value_hash
call_get_merkleized_map_value_hash-IsEntry sha256 commitment key exchange value_hash exchange' =
    Ensures-some {P = λ (h, x). IsEntry sha256 commitment key h} (
      Ensures-each
        (call_get_merkle_leaf_index sha256 (commitment.size % 2 ^ 32) commitment.keys_root
          (merkle_compute_element_hash sha256 key) exchange)
        (λ (index, exchange1) found.
          entry index exchange1
            (call_get_merkle_leaf_index-Climb sha256 _ _ _ exchange index exchange1 found)))
  where
    entry :
        (index : ℕ) (exchange1 : Exchange)
        → (index < 2 ^ 31)
          × ((n : ℕ) × Climb sha256
                (commitment.size % 2 ^ 32)
                index
                commitment.keys_root
                n
                (merkle_compute_element_hash sha256 key))
        → Ensures
            (λ (h, x). IsEntry sha256 commitment key h)
            (call_get_merkle_leaf_hash sha256
              (commitment.size % 2 ^ 32)
              index
              commitment.values_root
              exchange1)
    entry index exchange1 (small, climbs) =
        Ensures-result
          (call_get_merkle_leaf_hash sha256 (commitment.size % 2 ^ 32) index commitment.values_root
            exchange1)
          (λ (h, x) e.
            (index, climbs, call_get_merkle_leaf_hash-Climb sha256 _ _ _ exchange1 h x e))
