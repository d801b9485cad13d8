-- ===== src/Client/Map.antt =====
-- Merkleized maps of the client: get_merkleized_map.c, get_merkleized_map_value_hash.c,
-- get_merkleized_map_value.c, stream_merkle_leaf_element.c and stream_merkleized_map_value.c of
-- src/handler/lib, and merkle_compute_element_hash of src/common/merkle.c.
pub mod Entry
mod Examples
use ledger_app_syscoin.Base.{ℕ, ◌+◌, ◌*◌, ◌%◌, ◌^◌, Option, some, ◌>>=◌, List, [], ◌∷◌, take}
use ledger_app_syscoin.Client.{Exchange}
use ledger_app_syscoin.Client.LeafHash.{buffer_read_bytes, call_get_merkle_leaf_hash}
use ledger_app_syscoin.Client.LeafIndex.{buffer_read_varint, call_get_merkle_leaf_index}
use ledger_app_syscoin.Client.LeafElement.{call_get_merkle_leaf_element}
use ledger_app_syscoin.Client.Sorted.{call_check_merkle_tree_sorted_with_callback}
use ledger_app_syscoin.Client.Stream.{call_stream_preimage}

-- merkleized_map_commitment_t
pub record MapCommitment : Type 0 where
  pub size : ℕ
  pub keys_root : List ℕ
  pub values_root : List ℕ

module _ (sha256 : List ℕ → List ℕ) where
  unfoldable pub merkle_compute_element_hash : List ℕ → List ℕ
  merkle_compute_element_hash bytes = sha256 (0x00 ∷ bytes)

  -- The uint64_t size is cut off to 32 bits in the calls.
  unfoldable pub call_get_merkleized_map_value_hash :
      MapCommitment → List ℕ → Exchange → Option (List ℕ × Exchange)
  unfolding merkle_compute_element_hash call_get_merkle_leaf_index call_get_merkle_leaf_hash
  call_get_merkleized_map_value_hash commitment key exchange = do
    (index, exchange') ←
        call_get_merkle_leaf_index sha256 (commitment.size % 2 ^ 32) commitment.keys_root
          (merkle_compute_element_hash key) exchange
    call_get_merkle_leaf_hash sha256 (commitment.size % 2 ^ 32) index commitment.values_root
        exchange'

  unfoldable pub call_get_merkleized_map_value :
      MapCommitment → List ℕ → ℕ → Exchange → Option (List ℕ × ℕ × Exchange)
  unfolding merkle_compute_element_hash call_get_merkle_leaf_index call_get_merkle_leaf_element
  call_get_merkleized_map_value commitment key out_len exchange = do
    (index, exchange') ←
        call_get_merkle_leaf_index sha256 (commitment.size % 2 ^ 32) commitment.keys_root
          (merkle_compute_element_hash key) exchange
    call_get_merkle_leaf_element sha256 commitment.values_root (commitment.size % 2 ^ 32) index
        out_len exchange'

  -- The streams give the buffers of the callback, as call_stream_preimage does.
  unfoldable pub call_stream_merkle_leaf_element :
      List ℕ → List ℕ → ℕ → ℕ → Exchange → Option (ℕ × List (List ℕ) × Exchange)
  unfolding call_get_merkle_leaf_hash call_stream_preimage
  call_stream_merkle_leaf_element beyond merkle_root tree_size leaf_index exchange = do
    (leaf_hash, exchange') ←
        call_get_merkle_leaf_hash sha256 tree_size leaf_index merkle_root exchange
    call_stream_preimage sha256 beyond leaf_hash exchange'

  unfoldable pub call_stream_merkleized_map_value :
      List ℕ → MapCommitment → List ℕ → Exchange → Option (ℕ × List (List ℕ) × Exchange)
  unfolding merkle_compute_element_hash call_get_merkle_leaf_index call_stream_merkle_leaf_element
  call_stream_merkleized_map_value beyond commitment key exchange = do
    (index, exchange') ←
        call_get_merkle_leaf_index sha256 (commitment.size % 2 ^ 32) commitment.keys_root
          (merkle_compute_element_hash key) exchange
    call_stream_merkle_leaf_element beyond commitment.values_root (commitment.size % 2 ^ 32) index
        exchange'

  -- The commitment of a map, and the keys that the callback gets.
  unfoldable pub call_get_merkleized_map_with_callback :
      List ℕ
      → ℕ
      → ℕ
      → ℕ
      → (ℕ → List ℕ → Exchange → Exchange)
      → Exchange
      → Option (MapCommitment × List (List ℕ) × Exchange)
  unfolding call_get_merkle_leaf_element buffer_read_varint buffer_read_bytes
      call_check_merkle_tree_sorted_with_callback
  call_get_merkleized_map_with_callback root size index limit callback exchange = do
    (raw_output, el_len, exchange') ←
        call_get_merkle_leaf_element sha256 root size index (9 + 2 * 32) exchange
    (map_size, rest) ← buffer_read_varint (take el_len raw_output)
    (keys_root, rest') ← buffer_read_bytes 32 rest
    (values_root, rest'') ← buffer_read_bytes 32 rest'
    (keys, exchange'') ←
        call_check_merkle_tree_sorted_with_callback sha256 keys_root (map_size % 2 ^ 32) limit
          callback exchange'
    some (
      record { size = map_size; keys_root = keys_root; values_root = values_root },
      keys,
      exchange'',
    )
