-- ===== src/Client/LeafHash.antt =====
-- call_get_merkle_leaf_hash of src/handler/lib/get_merkle_leaf_hash.c, with merkle_combine_hashes of
-- src/common/merkle.c. The hash function is a parameter.
pub mod Climb
pub mod Short
use ledger_app_syscoin.Base.{
  ℕ, zero, suc, ◌+◌, ◌-◌, ◌*◌, Bool, true, false, Option, none, some, ◌>>=◌, ◌>>◌, guard, leb, ◌==◌,
  if◌then◌else◌, List, [], ◌∷◌, ◌++◌, length, take, drop,
}
use ledger_app_syscoin.Merkle.{merkle_get_ith_direction}
use ledger_app_syscoin.Client.{Exchange, process_interruption, same_bytes}
use ledger_app_syscoin.Client.Preimage.{buffer_read_u8}

unfoldable pub merkle_combine_hashes : (List ℕ → List ℕ) → List ℕ → List ℕ → List ℕ
merkle_combine_hashes sha256 left right = sha256 (0x01 ∷ left ++ right)

unfoldable pub buffer_read_bytes : ℕ → List ℕ → Option (List ℕ × List ℕ)
buffer_read_bytes n bytes = guard (leb n (length bytes)) >> some (take n bytes, drop n bytes)

module _ (sha256 : List ℕ → List ℕ) (tree_size leaf_index : ℕ) where
  -- The loop over the hashes of one reply. `remaining` is proof_size - cur_step, so that the
  -- direction asked for is that of remaining - 1; the result is what remains and cur_hash.
  unfoldable pub proof_steps : ℕ → ℕ → List ℕ → List ℕ → Option (ℕ × List ℕ)
  unfolding merkle_combine_hashes
  proof_steps zero remaining bytes cur_hash = some (remaining, cur_hash)
  proof_steps (suc n) zero bytes cur_hash = none
  proof_steps (suc n) (suc i) bytes cur_hash = do
    direction ← merkle_get_ith_direction tree_size leaf_index i
    let sibling_hash = take 32 bytes
    proof_steps n i (drop 32 bytes) (
        if direction
        then merkle_combine_hashes sha256 sibling_hash cur_hash
        else merkle_combine_hashes sha256 cur_hash sibling_hash)

  -- The loop over the replies, until no step remains.
  unfoldable pub proof_replies : List ℕ → List (List ℕ) → ℕ → List ℕ → Option (List ℕ × Exchange)
  unfolding proof_steps buffer_read_u8
  proof_replies memory replies zero cur_hash =
      some (cur_hash, record { memory = memory; replies = replies })
  proof_replies memory [] (suc i) cur_hash = none
  proof_replies memory (reply ∷ replies) (suc i) cur_hash = do
    (n_proof_elements, rest) ← buffer_read_u8 reply
    (elements_len, bytes) ← buffer_read_u8 rest
    guard (leb (n_proof_elements * elements_len) (length bytes))
    guard (elements_len == 32)
    guard (leb n_proof_elements (suc i))
    (remaining, cur_hash') ← proof_steps n_proof_elements (suc i) bytes cur_hash
    proof_replies (reply ++ drop (length reply) memory) replies remaining cur_hash'

  -- The leaf hash that is written to `out`, if the result is 0.
  unfoldable pub call_get_merkle_leaf_hash : List ℕ → Exchange → Option (List ℕ × Exchange)
  unfolding proof_steps proof_replies buffer_read_u8 buffer_read_bytes process_interruption
  call_get_merkle_leaf_hash merkle_root exchange = do
    (reply, exchange') ← process_interruption exchange
    (leaf_hash, rest) ← buffer_read_bytes 32 reply
    (proof_size, rest') ← buffer_read_u8 rest
    (n_proof_elements, bytes) ← buffer_read_u8 rest'
    guard (leb n_proof_elements proof_size)
    guard (leb (32 * n_proof_elements) (length bytes))
    (remaining, cur_hash) ← proof_steps n_proof_elements proof_size bytes leaf_hash
    (root, exchange'') ← proof_replies exchange'.memory exchange'.replies remaining cur_hash
    guard (same_bytes merkle_root root)
    some (leaf_hash, exchange'')
