-- ===== src/Client/LeafIndex.antt =====
-- call_get_merkle_leaf_index of src/handler/lib/get_merkle_leaf_index.c.
pub mod Found
mod Examples
use ledger_app_syscoin.Base.{ℕ, ◌%◌, ◌^◌, Option, some, ◌>>=◌, ◌>>◌, guard, ltb, ◌==◌, List, drop}
use ledger_app_syscoin.Wire.{varint_read}
use ledger_app_syscoin.Client.{Exchange, process_interruption, same_bytes}
use ledger_app_syscoin.Client.Preimage.{buffer_read_u8}
use ledger_app_syscoin.Client.LeafHash.{call_get_merkle_leaf_hash}

unfoldable pub buffer_read_varint : List ℕ → Option (ℕ × List ℕ)
unfolding varint_read
buffer_read_varint bytes = do (value, length) ← varint_read bytes; some (value, drop length bytes)

-- The index is a uint64_t, which the call of call_get_merkle_leaf_hash cuts off to a uint32_t, and
-- the return to an int; a negative int is `none`.
unfoldable pub call_get_merkle_leaf_index :
    (List ℕ → List ℕ) → ℕ → List ℕ → List ℕ → Exchange → Option (ℕ × Exchange)
unfolding process_interruption buffer_read_u8 buffer_read_varint call_get_merkle_leaf_hash
    same_bytes
call_get_merkle_leaf_index sha256 size root leaf_hash exchange = do
  (reply, exchange') ← process_interruption exchange
  (found, rest) ← buffer_read_u8 reply
  (index, rest') ← buffer_read_varint rest
  guard (found == 1)
  (returned_merkle_leaf_hash, exchange'') ←
      call_get_merkle_leaf_hash sha256 size (index % 2 ^ 32) root exchange'
  guard (same_bytes leaf_hash returned_merkle_leaf_hash)
  guard (ltb (index % 2 ^ 32) (2 ^ 31))
  some (index % 2 ^ 32, exchange'')
