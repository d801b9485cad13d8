-- ===== src/Client/WholePreimage.antt =====
-- call_get_preimage of src/handler/lib/get_preimage.c.
pub mod Verified
mod Examples
use ledger_app_syscoin.Base.{
  ℕ, zero, suc, ◌-◌, ◌*◌, ◌^◌, not, Option, none, some, ◌>>=◌, ◌>>◌, guard, leb, ltb, ◌==◌, List,
  [], ◌∷◌, ◌++◌, length, take, drop,
}
use ledger_app_syscoin.Client.{Exchange, process_interruption, same_bytes}
use ledger_app_syscoin.Client.Preimage.{buffer_write_bytes, buffer_read_u8}
use ledger_app_syscoin.Client.Stream.{read_header}

-- The loop over CCMD_GET_MORE_ELEMENTS while bytes remain: the bytes absorbed by the hash context,
-- and those in the output of `out_len` bytes.
unfoldable pub get_elements :
    ℕ → List ℕ → List (List ℕ) → ℕ → List ℕ → List ℕ → Option (List ℕ × List ℕ × Exchange)
unfolding buffer_read_u8 buffer_write_bytes
get_elements out_len memory replies zero absorbed out =
    some (absorbed, out, record { memory = memory; replies = replies })
get_elements out_len memory [] (suc m) absorbed out = none
get_elements out_len memory (reply ∷ replies) (suc m) absorbed out = do
  let memory' = reply ++ drop (length reply) memory
  (n_bytes, rest) ← buffer_read_u8 reply
  (elements_len, elements) ← buffer_read_u8 rest
  guard (leb (n_bytes * elements_len) (length elements))
  guard (elements_len == 1)
  guard (leb n_bytes (suc m))
  get_elements out_len memory' replies (suc m - n_bytes) (absorbed ++ take n_bytes elements)
      (buffer_write_bytes out_len out (take n_bytes elements))

-- The length that is returned, the bytes in the output, and the exchange. The results of the writes
-- are not tested. The length is cast to an int, so that from 2^31
-- on it is negative, which is a failure.
unfoldable pub call_get_preimage :
    (List ℕ → List ℕ) → List ℕ → ℕ → Exchange → Option (ℕ × List ℕ × Exchange)
unfolding process_interruption read_header buffer_write_bytes get_elements
call_get_preimage sha256 hash out_len exchange = do
  (reply, exchange') ← process_interruption exchange
  (preimage_len, partial_data_len, bytes) ← read_header reply
  guard (not (preimage_len == 0))
  guard (leb partial_data_len preimage_len)
  (absorbed, out, exchange'') ←
      get_elements out_len exchange'.memory exchange'.replies (preimage_len - partial_data_len)
        (take partial_data_len bytes) (buffer_write_bytes out_len [] (take partial_data_len bytes))
  guard (same_bytes (sha256 absorbed) hash)
  guard (ltb preimage_len (2 ^ 31))
  some (preimage_len, out, exchange'')
