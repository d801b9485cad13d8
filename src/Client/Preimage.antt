-- ===== src/Client/Preimage.antt =====
-- call_get_merkle_preimage of src/handler/lib/get_merkle_preimage.c. The hash function is a call of
-- the operating system, a parameter here; what is absorbed by its context is a list of bytes.
pub mod Verified
pub mod Long
mod Examples
use ledger_app_syscoin.Base.{
  ℕ, zero, suc, ◌+◌, ◌-◌, ◌*◌, Bool, true, false, not, ◌&&◌, Option, none, some, ◌>>=◌, ◌>>◌, guard,
  leb, ◌==◌, if◌then◌else◌, List, [], ◌∷◌, ◌++◌, length, take, drop,
}
use ledger_app_syscoin.Wire.{varint_read}
use ledger_app_syscoin.Client.{Exchange, process_interruption, same_bytes}

-- buffer_write_bytes into a buffer of `size` bytes, which has been written up to `out`; its result
-- is not looked at.
unfoldable pub buffer_write_bytes : ℕ → List ℕ → List ℕ → List ℕ
buffer_write_bytes size out bytes =
    if leb (length out + length bytes) size then out ++ bytes else out

-- buffer_read_u8
unfoldable pub buffer_read_u8 : List ℕ → Option (ℕ × List ℕ)
buffer_read_u8 [] = none
buffer_read_u8 (value ∷ rest) = some (value, rest)

-- The loop over CCMD_GET_MORE_ELEMENTS while bytes remain. `data_ptr` is an offset into the memory,
-- set from the first reply; the last arguments are the bytes absorbed and the output so far.
unfoldable pub get_more_elements :
    ℕ → ℕ → List ℕ → List (List ℕ) → ℕ → List ℕ → List ℕ → Option (List ℕ × List ℕ × Exchange)
unfolding buffer_write_bytes buffer_read_u8
get_more_elements size data_ptr memory replies zero absorbed out =
    some (absorbed, out, record { memory = memory; replies = replies })
get_more_elements size data_ptr memory [] (suc m) absorbed out = none
get_more_elements size data_ptr memory (reply ∷ replies) (suc m) absorbed out = do
  let memory' = reply ++ drop (length reply) memory
  (n_bytes, rest) ← buffer_read_u8 reply
  (elements_len, elements) ← buffer_read_u8 rest
  guard (leb (n_bytes * elements_len) (length elements))
  guard (elements_len == 1)
  guard (leb n_bytes (suc m))
  get_more_elements size data_ptr memory' replies (suc m - n_bytes)
      (absorbed ++ take n_bytes elements)
      (buffer_write_bytes size out (take n_bytes (drop data_ptr memory')))

-- The bytes written to the output, and their number, which is returned. A negative result is `none`.
unfoldable pub call_get_merkle_preimage :
    (List ℕ → List ℕ) → List ℕ → ℕ → Exchange → Option (List ℕ × ℕ × Exchange)
unfolding process_interruption buffer_read_u8 buffer_write_bytes get_more_elements
call_get_merkle_preimage sha256 hash out_ptr_len exchange = do
  (reply, exchange') ← process_interruption exchange
  (preimage_len, varint_len) ← varint_read reply
  (partial_data_len, bytes) ← buffer_read_u8 (drop varint_len reply)
  guard (leb partial_data_len (length bytes))
  guard (not (preimage_len == 0) && not (partial_data_len == 0))
  guard (leb (preimage_len - 1) out_ptr_len)
  guard (leb partial_data_len preimage_len)
  (absorbed, out, exchange'') ←
      get_more_elements out_ptr_len (varint_len + 1) exchange'.memory exchange'.replies
        (preimage_len - partial_data_len) (take partial_data_len bytes)
        (buffer_write_bytes out_ptr_len [] (take (partial_data_len - 1) (drop 1 bytes)))
  guard (same_bytes (sha256 absorbed) hash)
  some (out, preimage_len - 1, exchange'')
