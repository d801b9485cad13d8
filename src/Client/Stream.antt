-- ===== src/Client/Stream.antt =====
-- call_stream_preimage of src/handler/lib/stream_preimage.c. The callback does not change the
-- exchange, so that the buffers that it gets are a list in the result.
pub mod Verified
mod Examples
use ledger_app_syscoin.Base.{
  ℕ, zero, suc, ◌+◌, ◌-◌, ◌*◌, ◌%◌, ◌^◌, Bool, not, Option, none, some, ◌>>=◌, ◌>>◌, guard, leb,
  ltb, ◌==◌, List, [], ◌∷◌, ◌++◌, length, take, drop,
}
use ledger_app_syscoin.Wire.{varint_read}
use ledger_app_syscoin.Client.{Exchange, process_interruption, same_bytes}
use ledger_app_syscoin.Client.Preimage.{buffer_read_u8}

-- The first reply: preimage_len, partial_data_len and the bytes from data_ptr on.
unfoldable pub read_header : List ℕ → Option (ℕ × ℕ × List ℕ)
unfolding buffer_read_u8
read_header reply = do
  (preimage_len_u64, varint_len) ← varint_read reply
  (partial_data_len, bytes) ← buffer_read_u8 (drop varint_len reply)
  guard (leb partial_data_len (length bytes))
  some (preimage_len_u64 % 2 ^ 32, partial_data_len, bytes)

-- The buffer without the 0x00 prefix. partial_data_len is not tested: for 0, the size wraps around,
-- and the buffer goes on `beyond` what the exchange keeps.
unfoldable pub initial_buf : List ℕ → ℕ → List ℕ → List ℕ
initial_buf beyond zero bytes = beyond
initial_buf beyond (suc n) bytes = take n (drop 1 bytes)

-- The loop over CCMD_GET_MORE_ELEMENTS while bytes remain: the bytes absorbed by the hash context,
-- and the buffers of the callback.
unfoldable pub stream_elements :
    List ℕ → List (List ℕ) → ℕ → List ℕ → List (List ℕ) → Option (List ℕ × List (List ℕ) × Exchange)
unfolding buffer_read_u8
stream_elements memory replies zero absorbed chunks =
    some (absorbed, chunks, record { memory = memory; replies = replies })
stream_elements memory [] (suc m) absorbed chunks = none
stream_elements memory (reply ∷ replies) (suc m) absorbed chunks = do
  let memory' = reply ++ drop (length reply) memory
  (n_bytes, rest) ← buffer_read_u8 reply
  (elements_len, elements) ← buffer_read_u8 rest
  guard (leb (n_bytes * elements_len) (length elements))
  guard (elements_len == 1)
  guard (leb n_bytes (suc m))
  stream_elements memory' replies (suc m - n_bytes) (absorbed ++ take n_bytes elements)
      (chunks ++ take n_bytes elements ∷ [])

-- The length that is returned, the buffers of the callback, and the exchange. The length is cast to
-- an int, so that from 2^31 on it is negative, which is a failure.
unfoldable pub call_stream_preimage :
    (List ℕ → List ℕ) → List ℕ → List ℕ → Exchange → Option (ℕ × List (List ℕ) × Exchange)
unfolding process_interruption read_header initial_buf stream_elements
call_stream_preimage sha256 beyond hash exchange = do
  (reply, exchange') ← process_interruption exchange
  (preimage_len, partial_data_len, bytes) ← read_header reply
  guard (not (preimage_len == 0))
  guard (leb partial_data_len preimage_len)
  (absorbed, chunks, exchange'') ←
      stream_elements exchange'.memory exchange'.replies (preimage_len - partial_data_len)
        (take partial_data_len bytes) (initial_buf beyond partial_data_len bytes ∷ [])
  guard (same_bytes (sha256 absorbed) hash)
  guard (ltb preimage_len (2 ^ 31))
  some (preimage_len - 1, chunks, exchange'')
