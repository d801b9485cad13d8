-- ===== src/Client/Stream/Verified.antt =====
-- What call_stream_preimage (src/handler/lib/stream_preimage.c) verifies.
use ledger_app_syscoin.Base.{
  ℕ, zero, suc, ◌+◌, ◌-◌, ◌*◌, ◌^◌, ◌≤◌, ◌≡◌, refl, ap, sym, ◌∙◌, not, some, ◌>>◌, ◌>>=◌, guard,
  leb, ltb, leb→le, ◌==◌, ==_iff, List, [], ◌∷◌, ◌++◌, length, length-append, length-take, take,
  drop, concat, concat-append, Ensures, failure, success, Ensures->>=, Ensures-each, Ensures-test,
  Ensures-some, Ensures-mono, append_nil, arith,
}
use ledger_app_syscoin.Wire.{varint_read}
use ledger_app_syscoin.Client.{Exchange, process_interruption, same_bytes}
use ledger_app_syscoin.Client.Preimage.{buffer_read_u8}
use ledger_app_syscoin.Client.Preimage.Verified.{same_bytes→eq}
use ledger_app_syscoin.Client.Stream.{
  read_header, initial_buf, stream_elements, call_stream_preimage,
}

-- The hash is that of a first byte and the buffers, which have so many bytes.
abbrev Streamed : ℕ → ℕ → List ℕ → List (List ℕ) → Type 0
Streamed first n absorbed chunks = (absorbed ≡ first ∷ concat chunks) × (length absorbed ≡ n)

next_Streamed :
    (first n m k : ℕ) (absorbed bytes : List ℕ) (chunks : List (List ℕ))
    → Streamed first n absorbed chunks
    → length bytes ≡ k
    → Streamed first (n + k) (absorbed ++ bytes) (chunks ++ bytes ∷ [])
next_Streamed first n m k absorbed bytes chunks (e, l) h =
    (rw (e, concat-append chunks bytes) refl, omega (arith, l, h, length-append absorbed bytes))

pub taken_lem :
    (k e : ℕ) (elements : List ℕ) → e ≡ 1 → k * e ≤ length elements → length (take k elements) ≡ k
taken_lem k e elements e1 h = let h' = rw e1 at h in omega (arith, length-take k elements)

stream_elements-Streamed :
    (first n : ℕ) (memory : List ℕ) (replies : List (List ℕ)) (remaining : ℕ) (absorbed : List ℕ)
    (chunks : List (List ℕ))
    → Streamed first n absorbed chunks
    → Ensures
        (λ (absorbed', chunks', exchange). Streamed first (n + remaining) absorbed' chunks')
        (stream_elements memory replies remaining absorbed chunks)
unfolding stream_elements buffer_read_u8
stream_elements-Streamed first n memory replies zero absorbed chunks (e, l) =
    success (e, omega arith)
stream_elements-Streamed first n memory [] (suc m) absorbed chunks s = failure
stream_elements-Streamed first n memory ([] ∷ replies) (suc m) absorbed chunks s = failure
stream_elements-Streamed first n memory ((k ∷ []) ∷ replies) (suc m) absorbed chunks s = failure
stream_elements-Streamed first n memory ((k ∷ e ∷ elements) ∷ replies) (suc m) absorbed chunks s =
    Ensures-test (leb (k * e) (length elements)) (λ within. Ensures-test (e == 1) (λ one.
      Ensures-test (leb k (suc m)) (λ few.
        Ensures-mono (λ r (eq, l). (eq, omega (arith, l, leb→le _ _ few)))
          (stream_elements-Streamed first (n + k) _ replies (suc m - k)
            (absorbed ++ take k elements) (chunks ++ take k elements ∷ [])
            (next_Streamed first n m k absorbed (take k elements) chunks s
              (taken_lem k e elements ((==_iff e 1).0 one) (leb→le _ _ within)))))))

pub read_header-length :
    (reply : List ℕ)
    → Ensures
        (λ (preimage_len, partial_data_len, bytes). partial_data_len ≤ length bytes)
        (read_header reply)
unfolding read_header
read_header-length reply = Ensures-each (varint_read reply) (λ (n, varint_len) e.
    Ensures-each (buffer_read_u8 (drop varint_len reply)) (λ (k, bytes) e'.
      Ensures-test (leb k (length bytes)) (λ within. success (leb→le _ _ within))))

first_Streamed :
    (k : ℕ) (bytes : List ℕ)
    → suc k ≤ length bytes
    → (first : ℕ) × Streamed first (suc k) (take (suc k) bytes) (take k (drop 1 bytes) ∷ [])
first_Streamed k [] h = absurd (omega arith)
first_Streamed k (first ∷ bytes) h = (
  first,
  (ap (λ l. first ∷ l) (sym (append_nil (take k bytes))), omega (arith, length-take k bytes)),
)

-- What a result says.
abbrev Verified : (List ℕ → List ℕ) → List ℕ → ℕ × List (List ℕ) × Exchange → Type 0
Verified sha256 hash (len, chunks, exchange) =
    (length (concat chunks) ≡ len) × ((first : ℕ) × (sha256 (first ∷ concat chunks) ≡ hash))

module _ (sha256 : List ℕ → List ℕ) (beyond hash : List ℕ) where
  checked-Verified :
      (first n : ℕ) (absorbed : List ℕ) (chunks : List (List ℕ)) (exchange : Exchange)
      → Streamed first n absorbed chunks
      → Ensures (Verified sha256 hash) (
          guard (same_bytes (sha256 absorbed) hash)
          >> (guard (ltb n (2 ^ 31)) >> some (n - 1, chunks, exchange)))
  checked-Verified first n absorbed chunks exchange (e, l) =
      Ensures-test (same_bytes (sha256 absorbed) hash) (λ same.
        Ensures-test (ltb n (2 ^ 31)) (λ small.
          success
            (omega (arith, ap length e), (first, ap sha256 (sym e) ∙ same_bytes→eq _ _ same))))

  stream-Verified :
      (memory : List ℕ) (replies : List (List ℕ)) (n k : ℕ) (bytes : List ℕ)
      → suc k ≤ length bytes
      → Ensures (Verified sha256 hash) (
          guard (not (n == 0))
          >> (guard (leb (suc k) n)
              >> (stream_elements memory replies
                    (n - suc k)
                    (take (suc k) bytes)
                    (initial_buf beyond (suc k) bytes ∷ [])
                  >>= λ (absorbed, chunks, exchange).
                      guard (same_bytes (sha256 absorbed) hash)
                      >> (guard (ltb n (2 ^ 31)) >> some (n - 1, chunks, exchange)))))
  unfolding initial_buf
  stream-Verified memory replies n k bytes h =
      let (first, s) = first_Streamed k bytes h in
      Ensures-test (not (n == 0)) (λ present. Ensures-test (leb (suc k) n) (λ part.
        Ensures->>= (stream_elements-Streamed first (suc k) memory replies (n - suc k) _ _ s)
          (λ (absorbed, chunks, exchange) s'.
            checked-Verified first n absorbed chunks exchange
              (s'.0, omega (arith, s'.1, leb→le _ _ part)))))

-- If call_stream_preimage succeeds and the first reply holds at least the prefix, the buffers of the
-- callback have as many bytes as it returns and, behind one byte, the hash: what the callback gets is
-- what the hash is of.
pub call_stream_preimage-Verified :
    (sha256 : List ℕ → List ℕ) (beyond hash memory reply : List ℕ) (replies : List (List ℕ))
    (n k : ℕ) (bytes : List ℕ) (len : ℕ) (chunks : List (List ℕ)) (exchange : Exchange)
    → read_header reply ≡ some (n, suc k, bytes)
    → call_stream_preimage sha256 beyond hash
        (record { memory = memory; replies = reply ∷ replies })
      ≡ some (len, chunks, exchange)
    → (length (concat chunks) ≡ len) × ((first : ℕ) × (sha256 (first ∷ concat chunks) ≡ hash))
unfolding call_stream_preimage process_interruption
call_stream_preimage-Verified sha256 beyond hash memory reply replies n k bytes len chunks exchange
      header result =
    let enough = Ensures-some (read_header-length reply) header in
    Ensures-some
      (stream-Verified sha256 beyond hash (reply ++ drop (length reply) memory) replies n k bytes
        enough)
      (rw header at result)
