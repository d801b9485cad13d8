-- ===== src/Client/WholePreimage/Verified.antt =====
-- What call_get_preimage (src/handler/lib/get_preimage.c) verifies.
use ledger_app_syscoin.Base.{
  ℕ, zero, suc, ◌+◌, ◌-◌, ◌*◌, ◌^◌, ◌≤◌, ◌≡◌, ap, ◌∙◌, not, some, ◌>>◌, ◌>>=◌, guard, leb, ltb,
  leb→le, ◌==◌, ==_iff, List, [], ◌∷◌, ◌++◌, length, length-append, length-take, take, drop,
  Ensures, failure, success, Ensures->>=, Ensures-test, Ensures-some, Ensures-mono, arith,
}
use ledger_app_syscoin.Client.{Exchange, process_interruption, same_bytes}
use ledger_app_syscoin.Client.Preimage.{buffer_read_u8, buffer_write_bytes}
use ledger_app_syscoin.Client.Preimage.Verified.{same_bytes→eq, buffer_write_bytes-fits}
use ledger_app_syscoin.Client.Stream.{read_header}
use ledger_app_syscoin.Client.Stream.Verified.{taken_lem, read_header-length}
use ledger_app_syscoin.Client.WholePreimage.{get_elements, call_get_preimage}

-- Everything that is absorbed, so many bytes, is in the output.
abbrev AllOut : ℕ → List ℕ → List ℕ → Type 0
AllOut n absorbed out = (out ≡ absorbed) × (length absorbed ≡ n)

next_AllOut :
    (size n k : ℕ) (absorbed out bytes : List ℕ)
    → AllOut n absorbed out
    → length bytes ≡ k
    → n + k ≤ size
    → AllOut (n + k) (absorbed ++ bytes) (buffer_write_bytes size out bytes)
next_AllOut size n k absorbed out bytes (e, l) h fits = (
  buffer_write_bytes-fits size out bytes (omega (arith, l, ap length e, h))
      ∙ ap (λ o. o ++ bytes) e,
  omega (arith, l, h, length-append absorbed bytes),
)

get_elements-AllOut :
    (size n : ℕ) (memory : List ℕ) (replies : List (List ℕ)) (remaining : ℕ) (absorbed out : List ℕ)
    → AllOut n absorbed out
    → n + remaining ≤ size
    → Ensures
        (λ (absorbed', out', exchange). AllOut (n + remaining) absorbed' out')
        (get_elements size memory replies remaining absorbed out)
unfolding get_elements buffer_read_u8
get_elements-AllOut size n memory replies zero absorbed out (e, l) fits = success (e, omega arith)
get_elements-AllOut size n memory [] (suc m) absorbed out s fits = failure
get_elements-AllOut size n memory ([] ∷ replies) (suc m) absorbed out s fits = failure
get_elements-AllOut size n memory ((k ∷ []) ∷ replies) (suc m) absorbed out s fits = failure
get_elements-AllOut size n memory ((k ∷ e ∷ elements) ∷ replies) (suc m) absorbed out s fits =
    Ensures-test (leb (k * e) (length elements)) (λ within. Ensures-test (e == 1) (λ one.
      Ensures-test (leb k (suc m)) (λ few.
        Ensures-mono (λ r (eq, l). (eq, omega (arith, l, leb→le _ _ few)))
          (get_elements-AllOut size (n + k) _ replies (suc m - k) (absorbed ++ take k elements) _
            (next_AllOut size n k absorbed out (take k elements) s
              (taken_lem k e elements ((==_iff e 1).0 one) (leb→le _ _ within))
              (omega (arith, leb→le _ _ few)))
            (omega (arith, leb→le _ _ few))))))

preimage_lem :
    (sha256 : List ℕ → List ℕ) (hash : List ℕ) (size : ℕ) (memory : List ℕ)
    (replies : List (List ℕ)) (n k : ℕ) (bytes : List ℕ)
    → k ≤ length bytes
    → n ≤ size
    → Ensures {A = ℕ × List ℕ × Exchange}
        (λ (len, out, exchange). (length out ≡ len) × (sha256 out ≡ hash))
        (guard (not (n == 0))
          >> (guard (leb k n)
              >> (get_elements size memory replies
                    (n - k)
                    (take k bytes)
                    (buffer_write_bytes size [] (take k bytes))
                  >>= λ (absorbed, out, exchange).
                      guard (same_bytes (sha256 absorbed) hash)
                      >> (guard (ltb n (2 ^ 31)) >> some (n, out, exchange)))))
preimage_lem sha256 hash size memory replies n k bytes h fits =
    Ensures-test (not (n == 0)) (λ present. Ensures-test (leb k n) (λ part.
      let l : length (take k bytes) ≡ k = omega (arith, length-take k bytes) in
      Ensures->>=
        (get_elements-AllOut size k memory replies (n - k) (take k bytes) _
          (buffer_write_bytes-fits size [] (take k bytes) (omega (arith, l, leb→le _ _ part)), l)
          (omega (arith, leb→le _ _ part)))
        (λ (absorbed, out, exchange) (e, l').
          Ensures-test (same_bytes (sha256 absorbed) hash) (λ same.
            Ensures-test (ltb n (2 ^ 31)) (λ small. success (
              omega (arith, ap length e, l', leb→le _ _ part),
              ap sha256 e ∙ same_bytes→eq _ _ same,
            ))))))

-- If call_get_preimage succeeds and the length that the first reply says is at most that of the output,
-- then the output holds as many bytes as are returned, and they have the hash.
pub call_get_preimage-Verified :
    (sha256 : List ℕ → List ℕ) (hash : List ℕ) (size : ℕ) (memory reply : List ℕ)
    (replies : List (List ℕ)) (n k : ℕ) (bytes : List ℕ) (len : ℕ) (out : List ℕ)
    (exchange : Exchange)
    → read_header reply ≡ some (n, k, bytes)
    → n ≤ size
    → call_get_preimage sha256 hash size (record { memory = memory; replies = reply ∷ replies })
      ≡ some (len, out, exchange)
    → (length out ≡ len) × (sha256 out ≡ hash)
unfolding call_get_preimage process_interruption
call_get_preimage-Verified sha256 hash size memory reply replies n k bytes len out exchange header
      fits result =
    let enough = Ensures-some (read_header-length reply) header in
    Ensures-some
      (preimage_lem sha256 hash size (reply ++ drop (length reply) memory) replies n k bytes enough
        fits)
      (rw header at result)
