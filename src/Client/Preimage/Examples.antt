-- ===== src/Client/Preimage/Examples.antt =====
-- Runs of call_get_merkle_preimage (src/handler/lib/get_merkle_preimage.c), with the identity for
-- the hash function.
use ledger_app_syscoin.Base.{
  ℕ, zero, suc, ◌≤◌, ◌≡◌, refl, none, some, List, [], ◌∷◌, ◌++◌, length, arith,
}
use ledger_app_syscoin.Wire.{varint_read}
use ledger_app_syscoin.Client.{Exchange, same_bytes}
use ledger_app_syscoin.Client.Preimage.{call_get_merkle_preimage}
use ledger_app_syscoin.Client.Preimage.Verified.{call_get_merkle_preimage-Verified}
use ledger_app_syscoin.Client.Preimage.Long.{long_preimage_shifted}

abbrev identity : List ℕ → List ℕ
identity bytes = bytes

-- The bytes 0, 7, 8 in two replies.
short_run :
    call_get_merkle_preimage identity
      (0 ∷ 7 ∷ 8 ∷ [])
      10
      (record { memory = []; replies = (3 ∷ 2 ∷ 0 ∷ 7 ∷ []) ∷ (1 ∷ 1 ∷ 8 ∷ []) ∷ [] })
    ≡ some (7 ∷ 8 ∷ [], 2, record { memory = 1 ∷ 1 ∷ 8 ∷ 7 ∷ []; replies = [] })
unfolding call_get_merkle_preimage varint_read same_bytes
short_run = refl

-- Another byte instead of the last one.
wrong_preimage_refused :
    call_get_merkle_preimage identity
      (0 ∷ 7 ∷ 8 ∷ [])
      10
      (record { memory = []; replies = (3 ∷ 2 ∷ 0 ∷ 7 ∷ []) ∷ (1 ∷ 1 ∷ 9 ∷ []) ∷ [] })
    ≡ none
unfolding call_get_merkle_preimage varint_read same_bytes
wrong_preimage_refused = refl

call_get_merkle_preimage-Verified_example :
    (length {A = ℕ} (7 ∷ 8 ∷ []) ≡ 2)
    × (2 ≤ 10)
    × ((first : ℕ) × (identity (first ∷ 7 ∷ 8 ∷ []) ≡ 0 ∷ 7 ∷ 8 ∷ []))
call_get_merkle_preimage-Verified_example =
    call_get_merkle_preimage-Verified identity (0 ∷ 7 ∷ 8 ∷ []) 10 3 (2 ∷ 0 ∷ 7 ∷ []) []
      ((1 ∷ 1 ∷ 8 ∷ []) ∷ []) (7 ∷ 8 ∷ []) 2 (record { memory = 1 ∷ 1 ∷ 8 ∷ 7 ∷ []; replies = [] })
      (omega arith) short_run

abbrev repeat : ℕ → ℕ → List ℕ
repeat zero x = []
repeat (suc n) x = x ∷ repeat n x

long_preimage_shifted_example :
    (exchange : Exchange) × (call_get_merkle_preimage identity
        (identity (0 ∷ 1 ∷ repeat 249 5 ++ 8 ∷ 9 ∷ []))
        300
        (record {
          memory = [];
          replies = (0xFD ∷ 0xFD ∷ 0 ∷ 251 ∷ 0 ∷ 1 ∷ repeat 249 5) ∷ (2 ∷ 1 ∷ 8 ∷ 9 ∷ []) ∷ [];
        })
      ≡ some (1 ∷ repeat 249 5 ++ 0 ∷ 1 ∷ [], 252, exchange))
long_preimage_shifted_example =
    long_preimage_shifted identity 0 1 8 9 300 (repeat 249 5) [] refl (omega arith)
