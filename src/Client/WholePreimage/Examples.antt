-- ===== src/Client/WholePreimage/Examples.antt =====
-- Runs of call_get_preimage (src/handler/lib/get_preimage.c), with the identity for the hash function.
use ledger_app_syscoin.Base.{ℕ, ◌≡◌, refl, some, List, [], ◌∷◌, length, arith}
use ledger_app_syscoin.Wire.{varint_read}
use ledger_app_syscoin.Client.{same_bytes}
use ledger_app_syscoin.Client.Stream.{read_header}
use ledger_app_syscoin.Client.WholePreimage.{call_get_preimage}
use ledger_app_syscoin.Client.WholePreimage.Verified.{call_get_preimage-Verified}

abbrev identity : List ℕ → List ℕ
identity bytes = bytes

preimage_run :
    call_get_preimage identity
      (6 ∷ 7 ∷ 8 ∷ [])
      10
      (record { memory = []; replies = (3 ∷ 2 ∷ 6 ∷ 7 ∷ []) ∷ (1 ∷ 1 ∷ 8 ∷ []) ∷ [] })
    ≡ some (3, 6 ∷ 7 ∷ 8 ∷ [], record { memory = 1 ∷ 1 ∷ 8 ∷ 7 ∷ []; replies = [] })
unfolding call_get_preimage varint_read same_bytes
preimage_run = refl

-- With an output of 2 bytes, the last one is left out, and the length is 3 all the same.
cut_off :
    call_get_preimage identity
      (6 ∷ 7 ∷ 8 ∷ [])
      2
      (record { memory = []; replies = (3 ∷ 2 ∷ 6 ∷ 7 ∷ []) ∷ (1 ∷ 1 ∷ 8 ∷ []) ∷ [] })
    ≡ some (3, 6 ∷ 7 ∷ [], record { memory = 1 ∷ 1 ∷ 8 ∷ 7 ∷ []; replies = [] })
unfolding call_get_preimage varint_read same_bytes
cut_off = refl

call_get_preimage-Verified_example :
    (length {A = ℕ} (6 ∷ 7 ∷ 8 ∷ []) ≡ 3) × (identity (6 ∷ 7 ∷ 8 ∷ []) ≡ 6 ∷ 7 ∷ 8 ∷ [])
unfolding read_header varint_read
call_get_preimage-Verified_example =
    call_get_preimage-Verified identity (6 ∷ 7 ∷ 8 ∷ []) 10 [] (3 ∷ 2 ∷ 6 ∷ 7 ∷ [])
      ((1 ∷ 1 ∷ 8 ∷ []) ∷ []) 3 2 (6 ∷ 7 ∷ []) 3 (6 ∷ 7 ∷ 8 ∷ [])
      (record { memory = 1 ∷ 1 ∷ 8 ∷ 7 ∷ []; replies = [] }) refl (omega arith) preimage_run
