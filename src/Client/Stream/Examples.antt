-- ===== src/Client/Stream/Examples.antt =====
-- Runs of call_stream_preimage (src/handler/lib/stream_preimage.c), with the identity for the hash
-- function.
use ledger_app_syscoin.Base.{ℕ, ◌≡◌, refl, some, List, [], ◌∷◌, length, concat}
use ledger_app_syscoin.Wire.{varint_read}
use ledger_app_syscoin.Client.{same_bytes}
use ledger_app_syscoin.Client.Stream.{read_header, call_stream_preimage}
use ledger_app_syscoin.Client.Stream.Verified.{call_stream_preimage-Verified}

abbrev identity : List ℕ → List ℕ
identity bytes = bytes

-- The bytes 0, 7, 8 in two replies.
stream_run :
    call_stream_preimage identity []
      (0 ∷ 7 ∷ 8 ∷ [])
      (record { memory = []; replies = (3 ∷ 2 ∷ 0 ∷ 7 ∷ []) ∷ (1 ∷ 1 ∷ 8 ∷ []) ∷ [] })
    ≡ some (2, (7 ∷ []) ∷ (8 ∷ []) ∷ [], record { memory = 1 ∷ 1 ∷ 8 ∷ 7 ∷ []; replies = [] })
unfolding call_stream_preimage varint_read same_bytes
stream_run = refl

-- The first reply holds nothing of the preimage: the callback gets the memory beyond it, and the
-- prefix with what follows.
unchecked_first_reply :
    call_stream_preimage identity
      (99 ∷ 98 ∷ [])
      (0 ∷ 7 ∷ 8 ∷ [])
      (record { memory = []; replies = (3 ∷ 0 ∷ []) ∷ (3 ∷ 1 ∷ 0 ∷ 7 ∷ 8 ∷ []) ∷ [] })
    ≡ some (
      2,
      (99 ∷ 98 ∷ []) ∷ (0 ∷ 7 ∷ 8 ∷ []) ∷ [],
      record { memory = 3 ∷ 1 ∷ 0 ∷ 7 ∷ 8 ∷ []; replies = [] },
    )
unfolding call_stream_preimage varint_read same_bytes
unchecked_first_reply = refl

call_stream_preimage-Verified_example :
    (length {A = ℕ} (concat ((7 ∷ []) ∷ (8 ∷ []) ∷ [])) ≡ 2)
    × ((first : ℕ) × (identity (first ∷ concat ((7 ∷ []) ∷ (8 ∷ []) ∷ [])) ≡ 0 ∷ 7 ∷ 8 ∷ []))
unfolding read_header varint_read
call_stream_preimage-Verified_example =
    call_stream_preimage-Verified identity [] (0 ∷ 7 ∷ 8 ∷ []) [] (3 ∷ 2 ∷ 0 ∷ 7 ∷ [])
      ((1 ∷ 1 ∷ 8 ∷ []) ∷ []) 3 1 (0 ∷ 7 ∷ []) 2 ((7 ∷ []) ∷ (8 ∷ []) ∷ [])
      (record { memory = 1 ∷ 1 ∷ 8 ∷ 7 ∷ []; replies = [] }) refl stream_run
