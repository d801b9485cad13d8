-- ===== src/Client/Map/Examples.antt =====
-- Runs of the functions on merkleized maps in src/handler/lib, with a hash function that gives the
-- first 32 bytes.
use ledger_app_syscoin.Base.{ℕ, ◌≡◌, refl, none, some, List, [], ◌∷◌, ◌++◌, take}
use ledger_app_syscoin.Wire.{varint_read}
use ledger_app_syscoin.Merkle.{merkle_get_ith_direction, ceil_lg}
use ledger_app_syscoin.Script.Multisig.{repeat}
use ledger_app_syscoin.Client.{Exchange, same_bytes}
use ledger_app_syscoin.Client.Map.{MapCommitment, call_get_merkleized_map_value_hash}
use ledger_app_syscoin.Client.Map.Entry.{IsEntry, call_get_merkleized_map_value_hash-IsEntry}

abbrev prefix_hash : List ℕ → List ℕ
prefix_hash bytes = take 32 (bytes ++ repeat 32 0)

-- One key 7 with a value whose hash is fives.
abbrev fives : List ℕ
fives = repeat 32 5

abbrev seven_hash : List ℕ
seven_hash = 0 ∷ 7 ∷ repeat 30 0

abbrev single : MapCommitment
single = record { size = 1; keys_root = seven_hash; values_root = fives }

abbrev honest : Exchange
honest = record {
  memory = [];
  replies = (1 ∷ 0 ∷ []) ∷ (seven_hash ++ 0 ∷ 0 ∷ []) ∷ (fives ++ 0 ∷ 0 ∷ []) ∷ [];
}

abbrev after : Exchange
after = record { memory = fives ++ 0 ∷ 0 ∷ []; replies = [] }

value_run :
    call_get_merkleized_map_value_hash prefix_hash single (7 ∷ []) honest ≡ some (fives, after)
unfolding call_get_merkleized_map_value_hash merkle_get_ith_direction ceil_lg same_bytes varint_read
value_run = refl

-- Another key is refused.
other_key_refused : call_get_merkleized_map_value_hash prefix_hash single (8 ∷ []) honest ≡ none
unfolding call_get_merkleized_map_value_hash merkle_get_ith_direction ceil_lg same_bytes varint_read
other_key_refused = refl

call_get_merkleized_map_value_hash-IsEntry_example : IsEntry prefix_hash single (7 ∷ []) fives
call_get_merkleized_map_value_hash-IsEntry_example =
    call_get_merkleized_map_value_hash-IsEntry prefix_hash single (7 ∷ []) honest fives after
      value_run
