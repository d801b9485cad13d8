-- ===== src/Script/Multisig.antt =====
-- process_multi_sortedmulti_node and process_multi_a_sortedmulti_a_node of src/handler/lib/policy.c,
-- with the bit vectors of src/common/bitvector.h. An array of bytes is a list.
use ledger_app_syscoin.Base.{
  ℕ, zero, suc, ◌+◌, ◌-◌, ◌/◌, ◌%◌, ◌^◌, bit_or, Bool, true, false, ◌==◌, leb, ltb, Option, none,
  some, ◌>>=◌, ◌>>◌, guard, if◌then◌else◌, List, [], ◌∷◌, ◌++◌, length, drop, get_or, set,
}
use ledger_app_syscoin.Policy.{KeyPlaceholder}
use ledger_app_syscoin.Client.{Exchange}
use ledger_app_syscoin.Script.{Services}
use ledger_app_syscoin.Script.Output.{op_v_bytes}

unfoldable pub bitvector_get : List ℕ → ℕ → Bool
bitvector_get vec i = get_or vec (i / 8) 0 / 2 ^ (7 - i % 8) % 2 == 1

-- The source calls it with `value` true only.
unfoldable pub bitvector_set : List ℕ → ℕ → List ℕ
bitvector_set vec i = set vec (i / 8) (bit_or (get_or vec (i / 8) 0) (2 ^ (7 - i % 8)))

-- cmp_arrays(a, b, length) > 0 for two arrays of the same length.
unfoldable pub cmp_arrays_greater : List ℕ → List ℕ → Bool
cmp_arrays_greater (x ∷ xs) (y ∷ ys) =
    let rest = cmp_arrays_greater xs ys in if ltb y x then true else if ltb x y then false else rest
cmp_arrays_greater _ _ = false

abbrev pub repeat : ℕ → ℕ → List ℕ
repeat zero x = []
repeat (suc n) x = x ∷ repeat n x

-- memset(compressed_pubkey, 0xFF, sizeof(compressed_pubkey))
abbrev pub largest_pubkey : List ℕ
largest_pubkey = repeat 33 0xFF

-- compressed_pubkey and smallest_pubkey_index, where `none` is -1.
pub record Smallest : Type 0 where
  pub pubkey : List ℕ
  pub index : Option ℕ

module _ (services : Services) where
  -- The loop over j. The keys are compared from byte `from` on: 0, or 1 for the x-only keys.
  unfoldable pub find_smallest :
      ℕ → List ℕ → ℕ → List KeyPlaceholder → Smallest → Exchange → Option (Smallest × Exchange)
  unfolding bitvector_get cmp_arrays_greater
  find_smallest from used j [] smallest exchange = some (smallest, exchange)
  find_smallest from used j (key ∷ keys) smallest exchange = elim (bitvector_get used j) [
    | true ↦ find_smallest from used (j + 1) keys smallest exchange
    | false ↦ services.get_derived_pubkey key exchange >>= λ (pubkey, exchange').
        find_smallest from used (j + 1) keys
          (if cmp_arrays_greater (drop from smallest.pubkey) (drop from pubkey)
            then record { pubkey = pubkey; index = some j }
            else smallest)
          exchange'
  ]

  -- bitvector_set for -1 is a write out of bounds, which ends the model.
  unfoldable pub mark_used : List ℕ → Option ℕ → Option (List ℕ)
  unfolding bitvector_set
  mark_used used none = none
  mark_used used (some i) = some (bitvector_set used i)

  -- The loop over i of the sorted variants, with `rounds` left.
  unfoldable pub sorted_keys :
      ℕ → List KeyPlaceholder → ℕ → List ℕ → Exchange → Option (List (List ℕ) × Exchange)
  unfolding find_smallest mark_used
  sorted_keys from keys zero used exchange = some ([], exchange)
  sorted_keys from keys (suc rounds) used exchange = do
    (smallest, exchange') ←
        find_smallest from used 0 keys (record { pubkey = largest_pubkey; index = none }) exchange
    used' ← mark_used used smallest.index
    (rest, exchange'') ← sorted_keys from keys rounds used' exchange'
    some (smallest.pubkey ∷ rest, exchange'')

  -- The loop over i of the others.
  unfoldable pub keys_in_order : List KeyPlaceholder → Exchange → Option (List (List ℕ) × Exchange)
  keys_in_order [] exchange = some ([], exchange)
  keys_in_order (key ∷ keys) exchange = do
    (pubkey, exchange') ← services.get_derived_pubkey key exchange
    (rest, exchange'') ← keys_in_order keys exchange'
    some (pubkey ∷ rest, exchange'')

  -- The pushes of the keys.
  unfoldable pub push_keys : List (List ℕ) → List ℕ
  push_keys [] = []
  push_keys (pubkey ∷ pubkeys) = 0x21 ∷ pubkey ++ push_keys pubkeys

  -- The keys as x-only keys, each with OP_CHECKSIG or OP_CHECKSIGADD.
  unfoldable pub push_x_only_keys : ℕ → List (List ℕ) → List ℕ
  push_x_only_keys opcode [] = []
  push_x_only_keys opcode (pubkey ∷ pubkeys) =
      0x20 ∷ drop 1 pubkey ++ opcode ∷ push_x_only_keys 0xba pubkeys

  -- The bytes that the processor emits; the first argument says that the keys are sorted.
  unfoldable pub process_multi_sortedmulti_node :
      Bool → ℕ → List KeyPlaceholder → Bool → Exchange → Option (List ℕ × Exchange)
  unfolding sorted_keys keys_in_order push_keys op_v_bytes
  process_multi_sortedmulti_node is_sorted k keys flag_v exchange = do
    let n = length keys
    guard (leb n 16)
    (pubkeys, exchange') ←
        (if is_sorted
          then sorted_keys 0 keys n (0 ∷ 0 ∷ []) exchange
          else keys_in_order keys exchange)
    some (
      ((0x50 + k) % 256) ∷ push_keys pubkeys ++ ((0x50 + n) % 256) ∷ op_v_bytes flag_v 0xae,
      exchange',
    )

  -- memset(used, 0, sizeof(memset)) sets one byte, so that the other keeps what the memory held,
  -- `leftover`.
  unfoldable pub process_multi_a_sortedmulti_a_node :
      ℕ → Bool → ℕ → List KeyPlaceholder → Bool → Exchange → Option (List ℕ × Exchange)
  unfolding sorted_keys keys_in_order push_x_only_keys op_v_bytes
  process_multi_a_sortedmulti_a_node leftover is_sorted k keys flag_v exchange = do
    let n = length keys
    guard (leb k 16)
    (pubkeys, exchange') ←
        (if is_sorted
          then sorted_keys 1 keys n (0 ∷ leftover ∷ []) exchange
          else keys_in_order keys exchange)
    some (push_x_only_keys 0xac pubkeys ++ ((0x50 + k) % 256) ∷ op_v_bytes flag_v 0x9c, exchange')
