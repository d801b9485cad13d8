-- ===== src/Address/Taproot.antt =====
-- compute_taptree_hash and compute_tapleaf_hash of src/handler/lib/policy.c, and the tagged hashes of
-- src/crypto.c.
use ledger_app_syscoin.Base.{ℕ, Option, none, some, ◌>>=◌, if◌then◌else◌, List, [], ◌∷◌, ◌++◌}
use ledger_app_syscoin.Policy.{PolicyNode, Tree, null, leaf, branch}
use ledger_app_syscoin.Wire.{varint_write}
use ledger_app_syscoin.Client.{Exchange}
use ledger_app_syscoin.Client.Sorted.{memcmp, is_negative}
use ledger_app_syscoin.Script.Commands.{tapscript}
use ledger_app_syscoin.Address.{Crypto, InternalScript}
use ledger_app_syscoin.Address.Tweak.{tagged_hash}

-- "TapLeaf" and "TapBranch"
abbrev pub tapleaf_tag : List ℕ
tapleaf_tag = 0x54 ∷ 0x61 ∷ 0x70 ∷ 0x4c ∷ 0x65 ∷ 0x61 ∷ 0x66 ∷ []

abbrev pub tapbranch_tag : List ℕ
tapbranch_tag = 0x54 ∷ 0x61 ∷ 0x70 ∷ 0x42 ∷ 0x72 ∷ 0x61 ∷ 0x6e ∷ 0x63 ∷ 0x68 ∷ []

module _ (crypto : Crypto) where
  unfoldable pub combine_taptree_hashes : List ℕ → List ℕ → List ℕ
  unfolding tagged_hash memcmp is_negative
  combine_taptree_hashes left_h right_h =
      if is_negative (memcmp 32 left_h right_h)
      then tagged_hash crypto tapbranch_tag (left_h ++ right_h)
      else tagged_hash crypto tapbranch_tag (right_h ++ left_h)

  module _ (internal : InternalScript) where
    -- The script is emitted twice: for its length, and for the hash.
    unfoldable pub compute_tapleaf_hash : PolicyNode → Exchange → Option (List ℕ × Exchange)
    unfolding tagged_hash varint_write
    compute_tapleaf_hash script_policy exchange = do
      (tapscript_len, _, exchange') ← internal tapscript script_policy exchange
      (_, tapscript_bytes, exchange'') ← internal tapscript script_policy exchange'
      some (
        tagged_hash crypto tapleaf_tag (0xC0 ∷ varint_write tapscript_len ++ tapscript_bytes),
        exchange'',
      )

    unfoldable pub compute_taptree_hash : Tree → Exchange → Option (List ℕ × Exchange)
    unfolding compute_tapleaf_hash combine_taptree_hashes
    compute_taptree_hash null exchange = none
    compute_taptree_hash (leaf script) exchange = compute_tapleaf_hash script exchange
    compute_taptree_hash (branch left_tree right_tree) exchange = do
      (left_h, exchange') ← compute_taptree_hash left_tree exchange
      (right_h, exchange'') ← compute_taptree_hash right_tree exchange'
      some (combine_taptree_hashes left_h right_h, exchange'')
