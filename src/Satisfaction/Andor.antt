-- ===== src/Satisfaction/Andor.antt =====
-- The count of keys of andor in compute_miniscript_policy_ext_info (src/common/wallet.c): its second
-- term adds y.ops.dsat where the satisfaction through Z dissatisfies X.
use ledger_app_syscoin.Base.{ℕ, ◌+◌, ◌*◌, ◌≡◌, refl, true, some, List, length, ℤ, pos, arith, inr}
use ledger_app_syscoin.Policy.{
  KeyPlaceholder, PolicyNode, andor, with_key, with_uint32, multisig, token_pk, token_older,
  token_multi,
}
use ledger_app_syscoin.Policy.ExtInfo.{ExtInfo}
use ledger_app_syscoin.Policy.ExtInfo.Compute.{compute_miniscript_policy_ext_info}
use ledger_app_syscoin.Satisfaction.{Costs, multisig_keys}

-- andor(pk(a),older(t),multi(k,keys…))
abbrev pub key_or_multisig : KeyPlaceholder → ℕ → ℕ → List KeyPlaceholder → PolicyNode
key_or_multisig a t k keys =
    andor (with_key token_pk a) (with_uint32 token_older t) (multisig token_multi k keys)

-- For every script andor(pk(a),older(t),multi(k,keys…)) the analysis counts no key of an executed
-- CHECKMULTISIG, though a satisfaction executes the one of multi, with all its keys.
pub andor_ops_undercount :
    (leftover : ℕ → ℤ) (a : KeyPlaceholder) (t k : ℕ) (keys : List KeyPlaceholder)
    → ((info : ExtInfo) × (compute_miniscript_policy_ext_info leftover (key_or_multisig a t k keys)
          ≡ some info)
        × (info.ops.sat ≡ pos 0))
      × Costs multisig_keys true (key_or_multisig a t k keys) (length keys)
unfolding compute_miniscript_policy_ext_info
andor_ops_undercount leftover a t k keys =
    ((_, refl, refl), inr (0, k * 0 + 0 + length keys, refl, refl, omega arith))
