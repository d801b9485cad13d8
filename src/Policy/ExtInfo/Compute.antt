-- ===== src/Policy/ExtInfo/Compute.antt =====
-- compute_miniscript_policy_ext_info of src/common/wallet.c over a whole script. The parameter
-- `leftover` is what the array of compute_thresh_ops and of compute_thresh_stacksize holds where the
-- loop has written nothing.
use ledger_app_syscoin.Base.{ℕ, Option, none, some, ◌>>=◌, length, ℤ, List, [], ◌∷◌}
use ledger_app_syscoin.Policy.{
  PolicyNode, constant, with_script, with_script2, andor, with_key, with_uint32, multisig, thresh,
  with_hash, tr, Scriptlist, nil, cons,
}
use ledger_app_syscoin.Policy.ExtInfo.{ExtInfo}
use ledger_app_syscoin.Policy.ExtInfo.Leaves.{
  constant_info, key_info, multisig_info, lock_info, hash_info,
}
use ledger_app_syscoin.Policy.ExtInfo.Scripts.{andor_info, script2_info}
use ledger_app_syscoin.Policy.ExtInfo.Wrappers.{wrapper_info}
use ledger_app_syscoin.Policy.ExtInfo.Thresh.{thresh_info}

unfoldable mutual
  unfolding constant_info key_info multisig_info lock_info hash_info andor_info script2_info
      wrapper_info thresh_info

  pub compute_miniscript_policy_ext_info : (ℕ → ℤ) → PolicyNode → Option ExtInfo
  compute_miniscript_policy_ext_info leftover (constant token) = some (constant_info token)
  compute_miniscript_policy_ext_info leftover (with_script token x) = do
    x' ← compute_miniscript_policy_ext_info leftover x
    wrapper_info token x'
  compute_miniscript_policy_ext_info leftover (with_script2 token x y) = do
    x' ← compute_miniscript_policy_ext_info leftover x
    y' ← compute_miniscript_policy_ext_info leftover y
    some (script2_info token x' y')
  compute_miniscript_policy_ext_info leftover (andor x y z) = do
    x' ← compute_miniscript_policy_ext_info leftover x
    y' ← compute_miniscript_policy_ext_info leftover y
    z' ← compute_miniscript_policy_ext_info leftover z
    some (andor_info x' y' z')
  compute_miniscript_policy_ext_info leftover (with_key token key) = key_info token
  compute_miniscript_policy_ext_info leftover (with_uint32 token n) = some (lock_info token n)
  compute_miniscript_policy_ext_info leftover (multisig token k keys) =
      multisig_info token k (length keys)
  compute_miniscript_policy_ext_info leftover (thresh k xs) = do
    ts ← children_ext_info leftover xs
    thresh_info leftover k ts
  compute_miniscript_policy_ext_info leftover (with_hash token h) = some (hash_info token)
  compute_miniscript_policy_ext_info leftover (tr key tree) = none

  -- The calls for the children of a thresh node.
  pub children_ext_info : (ℕ → ℤ) → Scriptlist → Option (List ExtInfo)
  children_ext_info leftover nil = some []
  children_ext_info leftover (cons x xs) = do
    t ← compute_miniscript_policy_ext_info leftover x
    ts ← children_ext_info leftover xs
    some (t ∷ ts)
