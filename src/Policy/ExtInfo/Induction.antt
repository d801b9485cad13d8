-- ===== src/Policy/ExtInfo/Induction.antt =====
-- Induction over compute_miniscript_policy_ext_info (src/common/wallet.c): a statement about each
-- node and the result for it follows from one rule for each kind of node.
use ledger_app_syscoin.Base.{ℕ, List, [], ◌∷◌, length, ℤ, Ensures, failure, success, Ensures->>=}
use ledger_app_syscoin.Policy.{
  ConstantToken, KeyToken, MultisigToken, LockToken, HashToken, ScriptToken, Script2Token,
  KeyPlaceholder, PolicyNode, constant, with_script, with_script2, andor, with_key, with_uint32,
  multisig, thresh, with_hash, tr, Scriptlist, nil, cons,
}
use ledger_app_syscoin.Policy.ExtInfo.{ExtInfo}
use ledger_app_syscoin.Policy.ExtInfo.Leaves.{
  constant_info, key_info, multisig_info, lock_info, hash_info,
}
use ledger_app_syscoin.Policy.ExtInfo.Scripts.{andor_info, script2_info}
use ledger_app_syscoin.Policy.ExtInfo.Wrappers.{wrapper_info}
use ledger_app_syscoin.Policy.ExtInfo.Thresh.{thresh_info}
use ledger_app_syscoin.Policy.ExtInfo.Compute.{
  compute_miniscript_policy_ext_info, children_ext_info,
}

-- The statement holds of each child and the result for it.
abbrev pub Children : (PolicyNode → ExtInfo → Type 0) → Scriptlist → List ExtInfo → Type 0
Children P nil [] = Unit
Children P (cons x xs) (t ∷ ts) = P x t × Children P xs ts
Children P _ _ = ⊥

pub record Rules (leftover : ℕ → ℤ) (P : PolicyNode → ExtInfo → Type 0) : Type 0 where
  pub of_constant : (token : ConstantToken) → P (constant token) (constant_info token)
  pub of_script :
      (token : ScriptToken) (x : PolicyNode) (t : ExtInfo)
      → P x t
      → Ensures (P (with_script token x)) (wrapper_info token t)
  pub of_script2 :
      (token : Script2Token) (x y : PolicyNode) (t u : ExtInfo)
      → P x t
      → P y u
      → P (with_script2 token x y) (script2_info token t u)
  pub of_andor :
      (x y z : PolicyNode) (t u v : ExtInfo)
      → P x t
      → P y u
      → P z v
      → P (andor x y z) (andor_info t u v)
  pub of_key :
      (token : KeyToken) (key : KeyPlaceholder) → Ensures (P (with_key token key)) (key_info token)
  pub of_uint32 : (token : LockToken) (n : ℕ) → P (with_uint32 token n) (lock_info token n)
  pub of_multisig :
      (token : MultisigToken) (k : ℕ) (keys : List KeyPlaceholder)
      → Ensures (P (multisig token k keys)) (multisig_info token k (length keys))
  pub of_thresh :
      (k : ℕ) (xs : Scriptlist) (ts : List ExtInfo)
      → Children P xs ts
      → Ensures (P (thresh k xs)) (thresh_info leftover k ts)
  pub of_hash : (token : HashToken) (h : List ℕ) → P (with_hash token h) (hash_info token)

module _ (leftover : ℕ → ℤ) (P : PolicyNode → ExtInfo → Type 0) (rules : Rules leftover P) where
  mutual
    unfolding compute_miniscript_policy_ext_info

    ext_info-Ensures :
        (p : PolicyNode) → Ensures (P p) (compute_miniscript_policy_ext_info leftover p)
    ext_info-Ensures (constant token) = success (rules.of_constant token)
    ext_info-Ensures (with_script token x) =
        Ensures->>= (ext_info-Ensures x) (λ t h. rules.of_script token x t h)
    ext_info-Ensures (with_script2 token x y) = Ensures->>= (ext_info-Ensures x) (λ t h.
        Ensures->>= (ext_info-Ensures y) (λ u i. success (rules.of_script2 token x y t u h i)))
    ext_info-Ensures (andor x y z) = Ensures->>= (ext_info-Ensures x) (λ t h.
        Ensures->>= (ext_info-Ensures y) (λ u i.
          Ensures->>= (ext_info-Ensures z) (λ v j. success (rules.of_andor x y z t u v h i j))))
    ext_info-Ensures (with_key token key) = rules.of_key token key
    ext_info-Ensures (with_uint32 token n) = success (rules.of_uint32 token n)
    ext_info-Ensures (multisig token k keys) = rules.of_multisig token k keys
    ext_info-Ensures (thresh k xs) =
        Ensures->>= (children_ext_info-Ensures xs) (λ ts h. rules.of_thresh k xs ts h)
    ext_info-Ensures (with_hash token h) = success (rules.of_hash token h)
    ext_info-Ensures (tr key tree) = failure

    children_ext_info-Ensures :
        (xs : Scriptlist) → Ensures (Children P xs) (children_ext_info leftover xs)
    children_ext_info-Ensures nil = success tt
    children_ext_info-Ensures (cons x xs) =
        Ensures->>= (ext_info-Ensures x)
          (λ t h. Ensures->>= (children_ext_info-Ensures xs) (λ ts hs. success (h, hs)))

  pub compute_miniscript_policy_ext_info-Ensures :
      (p : PolicyNode) → Ensures (P p) (compute_miniscript_policy_ext_info leftover p)
  compute_miniscript_policy_ext_info-Ensures p = ext_info-Ensures p
