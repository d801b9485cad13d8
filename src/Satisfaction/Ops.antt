-- ===== src/Satisfaction/Ops.antt =====
-- The number of keys of compute_miniscript_policy_ext_info (src/common/wallet.c): out->ops.sat and
-- out->ops.dsat count the keys of the executed CHECKMULTISIG opcodes, for the scripts built without
-- andor, and_n, l: and u:.
use ledger_app_syscoin.Base.{
  ℕ, ◌+◌, ◌*◌, ◌≤◌, ◌≡◌, true, false, List, [], ◌∷◌, length, some, ℤ, pos, arith, leb, Bool-cases,
  inl, inr, Ensures, failure, success, Ensures-under, Ensures-some,
}
use ledger_app_syscoin.Policy.{
  ConstantToken, KeyToken, MultisigToken, LockToken, ScriptToken, Script2Token, PolicyNode,
  with_script, with_script2, andor, thresh, Scriptlist, nil, cons, token_0, token_1, token_pk,
  token_pkh, token_wpkh, token_pk_k, token_pk_h, token_multi, token_older, token_after, token_sh,
  token_wsh, token_a, token_s, token_c, token_t, token_d, token_v, token_j, token_n, token_l,
  token_u, token_and_v, token_and_b, token_and_n, token_or_b, token_or_c, token_or_d, token_or_i,
}
use ledger_app_syscoin.Policy.ExtInfo.{ExtInfo, MiniscriptOps}
use ledger_app_syscoin.Policy.ExtInfo.Leaves.{
  constant_info, key_info, multisig_info, lock_info, hash_info,
}
use ledger_app_syscoin.Policy.ExtInfo.Scripts.{andor_info, script2_info}
use ledger_app_syscoin.Policy.ExtInfo.Wrappers.{wrapper_info}
use ledger_app_syscoin.Policy.ExtInfo.Thresh.{thresh_info}
use ledger_app_syscoin.Policy.ExtInfo.Induction.{
  Children, Rules, compute_miniscript_policy_ext_info-Ensures,
}
use ledger_app_syscoin.Policy.ExtInfo.Compute.{compute_miniscript_policy_ext_info}
use ledger_app_syscoin.Satisfaction.{
  Costs, multisig_keys, ThresholdsFit, AllFit, ConstantCosts, KeyCosts, MultisigCosts, LockCosts,
  WrapperCosts, Script2Costs,
}
use ledger_app_syscoin.Satisfaction.Sets.{
  IsMaximum, Never-IsMaximum, Only-IsMaximum, Only-IsMaximum_eq, Sum-IsMaximum, Sum-IsMaximum_flip,
  Sum-IsMaximum_zero, Either-IsMaximum,
}
use ledger_app_syscoin.Satisfaction.Thresh.{ChildrenMaximum, sats_loop-IsMaximum}

-- The two sets are measured right.
abbrev Bounds : (ℕ → Type 0) → (ℕ → Type 0) → MiniscriptOps → Type 0
Bounds S D ops = IsMaximum S ops.sat × IsMaximum D ops.dsat

zero-IsMaximum : IsMaximum (λ w. w ≡ 0) (pos 0)
zero-IsMaximum = Only-IsMaximum 0 (omega arith)

-- The wrappers and the conjunctions whose count of keys is right.
abbrev CountsWrapper : ScriptToken → Type 0
CountsWrapper token_l = ⊥
CountsWrapper token_u = ⊥
CountsWrapper _ = Unit

abbrev CountsScript2 : Script2Token → Type 0
CountsScript2 token_and_n = ⊥
CountsScript2 _ = Unit

abbrev mutual
  -- The script uses neither andor, and_n, l: nor u:.
  pub CountsKeys : PolicyNode → Type 0
  CountsKeys (with_script token x) = CountsWrapper token × CountsKeys x
  CountsKeys (with_script2 token x y) = CountsScript2 token × CountsKeys x × CountsKeys y
  CountsKeys (andor x y z) = ⊥
  CountsKeys (thresh k xs) = AllCountsKeys xs
  CountsKeys _ = Unit

  pub AllCountsKeys : Scriptlist → Type 0
  AllCountsKeys nil = Unit
  AllCountsKeys (cons x xs) = CountsKeys x × AllCountsKeys xs

constant_info-Bounds :
    (token : ConstantToken)
    → Bounds (ConstantCosts true token) (ConstantCosts false token) (constant_info token).ops
unfolding constant_info
constant_info-Bounds token_0 = (Never-IsMaximum, zero-IsMaximum)
constant_info-Bounds token_1 = (zero-IsMaximum, Never-IsMaximum)

key_info-Bounds :
    (token : KeyToken)
    → Ensures
        (λ t. Bounds (KeyCosts multisig_keys true token) (KeyCosts multisig_keys false token) t.ops)
        (key_info token)
unfolding key_info
key_info-Bounds token_wpkh = failure
key_info-Bounds token_pk = success (zero-IsMaximum, zero-IsMaximum)
key_info-Bounds token_pkh = success (zero-IsMaximum, zero-IsMaximum)
key_info-Bounds token_pk_k = success (zero-IsMaximum, zero-IsMaximum)
key_info-Bounds token_pk_h = success (zero-IsMaximum, zero-IsMaximum)

multisig_info-Bounds :
    (token : MultisigToken) (k n : ℕ)
    → n ≤ 16
    → Ensures
        (λ t.
          Bounds
            (MultisigCosts multisig_keys true token k n)
            (MultisigCosts multisig_keys false token k n)
            t.ops)
        (multisig_info token k n)
unfolding multisig_info
multisig_info-Bounds token_multi k n h = success (keys, keys)
  where
    keys : IsMaximum (λ w. w ≡ k * 0 + 0 + n) (pos n)
    keys = Only-IsMaximum_eq _ _ (omega arith) (omega arith)
multisig_info-Bounds _ k n h = failure

lock_info-Bounds :
    (token : LockToken) (n : ℕ) → Bounds (LockCosts true) (LockCosts false) (lock_info token n).ops
unfolding lock_info
lock_info-Bounds token_older n = (zero-IsMaximum, Never-IsMaximum)
lock_info-Bounds token_after n = (zero-IsMaximum, Never-IsMaximum)

wrapper_info-Bounds :
    (token : ScriptToken) (S D : ℕ → Type 0) (x : ExtInfo)
    → CountsWrapper token
    → Bounds S D x.ops
    → Ensures
        (λ t.
          Bounds
            (WrapperCosts multisig_keys true token S D)
            (WrapperCosts multisig_keys false token S D)
            t.ops)
        (wrapper_info token x)
unfolding wrapper_info
wrapper_info-Bounds token_sh S D x c h = failure
wrapper_info-Bounds token_wsh S D x c h = failure
wrapper_info-Bounds token_a S D x c h = success h
wrapper_info-Bounds token_s S D x c h = success h
wrapper_info-Bounds token_c S D x c h = success h
wrapper_info-Bounds token_n S D x c h = success h
wrapper_info-Bounds token_t S D x c h = success (h.0, Never-IsMaximum)
wrapper_info-Bounds token_v S D x c h = success (h.0, Never-IsMaximum)
wrapper_info-Bounds token_j S D x c h = success (h.0, zero-IsMaximum)
wrapper_info-Bounds token_d S D x c h = success (Sum-IsMaximum_zero h.0, zero-IsMaximum)
wrapper_info-Bounds token_l S D x c h = absurd c
wrapper_info-Bounds token_u S D x c h = absurd c

script2_info-Bounds :
    (token : Script2Token) (S D T E : ℕ → Type 0) (x y : ExtInfo)
    → CountsScript2 token
    → Bounds S D x.ops
    → Bounds T E y.ops
    → Bounds
        (Script2Costs multisig_keys true token S D T E)
        (Script2Costs multisig_keys false token S D T E)
        (script2_info token x y).ops
unfolding script2_info
script2_info-Bounds token_and_v S D T E x y c (s, d) (t, e) = (Sum-IsMaximum s t, Never-IsMaximum)
script2_info-Bounds token_and_b S D T E x y c (s, d) (t, e) = (Sum-IsMaximum s t, Sum-IsMaximum d e)
script2_info-Bounds token_and_n S D T E x y c (s, d) (t, e) = absurd c
script2_info-Bounds token_or_b S D T E x y c (s, d) (t, e) =
    (Either-IsMaximum (Sum-IsMaximum s e) (Sum-IsMaximum_flip d t), Sum-IsMaximum d e)
script2_info-Bounds token_or_c S D T E x y c (s, d) (t, e) =
    (Either-IsMaximum s (Sum-IsMaximum_flip d t), Never-IsMaximum)
script2_info-Bounds token_or_d S D T E x y c (s, d) (t, e) =
    (Either-IsMaximum s (Sum-IsMaximum_flip d t), Sum-IsMaximum d e)
script2_info-Bounds token_or_i S D T E x y c (s, d) (t, e) = (
  Either-IsMaximum (Sum-IsMaximum_zero s) (Sum-IsMaximum_zero t),
  Either-IsMaximum (Sum-IsMaximum_zero d) (Sum-IsMaximum_zero e),
)

-- The statement for one node.
abbrev OpsRight : PolicyNode → ExtInfo → Type 0
OpsRight p t =
    ThresholdsFit p × CountsKeys p
    → Bounds (Costs multisig_keys true p) (Costs multisig_keys false p) t.ops

Children-ChildrenMaximum :
    (xs : Scriptlist) (ts : List ExtInfo)
    → AllFit xs
    → AllCountsKeys xs
    → Children OpsRight xs ts
    → ChildrenMaximum multisig_keys (λ t. t.ops.sat) (λ t. t.ops.dsat) xs ts
Children-ChildrenMaximum nil [] fit c h = tt
Children-ChildrenMaximum (cons x xs) (t ∷ ts) (fit, fits) (c, cs) (h, hs) =
    let (s, d) = h (fit, c) in (s, d, Children-ChildrenMaximum xs ts fits cs hs)
Children-ChildrenMaximum nil (t ∷ ts) fit c h = absurd h
Children-ChildrenMaximum (cons x xs) [] fit c h = absurd h

thresh_info-OpsRight :
    (leftover : ℕ → ℤ) (k : ℕ) (xs : Scriptlist) (ts : List ExtInfo)
    → Children OpsRight xs ts
    → Ensures (OpsRight (thresh k xs)) (thresh_info leftover k ts)
unfolding thresh_info
thresh_info-OpsRight leftover k xs ts h = elim (Bool-cases (leb (length ts) 128)) [
  | inl e ↦ rw e (
      success (λ (fit, c).
        let hs = Children-ChildrenMaximum xs ts fit.2 c h in
        (
          sats_loop-IsMaximum multisig_keys _ _ xs ts k (leftover k) hs fit.1,
          sats_loop-IsMaximum multisig_keys _ _ xs ts 0 (leftover 0) hs (omega arith),
        )))
  | inr e ↦ rw e failure
]

OpsRight-Rules : (leftover : ℕ → ℤ) → Rules leftover OpsRight
unfolding constant_info lock_info hash_info andor_info
OpsRight-Rules leftover = record {
  of_constant = λ token fit. constant_info-Bounds token;
  of_script = λ token x t h.
      Ensures-under (wrapper_info token t)
        (λ (fit, c). wrapper_info-Bounds token _ _ t c.0 (h (fit, c.1)));
  of_script2 = λ token x y t u h i (fit, c).
      script2_info-Bounds token _ _ _ _ t u c.0 (h (fit.0, c.1)) (i (fit.1, c.2));
  of_andor = λ x y z t u v h i j (fit, c). absurd c;
  of_key = λ token key. Ensures-under (key_info token) (λ fit. key_info-Bounds token);
  of_uint32 = λ token n fit. lock_info-Bounds token n;
  of_multisig = λ token k keys.
      Ensures-under (multisig_info token k (length keys))
        (λ fit. multisig_info-Bounds token k (length keys) (omega arith));
  of_thresh = λ k xs ts h. thresh_info-OpsRight leftover k xs ts h;
  of_hash = λ token h fit. (zero-IsMaximum, Never-IsMaximum);
}

-- If all thresholds of a policy lie in range, it is built without andor, and_n, l: and u:, and the
-- analysis succeeds, then out->ops.sat is the largest number of keys in the CHECKMULTISIG opcodes
-- that a satisfaction executes (cut off at INT16_MAX, and negative if there is no satisfaction), and
-- out->ops.dsat the same for the dissatisfactions.
pub compute_ext_info_ops-IsMaximum :
    (leftover : ℕ → ℤ) (p : PolicyNode) (info : ExtInfo)
    → ThresholdsFit p
    → CountsKeys p
    → compute_miniscript_policy_ext_info leftover p ≡ some info
    → IsMaximum (Costs multisig_keys true p) info.ops.sat
      × IsMaximum (Costs multisig_keys false p) info.ops.dsat
compute_ext_info_ops-IsMaximum leftover p info fit c e =
    Ensures-some
      (compute_miniscript_policy_ext_info-Ensures leftover OpsRight (OpsRight-Rules leftover) p) e
      (fit, c)
