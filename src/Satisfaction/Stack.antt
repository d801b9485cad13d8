-- ===== src/Satisfaction/Stack.antt =====
-- The maximum stack size of compute_miniscript_policy_ext_info (src/common/wallet.c): out->ss is
-- the number of stack elements of the largest satisfaction and dissatisfaction.
use ledger_app_syscoin.Base.{
  ℕ, ◌≤◌, ◌≡◌, true, false, List, [], ◌∷◌, length, some, ℤ, pos, arith, leb, Bool-cases, inl, inr,
  Ensures, failure, success, Ensures-under, Ensures-some,
}
use ledger_app_syscoin.Policy.{
  ConstantToken, KeyToken, MultisigToken, LockToken, ScriptToken, Script2Token, PolicyNode, thresh,
  Scriptlist, nil, cons, token_0, token_1, token_pk, token_pkh, token_wpkh, token_pk_k, token_pk_h,
  token_multi, token_older, token_after, token_sh, token_wsh, token_a, token_s, token_c, token_t,
  token_d, token_v, token_j, token_n, token_l, token_u, token_and_v, token_and_b, token_and_n,
  token_or_b, token_or_c, token_or_d, token_or_i,
}
use ledger_app_syscoin.Policy.ExtInfo.{ExtInfo, MiniscriptStacksize}
use ledger_app_syscoin.Policy.ExtInfo.Leaves.{
  constant_info, key_info, multisig_info, lock_info, hash_info,
}
use ledger_app_syscoin.Policy.ExtInfo.Scripts.{andor_info, script2_info}
use ledger_app_syscoin.Policy.ExtInfo.Wrappers.{wrapper_info}
use ledger_app_syscoin.Policy.ExtInfo.Thresh.{thresh_info}
use ledger_app_syscoin.Policy.ExtInfo.Induction.{
  Children, Rules, compute_miniscript_policy_ext_info-Ensures,
}
use ledger_app_syscoin.Policy.ExtInfo.Compute.{compute_miniscript_policy_ext_info}
use ledger_app_syscoin.Satisfaction.{
  Costs, stack_elements, ThresholdsFit, AllFit, ConstantCosts, KeyCosts, MultisigCosts, LockCosts,
  WrapperCosts, Script2Costs,
}
use ledger_app_syscoin.Satisfaction.Sets.{
  IsMaximum, Never-IsMaximum, Only-IsMaximum, Only-IsMaximum_eq, Sum-IsMaximum, Sum-IsMaximum_flip,
  Either-IsMaximum, Either-IsMaximum_flip,
}
use ledger_app_syscoin.Satisfaction.Thresh.{ChildrenMaximum, sats_loop-IsMaximum}

-- The two sets are measured right.
abbrev Bounds : (ℕ → Type 0) → (ℕ → Type 0) → MiniscriptStacksize → Type 0
Bounds S D ss = IsMaximum S ss.sat × IsMaximum D ss.dsat

constant_info-Bounds :
    (token : ConstantToken)
    → Bounds (ConstantCosts true token) (ConstantCosts false token) (constant_info token).ss
unfolding constant_info
constant_info-Bounds token_0 = (Never-IsMaximum, Only-IsMaximum 0 (omega arith))
constant_info-Bounds token_1 = (Only-IsMaximum 0 (omega arith), Never-IsMaximum)

key_info-Bounds :
    (token : KeyToken)
    → Ensures
        (λ t.
          Bounds (KeyCosts stack_elements true token) (KeyCosts stack_elements false token) t.ss)
        (key_info token)
unfolding key_info
key_info-Bounds token_pk = success (Only-IsMaximum 1 (omega arith), Only-IsMaximum 1 (omega arith))
key_info-Bounds token_pkh = success (Only-IsMaximum 2 (omega arith), Only-IsMaximum 2 (omega arith))
key_info-Bounds token_wpkh = failure
key_info-Bounds token_pk_k =
    success (Only-IsMaximum 1 (omega arith), Only-IsMaximum 1 (omega arith))
key_info-Bounds token_pk_h =
    success (Only-IsMaximum 2 (omega arith), Only-IsMaximum 2 (omega arith))

multisig_info-Bounds :
    (token : MultisigToken) (k n : ℕ)
    → k ≤ 16
    → Ensures
        (λ t.
          Bounds
            (MultisigCosts stack_elements true token k n)
            (MultisigCosts stack_elements false token k n)
            t.ss)
        (multisig_info token k n)
unfolding multisig_info
multisig_info-Bounds token_multi k n h = success (
  Only-IsMaximum_eq _ _ (omega arith) (omega arith),
  Only-IsMaximum_eq _ _ (omega arith) (omega arith),
)
multisig_info-Bounds _ k n h = failure

wrapper_info-Bounds :
    (token : ScriptToken) (S D : ℕ → Type 0) (x : ExtInfo)
    → Bounds S D x.ss
    → Ensures
        (λ t.
          Bounds
            (WrapperCosts stack_elements true token S D)
            (WrapperCosts stack_elements false token S D)
            t.ss)
        (wrapper_info token x)
unfolding wrapper_info
wrapper_info-Bounds token_sh S D x h = failure
wrapper_info-Bounds token_wsh S D x h = failure
wrapper_info-Bounds token_a S D x h = success h
wrapper_info-Bounds token_s S D x h = success h
wrapper_info-Bounds token_c S D x h = success h
wrapper_info-Bounds token_n S D x h = success h
wrapper_info-Bounds token_t S D x h = success (h.0, Never-IsMaximum)
wrapper_info-Bounds token_v S D x h = success (h.0, Never-IsMaximum)
wrapper_info-Bounds token_j S D x h = success (h.0, Only-IsMaximum 1 (omega arith))
wrapper_info-Bounds token_d S D x h = success (Sum-IsMaximum selector h.0, selector)
  where
    selector : IsMaximum (λ w. w ≡ 1) (pos 1)
    selector = Only-IsMaximum 1 (omega arith)
wrapper_info-Bounds token_l S D x h =
    success
      (Sum-IsMaximum_flip selector h.0, Either-IsMaximum selector (Sum-IsMaximum_flip selector h.1))
  where
    selector : IsMaximum (λ w. w ≡ 1) (pos 1)
    selector = Only-IsMaximum 1 (omega arith)
wrapper_info-Bounds token_u S D x h = success (
  Sum-IsMaximum_flip selector h.0,
  Either-IsMaximum_flip (Sum-IsMaximum_flip selector h.1) selector,
)
  where
    selector : IsMaximum (λ w. w ≡ 1) (pos 1)
    selector = Only-IsMaximum 1 (omega arith)

script2_info-Bounds :
    (token : Script2Token) (S D T E : ℕ → Type 0) (x y : ExtInfo)
    → Bounds S D x.ss
    → Bounds T E y.ss
    → Bounds
        (Script2Costs stack_elements true token S D T E)
        (Script2Costs stack_elements false token S D T E)
        (script2_info token x y).ss
unfolding script2_info
script2_info-Bounds token_and_v S D T E x y (s, d) (t, e) = (Sum-IsMaximum s t, Never-IsMaximum)
script2_info-Bounds token_and_b S D T E x y (s, d) (t, e) = (Sum-IsMaximum s t, Sum-IsMaximum d e)
script2_info-Bounds token_and_n S D T E x y (s, d) (t, e) = (Sum-IsMaximum s t, d)
script2_info-Bounds token_or_b S D T E x y (s, d) (t, e) =
    (Either-IsMaximum_flip (Sum-IsMaximum s e) (Sum-IsMaximum d t), Sum-IsMaximum d e)
script2_info-Bounds token_or_c S D T E x y (s, d) (t, e) =
    (Either-IsMaximum s (Sum-IsMaximum d t), Never-IsMaximum)
script2_info-Bounds token_or_d S D T E x y (s, d) (t, e) =
    (Either-IsMaximum s (Sum-IsMaximum d t), Sum-IsMaximum d e)
script2_info-Bounds token_or_i S D T E x y (s, d) (t, e) = (
  Either-IsMaximum (Sum-IsMaximum_flip selector s) (Sum-IsMaximum_flip selector t),
  Either-IsMaximum (Sum-IsMaximum_flip selector d) (Sum-IsMaximum_flip selector e),
)
  where
    selector : IsMaximum (λ w. w ≡ 1) (pos 1)
    selector = Only-IsMaximum 1 (omega arith)

lock_info-Bounds :
    (token : LockToken) (n : ℕ) → Bounds (LockCosts true) (LockCosts false) (lock_info token n).ss
unfolding lock_info
lock_info-Bounds token_older n = (Only-IsMaximum 0 (omega arith), Never-IsMaximum)
lock_info-Bounds token_after n = (Only-IsMaximum 0 (omega arith), Never-IsMaximum)

-- The statement for one node.
abbrev StackRight : PolicyNode → ExtInfo → Type 0
StackRight p t =
    ThresholdsFit p → Bounds (Costs stack_elements true p) (Costs stack_elements false p) t.ss

Children-ChildrenMaximum :
    (xs : Scriptlist) (ts : List ExtInfo)
    → AllFit xs
    → Children StackRight xs ts
    → ChildrenMaximum stack_elements (λ t. t.ss.sat) (λ t. t.ss.dsat) xs ts
Children-ChildrenMaximum nil [] fit h = tt
Children-ChildrenMaximum (cons x xs) (t ∷ ts) (fit, fits) (h, hs) =
    let (s, d) = h fit in (s, d, Children-ChildrenMaximum xs ts fits hs)
Children-ChildrenMaximum nil (t ∷ ts) fit h = absurd h
Children-ChildrenMaximum (cons x xs) [] fit h = absurd h

thresh_info-StackRight :
    (leftover : ℕ → ℤ) (k : ℕ) (xs : Scriptlist) (ts : List ExtInfo)
    → Children StackRight xs ts
    → Ensures (StackRight (thresh k xs)) (thresh_info leftover k ts)
unfolding thresh_info
thresh_info-StackRight leftover k xs ts h = elim (Bool-cases (leb (length ts) 128)) [
  | inl e ↦ rw e (
      success (λ fit.
        let hs = Children-ChildrenMaximum xs ts fit.2 h in
        (
          sats_loop-IsMaximum stack_elements _ _ xs ts k (leftover k) hs fit.1,
          sats_loop-IsMaximum stack_elements _ _ xs ts 0 (leftover 0) hs (omega arith),
        )))
  | inr e ↦ rw e failure
]

StackRight-Rules : (leftover : ℕ → ℤ) → Rules leftover StackRight
unfolding constant_info lock_info hash_info andor_info
StackRight-Rules leftover = record {
  of_constant = λ token fit. constant_info-Bounds token;
  of_script = λ token x t h.
      Ensures-under (wrapper_info token t) (λ fit. wrapper_info-Bounds token _ _ t (h fit));
  of_script2 = λ token x y t u h i fit. script2_info-Bounds token _ _ _ _ t u (h fit.0) (i fit.1);
  of_andor = λ x y z t u v h i j fit.
      let (s, d) = h fit.0 in
      let (s', d') = i fit.1 in
      let (s'', d'') = j fit.2 in
      (Either-IsMaximum (Sum-IsMaximum s s') (Sum-IsMaximum d s''), Sum-IsMaximum d d'');
  of_key = λ token key. Ensures-under (key_info token) (λ fit. key_info-Bounds token);
  of_uint32 = λ token n fit. lock_info-Bounds token n;
  of_multisig = λ token k keys.
      Ensures-under (multisig_info token k (length keys))
        (λ fit. multisig_info-Bounds token k (length keys) (omega arith));
  of_thresh = λ k xs ts h. thresh_info-StackRight leftover k xs ts h;
  of_hash = λ token h fit. (Only-IsMaximum 1 (omega arith), Never-IsMaximum);
}

-- If all thresholds of a policy lie in range and the analysis succeeds, then out->ss.sat is the
-- largest number of stack elements of a satisfaction (cut off at INT16_MAX, and negative if there is
-- none), and out->ss.dsat the largest of a dissatisfaction.
pub compute_ext_info_stack-IsMaximum :
    (leftover : ℕ → ℤ) (p : PolicyNode) (info : ExtInfo)
    → ThresholdsFit p
    → compute_miniscript_policy_ext_info leftover p ≡ some info
    → IsMaximum (Costs stack_elements true p) info.ss.sat
      × IsMaximum (Costs stack_elements false p) info.ss.dsat
compute_ext_info_stack-IsMaximum leftover p info fit e =
    Ensures-some
      (compute_miniscript_policy_ext_info-Ensures leftover StackRight (StackRight-Rules leftover) p)
      e fit
