-- ===== src/Sanity/Guarantees.antt =====
-- What is_policy_sane (src/handler/lib/policy.c) guarantees of a miniscript policy.
use ledger_app_syscoin.Base.{
  ℕ, ◌≤◌, ◌&&◌, ◌≡◌, refl, true, false, some, >>=-eq-some, guard, ℤ, pos, negsuc, arith,
}
use ledger_app_syscoin.Policy.{PolicyNode, with_script, token_wsh}
use ledger_app_syscoin.Policy.Types.{Flags, node_flags, same_type, type_b}
use ledger_app_syscoin.Policy.ExtInfo.{ExtInfo}
use ledger_app_syscoin.Policy.ExtInfo.Compute.{compute_miniscript_policy_ext_info}
use ledger_app_syscoin.Satisfaction.{Costs, signatures, stack_elements, ThresholdsFit}
use ledger_app_syscoin.Satisfaction.Locks.{LocksUsed, Uses}
use ledger_app_syscoin.Satisfaction.Locks.Unmixed.{compute_ext_info_unmixed}
use ledger_app_syscoin.Satisfaction.Sets.{IsMaximum, maximum}
use ledger_app_syscoin.Satisfaction.Stack.{compute_ext_info_stack-IsMaximum}
use ledger_app_syscoin.Satisfaction.Signatures.Whole.{compute_ext_info_signed}
use ledger_app_syscoin.Sanity.{check_ext_info, check_miniscript, is_policy_sane_miniscript, at_most}

check_miniscript-info :
    (leftover : ℕ → ℤ) (inner : PolicyNode) (fl : Flags)
    → check_miniscript leftover fl inner ≡ some tt
    → (info : ExtInfo) × (compute_miniscript_policy_ext_info leftover inner ≡ some info)
      × (check_ext_info info ≡ some tt)
unfolding check_miniscript
check_miniscript-info leftover inner fl h =
    let (_, _, h') = >>=-eq-some (guard (same_type fl.kind type_b)) _ h in
    >>=-eq-some (compute_miniscript_policy_ext_info leftover inner) _ h'

-- The analysis of a sane policy, and the tests that it passed.
is_policy_sane_info :
    (leftover : ℕ → ℤ) (inner : PolicyNode) (fl : Flags)
    → node_flags inner ≡ some fl
    → fl.is_miniscript ≡ true
    → is_policy_sane_miniscript leftover (with_script token_wsh inner) ≡ some tt
    → (info : ExtInfo) × (compute_miniscript_policy_ext_info leftover inner ≡ some info)
      × (check_ext_info info ≡ some tt)
unfolding is_policy_sane_miniscript
is_policy_sane_info leftover inner fl typed mini sane =
    check_miniscript-info leftover inner fl (ground arith)

check_ext_info-s : (info : ExtInfo) → check_ext_info info ≡ some tt → info.s ≡ true
unfolding check_ext_info
check_ext_info-s info h = ground arith

at_most-pos : (limit : ℕ) (z : ℤ) → at_most limit z ≡ true → (n : ℕ) × (z ≡ pos n) × (n ≤ limit)
at_most-pos limit (pos n) h = (n, refl, ground arith)
at_most-pos limit (negsuc n) h = cc

check_ext_info-k : (info : ExtInfo) → check_ext_info info ≡ some tt → info.k ≡ true
unfolding check_ext_info
check_ext_info-k info h = ground arith

check_ext_info-ss :
    (info : ExtInfo) → check_ext_info info ≡ some tt → (n : ℕ) × (info.ss.sat ≡ pos n) × (n ≤ 100)
unfolding check_ext_info
check_ext_info-ss info h = at_most-pos 100 info.ss.sat (ground arith)

-- Every satisfaction of the script of a sane wsh policy holds a signature.
pub is_policy_sane_signed :
    (leftover : ℕ → ℤ) (inner : PolicyNode) (fl : Flags)
    → node_flags inner ≡ some fl
    → fl.is_miniscript ≡ true
    → is_policy_sane_miniscript leftover (with_script token_wsh inner) ≡ some tt
    → (w : ℕ) → Costs signatures true inner w
    → 1 ≤ w
is_policy_sane_signed leftover inner fl typed mini sane =
    let (info, e, checks) = is_policy_sane_info leftover inner fl typed mini sane in
    (compute_ext_info_signed leftover inner fl info typed e).0 (check_ext_info-s info checks)

-- If all its thresholds lie in range, the script of a sane wsh policy has a satisfaction, and none of
-- more than 100 stack elements.
pub is_policy_sane_stack :
    (leftover : ℕ → ℤ) (inner : PolicyNode) (fl : Flags)
    → node_flags inner ≡ some fl
    → fl.is_miniscript ≡ true
    → ThresholdsFit inner
    → is_policy_sane_miniscript leftover (with_script token_wsh inner) ≡ some tt
    → ((w : ℕ) × Costs stack_elements true inner w)
      × ((w : ℕ) → Costs stack_elements true inner w → w ≤ 100)
is_policy_sane_stack leftover inner fl typed mini fit sane =
    let (info, e, checks) = is_policy_sane_info leftover inner fl typed mini sane in
    let (n, sat, small) = check_ext_info-ss info checks in
    bounded (rw sat at ((compute_ext_info_stack-IsMaximum leftover inner info fit e).0)) small
  where
    bounded :
        {n : ℕ}
        → IsMaximum (Costs stack_elements true inner) (pos n)
        → n ≤ 100
        → ((w : ℕ) × Costs stack_elements true inner w)
          × ((w : ℕ) → Costs stack_elements true inner w → w ≤ 100)
    bounded (maximum p r e) h = ((_, r), λ v s. omega (arith, p v s))

-- No satisfaction of the script of a sane wsh policy relies on a relative lock by time and one by
-- height, nor on an absolute lock by time and one by height.
pub is_policy_sane_unmixed :
    (leftover : ℕ → ℤ) (inner : PolicyNode) (fl : Flags)
    → node_flags inner ≡ some fl
    → fl.is_miniscript ≡ true
    → is_policy_sane_miniscript leftover (with_script token_wsh inner) ≡ some tt
    → (l : LocksUsed) → Uses true inner l
    → (l.relative_time && l.relative_height ≡ false)
      × (l.absolute_time && l.absolute_height ≡ false)
is_policy_sane_unmixed leftover inner fl typed mini sane =
    let (info, e, checks) = is_policy_sane_info leftover inner fl typed mini sane in
    compute_ext_info_unmixed leftover inner info e (check_ext_info-k info checks)
