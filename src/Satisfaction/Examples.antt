-- ===== src/Satisfaction/Examples.antt =====
-- Scripts of test_miniscript_types (unit-tests/test_wallet.c), and the theorems applied to them.
use ledger_app_syscoin.Base.{
  ℕ, ◌≤◌, ◌≡◌, refl, ◌>>=◌, Bool, true, false, [], ◌∷◌, none, some, arith, ℤ, pos, negsuc,
}
use ledger_app_syscoin.Policy.{
  KeyPlaceholder, PolicyNode, constant, andor, token_0, token_1, token_or_b, token_or_d, token_l,
  token_t, token_after, token_older, token_pk_h, with_script, with_script2, with_key, multisig,
  thresh, with_uint32, nil, cons, token_multi, token_a, token_c, token_pk_k, token_v,
}
use ledger_app_syscoin.Policy.Types.{Flags, node_flags, type_b}
use ledger_app_syscoin.Policy.ExtInfo.{ExtInfo}
use ledger_app_syscoin.Policy.ExtInfo.Compute.{compute_miniscript_policy_ext_info}
use ledger_app_syscoin.Satisfaction.{
  Costs, stack_elements, signatures, multisig_keys, ThresholdsFit,
}
use ledger_app_syscoin.Satisfaction.Sets.{IsMaximum}
use ledger_app_syscoin.Satisfaction.Stack.{compute_ext_info_stack-IsMaximum}
use ledger_app_syscoin.Satisfaction.Ops.{compute_ext_info_ops-IsMaximum}
use ledger_app_syscoin.Satisfaction.Signatures.Whole.{compute_ext_info_signed}
use ledger_app_syscoin.Satisfaction.Locks.{locks_of}
use ledger_app_syscoin.Satisfaction.Locks.Unmixed.{compute_ext_info_unmixed}
use ledger_app_syscoin.Satisfaction.Andor.{key_or_multisig, andor_ops_undercount}

abbrev key : ℕ → KeyPlaceholder
key i = record { num_first = 0; num_second = 1; key_index = i }

-- thresh(2,multi(2,@0/**,@1/**),a:multi(1,@2/**),ac:pk_k(@3/**))
abbrev two_of_three : PolicyNode
two_of_three = thresh 2 (
    cons (multisig token_multi 2 (key 0 ∷ key 1 ∷ [])) (
      cons (with_script token_a (multisig token_multi 1 (key 2 ∷ [])))
        (cons (with_script token_a (with_script token_c (with_key token_pk_k (key 3)))) nil)))

abbrev two_of_three_info : ExtInfo
two_of_three_info = record {
  ops = record { count = 10; sat = pos 3; dsat = pos 3 };
  ss = record { sat = pos 6; dsat = pos 6 };
  script_size = 151;
  s = true;
  f = false;
  e = true;
  m = true;
  g = false;
  h = false;
  i = false;
  j = false;
  k = true;
  x = false;
}

two_of_three_computed :
    compute_miniscript_policy_ext_info (λ i. pos 0) two_of_three ≡ some two_of_three_info
unfolding compute_miniscript_policy_ext_info
two_of_three_computed = refl

abbrev two_of_three_flags : Flags
two_of_three_flags = record {
  is_miniscript = true;
  kind = type_b;
  z = false;
  o = false;
  n = false;
  d = true;
  u = true;
}

two_of_three_typed : node_flags two_of_three ≡ some two_of_three_flags
unfolding node_flags
two_of_three_typed = refl

-- script_size, the number of opcodes, ops.sat, ss.sat, and the flags s, m and k.
abbrev summary : ExtInfo → ℕ × ℕ × ℤ × ℤ × Bool × Bool × Bool
summary t = (t.script_size, t.ops.count, t.ops.sat, t.ss.sat, t.s, t.m, t.k)

-- altv:after(n)
abbrev locked : ℕ → PolicyNode
locked n =
    with_script token_a
      (with_script token_l (with_script token_t (with_script token_v (with_uint32 token_after n))))

-- thresh(2,c:pk_k(@0/**),ac:pk_k(@1/**),altv:after(1000000000),altv:after(100))
abbrev mixed_locks : PolicyNode
mixed_locks = thresh 2 (
    cons (with_script token_c (with_key token_pk_k (key 0))) (
      cons (with_script token_a (with_script token_c (with_key token_pk_k (key 1))))
        (cons (locked 1000000000) (cons (locked 100) nil))))

mixed_locks-summary :
    (compute_miniscript_policy_ext_info (λ i. pos 0) mixed_locks >>= λ t. some (summary t))
    ≡ some (102, 22, pos 0, pos 4, false, true, false)
unfolding compute_miniscript_policy_ext_info
mixed_locks-summary = refl

-- or_d(c:pk_h(@0/**),andor(c:pk_k(@1/**),older(2016),after(1567547623)))
abbrev key_then_locks : PolicyNode
key_then_locks = with_script2 token_or_d (with_script token_c (with_key token_pk_h (key 0))) (
    andor (with_script token_c (with_key token_pk_k (key 1))) (with_uint32 token_older 2016)
      (with_uint32 token_after 1567547623))

key_then_locks-summary :
    (compute_miniscript_policy_ext_info (λ i. pos 0) key_then_locks >>= λ t. some (summary t))
    ≡ some (76, 13, pos 0, pos 3, false, true, true)
unfolding compute_miniscript_policy_ext_info
key_then_locks-summary = refl

-- or_b(0,0) and or_b(1,a:0) are refused.
or_b_refused :
    (node_flags (with_script2 token_or_b (constant token_0) (constant token_0)) ≡ none)
    × (node_flags
          (with_script2 token_or_b (constant token_1) (with_script token_a (constant token_0)))
        ≡ none)
unfolding node_flags
or_b_refused = (refl, refl)

two_of_three_fits : ThresholdsFit two_of_three
two_of_three_fits = (
  omega arith,
  omega arith,
  ((omega arith, omega arith, omega arith), ((omega arith, omega arith, omega arith), (tt, tt))),
)

compute_ext_info_stack-IsMaximum_example :
    IsMaximum (Costs stack_elements true two_of_three) (pos 6)
    × IsMaximum (Costs stack_elements false two_of_three) (pos 6)
compute_ext_info_stack-IsMaximum_example =
    compute_ext_info_stack-IsMaximum (λ i. pos 0) two_of_three two_of_three_info two_of_three_fits
      two_of_three_computed

compute_ext_info_ops-IsMaximum_example :
    IsMaximum (Costs multisig_keys true two_of_three) (pos 3)
    × IsMaximum (Costs multisig_keys false two_of_three) (pos 3)
compute_ext_info_ops-IsMaximum_example =
    compute_ext_info_ops-IsMaximum (λ i. pos 0) two_of_three two_of_three_info two_of_three_fits
      (tt, ((tt, tt), ((tt, (tt, tt)), tt))) two_of_three_computed

compute_ext_info_signed_example :
    (two_of_three_info.s ≡ true → (w : ℕ) → Costs signatures true two_of_three w → 1 ≤ w)
    × (two_of_three_info.f ≡ true → (w : ℕ) → Costs signatures false two_of_three w → 1 ≤ w)
compute_ext_info_signed_example =
    compute_ext_info_signed (λ i. pos 0) two_of_three two_of_three_flags two_of_three_info
      two_of_three_typed two_of_three_computed

andor_ops_undercount_example :
    ((info : ExtInfo) × (compute_miniscript_policy_ext_info
          (λ i. pos 0)
          (key_or_multisig (key 0) 144 2 (key 1 ∷ key 2 ∷ key 3 ∷ []))
        ≡ some info)
      × (info.ops.sat ≡ pos 0))
    × Costs multisig_keys true (key_or_multisig (key 0) 144 2 (key 1 ∷ key 2 ∷ key 3 ∷ [])) 3
andor_ops_undercount_example =
    andor_ops_undercount (λ i. pos 0) (key 0) 144 2 (key 1 ∷ key 2 ∷ key 3 ∷ [])

-- older(1000)
abbrev height_lock_info : ExtInfo
height_lock_info = record {
  ops = record { count = 1; sat = pos 0; dsat = negsuc 0 };
  ss = record { sat = pos 0; dsat = negsuc 0 };
  script_size = 4;
  s = false;
  f = true;
  e = false;
  m = true;
  g = false;
  h = true;
  i = false;
  j = false;
  k = true;
  x = true;
}

height_lock_computed :
    compute_miniscript_policy_ext_info (λ i. pos 0) (with_uint32 token_older 1000)
    ≡ some height_lock_info
unfolding compute_miniscript_policy_ext_info
height_lock_computed = refl

compute_ext_info_unmixed_example : (false ≡ false) × (false ≡ false)
compute_ext_info_unmixed_example =
    compute_ext_info_unmixed (λ i. pos 0) (with_uint32 token_older 1000) height_lock_info
      height_lock_computed refl (locks_of token_older 1000) refl
