-- ===== src/Satisfaction/Signatures.antt =====
-- The flag s of compute_miniscript_policy_ext_info (src/common/wallet.c): where it is set, no
-- satisfaction is without a signature. The flag f says the same of the dissatisfactions.
pub mod Whole
use ledger_app_syscoin.Base.{
  ℕ, zero, suc, ◌+◌, ◌-◌, ◌*◌, ◌≤◌, ◌<◌, ◌≡◌, ◌≢◌, refl, Bool, true, false, ◌&&◌, ◌||◌, List, [],
  ◌∷◌, length, Option, some, ℤ, arith, leb, ltb, guard, ◌>>◌, ◌>>=◌, >>=-eq-some, Bool-cases, inl,
  inr, Ensures, failure, success, Ensures-some, Ensures-under,
}
use ledger_app_syscoin.Policy.{
  ConstantToken, KeyToken, MultisigToken, LockToken, HashToken, ScriptToken, Script2Token,
  KeyPlaceholder, PolicyNode, constant, with_script, with_script2, andor, with_key, with_uint32,
  multisig, thresh, with_hash, tr, Scriptlist, nil, cons, size, token_0, token_1, token_pk, Tree,
  null, leaf, branch, token_pkh, token_wpkh, token_pk_k, token_pk_h, token_multi, token_multi_a,
  token_sortedmulti, token_sortedmulti_a, token_older, token_after, token_sha256, token_hash256,
  token_ripemd160, token_hash160, token_sh, token_wsh, token_a, token_s, token_c, token_t, token_d,
  token_v, token_j, token_n, token_l, token_u, token_and_v, token_and_b, token_and_n, token_or_b,
  token_or_c, token_or_d, token_or_i,
}
use ledger_app_syscoin.Policy.Types.{
  Flags, MiniscriptType, type_b, type_v, type_k, type_w, node_flags, wrapper_flags, script2_flags,
  andor_flags, multisig_flags, thresh_flags, thresh_count, thresh_child, key_flags, constant_flags,
  ThreshCount,
}
use ledger_app_syscoin.Policy.ExtInfo.{ExtInfo, bit}
use ledger_app_syscoin.Policy.ExtInfo.Leaves.{
  constant_info, key_info, multisig_info, lock_info, hash_info,
}
use ledger_app_syscoin.Policy.ExtInfo.Scripts.{andor_info, script2_info}
use ledger_app_syscoin.Policy.ExtInfo.Wrappers.{wrapper_info}
use ledger_app_syscoin.Policy.ExtInfo.Thresh.{
  thresh_info, scan, scan_child, ThreshScan, initial_scan,
}
use ledger_app_syscoin.Policy.ExtInfo.Induction.{
  Children, Rules, compute_miniscript_policy_ext_info-Ensures,
}
use ledger_app_syscoin.Policy.ExtInfo.Compute.{compute_miniscript_policy_ext_info}
use ledger_app_syscoin.Satisfaction.{
  Costs, Chooses, signatures, ConstantCosts, KeyCosts, MultisigCosts, LockCosts, WrapperCosts,
  Script2Costs,
}
use ledger_app_syscoin.Satisfaction.Sets.{Only, Never, Sum, Either}

-- If the flag is set, no cost in the set is 0.
record Requires (flag : Bool) (R : ℕ → Type 0) : Type 0 where
  pub apply : flag ≡ true → (w : ℕ) → R w → 1 ≤ w

Requires-Never : {a : Bool} → Requires a Never
Requires-Never = record { apply = λ e w r. absurd r }

Requires-false : {R : ℕ → Type 0} → Requires false R
Requires-false = record { apply = λ e w r. cc }

Requires-Only : {a : Bool} (c : ℕ) → 1 ≤ c → Requires a (Only c)
Requires-Only c h = record { apply = λ e w r. omega arith }

module _ {a b : Bool} {R : ℕ → Type 0} where
  Requires_mono : (b ≡ true → a ≡ true) → Requires a R → Requires b R
  Requires_mono f p = record { apply = λ e. p.apply (f e) }

module _ {a b : Bool} {R S : ℕ → Type 0} where
  Requires-|| : Requires a R → Requires b S → Requires (a || b) (Sum R S)
  Requires-|| p q = record {
    apply = λ e w (v, u, r, s, i). elim (Bool-cases a) [
      | inl h ↦ omega (arith, p.apply h v r)
      | inr h ↦ omega (arith, q.apply (ground arith) u s)
    ];
  }

  Requires-&& : Requires a R → Requires b S → Requires (a && b) (Either R S)
  Requires-&& p q = record {
    apply = λ e w. elim [ inl r ↦ p.apply (ground arith) w r | inr s ↦ q.apply (ground arith) w s ];
  }

module _ {a : Bool} {R S : ℕ → Type 0} where
  Requires_left : Requires a R → Requires a (Sum R S)
  Requires_left p = record { apply = λ e w (v, u, r, s, i). omega (arith, p.apply e v r) }

  Requires_right : Requires a S → Requires a (Sum R S)
  Requires_right p = record { apply = λ e w (v, u, r, s, i). omega (arith, p.apply e u s) }

-- Of a script of type K every satisfaction has a signature, whatever the flags say.
abbrev NeedsKey : Flags → (ℕ → Type 0) → Type 0
NeedsKey fl S = fl.kind ≡ type_k → Requires true S

abbrev Signs : Flags → (ℕ → Type 0) → (ℕ → Type 0) → ExtInfo → Type 0
Signs fl S D t = Requires t.s S × Requires t.f D × NeedsKey fl S

constant_info-Signs :
    (token : ConstantToken)
    → Signs
        (constant_flags token)
        (ConstantCosts true token)
        (ConstantCosts false token)
        (constant_info token)
unfolding constant_info constant_flags
constant_info-Signs token_0 = (Requires-Never, Requires-false, λ e. cc)
constant_info-Signs token_1 = (Requires-false, Requires-Never, λ e. cc)

key_info-Signs :
    (token : KeyToken)
    → Ensures
        (Signs (key_flags token) (KeyCosts signatures true token) (KeyCosts signatures false token))
        (key_info token)
unfolding key_info key_flags
key_info-Signs token_wpkh = failure
key_info-Signs token_pk =
    success (Requires-Only 1 (omega arith), Requires-false, λ e. Requires-Only 1 (omega arith))
key_info-Signs token_pkh =
    success (Requires-Only 1 (omega arith), Requires-false, λ e. Requires-Only 1 (omega arith))
key_info-Signs token_pk_k =
    success (Requires-Only 1 (omega arith), Requires-false, λ e. Requires-Only 1 (omega arith))
key_info-Signs token_pk_h =
    success (Requires-Only 1 (omega arith), Requires-false, λ e. Requires-Only 1 (omega arith))

multisig_info-Signs :
    (token : MultisigToken) (k n : ℕ) (fl : Flags)
    → multisig_flags token k n ≡ some fl
    → Ensures
        (Signs fl
          (MultisigCosts signatures true token k n)
          (MultisigCosts signatures false token k n))
        (multisig_info token k n)
unfolding multisig_info multisig_flags
multisig_info-Signs token_multi k n fl e =
    success (Requires-Only _ (ground arith), Requires-false, λ i. Requires-Only _ (ground arith))
multisig_info-Signs _ k n fl e = failure

lock_info-Signs :
    (token : LockToken) (n : ℕ)
    → Requires (lock_info token n).s (LockCosts true)
      × Requires (lock_info token n).f (LockCosts false)
unfolding lock_info
lock_info-Signs token_older n = (Requires-false, Requires-Never)
lock_info-Signs token_after n = (Requires-false, Requires-Never)

-- No wrapper gives a script of type K.
wrapper_flags-kind :
    (token : ScriptToken) (x fl : Flags) → wrapper_flags token x ≡ some fl → fl.kind ≢ type_k
unfolding wrapper_flags
wrapper_flags-kind token_sh x fl e = ground arith
wrapper_flags-kind _ x fl e = ground arith

wrapper_flags_c : (x fl : Flags) → wrapper_flags token_c x ≡ some fl → x.kind ≡ type_k
unfolding wrapper_flags
wrapper_flags_c x fl e = ground arith

wrapper_info-Signs :
    (token : ScriptToken) (S D : ℕ → Type 0) (x : ExtInfo) (fx fl : Flags)
    → wrapper_flags token fx ≡ some fl
    → Signs fx S D x
    → Ensures
        (λ t.
          Requires t.s (WrapperCosts signatures true token S D)
          × Requires t.f (WrapperCosts signatures false token S D))
        (wrapper_info token x)
unfolding wrapper_info
wrapper_info-Signs token_sh S D x fx fl e h = failure
wrapper_info-Signs token_wsh S D x fx fl e h = failure
wrapper_info-Signs token_a S D x fx fl e h = success (h.0, h.1)
wrapper_info-Signs token_s S D x fx fl e h = success (h.0, h.1)
wrapper_info-Signs token_n S D x fx fl e h = success (h.0, h.1)
wrapper_info-Signs token_c S D x fx fl e h = success (h.2 (wrapper_flags_c fx fl e), h.1)
wrapper_info-Signs token_t S D x fx fl e h = success (h.0, Requires-Never)
wrapper_info-Signs token_v S D x fx fl e h = success (h.0, Requires-Never)
wrapper_info-Signs token_j S D x fx fl e h = success (h.0, Requires-false)
wrapper_info-Signs token_d S D x fx fl e h = success (Requires_right h.0, Requires-false)
wrapper_info-Signs token_l S D x fx fl e h = success (Requires_right h.0, Requires-false)
wrapper_info-Signs token_u S D x fx fl e h = success (Requires_right h.0, Requires-false)

-- A script of type K with two children is and_v over a second child, or or_i over two, of type K.
abbrev KeyChildren : Script2Token → Flags → Flags → Type 0
KeyChildren token_and_v x y = y.kind ≡ type_k
KeyChildren token_or_i x y = (x.kind ≡ type_k) × (y.kind ≡ type_k)
KeyChildren _ x y = ⊥

script2_flags-KeyChildren :
    (token : Script2Token) (x y fl : Flags)
    → script2_flags token x y ≡ some fl
    → fl.kind ≡ type_k
    → KeyChildren token x y
unfolding script2_flags
script2_flags-KeyChildren token_and_v x y fl e k = ground arith
script2_flags-KeyChildren token_and_b x y fl e k = ground arith
script2_flags-KeyChildren token_and_n x y fl e k = ground arith
script2_flags-KeyChildren token_or_b x y fl e k = ground arith
script2_flags-KeyChildren token_or_c x y fl e k = ground arith
script2_flags-KeyChildren token_or_d x y fl e k = ground arith
script2_flags-KeyChildren token_or_i x y fl e k = ground arith

script2_info-Signs :
    (token : Script2Token) (S D T E : ℕ → Type 0) (x y : ExtInfo) (fx fy fl : Flags)
    → script2_flags token fx fy ≡ some fl
    → Signs fx S D x
    → Signs fy T E y
    → Signs fl
        (Script2Costs signatures true token S D T E)
        (Script2Costs signatures false token S D T E)
        (script2_info token x y)
unfolding script2_info
script2_info-Signs token_and_v S D T E x y fx fy fl e (s, d, k) (t, e', k') = (
  Requires-|| s t,
  Requires-Never,
  λ i. Requires_right (k' (script2_flags-KeyChildren token_and_v fx fy fl e i)),
)
script2_info-Signs token_and_b S D T E x y fx fy fl e (s, d, k) (t, e', k') = (
  Requires-|| s t,
  Requires_mono (λ i. ground arith) (Requires-|| d e'),
  λ i. absurd (script2_flags-KeyChildren token_and_b fx fy fl e i),
)
script2_info-Signs token_and_n S D T E x y fx fy fl e (s, d, k) (t, e', k') = (
  Requires-|| s t,
  Requires-false,
  λ i. absurd (script2_flags-KeyChildren token_and_n fx fy fl e i),
)
script2_info-Signs token_or_b S D T E x y fx fy fl e (s, d, k) (t, e', k') = (
  Requires-&& (Requires_left s) (Requires_right t),
  Requires-false,
  λ i. absurd (script2_flags-KeyChildren token_or_b fx fy fl e i),
)
script2_info-Signs token_or_c S D T E x y fx fy fl e (s, d, k) (t, e', k') = (
  Requires-&& s (Requires_right t),
  Requires-Never,
  λ i. absurd (script2_flags-KeyChildren token_or_c fx fy fl e i),
)
script2_info-Signs token_or_d S D T E x y fx fy fl e (s, d, k) (t, e', k') = (
  Requires-&& s (Requires_right t),
  Requires_right e',
  λ i. absurd (script2_flags-KeyChildren token_or_d fx fy fl e i),
)
script2_info-Signs token_or_i S D T E x y fx fy fl e (s, d, k) (t, e', k') = (
  Requires-&& (Requires_right s) (Requires_right t),
  Requires-&& (Requires_right d) (Requires_right e'),
  λ i.
      let (kx, ky) = script2_flags-KeyChildren token_or_i fx fy fl e i in
      Requires-&& (Requires_right (k kx)) (Requires_right (k' ky)),
)
