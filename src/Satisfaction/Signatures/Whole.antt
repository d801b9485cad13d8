-- ===== src/Satisfaction/Signatures/Whole.antt =====
-- The flag s of a whole script (compute_miniscript_policy_ext_info of src/common/wallet.c), for a
-- script that passed the type system.
use ledger_app_syscoin.Base.{
  ℕ, zero, suc, ◌+◌, ◌≤◌, ◌<◌, ◌≡◌, ◌≢◌, true, false, not, ◌&&◌, List, [], ◌∷◌, length, some, ℤ,
  arith, leb, ltb→lt, guard, >>=-eq-some, Bool-cases, inl, inr, Ensures, failure, success,
  Ensures-some, Ensures-under, Ensures-mono,
}
use ledger_app_syscoin.Policy.{
  ScriptToken, Script2Token, PolicyNode, with_script, with_script2, andor, thresh, Scriptlist, nil,
  cons,
}
use ledger_app_syscoin.Policy.Types.{
  Flags, int16_max, type_k, node_flags, andor_flags, thresh_flags, thresh_count, thresh_child,
  key_flags, constant_flags, ThreshCount,
}
use ledger_app_syscoin.Policy.ExtInfo.{ExtInfo, bit}
use ledger_app_syscoin.Policy.ExtInfo.Leaves.{constant_info, multisig_info, hash_info}
use ledger_app_syscoin.Policy.ExtInfo.Scripts.{andor_info, script2_info}
use ledger_app_syscoin.Policy.ExtInfo.Wrappers.{wrapper_info}
use ledger_app_syscoin.Policy.ExtInfo.Thresh.{
  thresh_info, scan, scan_child, ThreshScan, initial_scan,
}
use ledger_app_syscoin.Policy.ExtInfo.Induction.{
  Children, Rules, compute_miniscript_policy_ext_info-Ensures,
}
use ledger_app_syscoin.Policy.ExtInfo.Compute.{compute_miniscript_policy_ext_info}
use mathlib.Core.Path.{subst}
use ledger_app_syscoin.Satisfaction.{ConstantCosts, KeyCosts, Costs, Chooses, signatures}
use ledger_app_syscoin.Satisfaction.Signatures.{
  Requires-false, Requires_mono, Requires-||, Requires-&&, Requires_right, Signs,
  constant_info-Signs, key_info-Signs, multisig_info-Signs, lock_info-Signs, wrapper_flags-kind,
  wrapper_info-Signs, script2_info-Signs,
}

-- The statement for one node.
abbrev SignsNode : PolicyNode → ExtInfo → Type 0
SignsNode p t =
    (fl : Flags)
    → node_flags p ≡ some fl
    → Signs fl (Costs signatures true p) (Costs signatures false p) t

of_script :
    (token : ScriptToken) (x : PolicyNode) (t : ExtInfo)
    → SignsNode x t
    → Ensures (SignsNode (with_script token x)) (wrapper_info token t)
unfolding node_flags
of_script token x t h = Ensures-under (wrapper_info token t) (λ (fl : Flags).
    Ensures-under (wrapper_info token t) (λ e.
      let (fx, ex, e') = >>=-eq-some (node_flags x) _ e in
      Ensures-mono (λ a (s, f). (s, f, λ i. absurd (wrapper_flags-kind token fx fl e' i)))
        (wrapper_info-Signs token _ _ t fx fl e' (h fx ex))))

-- andor has type K only over two last children of type K.
andor_flags-kind :
    (x y z fl : Flags)
    → andor_flags x y z ≡ some fl
    → fl.kind ≡ type_k
    → (y.kind ≡ type_k) × (z.kind ≡ type_k)
unfolding andor_flags
andor_flags-kind x y z fl e k = ground arith

of_andor :
    (x y z : PolicyNode) (t u v : ExtInfo)
    → SignsNode x t
    → SignsNode y u
    → SignsNode z v
    → SignsNode (andor x y z) (andor_info t u v)
unfolding node_flags andor_info
of_andor x y z t u v h i j fl e =
    let (fx, ex, e') = >>=-eq-some (node_flags x) _ e in
    let (fy, ey, e'') = >>=-eq-some (node_flags y) _ e' in
    let (fz, ez, e''') = >>=-eq-some (node_flags z) _ e'' in
    let (s, d, k) = h fx ex in
    let (s', d', k') = i fy ey in
    let (s'', d'', k'') = j fz ez in
    (
      Requires_mono (λ o. ground arith) (Requires-&& (Requires-|| s s') (Requires_right s'')),
      Requires_mono (λ o. ground arith) (Requires_right d''),
      λ o.
          let (ky, kz) = andor_flags-kind fx fy fz fl e''' o in
          Requires-&& (Requires_right (k' ky)) (Requires_right (k'' kz)),
    )

of_script2 :
    (token : Script2Token) (x y : PolicyNode) (t u : ExtInfo)
    → SignsNode x t
    → SignsNode y u
    → SignsNode (with_script2 token x y) (script2_info token t u)
unfolding node_flags
of_script2 token x y t u h i fl e =
    let (fx, ex, e') = >>=-eq-some (node_flags x) _ e in
    let (fy, ey, e'') = >>=-eq-some (node_flags y) _ e' in
    script2_info-Signs token _ _ _ _ t u fx fy fl e'' (h fx ex) (i fy ey)

-- The number of children whose flag s is not set.
abbrev unsigned : List ExtInfo → ℕ
unsigned [] = 0
unsigned (t ∷ ts) = unsigned ts + bit (not t.s)

-- Every child passed the type system.
abbrev pub AllTyped : Scriptlist → Type 0
AllTyped nil = Unit
AllTyped (cons x xs) = ((fl : Flags) × (node_flags x ≡ some fl)) × AllTyped xs

thresh_count-AllTyped :
    (xs : Scriptlist) (count result : ThreshCount)
    → thresh_count xs count ≡ some result
    → AllTyped xs
unfolding node_flags
thresh_count-AllTyped nil count result e = tt
thresh_count-AllTyped (cons x xs) count result e =
    let (fx, ex, e') = >>=-eq-some (node_flags x) _ e in
    let (count', ec, e'') = >>=-eq-some (thresh_child fx count) _ e' in
    ((fx, ex), thresh_count-AllTyped xs count' result e'')

unsigned-count_s :
    (k : ℕ) (ts : List ExtInfo) (c : ThreshScan)
    → (scan k ts c).count_s + unsigned ts ≡ c.count_s + length ts
unfolding scan
unsigned-count_s k [] c = omega arith
unsigned-count_s k (t ∷ ts) c = ground (arith, unsigned-count_s k ts (scan_child k t c))

-- Where fewer children are unsigned than are satisfied, one of these has a signature.
Chooses-signed :
    (xs : Scriptlist) (ts : List ExtInfo) (j w : ℕ)
    → AllTyped xs
    → Children SignsNode xs ts
    → unsigned ts < j
    → Chooses signatures xs j w
    → 1 ≤ w
Chooses-signed nil [] zero w ty h lt c = absurd (omega arith)
Chooses-signed nil [] (suc j) w ty h lt c = absurd c
Chooses-signed (cons x xs) (t ∷ ts) zero w ty h lt c = absurd (omega arith)
Chooses-signed (cons x xs) (t ∷ ts) (suc j) w ty h lt (inl (v, u, d, c, e)) =
    omega (arith, Chooses-signed xs ts (suc j) u ty.1 h.1 (omega arith) c)
Chooses-signed (cons x xs) (t ∷ ts) (suc j) w ((fl, fits), ty) (h, hs) lt (inr (v, u, s, c, e)) =
    elim (Bool-cases t.s) [
      | inl signed ↦ omega (arith, (h fl fits).0.apply signed v s)
      | inr not_signed ↦ omega (arith, Chooses-signed xs ts j u ty hs (ground arith) c)
    ]
Chooses-signed nil (t ∷ ts) j w ty h lt c = absurd h
Chooses-signed (cons x xs) [] j w ty h lt c = absurd h

pub thresh_typed :
    (k : ℕ) (xs : Scriptlist) (fl : Flags)
    → node_flags (thresh k xs) ≡ some fl
    → AllTyped xs × (fl.kind ≢ type_k)
unfolding node_flags thresh_flags
thresh_typed k xs fl e =
    let (_, _, e') = >>=-eq-some (guard (leb 1 k && leb k int16_max)) _ e in
    let (count, ec, e'') = >>=-eq-some (thresh_count xs _) _ e' in
    (thresh_count-AllTyped xs _ count ec, λ i. ground arith)

of_thresh :
    (leftover : ℕ → ℤ) (k : ℕ) (xs : Scriptlist) (ts : List ExtInfo)
    → Children SignsNode xs ts
    → Ensures (SignsNode (thresh k xs)) (thresh_info leftover k ts)
unfolding thresh_info
of_thresh leftover k xs ts h = elim (Bool-cases (leb (length ts) 128)) [
  | inl fits ↦ rw fits (
      success (λ fl e.
        let (ty, kind) = thresh_typed k xs fl e in
        (
          record {
            apply = λ few w c.
                Chooses-signed xs ts k w ty h
                  (omega (arith, ltb→lt _ _ few, unsigned-count_s k ts initial_scan)) c;
          },
          Requires-false,
          λ i. absurd (kind i),
        )))
  | inr e ↦ rw e failure
]

SignsNode-Rules : (leftover : ℕ → ℤ) → Rules leftover SignsNode
unfolding node_flags hash_info
SignsNode-Rules leftover = record {
  of_constant = λ token fl e.
      subst
        (λ (f : Flags).
          Signs f (ConstantCosts true token) (ConstantCosts false token) (constant_info token))
        {x = constant_flags token} {y = fl} (cc) (constant_info-Signs token);
  of_script = of_script;
  of_script2 = of_script2;
  of_andor = of_andor;
  of_key = λ token key.
      Ensures-mono
        (λ t h fl e.
          subst
            (λ (f : Flags).
              Signs f (KeyCosts signatures true token) (KeyCosts signatures false token) t)
            {x = key_flags token} {y = fl} (cc) h)
        (key_info-Signs token);
  of_uint32 = λ token n fl e. let (s, f) = lock_info-Signs token n in (s, f, λ i. ground arith);
  of_multisig = λ token k keys. Ensures-under (multisig_info token k (length keys)) (λ fl.
      Ensures-under (multisig_info token k (length keys))
        (λ e. multisig_info-Signs token k (length keys) fl e));
  of_thresh = of_thresh leftover;
  of_hash = λ token h fl e. (Requires-false, Requires-false, λ i. ground arith);
}

-- If a script passes the type system, the analysis of it succeeds and sets s, then every
-- satisfaction holds a signature; and if it sets f, every dissatisfaction holds one.
pub compute_ext_info_signed :
    (leftover : ℕ → ℤ) (p : PolicyNode) (fl : Flags) (info : ExtInfo)
    → node_flags p ≡ some fl
    → compute_miniscript_policy_ext_info leftover p ≡ some info
    → (info.s ≡ true → (w : ℕ) → Costs signatures true p w → 1 ≤ w)
      × (info.f ≡ true → (w : ℕ) → Costs signatures false p w → 1 ≤ w)
compute_ext_info_signed leftover p fl info typed e =
    let (s, f, _) =
      Ensures-some
        (compute_miniscript_policy_ext_info-Ensures leftover SignsNode (SignsNode-Rules leftover) p)
        e fl typed in
    (s.apply, f.apply)
