-- ===== src/Script/Counter.antt =====
-- The step counter of a node in src/handler/lib/policy.c is a uint8_t: the rounds of a thresh node
-- end if it has fewer than 256 scripts.
use ledger_app_syscoin.Base.{
  ℕ, suc, ◌≤◌, ◌≡◌, refl, ap, some, List, [], ◌∷◌, length, ℤ, Bool-cases, inl, inr, leb, leb→le,
  Ensures, failure, success, Ensures-result, Ensures-some, arith,
}
use ledger_app_syscoin.Policy.{
  ConstantToken, token_0, token_1, LockToken, token_older, token_after, HashToken, Script2Token,
  ScriptToken, PolicyNode, constant, with_script, with_script2, andor, with_key, with_uint32,
  multisig, thresh, with_hash, tr, Scriptlist, nil, cons, size, Tree, null, leaf, branch,
}
use ledger_app_syscoin.Script.{Command}
use ledger_app_syscoin.Script.Commands.{
  constant_commands, lock_commands, hash_commands, script2_commands, script_commands,
}
use ledger_app_syscoin.Policy.ExtInfo.{ExtInfo}
use ledger_app_syscoin.Policy.ExtInfo.Thresh.{thresh_info}
use ledger_app_syscoin.Policy.ExtInfo.Induction.{
  Children, Rules, compute_miniscript_policy_ext_info-Ensures,
}
use ledger_app_syscoin.Policy.ExtInfo.Compute.{compute_miniscript_policy_ext_info}

pub constant_commands-few : (token : ConstantToken) → length (constant_commands token) ≤ 255
unfolding constant_commands
constant_commands-few token_0 = omega arith
constant_commands-few token_1 = omega arith

pub lock_commands-few : (token : LockToken) → length (lock_commands token) ≤ 255
unfolding lock_commands
lock_commands-few token_older = omega arith
lock_commands-few token_after = omega arith

pub hash_commands-few : (token : HashToken) → length (hash_commands token) ≤ 255
unfolding hash_commands
hash_commands-few token = ground arith

pub script2_commands-few : (token : Script2Token) → length (script2_commands token) ≤ 255
unfolding script2_commands
script2_commands-few token = ground arith

pub script_commands-few :
    (token : ScriptToken) (commands : List Command)
    → script_commands token ≡ some commands
    → length commands ≤ 255
unfolding script_commands
script_commands-few token commands e = ground arith

-- Every thresh node of the policy has fewer than 256 scripts.
unfoldable mutual
  pub FewScripts : PolicyNode → Type 0
  FewScripts (constant token) = Unit
  FewScripts (with_script token x) = FewScripts x
  FewScripts (with_script2 token x y) = FewScripts x × FewScripts y
  FewScripts (andor x y z) = FewScripts x × FewScripts y × FewScripts z
  FewScripts (with_key token key) = Unit
  FewScripts (with_uint32 token n) = Unit
  FewScripts (multisig token k keys) = Unit
  FewScripts (thresh k xs) = (size xs ≤ 255) × AllFewScripts xs
  FewScripts (with_hash token h) = Unit
  FewScripts (tr key tree) = TreeFewScripts tree

  pub AllFewScripts : Scriptlist → Type 0
  AllFewScripts nil = Unit
  AllFewScripts (cons x xs) = FewScripts x × AllFewScripts xs

  pub TreeFewScripts : Tree → Type 0
  TreeFewScripts null = Unit
  TreeFewScripts (leaf x) = FewScripts x
  TreeFewScripts (branch x y) = TreeFewScripts x × TreeFewScripts y

abbrev Analysed : PolicyNode → ExtInfo → Type 0
Analysed p t = FewScripts p

Children-FewScripts :
    (xs : Scriptlist) (ts : List ExtInfo)
    → Children Analysed xs ts
    → (size xs ≡ length ts) × AllFewScripts xs
unfolding FewScripts
Children-FewScripts nil [] h = (refl, tt)
Children-FewScripts nil (t ∷ ts) h = absurd h
Children-FewScripts (cons x xs) [] h = absurd h
Children-FewScripts (cons x xs) (t ∷ ts) (h, hs) =
    let (e, few) = Children-FewScripts xs ts hs in (ap suc e, (h, few))

-- MAX_N_IN_THRESH is below 256.
thresh-FewScripts :
    (garbage : ℕ → ℤ) (k : ℕ) (xs : Scriptlist) (ts : List ExtInfo)
    → Children Analysed xs ts
    → Ensures (Analysed (thresh k xs)) (thresh_info garbage k ts)
unfolding FewScripts thresh_info
thresh-FewScripts garbage k xs ts h = elim (Bool-cases (leb (length ts) 128)) [
  | inr many ↦ rw many failure
  | inl bounded ↦ rw bounded (
      let (e, few) = Children-FewScripts xs ts h in
      let bound = leb→le (length ts) 128 bounded in success (omega arith, few))
]

Analysed-Rules : (garbage : ℕ → ℤ) → Rules garbage Analysed
unfolding FewScripts
Analysed-Rules garbage = record {
  of_constant = λ token. tt;
  of_script = λ token x t h. Ensures-result _ (λ u e. h);
  of_script2 = λ token x y t u h i. (h, i);
  of_andor = λ x y z t u v h i j. (h, i, j);
  of_key = λ token key. Ensures-result _ (λ u e. tt);
  of_uint32 = λ token n. tt;
  of_multisig = λ token k keys. Ensures-result _ (λ u e. tt);
  of_thresh = thresh-FewScripts garbage;
  of_hash = λ token h. tt;
}

-- A script that the analysis of the miniscript accepts is such a policy.
pub ext_info-FewScripts :
    (garbage : ℕ → ℤ) (p : PolicyNode) (info : ExtInfo)
    → compute_miniscript_policy_ext_info garbage p ≡ some info
    → FewScripts p
ext_info-FewScripts garbage p info =
    Ensures-some
      (compute_miniscript_policy_ext_info-Ensures garbage Analysed (Analysed-Rules garbage) p)
