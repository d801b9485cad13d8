-- ===== src/Address/Total.antt =====
-- get_wallet_script (src/handler/lib/policy.c) with enough fuel for its loops.
use ledger_app_syscoin.Base.{
  ℕ, zero, suc, ◌+◌, ◌%◌, ◌^◌, ◌≡◌, refl, false, Option, none, some, ◌>>=◌, List, [], ◌∷◌, ◌++◌,
  drop, length, arith,
}
use mathlib.Core.Path.{subst}
use ledger_app_syscoin.Policy.{
  ScriptToken, token_sh, token_wsh, PolicyNode, with_script, tr, Tree, null, leaf, branch,
}
use ledger_app_syscoin.Wire.{varint_write}
use ledger_app_syscoin.Client.{Exchange}
use ledger_app_syscoin.Script.{Services}
use ledger_app_syscoin.Script.Commands.{InternalScriptType, tapscript}
use ledger_app_syscoin.Script.Machine.{
  Outcome, continue, finished, loop, step, get_wallet_internal_script_hash,
}
use ledger_app_syscoin.Script.Counter.{FewScripts, TreeFewScripts}
use ledger_app_syscoin.Script.Emit.{emit}
use ledger_app_syscoin.Script.Simulation.Whole.{get_wallet_internal_script_hash-emit}
use ledger_app_syscoin.Address.{Crypto, InternalScript}
use ledger_app_syscoin.Address.Taproot.{
  compute_taptree_hash, compute_tapleaf_hash, combine_taptree_hashes, tapleaf_tag,
}
use ledger_app_syscoin.Address.Tweak.{tagged_hash, crypto_tr_tweak_pubkey}
use ledger_app_syscoin.Address.WalletScript.{
  core_policy, tree_hash, tweaked_key, internal_script_output, wallet_script, looped,
  get_wallet_script,
}

-- The internal scripts by recursion on the policy.
abbrev pub described : Services → ℕ → InternalScript
described services leftover script_type policy exchange = do
  (bytes, exchange') ← emit services script_type leftover policy 0 false exchange
  some (length bytes % 2 ^ 16, bytes, exchange')

-- From some fuel on, the code gives this result.
abbrev pub Settles {ℓ} : {A : Type ℓ} → (ℕ → A) → A → Type ℓ
Settles f a = (fuel : ℕ) × ((more : ℕ) → f (fuel + more) ≡ a)

loop_more :
    (services : Services) (script_type : InternalScriptType) (leftover fuel more : ℕ)
    (o : Option Outcome) (r : Option (ℕ × List ℕ × Exchange))
    → loop services script_type leftover fuel o ≡ some r
    → loop services script_type leftover (fuel + more) o ≡ some r
unfolding loop
loop_more services script_type leftover fuel more none r e = e
loop_more services script_type leftover fuel more (some (finished n output exchange)) r e = e
loop_more services script_type leftover zero more (some (continue state)) r e = cc
loop_more services script_type leftover (suc fuel) more (some (continue state)) r e =
    rw (shift fuel more) (
      loop_more services script_type leftover fuel more (step services script_type leftover state) r
        e)
  where
    shift : (a b : ℕ) → suc a + b ≡ suc (a + b)
    shift a b = omega arith

Settles->>= :
    {A B : Type 0} (m : ℕ → Option A) (m' : Option A) (f : ℕ → A → Option B) (f' : A → Option B)
    → Settles m m'
    → ((a : A) → Settles (λ fuel. f fuel a) (f' a))
    → Settles (λ fuel. m fuel >>= f fuel) (m' >>= f')
Settles->>= m none f f' (n, h) k = (n, λ more. rw (h more) refl)
Settles->>= {A} {B} m (some a) f f' (n, h) k =
    let (n', h') = k a in (n + n', λ more. rw (first n' more, second n' more) (h' (n + more)))
  where
    assoc : (n' more : ℕ) → n + n' + more ≡ n + (n' + more)
    assoc n' more = omega arith

    first : (n' more : ℕ) → m (n + n' + more) ≡ some a
    first n' more = rw (assoc n' more) (h (n' + more))

    second : (n' more : ℕ) → n + n' + more ≡ n' + (n + more)
    second n' more = omega arith

Settles-constant : {A : Type 0} (a : A) → Settles (λ fuel. a) a
Settles-constant a = (0, λ more. refl)

Settles-known :
    {A B : Type 0} (m : Option A) (f : ℕ → A → Option B) (f' : A → Option B)
    → ((a : A) → m ≡ some a → Settles (λ fuel. f fuel a) (f' a))
    → Settles (λ fuel. m >>= f fuel) (m >>= f')
Settles-known none f f' k = (0, λ more. refl)
Settles-known (some a) f f' k = k a refl

same_core :
    (core core' : InternalScriptType × PolicyNode)
    → ◌≡◌ {A = Option (InternalScriptType × PolicyNode)} (some core) (some core')
    → FewScripts core.1
    → FewScripts core'.1
same_core core core' e =
    let same : core ≡ core' = cc in
    subst (λ (c : InternalScriptType × PolicyNode). FewScripts c.1) same

core_sh-FewScripts :
    (policy : PolicyNode) (core : InternalScriptType × PolicyNode)
    → FewScripts policy
    → core_policy (with_script token_sh policy) ≡ some core
    → FewScripts core.1
unfolding core_policy FewScripts
core_sh-FewScripts (with_script token_wsh policy) core few e = same_core (_, policy) core e few
core_sh-FewScripts policy core few e = same_core (_, policy) core e few

core_policy-FewScripts :
    (token : ScriptToken) (policy : PolicyNode) (core : InternalScriptType × PolicyNode)
    → FewScripts policy
    → core_policy (with_script token policy) ≡ some core
    → FewScripts core.1
unfolding core_policy
core_policy-FewScripts token_sh policy core few e = core_sh-FewScripts policy core few e
core_policy-FewScripts token_wsh policy core few e = same_core (_, policy) core e few
core_policy-FewScripts _ policy core few e = cc

module _ (services : Services) (crypto : Crypto) (leftover : ℕ) (before : List ℕ) where
  looped-Settles :
      (script_type : InternalScriptType) (policy : PolicyNode) (exchange : Exchange)
      → FewScripts policy
      → Settles
          (λ fuel. looped services leftover fuel script_type policy exchange)
          (described services leftover script_type policy exchange)
  unfolding looped get_wallet_internal_script_hash
  looped-Settles script_type policy exchange few =
      let (fuel, e) =
        get_wallet_internal_script_hash-emit services script_type leftover policy exchange few in
      (fuel, λ more. rw (loop_more services script_type leftover fuel more _ _ e) refl)

  taptree-Settles :
      (tree : Tree) (exchange : Exchange)
      → TreeFewScripts tree
      → Settles
          (λ fuel. compute_taptree_hash crypto (looped services leftover fuel) tree exchange)
          (compute_taptree_hash crypto (described services leftover) tree exchange)
  unfolding compute_taptree_hash compute_tapleaf_hash FewScripts
  taptree-Settles null exchange few = Settles-constant none
  taptree-Settles (leaf script) exchange few =
      Settles->>= (λ fuel. looped services leftover fuel tapscript script exchange) _
        (λ fuel (n, bytes, exchange').
          looped services leftover fuel tapscript script exchange' >>= λ (n', bytes', exchange'').
          some (tagged_hash crypto tapleaf_tag (0xC0 ∷ varint_write n ++ bytes'), exchange''))
        _ (looped-Settles tapscript script exchange few)
        (λ (n, bytes, exchange').
          Settles->>= (λ fuel. looped services leftover fuel tapscript script exchange') _
            (λ fuel (n', bytes', exchange'').
              some (tagged_hash crypto tapleaf_tag (0xC0 ∷ varint_write n ++ bytes'), exchange''))
            _ (looped-Settles tapscript script exchange' few) (λ r. Settles-constant _))
  taptree-Settles (branch left right) exchange (few_l, few_r) =
      Settles->>=
        (λ fuel. compute_taptree_hash crypto (looped services leftover fuel) left exchange) _
        (λ fuel (l, exchange').
          compute_taptree_hash crypto (looped services leftover fuel) right exchange'
          >>= λ (r, exchange''). some (combine_taptree_hashes crypto l r, exchange''))
        _ (taptree-Settles left exchange few_l)
        (λ (l, exchange').
          Settles->>=
            (λ fuel. compute_taptree_hash crypto (looped services leftover fuel) right exchange') _
            (λ fuel (r, exchange''). some (combine_taptree_hashes crypto l r, exchange'')) _
            (taptree-Settles right exchange' few_r) (λ r. Settles-constant _))

  tree_hash-Settles :
      (tree : Tree) (exchange : Exchange)
      → TreeFewScripts tree
      → Settles
          (λ fuel.
            tree_hash (compute_taptree_hash crypto (looped services leftover fuel)) tree exchange)
          (tree_hash (compute_taptree_hash crypto (described services leftover)) tree exchange)
  unfolding tree_hash
  tree_hash-Settles null exchange few = Settles-constant (some ([], exchange))
  tree_hash-Settles (leaf script) exchange few = taptree-Settles (leaf script) exchange few
  tree_hash-Settles (branch left right) exchange few =
      taptree-Settles (branch left right) exchange few

-- If every thresh node of the policy has fewer than 256 scripts, the loops that get_wallet_script runs
-- all end: from some fuel on, its result is the one with the scripts that the recursion on the policy describes in place of the loops.
pub get_wallet_script-Settles :
    (services : Services) (crypto : Crypto) (leftover : ℕ) (before : List ℕ) (policy : PolicyNode)
    (exchange : Exchange)
    → FewScripts policy
    → Settles
        (λ fuel. get_wallet_script services crypto leftover before fuel policy exchange)
        (wallet_script services crypto (described services leftover) before policy exchange)
unfolding get_wallet_script wallet_script FewScripts
get_wallet_script-Settles services crypto leftover before (with_script token policy) exchange few =
    Settles-known (core_policy (with_script token policy))
      (λ fuel (script_type, core).
        looped services leftover fuel script_type core exchange >>= λ (n, bytes, exchange').
        some (internal_script_output crypto script_type bytes, exchange'))
      _
      (λ (script_type, core) e.
        Settles->>= (λ fuel. looped services leftover fuel script_type core exchange) _
          (λ fuel (n, bytes, exchange').
            some (internal_script_output crypto script_type bytes, exchange'))
          _
          (looped-Settles services crypto leftover before script_type core exchange
            (core_policy-FewScripts token policy (script_type, core) few e))
          (λ r. Settles-constant _))
get_wallet_script-Settles services crypto leftover before (tr key tree) exchange few =
    Settles->>= (λ fuel. services.get_derived_pubkey key exchange) _
      (λ fuel (pubkey, exchange').
        tree_hash (compute_taptree_hash crypto (looped services leftover fuel)) tree exchange'
        >>= λ (h, exchange''). some (
          0x51 ∷ 32 ∷ tweaked_key before (crypto_tr_tweak_pubkey crypto (drop 1 pubkey) h) h,
          exchange'',
        ))
      _ (Settles-constant (services.get_derived_pubkey key exchange))
      (λ (pubkey, exchange').
        Settles->>=
          (λ fuel.
            tree_hash (compute_taptree_hash crypto (looped services leftover fuel)) tree exchange')
          _
          (λ fuel (h, exchange''). some (
            0x51 ∷ 32 ∷ tweaked_key before (crypto_tr_tweak_pubkey crypto (drop 1 pubkey) h) h,
            exchange'',
          ))
          _ (tree_hash-Settles services crypto leftover before tree exchange' few)
          (λ r. Settles-constant _))
get_wallet_script-Settles services crypto leftover before policy exchange few = (0, λ more. refl)
