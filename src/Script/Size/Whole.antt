-- ===== src/Script/Size/Whole.antt =====
-- The script_size of a whole miniscript (compute_miniscript_policy_ext_info of src/common/wallet.c) is
-- the size of the script that src/handler/lib/policy.c emits for it.
use ledger_app_syscoin.Base.{
  ℕ, zero, suc, ◌+◌, ◌*◌, ◌%◌, ◌^◌, ◌≤◌, ◌≡◌, refl, ap, sym, ◌∙◌, Bool, true, false, ◌&&◌, leb,
  Bool-cases, inl, inr, Option, none, some, ◌>>=◌, List, [], ◌∷◌, ◌++◌, length, length-append,
  Ensures, failure, success, Ensures->>=, Ensures-test, Ensures-some, Ensures-under, >>=-eq-some,
  arith, ℤ, if◌then◌else◌,
}
use ledger_app_syscoin.Policy.{
  KeyToken, MultisigToken, ScriptToken, Script2Token, KeyPlaceholder, PolicyNode, with_script,
  with_script2, andor, with_key, multisig, thresh, Scriptlist, nil, cons, size, token_multi,
}
use ledger_app_syscoin.Policy.Types.{Flags, node_flags, multisig_flags}
use ledger_app_syscoin.Policy.ExtInfo.{bit, ExtInfo}
use ledger_app_syscoin.Policy.ExtInfo.Leaves.{key_info, multisig_info, get_push_script_size}
use ledger_app_syscoin.Policy.ExtInfo.Scripts.{andor_info, script2_info}
use ledger_app_syscoin.Policy.ExtInfo.Wrappers.{wrapper_info}
use ledger_app_syscoin.Policy.ExtInfo.Thresh.{
  thresh_info, scan, scan_child, ThreshScan, initial_scan,
}
use ledger_app_syscoin.Policy.ExtInfo.Induction.{
  Children, Rules, compute_miniscript_policy_ext_info-Ensures,
}
use ledger_app_syscoin.Policy.ExtInfo.Compute.{compute_miniscript_policy_ext_info}
use ledger_app_syscoin.Satisfaction.Signatures.Whole.{AllTyped, thresh_typed}
use ledger_app_syscoin.Client.{Exchange}
use ledger_app_syscoin.Script.{Services}
use ledger_app_syscoin.Script.Commands.{InternalScriptType, wsh}
use ledger_app_syscoin.Script.Output.{push_u32, op_v_bytes, has_verify}
use ledger_app_syscoin.Script.Multisig.{keys_in_order, push_keys, process_multi_sortedmulti_node}
use ledger_app_syscoin.Script.Machine.{
  new_node, Outcome, continue, finished, loop, step, thresh_separator, thresh_end,
  get_wallet_internal_script_hash,
}
use ledger_app_syscoin.Script.Counter.{ext_info-FewScripts}
use ledger_app_syscoin.Script.Emit.{emit, emit_scriptlist}
use ledger_app_syscoin.Script.Simulation.Whole.{get_wallet_internal_script_hash-emit}
use ledger_app_syscoin.Script.Size.{
  Fits, Emits, Emits-eq, Emits-joined, size_of, length-push_u32, length-op_v_bytes,
}
use ledger_app_syscoin.Script.Size.Nodes.{
  HashesFit, AllHashesFit, SizedNode, child-Sized, unflagged, of_constant, of_uint32, wrapper-Sized,
  script2-Sized, andor-Sized, key-Sized, hash-Sized,
}

-- The separators of thresh from child i on, of n children.
separators : ℕ → ℕ → ℕ
separators i zero = 0
separators i (suc n) = (if leb 2 i then 1 else 0) + separators (suc i) n

separators-later : (i n : ℕ) → 2 ≤ i → separators i n ≡ n
unfolding separators
separators-later i zero h = refl
separators-later i (suc n) h = ground (arith, separators-later (suc i) n)

-- With the one in front of the threshold, there is one fewer than children.
separators-count : (n : ℕ) → 1 ≤ n → separators 0 n + (if leb 2 n then 1 else 0) + 1 ≡ n
unfolding separators
separators-count zero h = absurd (omega arith)
separators-count (suc zero) h = refl
separators-count (suc (suc n)) h = ground (arith, separators-later 2 n)

script_sizes : List ExtInfo → ℕ
script_sizes [] = 0
script_sizes (t ∷ ts) = t.script_size + script_sizes ts

scan-script_sizes :
    (k : ℕ) (ts : List ExtInfo) (c : ThreshScan)
    → (scan k ts c).children_scriptsize ≡ c.children_scriptsize + script_sizes ts
unfolding scan script_sizes
scan-script_sizes k [] c = omega arith
scan-script_sizes k (t ∷ ts) c = omega (arith, scan-script_sizes k ts (scan_child k t c))

multisig_bounds :
    (token : MultisigToken) (k n : ℕ) (fl : Flags)
    → multisig_flags token k n ≡ some fl
    → (k ≤ 16) × (n ≤ 16)
unfolding multisig_flags
multisig_bounds token k n fl e = ground arith

push-small : (n : ℕ) → n ≤ 16 → get_push_script_size n ≡ 1
unfolding get_push_script_size
push-small n h = ground arith

separator-Emits :
    (i : ℕ) (exchange : Exchange)
    → Emits (if leb 2 i then 1 else 0) (some (thresh_separator i, exchange))
separator-Emits i exchange = success (ground arith)

optional-length :
    (many : Bool) → length {A = ℕ} (if many then 0x93 ∷ [] else []) ≡ (if many then 1 else 0)
optional-length true = refl
optional-length false = refl

length-thresh_end :
    (n k : ℕ) (flags : Bool)
    → length (thresh_end n k flags) ≡ (if leb 2 n then 1 else 0) + get_push_script_size k + 1
unfolding thresh_end has_verify
length-thresh_end n k flags = omega (
  arith,
  length-append {A = ℕ} ((if leb 2 n then 0x93 ∷ [] else []) ++ push_u32 k) (op_v_bytes flags 0x87),
  length-append {A = ℕ} (if leb 2 n then 0x93 ∷ [] else []) (push_u32 k),
  length-push_u32 k,
  last flags,
  optional-length (leb 2 n),
)
  where
    last : (flags : Bool) → length (op_v_bytes flags 0x87) ≡ 1
    last true = length-op_v_bytes true 0x87
    last false = length-op_v_bytes false 0x87

bit-false : (flags : Bool) → bit (flags && false) ≡ 0
bit-false true = refl
bit-false false = refl

size-Children :
    (P : PolicyNode → ExtInfo → Type 0) (xs : Scriptlist) (ts : List ExtInfo)
    → Children P xs ts
    → size xs ≡ length ts
size-Children P nil [] h = refl
size-Children P nil (t ∷ ts) h = absurd h
size-Children P (cons x xs) [] h = absurd h
size-Children P (cons x xs) (t ∷ ts) h = ap suc (size-Children P xs ts h.1)

nonempty : (k : ℕ) (xs : Scriptlist) (fl : Flags) → node_flags (thresh k xs) ≡ some fl → 1 ≤ size xs
unfolding node_flags
nonempty k nil fl e = ground arith
nonempty k (cons x xs) fl e = omega arith

module _ (services : Services) (fits : Fits services) (leftover : ℕ) where
  keys-length :
      (keys : List KeyPlaceholder) (exchange : Exchange)
      → Ensures
          (λ (pubkeys, exchange'). length (push_keys services pubkeys) ≡ 34 * length keys)
          (keys_in_order services keys exchange)
  unfolding keys_in_order push_keys
  keys-length [] exchange = success refl
  keys-length (key ∷ keys) exchange =
      Ensures->>= (fits.pubkey key exchange) (λ (pubkey, exchange') l.
        Ensures->>= (keys-length keys exchange') (λ (pubkeys, exchange'') e.
          success (omega (arith, length-append pubkey (push_keys services pubkeys)))))

  of_multisig :
      (token : MultisigToken) (k : ℕ) (keys : List KeyPlaceholder)
      → Ensures
          (SizedNode services fits leftover (multisig token k keys))
          (multisig_info token k (length keys))
  unfolding multisig_info emit node_flags has_verify process_multi_sortedmulti_node
  of_multisig token_multi k keys = success (λ fl e fit flags b depth exchange.
      Ensures-test (leb (length keys) 16) (λ few.
        Ensures->>= (keys-length keys exchange) (λ (pubkeys, exchange') l. success (
          let (few_k, few_n) = multisig_bounds token_multi k (length keys) fl e in
          omega (
            arith,
            l,
            length-append (push_keys services pubkeys)
                (((80 + length keys) % 256) ∷ op_v_bytes flags 174),
            length-op_v_bytes flags 174,
            push-small k few_k,
            push-small (length keys) few_n,
          )))))
  of_multisig _ k keys = failure

  scriptlist-Sized :
      (xs : Scriptlist) (ts : List ExtInfo) (i depth : ℕ) (exchange : Exchange)
      → Children (SizedNode services fits leftover) xs ts
      → AllTyped xs
      → AllHashesFit xs
      → Emits
          (script_sizes ts + separators i (length ts))
          (emit_scriptlist services wsh leftover xs i depth exchange)
  unfolding emit HashesFit script_sizes separators
  scriptlist-Sized nil [] i depth exchange h typed fit = success refl
  scriptlist-Sized nil (t ∷ ts) i depth exchange h typed fit = absurd h
  scriptlist-Sized (cons x xs) [] i depth exchange h typed fit = absurd h
  scriptlist-Sized (cons x xs) (t ∷ ts) i depth exchange (h, hs) ((fx, e), typed) (fit, fits_xs) =
      Emits-eq _ _
        (Emits-joined _ _
          (Emits-joined _ _ (separator-Emits i exchange) (λ exchange'.
            unflagged services fits leftover x fx t
              (child-Sized services fits leftover x t fx h e fit) depth exchange'))
          (λ exchange'. scriptlist-Sized xs ts (suc i) depth exchange' hs typed fits_xs))
        (omega arith)

  of_thresh :
      (garbage : ℕ → ℤ) (k : ℕ) (xs : Scriptlist) (ts : List ExtInfo)
      → Children (SizedNode services fits leftover) xs ts
      → Ensures (SizedNode services fits leftover (thresh k xs)) (thresh_info garbage k ts)
  unfolding thresh_info emit HashesFit thresh_end has_verify
  of_thresh garbage k xs ts h = elim (Bool-cases (leb (length ts) 128)) [
    | inr many ↦ rw many failure
    | inl few ↦ rw few (
        success (λ fl e fit flags b depth exchange.
          Emits-eq _ _
            (Emits-joined _ _
              (scriptlist-Sized xs ts 0 depth exchange h (thresh_typed k xs fl e).0 fit)
              (λ exchange'. end-Emits exchange' flags))
            (omega (
              arith,
              bit-false flags,
              scan-script_sizes k ts initial_scan,
              separators-count (size xs) (nonempty k xs fl e),
              ap (separators 0) (size-Children (SizedNode services fits leftover) xs ts h),
              size-Children (SizedNode services fits leftover) xs ts h,
            ))))
  ]
    where
      end-Emits :
          (exchange : Exchange) (flags : Bool)
          → Emits
              ((if leb 2 (size xs) then 1 else 0) + get_push_script_size k + 1)
              (some (thresh_end (size xs) k flags, exchange))
      end-Emits exchange flags =
          success (ap (λ n. n % 2 ^ 16) (length-thresh_end (size xs) k flags))

  of_script :
      (token : ScriptToken) (x : PolicyNode) (t : ExtInfo)
      → SizedNode services fits leftover x t
      → Ensures (SizedNode services fits leftover (with_script token x)) (wrapper_info token t)
  unfolding node_flags HashesFit
  of_script token x t h =
      let u = wrapper_info token t in
      Ensures-under u (λ (fl : Flags). Ensures-under u (λ e.
        let (fx, ex, e') = >>=-eq-some (node_flags x) _ e in
        Ensures-under u (λ (fit : HashesFit x). Ensures-under u (λ (flags : Bool).
          Ensures-under u (λ b. Ensures-under u (λ (depth : ℕ).
            Ensures-under u (λ (exchange : Exchange).
              wrapper-Sized services fits leftover token x t fx fl e'
                (child-Sized services fits leftover x t fx h ex fit) flags b depth exchange)))))))

  of_script2 :
      (token : Script2Token) (x y : PolicyNode) (t u : ExtInfo)
      → SizedNode services fits leftover x t
      → SizedNode services fits leftover y u
      → SizedNode services fits leftover (with_script2 token x y) (script2_info token t u)
  unfolding node_flags HashesFit
  of_script2 token x y t u h i fl e (fit_x, fit_y) flags b =
      let (fx, ex, e') = >>=-eq-some (node_flags x) _ e in
      let (fy, ey, e'') = >>=-eq-some (node_flags y) _ e' in
      script2-Sized services fits leftover token x y t u fx fy fl e''
        (child-Sized services fits leftover x t fx h ex fit_x)
        (child-Sized services fits leftover y u fy i ey fit_y) flags b

  of_andor :
      (x y z : PolicyNode) (t u v : ExtInfo)
      → SizedNode services fits leftover x t
      → SizedNode services fits leftover y u
      → SizedNode services fits leftover z v
      → SizedNode services fits leftover (andor x y z) (andor_info t u v)
  unfolding node_flags HashesFit
  of_andor x y z t u v h i j fl e (fit_x, fit_y, fit_z) flags b =
      let (fx, ex, e') = >>=-eq-some (node_flags x) _ e in
      let (fy, ey, e'') = >>=-eq-some (node_flags y) _ e' in
      let (fz, ez, e3) = >>=-eq-some (node_flags z) _ e'' in
      andor-Sized services fits leftover x y z t u v fx fy fz fl e3
        (child-Sized services fits leftover x t fx h ex fit_x)
        (child-Sized services fits leftover y u fy i ey fit_y)
        (child-Sized services fits leftover z v fz j ez fit_z) flags

  of_key :
      (token : KeyToken) (key : KeyPlaceholder)
      → Ensures (SizedNode services fits leftover (with_key token key)) (key_info token)
  unfolding node_flags
  of_key token key =
      let u = key_info token in
      Ensures-under u (λ (fl : Flags). Ensures-under u (λ e.
        Ensures-under u (λ (fit : HashesFit (with_key token key)).
          Ensures-under u (λ (flags : Bool). Ensures-under u (λ b. Ensures-under u (λ (depth : ℕ).
            Ensures-under u (λ (exchange : Exchange).
              key-Sized services fits leftover token key flags
                (λ i. ap (λ (f : Flags). f.kind) (same_flags e) ∙ b i) depth exchange)))))))
    where
      same_flags : {f g : Flags} → ◌≡◌ {A = Option Flags} (some f) (some g) → f ≡ g
      same_flags e = cc

  SizedNode-Rules : (garbage : ℕ → ℤ) → Rules garbage (SizedNode services fits leftover)
  unfolding HashesFit
  SizedNode-Rules garbage = record {
    of_constant = of_constant services fits leftover;
    of_script = of_script;
    of_script2 = of_script2;
    of_andor = of_andor;
    of_key = of_key;
    of_uint32 = of_uint32 services fits leftover;
    of_multisig = of_multisig;
    of_thresh = of_thresh garbage;
    of_hash = λ token h fl e fit flags b. hash-Sized services fits leftover token h fit flags;
  }

loop_unique :
    (services : Services) (script_type : InternalScriptType) (leftover fuel fuel' : ℕ)
    (o : Option Outcome) (r r' : Option (ℕ × List ℕ × Exchange))
    → loop services script_type leftover fuel o ≡ some r
    → loop services script_type leftover fuel' o ≡ some r'
    → r ≡ r'
unfolding loop
loop_unique services script_type leftover fuel fuel' none r r' e e' = cc
loop_unique services script_type leftover fuel fuel' (some (finished n output exchange)) r r' e e' =
    cc
loop_unique services script_type leftover zero fuel' (some (continue state)) r r' e e' = cc
loop_unique services script_type leftover (suc fuel) zero (some (continue state)) r r' e e' = cc
loop_unique services script_type leftover (suc fuel) (suc fuel') (some (continue state)) r r' e e' =
    loop_unique services script_type leftover fuel fuel' (step services script_type leftover state)
      r r' e e'

returned :
    (m : Option (List ℕ × Exchange)) (info : ExtInfo) (n : ℕ) (bytes : List ℕ)
    (exchange' : Exchange)
    → Emits (size_of info false) m
    → ◌>>=◌ {B = ℕ × List ℕ × Exchange} m (λ (b, x). some (length b % 2 ^ 16, b, x))
      ≡ some (n, bytes, exchange')
    → (length bytes % 2 ^ 16 ≡ info.script_size % 2 ^ 16) × (n ≡ length bytes % 2 ^ 16)
returned none info n bytes exchange' failure e = cc
returned (some (b, x)) info n bytes exchange' (success l) e = ground arith

-- If a miniscript passes the type system and the analysis of it succeeds, then any script that is
-- emitted for it inside wsh has, modulo 2^16, as many bytes as script_size says, which is also the
-- length that get_wallet_internal_script_hash returns. Keys are assumed to have 33 bytes, hash160
-- results 20, and the hashes of the policy the lengths of their arrays.
pub script_size-length :
    (services : Services) (leftover fuel : ℕ) (garbage : ℕ → ℤ) (p : PolicyNode) (fl : Flags)
    (info : ExtInfo) (exchange : Exchange) (n : ℕ) (bytes : List ℕ) (exchange' : Exchange)
    → Fits services
    → HashesFit p
    → node_flags p ≡ some fl
    → compute_miniscript_policy_ext_info garbage p ≡ some info
    → get_wallet_internal_script_hash services wsh leftover fuel p exchange
      ≡ some (some (n, bytes, exchange'))
    → (length bytes % 2 ^ 16 ≡ info.script_size % 2 ^ 16) × (n ≡ length bytes % 2 ^ 16)
unfolding get_wallet_internal_script_hash
script_size-length services leftover fuel garbage p fl info exchange n bytes exchange' fits fit
      typed analysed emitted =
    let (fuel', e) =
      get_wallet_internal_script_hash-emit services wsh leftover p exchange
        (ext_info-FewScripts garbage p info analysed) in
    let start = some (
      continue
        (record { node = new_node p false; below = []; output = []; exchange = exchange })) in
    let sized =
      Ensures-some
        (compute_miniscript_policy_ext_info-Ensures garbage _
          (SizedNode-Rules services fits leftover garbage) p)
        analysed fl typed fit false (λ i. cc) 0 exchange in
    returned (emit services wsh leftover p 0 false exchange) info n bytes exchange' sized
      (sym (loop_unique services wsh leftover fuel fuel' start _ _ emitted e))
