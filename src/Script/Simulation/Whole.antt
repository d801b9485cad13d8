-- ===== src/Script/Simulation/Whole.antt =====
-- get_wallet_internal_script_hash (src/handler/lib/policy.c) for whole policies.
use ledger_app_syscoin.Base.{
  ℕ, suc, ◌+◌, ◌%◌, ◌^◌, ◌≤◌, ◌≡◌, refl, ap, sym, ◌∙◌, Bool, true, false, Bool-cases, inl, inr, ltb,
  leb, Option, none, some, ◌>>=◌, List, [], ◌∷◌, ◌++◌, length, arith, Option-cases,
}
use mathlib.Core.List.{append_assoc, append-nil}
use mathlib.Core.Path.{subst}
use native.Mathlib.Nat.{add-zero}
use ledger_app_syscoin.Policy.{
  PolicyNode, constant, with_script, with_script2, andor, with_key, with_uint32, multisig, thresh,
  with_hash, tr, token_pk, token_pkh, token_wpkh, token_pk_k, token_pk_h, Scriptlist, nil, cons,
  size,
}
use ledger_app_syscoin.Client.{Exchange}
use ledger_app_syscoin.Script.{Services, Command, op, op_v, push_pk, push_pkh}
use ledger_app_syscoin.Script.Commands.{
  InternalScriptType, is_whitelisted, script_commands, constant_commands, lock_commands,
  hash_commands, script2_commands, commands_andor,
}
use ledger_app_syscoin.Script.Machine.{
  NodeState, ParserState, continue, pop_to, step, process_step, process_generic_node,
  process_thresh_node, scripts_of, emit_and_pop, emit_to, state_stack_pop, script_at,
  thresh_separator, thresh_end, next_step, update_output, state_stack_push,
  get_wallet_internal_script_hash,
}
use ledger_app_syscoin.Script.Counter.{
  FewScripts, AllFewScripts, constant_commands-few, lock_commands-few, hash_commands-few,
  script2_commands-few, script_commands-few,
}
use ledger_app_syscoin.Script.Emit.{
  Emitter, joined, checked, emit_commands, emit_node, emit_scriptlist, emit,
}
use ledger_app_syscoin.Script.Simulation.{
  node_at, state_at, after, Runs, failed, done, next, Runs-loop, after-joined, Simulates,
}
use ledger_app_syscoin.Script.Simulation.Generic.{SimulatesAll, commands_from, child_pushed}

-- The scripts of a thresh node that are left at a step.
data Suffix (all : Scriptlist) : ℕ → Scriptlist → Type 0 where
  whole : Suffix all 0 all
  rest :
      {i : ℕ} {x : PolicyNode} {xs : Scriptlist} → Suffix all i (cons x xs) → Suffix all (suc i) xs

Suffix-at :
    {all xs : Scriptlist} {i : ℕ} (j : ℕ) → Suffix all i xs → script_at all (i + j) ≡ script_at xs j
unfolding script_at
Suffix-at {all} j whole = ap (script_at all) (omega arith)
Suffix-at {all} j (rest {i} s) = ap (script_at all) (omega arith) ∙ Suffix-at (suc j) s

Suffix-head :
    {all xs : Scriptlist} {x : PolicyNode} {i : ℕ}
    → Suffix all i (cons x xs)
    → script_at all i ≡ some x
unfolding script_at
Suffix-head {all} s = ap (script_at all) (omega arith) ∙ Suffix-at 0 s

Suffix-size : {all xs : Scriptlist} {i : ℕ} → Suffix all i xs → size all ≡ i + size xs
Suffix-size whole = omega arith
Suffix-size (rest s) = omega (arith, Suffix-size s)

joined_assoc :
    (m : Option (List ℕ × Exchange)) (f g : Exchange → Option (List ℕ × Exchange))
    → joined (joined m f) g ≡ joined m (λ exchange. joined (f exchange) g)
unfolding joined
joined_assoc none f g = refl
joined_assoc (some (a, exchange)) f g = middle (f exchange)
  where
    last :
        (b : List ℕ) (m : Option (List ℕ × Exchange))
        → ◌>>=◌ {B = List ℕ × Exchange} m (λ (c, exchange'). some ((a ++ b) ++ c, exchange')) ≡ (
            ◌>>=◌ {B = List ℕ × Exchange} m (λ (c, exchange'). some (b ++ c, exchange'))
            >>= λ (c, exchange'). some (a ++ c, exchange'))
    last b none = refl
    last b (some (c, exchange')) = rw (append_assoc a b c) refl

    middle :
        (m : Option (List ℕ × Exchange))
        → joined (m >>= λ (b, exchange'). some (a ++ b, exchange')) g
          ≡ (joined m g >>= λ (b, exchange'). some (a ++ b, exchange'))
    middle none = refl
    middle (some (b, exchange')) = last b (g exchange')

emit_and_pop-after :
    (p : PolicyNode) (flags : Bool) (n i : ℕ) (below : List NodeState) (output : List ℕ)
    (exchange : Exchange) (m : Option (List ℕ × Exchange))
    → emit_and_pop m (state_at (node_at p flags n i) below output exchange) ≡ after m n below output
unfolding emit_and_pop emit_to state_stack_pop
emit_and_pop-after p flags n i below output exchange none = refl
emit_and_pop-after p flags n i below output exchange (some (bytes, exchange')) =
    ap (λ k. some (pop_to k below (output ++ bytes) exchange')) (omega arith)

suc_lem : (i : ℕ) → suc i ≡ i + 1
suc_lem i = omega arith

update_output_lem :
    (p : PolicyNode) (flags : Bool) (n i : ℕ) (below : List NodeState) (output : List ℕ)
    (exchange : Exchange) (bytes : List ℕ)
    → update_output bytes (state_at (node_at p flags n i) below output exchange)
      ≡ state_at (node_at p flags (n + length bytes) i) below (output ++ bytes) exchange
update_output_lem p flags n i below output exchange bytes =
    ap
      (λ k.
        state_at (record { policy_node = p; length = k; step = i % 2 ^ 8; flags = flags }) below
          (output ++ bytes) exchange)
      (omega arith)

module _ (services : Services) (script_type : InternalScriptType) (leftover : ℕ) where
  checked_sim :
      (p : PolicyNode) (e : Emitter)
      → (is_whitelisted script_type p ≡ true → Simulates services script_type leftover p e)
      → Simulates services script_type leftover p (checked script_type p e)
  unfolding checked step
  checked_sim p e h flags below output exchange r rounds =
      elim (Bool-cases (is_whitelisted script_type p)) [
        | inl allowed ↦ h allowed flags below output exchange r (rw allowed at rounds)
        | inr refused ↦ rw refused (rw refused at rounds)
      ]

  module _ (p : PolicyNode) (allowed : is_whitelisted script_type p ≡ true) where
    generic_sim :
        (es : List Emitter) (commands : List Command)
        → length commands ≤ 255
        → SimulatesAll services script_type leftover (scripts_of p) es
        → ((state : ParserState)
            → process_step services script_type leftover p state
              ≡ process_generic_node services script_type leftover commands state)
        → Simulates services script_type leftover p
            (λ depth flags. emit_commands services script_type leftover es p depth flags commands)
    unfolding step
    generic_sim es commands few simulated is_generic flags below output exchange r rounds =
        commands_from services script_type leftover p es simulated flags commands few
          (λ n i below' output' exchange'. rw allowed (is_generic _)) [] commands 0 below output
          exchange r refl rounds

    at_once_sim :
        (m : Bool → Exchange → Option (List ℕ × Exchange))
        → ((flags : Bool) (below : List NodeState) (output : List ℕ) (exchange : Exchange)
            → let state = state_at (node_at p flags 0 0) below output exchange in
              process_step services script_type leftover p state
              ≡ emit_and_pop (m flags exchange) state)
        → Simulates services script_type leftover p (λ depth. m)
    unfolding step
    at_once_sim m at_once flags below output exchange r rounds =
        rw
          (
            allowed,
            at_once flags below output exchange,
            emit_and_pop-after p flags 0 0 below output exchange (m flags exchange),
          )
          rounds

  -- The rounds of a thresh node, from a child on.
  module _ (k : ℕ) (all : Scriptlist) (few : size all ≤ 255) (flags : Bool)
      (allowed : is_whitelisted script_type (thresh k all) ≡ true) where
    abbrev SimulatesList : Scriptlist → Type 0
    SimulatesList nil = Unit
    SimulatesList (cons x xs) =
        Simulates services script_type leftover x
          (checked script_type x (emit_node services script_type leftover x))
        × SimulatesList xs

    thresh_from :
        (xs : Scriptlist) (i n : ℕ) (below : List NodeState) (output : List ℕ) (exchange : Exchange)
        (r : Option (ℕ × List ℕ × Exchange))
        → SimulatesList xs
        → Suffix all i xs
        → Runs services script_type leftover
            (after
              (joined
                (emit_scriptlist services script_type leftover xs i (length below) exchange)
                (λ exchange'. some (thresh_end (size all) k flags, exchange')))
              n
              below
              output)
            r
        → Runs services script_type leftover
            (step services script_type leftover
              (state_at (node_at (thresh k all) flags n i) below output exchange))
            r
    unfolding step process_step process_thresh_node emit_scriptlist
    thresh_from nil i n below output exchange r simulated s rounds =
        rw (allowed, ends (Suffix-size s))
          (rw (emit_and_pop-after (thresh k all) flags n i below output exchange _)
            (rw (after-joined, append-nil, add-zero) at rounds))
      where
        ends : size all ≡ i + 0 → ltb (i % 2 ^ 8) (size all) ≡ false
        ends e = let small : i % 2 ^ 8 ≡ i = omega arith in ground arith
    thresh_from (cons x xs) i n below output exchange r (simulates, simulated) s rounds =
        let p = thresh k all in
        let continues = λ (n' : ℕ) (output' : List ℕ) (exchange' : Exchange).
          thresh_from xs (suc i) n' below output' exchange' r simulated (rest s) in
        rw (allowed, goes_on (Suffix-size s), here (Suffix-size s), separator (Suffix-size s))
          (subst
            (λ state.
              Runs services script_type leftover
                (state_stack_push x false (next_step state) >>= λ state'. some (continue state')) r)
            (sym (update_output_lem p flags n i below output exchange (thresh_separator i)))
            (child_pushed services script_type leftover p x
              (checked script_type x (emit_node services script_type leftover x)) flags false
              (n + length (thresh_separator i)) i below (output ++ thresh_separator i) exchange _ r
              simulates
              (rw
                (
                  joined_assoc,
                  joined_assoc,
                  after-joined (thresh_separator i) exchange _ n below output,
                )
                at rounds)
              (λ bytes exchange' later. next (
                subst
                  (λ j.
                    Runs services script_type leftover
                      (step services script_type leftover (
                        state_at
                          (node_at p flags (n + length (thresh_separator i) + length bytes) j) below
                          ((output ++ thresh_separator i) ++ bytes) exchange'))
                      r)
                  (suc_lem i)
                  (continues (n + length (thresh_separator i) + length bytes)
                    ((output ++ thresh_separator i) ++ bytes) exchange' later)))))
      where
        small : size all ≡ i + suc (size xs) → i % 2 ^ 8 ≡ i
        small e = omega arith

        goes_on : size all ≡ i + suc (size xs) → ltb (i % 2 ^ 8) (size all) ≡ true
        goes_on e = ground (arith, small e)

        here : size all ≡ i + suc (size xs) → script_at all (i % 2 ^ 8) ≡ some x
        here e = ap (script_at all) (small e) ∙ Suffix-head s

        separator : size all ≡ i + suc (size xs) → leb 2 (i % 2 ^ 8) ≡ leb 2 i
        separator e = ap (leb 2) (small e)

  abbrev simulated_emitter : PolicyNode → Emitter
  simulated_emitter x = checked script_type x (emit_node services script_type leftover x)

  checked_node :
      (p : PolicyNode)
      → (is_whitelisted script_type p ≡ true
          → Simulates services script_type leftover p (emit_node services script_type leftover p))
      → Simulates services script_type leftover p (simulated_emitter p)
  checked_node p = checked_sim p (emit_node services script_type leftover p)

  mutual
    unfolding emit_node process_step step FewScripts

    node_sim :
        (p : PolicyNode)
        → FewScripts p
        → Simulates services script_type leftover p
            (checked script_type p (emit_node services script_type leftover p))
    node_sim (constant token) few = checked_node (constant token) (λ allowed.
        generic_sim (constant token) allowed [] (constant_commands token)
          (constant_commands-few token) tt (λ state. refl))
    node_sim (with_script token x) few =
        checked_node (with_script token x) (λ allowed flags below output exchange r rounds.
          elim (Option-cases (script_commands token)) [
            | inl unexpected ↦ rw (allowed, unexpected) (rw unexpected at rounds)
            | inr (commands, known) ↦
                generic_sim (with_script token x) allowed (simulated_emitter x ∷ []) commands
                  (script_commands-few token commands known) (node_sim x few, tt)
                  (λ state. rw known refl) flags below output exchange r (rw known at rounds)
          ])
    node_sim (with_script2 token x y) (few_x, few_y) =
        checked_node (with_script2 token x y) (λ allowed.
          generic_sim (with_script2 token x y) allowed
            (simulated_emitter x ∷ simulated_emitter y ∷ []) (script2_commands token)
            (script2_commands-few token) (node_sim x few_x, (node_sim y few_y, tt)) (λ state. refl))
    node_sim (andor x y z) (few_x, few_y, few_z) = checked_node (andor x y z) (λ allowed.
        generic_sim (andor x y z) allowed
          (simulated_emitter x ∷ simulated_emitter y ∷ simulated_emitter z ∷ []) commands_andor
          (omega arith) (node_sim x few_x, (node_sim y few_y, (node_sim z few_z, tt)))
          (λ state. refl))
    node_sim (with_key token_pkh key) few = checked_node (with_key token_pkh key) (λ allowed.
        at_once_sim (with_key token_pkh key) allowed
          (emit_node services script_type leftover (with_key token_pkh key) 0)
          (λ flags' below output exchange. refl))
    node_sim (with_key token_wpkh key) few = checked_node (with_key token_wpkh key) (λ allowed.
        at_once_sim (with_key token_wpkh key) allowed
          (emit_node services script_type leftover (with_key token_wpkh key) 0)
          (λ flags' below output exchange. refl))
    node_sim (with_key token_pk key) few = checked_node (with_key token_pk key) (λ allowed.
        generic_sim (with_key token_pk key) allowed [] (push_pk ∷ op_v 0xac ∷ []) (omega arith) tt
          (λ state. refl))
    node_sim (with_key token_pk_k key) few = checked_node (with_key token_pk_k key) (λ allowed.
        generic_sim (with_key token_pk_k key) allowed [] (push_pk ∷ []) (omega arith) tt
          (λ state. refl))
    node_sim (with_key token_pk_h key) few = checked_node (with_key token_pk_h key) (λ allowed.
        generic_sim (with_key token_pk_h key) allowed []
          (op 0x76 ∷ op 0xa9 ∷ push_pkh ∷ op 0x88 ∷ []) (omega arith) tt (λ state. refl))
    node_sim (with_uint32 token n) few = checked_node (with_uint32 token n) (λ allowed.
        generic_sim (with_uint32 token n) allowed [] (lock_commands token) (lock_commands-few token)
          tt (λ state. refl))
    node_sim (with_hash token h) few = checked_node (with_hash token h) (λ allowed.
        generic_sim (with_hash token h) allowed [] (hash_commands token) (hash_commands-few token)
          tt (λ state. refl))
    node_sim (multisig token k keys) few = checked_node (multisig token k keys) (λ allowed.
        at_once_sim (multisig token k keys) allowed
          (emit_node services script_type leftover (multisig token k keys) 0)
          (λ flags below output exchange. refl))
    node_sim (thresh k xs) (few, few_xs) =
        checked_node (thresh k xs) (λ allowed flags below output exchange r rounds.
          thresh_from k xs few flags allowed xs 0 0 below output exchange r
            (list_sim k xs few flags allowed xs few_xs) whole rounds)
    node_sim (tr key tree) few =
        checked_node (tr key tree)
          (λ allowed flags below output exchange r rounds. rw allowed rounds)

    list_sim :
        (k : ℕ) (all : Scriptlist) (few : size all ≤ 255) (flags : Bool)
        (allowed : is_whitelisted script_type (thresh k all) ≡ true) (xs : Scriptlist)
        → AllFewScripts xs
        → SimulatesList k all few flags allowed xs
    list_sim k all few flags allowed nil few_xs = tt
    list_sim k all few flags allowed (cons x xs) (few_x, few_xs) =
        (node_sim x few_x, list_sim k all few flags allowed xs few_xs)

-- If every thresh node of the policy has fewer than 256 scripts, which the uint8_t step of a node can
-- count, the loop of get_wallet_internal_script_hash ends, and its result is what the recursion on the
-- policy describes: it fails where that fails, among others for a node that is not whitelisted or
-- that lies too deep, and otherwise emits the same bytes and returns their number modulo 2^16.
pub get_wallet_internal_script_hash-emit :
    (services : Services) (script_type : InternalScriptType) (leftover : ℕ) (policy : PolicyNode)
    (exchange : Exchange)
    → FewScripts policy
    → (fuel : ℕ) × (get_wallet_internal_script_hash services script_type leftover fuel policy
          exchange
        ≡ some (
            emit services script_type leftover policy 0 false exchange >>= λ (bytes, exchange').
            some (length bytes % 2 ^ 16, bytes, exchange')))
unfolding get_wallet_internal_script_hash emit
get_wallet_internal_script_hash-emit services script_type leftover policy exchange few =
    Runs-loop services script_type leftover
      (next (node_sim services script_type leftover policy few false [] [] exchange _ (finish _)))
  where
    lengths : (n : ℕ) → 0 + n ≡ n
    lengths n = omega arith

    finish :
        (m : Option (List ℕ × Exchange))
        → Runs services script_type leftover
            (after m 0 [] [])
            (m >>= λ (bytes, exchange'). some (length bytes % 2 ^ 16, bytes, exchange'))
    finish none = failed
    finish (some (bytes, exchange')) = rw (lengths (length bytes)) done
