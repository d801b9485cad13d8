-- ===== src/Script/Simulation/Generic.antt =====
-- process_generic_node (src/handler/lib/policy.c) round by round.
use ledger_app_syscoin.Base.{
  ℕ, zero, suc, ◌+◌, ◌%◌, ◌^◌, ◌≡◌, ◌⊎◌, ◌≤◌, refl, ap, sym, ◌∙◌, Bool, true, false, Bool-cases,
  ltb, leb, le→leb, inl, inr, Option, none, some, ◌>>=◌, List, [], ◌∷◌, ◌++◌, length, length-append,
  get_elem?, arith,
}
use mathlib.Core.List.{append_assoc, append-nil}
use mathlib.Core.Path.{subst}
use native.Mathlib.Nat.{add-zero}
use ledger_app_syscoin.Policy.{PolicyNode}
use ledger_app_syscoin.Client.{Exchange}
use ledger_app_syscoin.Script.{
  Services, Command, op, op_v, push_pk, push_pkh, push_uint32, push_hash20, push_hash32,
  process_child, process_child_v, process_child_vv,
}
use ledger_app_syscoin.Script.Commands.{InternalScriptType}
use ledger_app_syscoin.Script.Machine.{
  NodeState, Outcome, continue, pop_to, step, max_policy_depth, scripts_of, state_stack_push,
  push_child, process_generic_node, execute, emit_to, next_step, state_stack_pop,
}
use ledger_app_syscoin.Script.Emit.{
  Emitter, joined, emit_nth, emit_child, emit_command, emit_commands,
}
use ledger_app_syscoin.Script.Simulation.{
  node_at, state_at, after, Runs, next, Runs-joined, after-joined, Simulates,
}

-- The step is counted modulo 2^8.
count_up : (i : ℕ) → (i % 2 ^ 8 + 1) % 2 ^ 8 ≡ (i + 1) % 2 ^ 8
count_up i = omega arith

get_elem?-append :
    (xs ys : List Command) (y : Command) → get_elem? (xs ++ (y ∷ ys)) (length xs) ≡ some y
get_elem?-append [] ys y = refl
get_elem?-append (x ∷ xs) ys y = get_elem?-append xs ys y

get_elem?-end : (xs : List Command) → get_elem? xs (length xs) ≡ none
get_elem?-end [] = refl
get_elem?-end (x ∷ xs) = get_elem?-end xs

module _ (services : Services) (script_type : InternalScriptType) (leftover : ℕ) where
  abbrev pub Result : Type 0
  Result = Option (ℕ × List ℕ × Exchange)

  abbrev pub SimulatesAll : List PolicyNode → List Emitter → Type 0
  SimulatesAll [] [] = Unit
  SimulatesAll (p ∷ ps) (e ∷ es) = Simulates services script_type leftover p e × SimulatesAll ps es
  SimulatesAll _ _ = ⊥

  -- The outcome of the round that runs a command which emits these bytes, its child included.
  abbrev pub emitted_to :
      PolicyNode → Bool → ℕ → ℕ → List NodeState → List ℕ → List ℕ → Exchange → Option Outcome
  emitted_to p flags n i below output bytes exchange = some (
      continue
        (state_at (node_at p flags (n + length bytes) (i + 1)) below (output ++ bytes) exchange))

  emit_to_lem :
      (p : PolicyNode) (flags : Bool) (n i : ℕ) (below : List NodeState) (output : List ℕ)
      (exchange : Exchange) (m : Option (List ℕ × Exchange))
      → (emit_to m (next_step (state_at (node_at p flags n i) below output exchange)) >>= λ state.
          some (continue state))
        ≡ (m >>= λ (bytes, exchange'). emitted_to p flags n i below output bytes exchange')
  unfolding emit_to
  emit_to_lem p flags n i below output exchange none = refl
  emit_to_lem p flags n i below output exchange (some (bytes, exchange')) = rw (count_up i) (
      ap
        (λ k. some (
          continue (
            state_at (record { policy_node = p; length = k; step = (i + 1) % 2 ^ 8; flags = flags })
              below (output ++ bytes) exchange')))
        (omega arith))

  -- A child that is pushed, run, and popped.
  pub child_pushed :
      (p x : PolicyNode) (e : Emitter) (flags child_flags : Bool) (n i : ℕ) (below : List NodeState)
      (output : List ℕ) (exchange : Exchange) (f : Exchange → Option (List ℕ × Exchange))
      (r : Result)
      → Simulates services script_type leftover x e
      → Runs services script_type leftover
          (after (joined (emit_child e (length below) child_flags exchange) f) n below output)
          r
      → ((bytes : List ℕ) (exchange' : Exchange)
          → Runs services script_type leftover
              (after (f exchange') (n + length bytes) below (output ++ bytes))
              r
          → Runs services script_type leftover
              (emitted_to p flags n i below output bytes exchange')
              r)
      → Runs services script_type leftover
          (state_stack_push x child_flags
              (next_step (state_at (node_at p flags n i) below output exchange))
            >>= λ state. some (continue state))
          r
  unfolding emit_child state_stack_push joined pop_to
  child_pushed p x e flags child_flags n i below output exchange f r simulates rounds continues =
      elim (Bool-cases (ltb (suc (length below)) max_policy_depth)) [
        | inr deep ↦ rw deep (rw deep at rounds)
        | inl fits ↦
            rw (fits, count_up i)
              (next (
                simulates child_flags (parent ∷ below) output exchange r
                  (popped (e (suc (length below)) child_flags exchange) (rw fits at rounds))))
      ]
    where
      parent : NodeState
      parent = record {
        policy_node = p;
        length = n % 2 ^ 16;
        step = (i + 1) % 2 ^ 8;
        flags = flags;
      }

      lengths : (b : ℕ) → (n % 2 ^ 16 + (0 + b) % 2 ^ 16) % 2 ^ 16 ≡ (n + b) % 2 ^ 16
      lengths b = omega arith

      popped :
          (m : Option (List ℕ × Exchange))
          → Runs services script_type leftover (after (joined m f) n below output) r
          → Runs services script_type leftover (after m 0 (parent ∷ below) output) r
      popped none rounds = rounds
      popped (some (bytes, exchange')) rounds =
          rw (lengths (length bytes)) (
            continues bytes exchange'
              (rw (after-joined bytes exchange' f n below output) at rounds))

  -- The emitter of a child, and the child.
  child_cases :
      (ps : List PolicyNode) (es : List Emitter) (i : ℕ)
      → SimulatesAll ps es
      → ((get_elem? ps i ≡ none) × (get_elem? es i ≡ none))
        ⊎ ((p : PolicyNode) × (e : Emitter) × (get_elem? ps i ≡ some p)
            × (get_elem? es i ≡ some e)
            × Simulates services script_type leftover p e)
  child_cases [] [] i h = inl (refl, refl)
  child_cases (p ∷ ps) [] i h = elim h [ ]
  child_cases [] (e ∷ es) i h = elim h [ ]
  child_cases (p ∷ ps) (e ∷ es) zero (h, hs) = inr (p, e, refl, refl, h)
  child_cases (p ∷ ps) (e ∷ es) (suc i) (h, hs) = child_cases ps es i hs

  module _ (p : PolicyNode) (es : List Emitter) (simulated : SimulatesAll (scripts_of p) es)
      (flags : Bool) (n i : ℕ) (below : List NodeState) (output : List ℕ) (exchange : Exchange)
      (f : Exchange → Option (List ℕ × Exchange)) (r : Result)
      (continues : (bytes : List ℕ) (exchange' : Exchange)
        → Runs services script_type leftover
            (after (f exchange') (n + length bytes) below (output ++ bytes))
            r
        → Runs services script_type leftover
            (emitted_to p flags n i below output bytes exchange')
            r) where
    child_step :
        (j : ℕ) (child_flags : Bool)
        → Runs services script_type leftover
            (after (joined (emit_nth es j (length below) child_flags exchange) f) n below output)
            r
        → Runs services script_type leftover
            (push_child j child_flags (state_at (node_at p flags n i) below output exchange)
              >>= λ state. some (continue state))
            r
    unfolding emit_nth push_child joined
    child_step j child_flags rounds = elim (child_cases (scripts_of p) es j simulated) [
      | inl (no_child, no_emitter) ↦ rw no_child (rw no_emitter at rounds)
      | inr (x, e, child, emitter, simulates) ↦ rw child (
          child_pushed p x e flags child_flags n i below output exchange f r simulates
            (rw emitter at rounds) continues)
    ]

    bytes_step :
        (m : Option (List ℕ × Exchange))
        → Runs services script_type leftover (after (joined m f) n below output) r
        → Runs services script_type leftover
            (emit_to m (next_step (state_at (node_at p flags n i) below output exchange))
              >>= λ state. some (continue state))
            r
    bytes_step m rounds =
        rw (emit_to_lem p flags n i below output exchange m)
          (Runs-joined services script_type leftover m f n below output _ rounds continues)

    -- The round of a command.
    execute_step :
        (command : Command)
        → Runs services script_type leftover
            (after
              (joined
                (emit_command services script_type leftover es p
                  (length below)
                  flags
                  command
                  exchange)
                f)
              n
              below
              output)
            r
        → Runs services script_type leftover
            (execute services script_type leftover command
                (state_at (node_at p flags n i) below output exchange)
              >>= λ state. some (continue state))
            r
    unfolding execute emit_command
    execute_step (process_child j) = child_step j false
    execute_step (process_child_v j) = child_step j flags
    execute_step (process_child_vv j) = child_step j true
    execute_step (op o) = bytes_step _
    execute_step (op_v o) = bytes_step _
    execute_step push_pk = bytes_step _
    execute_step push_pkh = bytes_step _
    execute_step push_uint32 = bytes_step _
    execute_step push_hash20 = bytes_step _
    execute_step push_hash32 = bytes_step _

  generic_round :
      (before rest : List Command) (command : Command) (p : PolicyNode) (flags : Bool) (n : ℕ)
      (below : List NodeState) (output : List ℕ) (exchange : Exchange)
      → length (before ++ (command ∷ rest)) ≤ 255
      → let state = state_at (node_at p flags n (length before)) below output exchange in
        process_generic_node services script_type leftover (before ++ (command ∷ rest)) state
        ≡ (execute services script_type leftover command state >>= λ state'. some (continue state'))
  unfolding process_generic_node
  generic_round before rest command p flags n below output exchange few = rw (within, here) refl
    where
      all : List Command
      all = before ++ (command ∷ rest)

      small : length before % 2 ^ 8 ≡ length before
      small = omega (arith, length-append before (command ∷ rest))

      within : leb (length before % 2 ^ 8) (length all) ≡ true
      within = le→leb _ _ (omega (arith, small, length-append before (command ∷ rest)))

      here : get_elem? all (length before % 2 ^ 8) ≡ some command
      here = ap (get_elem? all) small ∙ get_elem?-append before rest command

  generic_end :
      (commands : List Command) (p : PolicyNode) (flags : Bool) (n : ℕ) (below : List NodeState)
      (output : List ℕ) (exchange : Exchange)
      → length commands ≤ 255
      → process_generic_node services script_type leftover commands
          (state_at (node_at p flags n (length commands)) below output exchange)
        ≡ some (pop_to (n % 2 ^ 16) below output exchange)
  unfolding process_generic_node state_stack_pop
  generic_end commands p flags n below output exchange few =
      rw (small, le→leb (length commands) (length commands) (omega arith), get_elem?-end commands)
        refl
    where
      small : length commands % 2 ^ 8 ≡ length commands
      small = omega arith

  -- The rounds of a node that process_generic_node handles, from a command on.
  module _ (p : PolicyNode) (es : List Emitter) (simulated : SimulatesAll (scripts_of p) es)
      (flags : Bool) (commands : List Command) (few : length commands ≤ 255)
      (is_generic : (n i : ℕ) (below : List NodeState) (output : List ℕ) (exchange : Exchange)
        → step services script_type leftover (state_at (node_at p flags n i) below output exchange)
          ≡ process_generic_node services script_type leftover commands
              (state_at (node_at p flags n i) below output exchange)) where
    pub commands_from :
        (before rest : List Command) (n : ℕ) (below : List NodeState) (output : List ℕ)
        (exchange : Exchange) (r : Result)
        → commands ≡ before ++ rest
        → Runs services script_type leftover
            (after
              (emit_commands services script_type leftover es p (length below) flags rest exchange)
              n
              below
              output)
            r
        → Runs services script_type leftover
            (step services script_type leftover
              (state_at (node_at p flags n (length before)) below output exchange))
            r
    unfolding emit_commands
    commands_from before [] n below output exchange r e rounds =
        rw (is_generic n (length before) below output exchange) (
          rw (e, append-nil)
            (rw
              (generic_end before p flags n below output exchange
                (subst (λ c. length c ≤ 255) (e ∙ append-nil before) few))
              (rw (append-nil, add-zero) at rounds)))
    commands_from before (command ∷ rest) n below output exchange r e rounds =
        rw (is_generic n (length before) below output exchange) (
          rw e (
            rw
              (generic_round before rest command p flags n below output exchange
                (subst (λ c. length c ≤ 255) e few))
              (execute_step p es simulated flags n (length before) below output exchange _ r
                (λ bytes exchange' later. next (
                  subst
                    (λ i.
                      Runs services script_type leftover
                        (step services script_type leftover (
                          state_at (node_at p flags (n + length bytes) i) below (output ++ bytes)
                            exchange'))
                        r)
                    (length-append before (command ∷ []))
                    (commands_from (before ++ (command ∷ [])) rest (n + length bytes) below
                      (output ++ bytes) exchange' r
                      (e ∙ sym (append_assoc before (command ∷ []) rest)) later)))
                command rounds)))
