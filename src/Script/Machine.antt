-- ===== src/Script/Machine.antt =====
-- The state machine of get_wallet_internal_script_hash in src/handler/lib/policy.c: a stack of nodes
-- of which each round of the loop handles the top one. The bytes given to crypto_hash_update are
-- kept in one list, also where hash_context is NULL.
use ledger_app_syscoin.Base.{
  ℕ, suc, zero, ◌+◌, ◌%◌, ◌^◌, Bool, true, false, ◌==◌, leb, ltb, Option, none, some, ◌>>=◌, ◌>>◌,
  guard, if◌then◌else◌, List, [], ◌∷◌, ◌++◌, length, get_elem?, drop, take,
}
use ledger_app_syscoin.Policy.{
  KeyPlaceholder, PolicyNode, constant, with_script, with_script2, andor, with_key, with_uint32,
  multisig, thresh, with_hash, tr, token_pkh, token_wpkh, token_multi, token_multi_a,
  token_sortedmulti, token_sortedmulti_a, Scriptlist, nil, cons, size,
}
use ledger_app_syscoin.Client.{Exchange}
use ledger_app_syscoin.Script.{
  Services, Command, op, op_v, push_pk, push_pkh, push_uint32, push_hash20, push_hash32,
  process_child, process_child_v, process_child_vv,
}
use ledger_app_syscoin.Script.Output.{push_u32, op_v_bytes}
use ledger_app_syscoin.Script.Commands.{
  constant_commands, key_commands, lock_commands, hash_commands, commands_andor, script2_commands,
  script_commands, InternalScriptType, tapscript, is_whitelisted,
}
use ledger_app_syscoin.Script.Multisig.{
  process_multi_sortedmulti_node, process_multi_a_sortedmulti_a_node,
}

-- MAX_POLICY_DEPTH
abbrev pub max_policy_depth : ℕ
max_policy_depth = 10

-- policy_parser_node_state_t; `flags` is PROCESSOR_FLAG_V, the only flag.
pub record NodeState : Type 0 where
  pub policy_node : PolicyNode
  pub length : ℕ
  pub step : ℕ
  pub flags : Bool

-- policy_parser_state_t: the node at node_stack_eos, and the nodes below it.
pub record ParserState : Type 0 where
  pub node : NodeState
  pub below : List NodeState
  pub output : List ℕ
  pub exchange : Exchange

-- What a round leaves: a state with a node on the stack, or, when the stack is empty, the length
-- of the script, its bytes, and the exchange.
pub data Outcome : Type 0 where
  continue : ParserState → Outcome
  finished : ℕ → List ℕ → Exchange → Outcome

abbrev pub new_node : PolicyNode → Bool → NodeState
new_node policy_node flags = record {
  policy_node = policy_node;
  length = 0;
  step = 0;
  flags = flags;
}

abbrev pub add_length : ℕ → NodeState → NodeState
add_length n node = record node { length = (node.length + n) % 2 ^ 16 }

abbrev pub update_output : List ℕ → ParserState → ParserState
update_output bytes state = record state {
  node = add_length (length bytes) state.node;
  output = state.output ++ bytes;
}

unfoldable pub state_stack_push : PolicyNode → Bool → ParserState → Option ParserState
state_stack_push policy_node flags state =
    guard (ltb (suc (length state.below)) max_policy_depth)
    >> some (record state { node = new_node policy_node flags; below = state.node ∷ state.below })

unfoldable pub pop_to : ℕ → List NodeState → List ℕ → Exchange → Outcome
pop_to n [] output exchange = finished n output exchange
pop_to n (parent ∷ below) output exchange =
    continue
      (record { node = add_length n parent; below = below; output = output; exchange = exchange })

unfoldable pub state_stack_pop : ParserState → Outcome
unfolding pop_to
state_stack_pop state = pop_to state.node.length state.below state.output state.exchange

-- ++node->step, of a uint8_t
abbrev pub next_step : ParserState → ParserState
next_step state = record state { node = record state.node { step = (state.node.step + 1) % 2 ^ 8 } }

-- What the casts of policy_node reach in a node of the structure, and `none` in another.
unfoldable pub key_placeholder_of : PolicyNode → Option KeyPlaceholder
key_placeholder_of (with_key token key) = some key
key_placeholder_of node = none

unfoldable pub number_of : PolicyNode → Option ℕ
number_of (with_uint32 token n) = some n
number_of node = none

unfoldable pub hash_of : PolicyNode → Option (List ℕ)
hash_of (with_hash token h) = some h
hash_of node = none

unfoldable pub scripts_of : PolicyNode → List PolicyNode
scripts_of (with_script token x) = x ∷ []
scripts_of (with_script2 token x y) = x ∷ y ∷ []
scripts_of (andor x y z) = x ∷ y ∷ z ∷ []
scripts_of node = []

unfoldable pub script_at : Scriptlist → ℕ → Option PolicyNode
script_at nil i = none
script_at (cons x xs) zero = some x
script_at (cons x xs) (suc i) = script_at xs i

-- What process_thresh_node emits in front of child i, and at its last step.
abbrev pub thresh_separator : ℕ → List ℕ
thresh_separator step = if leb 2 step then 0x93 ∷ [] else []

unfoldable pub thresh_end : ℕ → ℕ → Bool → List ℕ
unfolding push_u32 op_v_bytes
thresh_end n k flags = (if leb 2 n then 0x93 ∷ [] else []) ++ push_u32 k ++ op_v_bytes flags 0x87

-- The Boolean says that the token is pkh, not wpkh.
unfoldable pub process_pkh_wpkh_node :
    Services → Bool → KeyPlaceholder → Bool → Exchange → Option (List ℕ × Exchange)
unfolding op_v_bytes
process_pkh_wpkh_node services is_pkh key flags exchange = do
  (compressed_pubkey, exchange') ← services.get_derived_pubkey key exchange
  let h = services.hash160 compressed_pubkey
  some (
    (if is_pkh then 0x76 ∷ 0xa9 ∷ 20 ∷ h ++ 0x88 ∷ op_v_bytes flags 0xac else 0x00 ∷ 20 ∷ h),
    exchange',
  )

unfoldable pub emit_to : Option (List ℕ × Exchange) → ParserState → Option ParserState
emit_to emission state = do
  (bytes, exchange) ← emission
  some (update_output bytes (record state { exchange = exchange }))

unfoldable pub push_child : ℕ → Bool → ParserState → Option ParserState
unfolding scripts_of state_stack_push
push_child i flags state = do
  child ← get_elem? (scripts_of state.node.policy_node) i
  state_stack_push child flags (next_step state)

-- A processor that emits everything at once, and is done.
unfoldable pub emit_and_pop : Option (List ℕ × Exchange) → ParserState → Option Outcome
unfolding emit_to state_stack_pop
emit_and_pop emission state = do state' ← emit_to emission state; some (state_stack_pop state')

unfoldable pub process_thresh_node : ℕ → Scriptlist → ParserState → Option Outcome
unfolding state_stack_push emit_and_pop thresh_end script_at
process_thresh_node k scriptlist state =
    if ltb state.node.step (size scriptlist)
    then (do
      cur ← script_at scriptlist state.node.step
      state' ←
          state_stack_push cur false
            (next_step (update_output (thresh_separator state.node.step) state))
      some (continue state'))
    else emit_and_pop (some (thresh_end (size scriptlist) k state.node.flags, state.exchange)) state

module _ (services : Services) (script_type : InternalScriptType) (leftover : ℕ) where
  -- is_taproot
  abbrev pub is_taproot : Bool
  is_taproot = elim script_type [ tapscript ↦ true | _ ↦ false ]

  -- The bytes that a command emits, for the commands that process no child.
  unfoldable pub emitted : Command → PolicyNode → Bool → Exchange → Option (List ℕ × Exchange)
  unfolding push_u32 op_v_bytes key_placeholder_of number_of hash_of
  emitted (op opcode) node flags exchange = some (opcode ∷ [], exchange)
  emitted (op_v opcode) node flags exchange = some (op_v_bytes flags opcode, exchange)
  emitted push_pk node flags exchange = do
    key ← key_placeholder_of node
    (compressed_pubkey, exchange') ← services.get_derived_pubkey key exchange
    some (if is_taproot then 32 ∷ drop 1 compressed_pubkey else 33 ∷ compressed_pubkey, exchange')
  emitted push_pkh node flags exchange = do
    key ← key_placeholder_of node
    (compressed_pubkey, exchange') ← services.get_derived_pubkey key exchange
    some (20 ∷ services.hash160 compressed_pubkey, exchange')
  emitted push_uint32 node flags exchange = do n ← number_of node; some (push_u32 n, exchange)
  emitted push_hash20 node flags exchange = do h ← hash_of node; some (20 ∷ take 20 h, exchange)
  emitted push_hash32 node flags exchange = do h ← hash_of node; some (32 ∷ take 32 h, exchange)
  emitted _ node flags exchange = none

  -- The switch of process_generic_node. The step of the node is counted before its child is pushed.
  unfoldable pub execute : Command → ParserState → Option ParserState
  unfolding push_child emitted emit_to
  execute (process_child i) state = push_child i false state
  execute (process_child_v i) state = push_child i state.node.flags state
  execute (process_child_vv i) state = push_child i true state
  execute command state =
      emit_to (emitted command state.node.policy_node state.node.flags state.exchange)
        (next_step state)

  unfoldable pub process_generic_node : List Command → ParserState → Option Outcome
  unfolding execute state_stack_pop
  process_generic_node commands state =
      guard (leb state.node.step (length commands)) >> elim (get_elem? commands state.node.step) [
        | none ↦ some (state_stack_pop state)
        | some command ↦ execute command state >>= λ state'. some (continue state')
      ]

  unfoldable pub process_step : PolicyNode → ParserState → Option Outcome
  unfolding process_generic_node process_pkh_wpkh_node process_thresh_node
      process_multi_sortedmulti_node process_multi_a_sortedmulti_a_node constant_commands
      key_commands lock_commands hash_commands script2_commands script_commands commands_andor
      emit_and_pop
  process_step (constant token) state = process_generic_node (constant_commands token) state
  process_step (with_script token x) state = do
    commands ← script_commands token
    process_generic_node commands state
  process_step (with_script2 token x y) state = process_generic_node (script2_commands token) state
  process_step (andor x y z) state = process_generic_node commands_andor state
  process_step (with_key token_pkh key) state =
      guard (state.node.step == 0)
      >> emit_and_pop (process_pkh_wpkh_node services true key state.node.flags state.exchange)
          state
  process_step (with_key token_wpkh key) state =
      guard (state.node.step == 0)
      >> emit_and_pop (process_pkh_wpkh_node services false key state.node.flags state.exchange)
          state
  process_step (with_key token key) state = do
    commands ← key_commands token
    process_generic_node commands state
  process_step (with_uint32 token n) state = process_generic_node (lock_commands token) state
  process_step (with_hash token h) state = process_generic_node (hash_commands token) state
  process_step (thresh k xs) state = process_thresh_node k xs state
  process_step (multisig token k keys) state =
      emit_and_pop
        (elim token [
          | token_multi ↦
              process_multi_sortedmulti_node services false k keys state.node.flags state.exchange
          | token_sortedmulti ↦
              process_multi_sortedmulti_node services true k keys state.node.flags state.exchange
          | token_multi_a ↦
              process_multi_a_sortedmulti_a_node services leftover false k keys state.node.flags
                state.exchange
          | token_sortedmulti_a ↦
              process_multi_a_sortedmulti_a_node services leftover true k keys state.node.flags
                state.exchange
        ])
        state
  process_step (tr key tree) state = none

  -- One round of the loop.
  unfoldable pub step : ParserState → Option Outcome
  unfolding is_whitelisted process_step
  step state =
      guard (is_whitelisted script_type state.node.policy_node)
      >> process_step state.node.policy_node state

  -- The loop, as far as the fuel reaches; a failing round is `some none`.
  unfoldable pub loop : ℕ → Option Outcome → Option (Option (ℕ × List ℕ × Exchange))
  unfolding step
  loop fuel none = some none
  loop fuel (some (finished n output exchange)) = some (some (n, output, exchange))
  loop zero (some (continue state)) = none
  loop (suc fuel) (some (continue state)) = loop fuel (step state)

  unfoldable pub get_wallet_internal_script_hash :
      ℕ → PolicyNode → Exchange → Option (Option (ℕ × List ℕ × Exchange))
  unfolding loop
  get_wallet_internal_script_hash fuel policy exchange = loop fuel (
      some (
        continue
          (record { node = new_node policy false; below = []; output = []; exchange = exchange })))
