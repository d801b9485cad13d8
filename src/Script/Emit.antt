-- ===== src/Script/Emit.antt =====
-- A description of the scripts of get_wallet_internal_script_hash (src/handler/lib/policy.c) without
-- its stack: the bytes of a node from those of its children, by recursion on the policy.
use ledger_app_syscoin.Base.{
  ℕ, suc, Bool, true, false, ltb, Option, none, some, ◌>>=◌, ◌>>◌, guard, List, [], ◌∷◌, ◌++◌,
  get_elem?,
}
use ledger_app_syscoin.Policy.{
  PolicyNode, constant, with_script, with_script2, andor, with_key, with_uint32, multisig, thresh,
  with_hash, tr, token_pkh, token_wpkh, token_multi, token_multi_a, token_sortedmulti,
  token_sortedmulti_a, Scriptlist, nil, cons, size,
}
use ledger_app_syscoin.Client.{Exchange}
use ledger_app_syscoin.Script.{Services, Command, process_child, process_child_v, process_child_vv}
use ledger_app_syscoin.Script.Commands.{
  constant_commands, key_commands, lock_commands, hash_commands, commands_andor, script2_commands,
  script_commands, InternalScriptType, is_whitelisted,
}
use ledger_app_syscoin.Script.Multisig.{
  process_multi_sortedmulti_node, process_multi_a_sortedmulti_a_node,
}
use ledger_app_syscoin.Script.Machine.{
  max_policy_depth, emitted, process_pkh_wpkh_node, thresh_separator, thresh_end,
}

-- The script of a node with so many nodes below it on the stack and this flag.
abbrev pub Emitter : Type 0
Emitter = ℕ → Bool → Exchange → Option (List ℕ × Exchange)

-- One more node on the stack.
unfoldable pub emit_child : Emitter → Emitter
emit_child emitter depth flags exchange =
    guard (ltb (suc depth) max_policy_depth) >> emitter (suc depth) flags exchange

unfoldable pub emit_nth : List Emitter → ℕ → Emitter
unfolding emit_child
emit_nth emitters i depth flags exchange = do
  emitter ← get_elem? emitters i
  emit_child emitter depth flags exchange

-- One emission after the other.
unfoldable pub joined :
    Option (List ℕ × Exchange)
    → (Exchange → Option (List ℕ × Exchange))
    → Option (List ℕ × Exchange)
joined first second = do
  (bytes, exchange) ← first
  (bytes', exchange') ← second exchange
  some (bytes ++ bytes', exchange')

-- The check of the fragment.
unfoldable pub checked : InternalScriptType → PolicyNode → Emitter → Emitter
unfolding is_whitelisted
checked script_type p emitter depth flags exchange =
    guard (is_whitelisted script_type p) >> emitter depth flags exchange

module _ (services : Services) (script_type : InternalScriptType) (leftover : ℕ) where
  unfoldable pub emit_command :
      List Emitter → PolicyNode → ℕ → Bool → Command → Exchange → Option (List ℕ × Exchange)
  unfolding emit_nth emitted
  emit_command emitters node depth flags (process_child i) = emit_nth emitters i depth false
  emit_command emitters node depth flags (process_child_v i) = emit_nth emitters i depth flags
  emit_command emitters node depth flags (process_child_vv i) = emit_nth emitters i depth true
  emit_command emitters node depth flags command =
      emitted services script_type leftover command node flags

  unfoldable pub emit_commands :
      List Emitter → PolicyNode → ℕ → Bool → List Command → Exchange → Option (List ℕ × Exchange)
  unfolding emit_command joined
  emit_commands emitters node depth flags [] exchange = some ([], exchange)
  emit_commands emitters node depth flags (command ∷ commands) exchange =
      joined (emit_command emitters node depth flags command exchange)
        (emit_commands emitters node depth flags commands)

  unfoldable mutual
    unfolding checked emit_commands constant_commands script_commands script2_commands
        commands_andor key_commands lock_commands hash_commands process_multi_sortedmulti_node
        process_multi_a_sortedmulti_a_node process_pkh_wpkh_node thresh_end joined emit_child

    pub emit_node : PolicyNode → Emitter
    emit_node (constant token) depth flags exchange =
        emit_commands [] (constant token) depth flags (constant_commands token) exchange
    emit_node (with_script token x) depth flags exchange = do
      commands ← script_commands token
      emit_commands (checked script_type x (emit_node x) ∷ []) (with_script token x) depth flags
          commands exchange
    emit_node (with_script2 token x y) depth flags exchange =
        emit_commands
          (checked script_type x (emit_node x) ∷ checked script_type y (emit_node y) ∷ [])
          (with_script2 token x y) depth flags (script2_commands token) exchange
    emit_node (andor x y z) depth flags exchange =
        emit_commands
          (checked script_type x (emit_node x)
            ∷ checked script_type y (emit_node y)
            ∷ checked script_type z (emit_node z)
            ∷ [])
          (andor x y z) depth flags commands_andor exchange
    emit_node (with_key token_pkh key) depth flags exchange =
        process_pkh_wpkh_node services true key flags exchange
    emit_node (with_key token_wpkh key) depth flags exchange =
        process_pkh_wpkh_node services false key flags exchange
    emit_node (with_key token key) depth flags exchange = do
      commands ← key_commands token
      emit_commands [] (with_key token key) depth flags commands exchange
    emit_node (with_uint32 token n) depth flags exchange =
        emit_commands [] (with_uint32 token n) depth flags (lock_commands token) exchange
    emit_node (with_hash token h) depth flags exchange =
        emit_commands [] (with_hash token h) depth flags (hash_commands token) exchange
    emit_node (thresh k xs) depth flags exchange =
        joined (emit_scriptlist xs 0 depth exchange)
          (λ exchange'. some (thresh_end (size xs) k flags, exchange'))
    emit_node (multisig token k keys) depth flags exchange = elim token [
      | token_multi ↦ process_multi_sortedmulti_node services false k keys flags exchange
      | token_sortedmulti ↦ process_multi_sortedmulti_node services true k keys flags exchange
      | token_multi_a ↦
          process_multi_a_sortedmulti_a_node services leftover false k keys flags exchange
      | token_sortedmulti_a ↦
          process_multi_a_sortedmulti_a_node services leftover true k keys flags exchange
    ]
    emit_node (tr key tree) depth flags exchange = none

    -- The children of thresh from the one with this index on.
    pub emit_scriptlist : Scriptlist → ℕ → ℕ → Exchange → Option (List ℕ × Exchange)
    emit_scriptlist nil i depth exchange = some ([], exchange)
    emit_scriptlist (cons x xs) i depth exchange =
        joined
          (joined (some (thresh_separator i, exchange))
            (emit_child (checked script_type x (emit_node x)) depth false))
          (emit_scriptlist xs (suc i) depth)

  unfoldable pub emit : PolicyNode → Emitter
  unfolding emit_node
  emit p = checked script_type p (emit_node p)
