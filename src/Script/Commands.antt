-- ===== src/Script/Commands.antt =====
-- The command lists of src/handler/lib/policy.c, and the nodes that process_generic_node handles.
use ledger_app_syscoin.Base.{Bool, true, false, Option, none, some, List, [], ◌∷◌}
use ledger_app_syscoin.Policy.{
  ConstantToken, KeyToken, LockToken, HashToken, ScriptToken, Script2Token, PolicyNode, constant,
  with_script, with_script2, andor, with_key, with_uint32, multisig, thresh, with_hash, token_0,
  token_1, token_pk, token_pkh, token_wpkh, token_pk_k, token_pk_h, token_multi, token_multi_a,
  token_sortedmulti, token_sortedmulti_a, token_older, token_after, token_sha256, token_hash256,
  token_ripemd160, token_hash160, token_sh, token_wsh, token_a, token_s, token_c, token_t, token_d,
  token_v, token_j, token_n, token_l, token_u, token_and_v, token_and_b, token_and_n, token_or_b,
  token_or_c, token_or_d, token_or_i,
}
use ledger_app_syscoin.Script.{
  Command, op, op_v, push_pk, push_pkh, push_uint32, push_hash20, push_hash32, process_child,
  process_child_v, process_child_vv,
}

-- commands_0 and commands_1
unfoldable pub constant_commands : ConstantToken → List Command
constant_commands token_0 = op_v 0x00 ∷ []
constant_commands token_1 = op_v 0x51 ∷ []

-- commands_pk_k, commands_pk_h and commands_pk; the other keys have a processor of their own.
unfoldable pub key_commands : KeyToken → Option (List Command)
key_commands token_pk_k = some (push_pk ∷ [])
key_commands token_pk_h = some (op 0x76 ∷ op 0xa9 ∷ push_pkh ∷ op 0x88 ∷ [])
key_commands token_pk = some (push_pk ∷ op_v 0xac ∷ [])
key_commands token_pkh = none
key_commands token_wpkh = none

-- commands_older and commands_after
unfoldable pub lock_commands : LockToken → List Command
lock_commands token_older = push_uint32 ∷ op_v 0xb2 ∷ []
lock_commands token_after = push_uint32 ∷ op_v 0xb1 ∷ []

-- commands_sha256, commands_hash256, commands_ripemd160 and commands_hash160
unfoldable pub hash_commands : HashToken → List Command
hash_commands token_sha256 =
    op 0x82 ∷ op 1 ∷ op 32 ∷ op 0x88 ∷ op 0xa8 ∷ push_hash32 ∷ op_v 0x87 ∷ []
hash_commands token_hash256 =
    op 0x82 ∷ op 1 ∷ op 32 ∷ op 0x88 ∷ op 0xaa ∷ push_hash32 ∷ op_v 0x87 ∷ []
hash_commands token_ripemd160 =
    op 0x82 ∷ op 1 ∷ op 32 ∷ op 0x88 ∷ op 0xa6 ∷ push_hash20 ∷ op_v 0x87 ∷ []
hash_commands token_hash160 =
    op 0x82 ∷ op 1 ∷ op 32 ∷ op 0x88 ∷ op 0xa9 ∷ push_hash20 ∷ op_v 0x87 ∷ []

unfoldable pub commands_andor : List Command
commands_andor =
    process_child 0 ∷ op 0x64 ∷ process_child 2 ∷ op 0x67 ∷ process_child 1 ∷ op_v 0x68 ∷ []

-- commands_and_v to commands_or_i
unfoldable pub script2_commands : Script2Token → List Command
script2_commands token_and_v = process_child 0 ∷ process_child_v 1 ∷ []
script2_commands token_and_b = process_child 0 ∷ process_child 1 ∷ op_v 0x9a ∷ []
script2_commands token_and_n =
    process_child 0 ∷ op 0x64 ∷ op 0x00 ∷ op 0x67 ∷ process_child 1 ∷ op_v 0x68 ∷ []
script2_commands token_or_b = process_child 0 ∷ process_child 1 ∷ op_v 0x9b ∷ []
script2_commands token_or_c = process_child 0 ∷ op 0x64 ∷ process_child 1 ∷ op_v 0x68 ∷ []
script2_commands token_or_d = process_child 0 ∷ op 0x73 ∷ op 0x64 ∷ process_child 1 ∷ op_v 0x68 ∷ []
script2_commands token_or_i = op 0x63 ∷ process_child 0 ∷ op 0x67 ∷ process_child 1 ∷ op_v 0x68 ∷ []

-- commands_a to commands_u; sh and wsh are unexpected tokens.
unfoldable pub script_commands : ScriptToken → Option (List Command)
script_commands token_a = some (op 0x6b ∷ process_child 0 ∷ op 0x6c ∷ [])
script_commands token_s = some (op 0x7c ∷ process_child 0 ∷ [])
script_commands token_c = some (process_child 0 ∷ op_v 0xac ∷ [])
script_commands token_t = some (process_child 0 ∷ op_v 0x51 ∷ [])
script_commands token_d = some (op 0x76 ∷ op 0x63 ∷ process_child 0 ∷ op_v 0x68 ∷ [])
script_commands token_v = some (process_child_vv 0 ∷ [])
script_commands token_j = some (op 0x82 ∷ op 0x92 ∷ op 0x63 ∷ process_child 0 ∷ op_v 0x68 ∷ [])
script_commands token_n = some (process_child 0 ∷ op_v 0x92 ∷ [])
script_commands token_l = some (op 0x63 ∷ op 0x00 ∷ op 0x67 ∷ process_child 0 ∷ op_v 0x68 ∷ [])
script_commands token_u = some (op 0x63 ∷ process_child 0 ∷ op 0x67 ∷ op 0x00 ∷ op_v 0x68 ∷ [])
script_commands token_sh = none
script_commands token_wsh = none

-- The script types of get_wallet_internal_script_hash.
pub data InternalScriptType : Type 0 where
  sh sh_wsh wsh tapscript : InternalScriptType

-- The whitelists fragment_whitelist_sh, _sh_wsh, _wsh and _tapscript.
unfoldable pub is_whitelisted : InternalScriptType → PolicyNode → Bool
is_whitelisted sh (with_key token_wpkh key) = true
is_whitelisted sh (multisig token_multi k keys) = true
is_whitelisted sh (multisig token_sortedmulti k keys) = true
is_whitelisted sh_wsh (multisig token_multi k keys) = true
is_whitelisted sh_wsh (multisig token_sortedmulti k keys) = true
is_whitelisted wsh (constant token) = true
is_whitelisted wsh (with_key token_wpkh key) = false
is_whitelisted wsh (with_key token key) = true
is_whitelisted wsh (with_uint32 token n) = true
is_whitelisted wsh (with_hash token h) = true
is_whitelisted wsh (andor x y z) = true
is_whitelisted wsh (with_script2 token x y) = true
is_whitelisted wsh (multisig token_multi k keys) = true
is_whitelisted wsh (multisig token_sortedmulti k keys) = true
is_whitelisted wsh (thresh k xs) = true
is_whitelisted wsh (with_script token_sh x) = false
is_whitelisted wsh (with_script token_wsh x) = false
is_whitelisted wsh (with_script token x) = true
is_whitelisted tapscript (with_key token_pk key) = true
is_whitelisted tapscript (multisig token_multi_a k keys) = true
is_whitelisted tapscript (multisig token_sortedmulti_a k keys) = true
is_whitelisted script_type node = false
