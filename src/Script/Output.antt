-- ===== src/Script/Output.antt =====
-- update_output_push_u32 and update_output_op_v of src/handler/lib/policy.c: the bytes that they
-- hand to update_output.
use ledger_app_syscoin.Base.{
  ℕ, ◌+◌, ◌%◌, Bool, ◌||◌, ◌==◌, leb, if◌then◌else◌, List, [], ◌∷◌, ◌++◌, take,
}
use ledger_app_syscoin.Wire.{write_u32_le}

-- The minimal push of an unsigned 32-bit integer.
unfoldable pub push_u32 : ℕ → List ℕ
unfolding write_u32_le
push_u32 n =
    let n_le = write_u32_le n in
    if n == 0
    then 0x00 ∷ []
    else if leb n 16
    then (0x50 + n) ∷ []
    else if leb n 0x7f
    then 1 ∷ take 1 n_le
    else if leb n 0x7fff
    then 2 ∷ take 2 n_le
    else if leb n 0x7fffff
    then 3 ∷ take 3 n_le
    else if leb n 0x7fffffff
    then 4 ∷ take 4 n_le
    else 5 ∷ n_le ++ 0 ∷ []

-- The opcodes that have a _VERIFY version: OP_CHECKSIG, OP_CHECKMULTISIG, OP_NUMEQUAL, OP_EQUAL.
unfoldable pub has_verify : ℕ → Bool
has_verify opcode = opcode == 0xac || opcode == 0xae || opcode == 0x9c || opcode == 0x87

-- The Boolean is PROCESSOR_FLAG_V of the node.
unfoldable pub op_v_bytes : Bool → ℕ → List ℕ
unfolding has_verify
op_v_bytes flag_v opcode =
    if flag_v
    then if has_verify opcode then ((opcode + 1) % 256) ∷ [] else opcode ∷ 0x69 ∷ []
    else opcode ∷ []
