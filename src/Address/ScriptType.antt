-- ===== src/Address/ScriptType.antt =====
-- get_script_type of src/common/script.c.
use ledger_app_syscoin.Base.{
  ℕ, ◌+◌, ◌&&◌, ◌||◌, ◌==◌, leb, Option, none, some, if◌then◌else◌, List, length, get_or,
}

pub data ScriptType : Type 0 where
  p2pkh p2sh p2wpkh p2wsh p2tr unknown_segwit : ScriptType

-- `none` is -1. The tests of bytes follow a test of the length that keeps them in the script.
unfoldable pub get_script_type : List ℕ → Option ScriptType
get_script_type script =
    let script_len = length script in
    let at_index = λ (i : ℕ). get_or script i 0 in
    if script_len == 25
      && at_index 0 == 0x76
      && at_index 1 == 0xa9
      && at_index 2 == 0x14
      && at_index 23 == 0x88
      && at_index 24 == 0xac
    then some p2pkh
    else if script_len == 23 && at_index 0 == 0xa9 && at_index 1 == 0x14 && at_index 22 == 0x87
    then some p2sh
    else if script_len == 22 && at_index 0 == 0x00 && at_index 1 == 0x14
    then some p2wpkh
    else if script_len == 34 && at_index 0 == 0x00 && at_index 1 == 0x20
    then some p2wsh
    else if script_len == 34 && at_index 0 == 0x51 && at_index 1 == 0x20
    then some p2tr
    else if leb 4 script_len
        && leb script_len 42
        && (at_index 0 == 0 || leb 0x51 (at_index 0) && leb (at_index 0) 0x60)
        && script_len == 2 + at_index 1
    then some unknown_segwit
    else none
