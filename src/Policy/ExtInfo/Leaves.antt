-- ===== src/Policy/ExtInfo/Leaves.antt =====
-- compute_miniscript_policy_ext_info of src/common/wallet.c at the nodes with no child script, and
-- get_push_script_size of src/common/script.c.
use ledger_app_syscoin.Base.{
  ℕ, ◌+◌, ◌*◌, ◌/◌, ◌%◌, ◌^◌, Bool, true, false, not, Option, none, some, ◌==◌, leb, ltb,
  if◌then◌else◌, pos,
}
use ledger_app_syscoin.Policy.{
  ConstantToken, KeyToken, MultisigToken, LockToken, HashToken, token_0, token_1, token_pk,
  token_pkh, token_wpkh, token_pk_k, token_pk_h, token_multi, token_older, token_after,
  token_sha256, token_hash256, token_ripemd160, token_hash160,
}
use ledger_app_syscoin.Policy.ExtInfo.{invalid, ExtInfo, uint16, initial_info, ops, stacksize}

unfoldable pub get_push_script_size : ℕ → ℕ
get_push_script_size n =
    if leb n 16
    then 1
    else if ltb n 0x80
    then 2
    else if ltb n 0x8000
    then 3
    else if ltb n 0x80_0000
    then 4
    else if ltb n 0x8000_0000
    then 5
    else 6

unfoldable pub constant_info : ConstantToken → ExtInfo
constant_info token_0 =
    record (initial_info (ops 0 invalid (pos 0)) (stacksize invalid (pos 0)) 1) {
      s = true;
      e = true;
    }
constant_info token_1 =
    record (initial_info (ops 0 (pos 0) invalid) (stacksize (pos 0) invalid) 1) { f = true }

unfoldable pub key_info : KeyToken → Option ExtInfo
key_info token_pk_k =
    some (record (initial_info (ops 0 (pos 0) (pos 0)) (stacksize (pos 1) (pos 1)) 34) {
      s = true;
      e = true;
    })
key_info token_pk_h =
    some (record (initial_info (ops 3 (pos 0) (pos 0)) (stacksize (pos 2) (pos 2)) (3 + 21)) {
      s = true;
      e = true;
    })
key_info token_pk =
    some (record (initial_info (ops 1 (pos 0) (pos 0)) (stacksize (pos 1) (pos 1)) (34 + 1)) {
      s = true;
      e = true;
      x = false;
    })
key_info token_pkh =
    some (record (initial_info (ops 4 (pos 0) (pos 0)) (stacksize (pos 2) (pos 2)) (3 + 21 + 1)) {
      s = true;
      e = true;
      x = false;
    })
key_info token_wpkh = none

-- Only multi is handled: the other tokens are "Not miniscript" or "Unknown token".
unfoldable pub multisig_info : MultisigToken → ℕ → ℕ → Option ExtInfo
unfolding get_push_script_size
multisig_info token_multi k n =
    some
      (record (initial_info (ops 1 (pos n) (pos n)) (stacksize (pos (k + 1)) (pos (k + 1)))
        (uint16 (1 + get_push_script_size k + get_push_script_size n + 34 * n))) {
          s = true;
          e = true;
          x = false;
        })
multisig_info _ k n = none

-- n & SEQUENCE_LOCKTIME_TYPE_FLAG, which is bit 22
abbrev pub is_time_sequence : ℕ → Bool
is_time_sequence n = n / 2 ^ 22 % 2 == 1

abbrev pub locktime_threshold : ℕ
locktime_threshold = 500_000_000

unfoldable pub lock_info : LockToken → ℕ → ExtInfo
unfolding get_push_script_size
lock_info token_older n =
    record (initial_info (ops 1 (pos 0) invalid) (stacksize (pos 0) invalid)
      (uint16 (1 + get_push_script_size n))) {
        f = true;
        g = is_time_sequence n;
        h = not (is_time_sequence n);
      }
lock_info token_after n =
    record (initial_info (ops 1 (pos 0) invalid) (stacksize (pos 0) invalid)
      (uint16 (1 + get_push_script_size n))) {
        f = true;
        i = leb locktime_threshold n;
        j = not (leb locktime_threshold n);
      }

unfoldable pub hash_info : HashToken → ExtInfo
hash_info token =
    record (initial_info (ops 4 (pos 0) invalid) (stacksize (pos 1) invalid) (elim token [
      | token_sha256 ↦ 4 + 2 + 33
      | token_hash256 ↦ 4 + 2 + 33
      | token_ripemd160 ↦ 4 + 2 + 21
      | token_hash160 ↦ 4 + 2 + 21
    ])) { x = false }
