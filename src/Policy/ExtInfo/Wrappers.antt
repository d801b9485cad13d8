-- ===== src/Policy/ExtInfo/Wrappers.antt =====
-- compute_miniscript_policy_ext_info of src/common/wallet.c at the wrappers, from what was computed
-- for the wrapped script.
use ledger_app_syscoin.Base.{◌+◌, true, false, Option, none, some, pos}
use ledger_app_syscoin.Policy.{
  ScriptToken, token_sh, token_wsh, token_a, token_s, token_c, token_t, token_d, token_v, token_j,
  token_n, token_l, token_u,
}
use ledger_app_syscoin.Policy.ExtInfo.{
  invalid, sumcheck, maxcheck, ExtInfo, uint16, bit, initial_info, ops, stacksize,
}

-- What most wrappers keep of the wrapped script: s, m, and the timelocks g to k.
abbrev pub keep : ExtInfo → ExtInfo → ExtInfo
keep x out = record out { s = x.s; m = x.m; g = x.g; h = x.h; i = x.i; j = x.j; k = x.k }

unfoldable pub wrapper_info : ScriptToken → ExtInfo → Option ExtInfo
unfolding sumcheck maxcheck
wrapper_info token_a x =
    some
      (record (keep x (
        initial_info (ops (2 + x.ops.count) x.ops.sat x.ops.dsat) x.ss
          (uint16 (x.script_size + 2)))) { f = x.f; e = x.e })
wrapper_info token_s x =
    some
      (record (keep x (
        initial_info (ops (1 + x.ops.count) x.ops.sat x.ops.dsat) x.ss
          (uint16 (x.script_size + 1)))) { f = x.f; e = x.e; x = x.x })
wrapper_info token_n x =
    some
      (record (keep x (
        initial_info (ops (1 + x.ops.count) x.ops.sat x.ops.dsat) x.ss
          (uint16 (x.script_size + 1)))) { f = x.f; e = x.e })
wrapper_info token_c x =
    some
      (record (keep x (
        initial_info (ops (1 + x.ops.count) x.ops.sat x.ops.dsat) x.ss
          (uint16 (x.script_size + 1)))) { s = true; f = x.f; e = x.e; x = false })
wrapper_info token_d x =
    some
      (record (keep x (
        initial_info (ops (3 + x.ops.count) x.ops.sat (pos 0))
          (stacksize (sumcheck (pos 1) x.ss.sat) (pos 1)) (uint16 (x.script_size + 3)))) {
            e = true;
          })
wrapper_info token_t x =
    some
      (record (keep x (
        initial_info (ops x.ops.count x.ops.sat invalid) (stacksize x.ss.sat invalid)
          (uint16 (x.script_size + 1)))) { f = true })
wrapper_info token_v x =
    some
      (record (keep x (
        initial_info (ops (x.ops.count + bit x.x) x.ops.sat invalid) (stacksize x.ss.sat invalid)
          (uint16 (x.script_size + bit x.x)))) { f = true })
wrapper_info token_j x =
    some
      (record (keep x (
        initial_info (ops (4 + x.ops.count) x.ops.sat (pos 0)) (stacksize x.ss.sat (pos 1))
          (uint16 (x.script_size + 4)))) { e = x.f })
wrapper_info token_l x =
    some
      (record (keep x (
        initial_info (ops (3 + x.ops.count) x.ops.sat x.ops.dsat)
          (stacksize (sumcheck x.ss.sat (pos 1)) (maxcheck (pos 1) (sumcheck x.ss.dsat (pos 1))))
          (uint16 (x.script_size + 4)))) { e = x.f })
wrapper_info token_u x =
    some
      (record (keep x (
        initial_info (ops (3 + x.ops.count) x.ops.sat x.ops.dsat)
          (stacksize (sumcheck x.ss.sat (pos 1)) (maxcheck (pos 1) (sumcheck x.ss.dsat (pos 1))))
          (uint16 (x.script_size + 4)))) { e = x.f })
wrapper_info token_sh x = none
wrapper_info token_wsh x = none
