-- ===== src/Policy/ExtInfo/Scripts.antt =====
-- compute_miniscript_policy_ext_info of src/common/wallet.c at the nodes with two or three child
-- scripts, from what was computed for these.
use ledger_app_syscoin.Base.{◌+◌, true, not, ◌&&◌, ◌||◌, pos}
use ledger_app_syscoin.Policy.{
  Script2Token, token_and_v, token_and_b, token_and_n, token_or_b, token_or_c, token_or_d,
  token_or_i,
}
use ledger_app_syscoin.Policy.ExtInfo.{
  invalid, sumcheck, maxcheck, ExtInfo, uint16, initial_info, ops, stacksize, join_locks, mixes,
}

unfoldable pub andor_info : ExtInfo → ExtInfo → ExtInfo → ExtInfo
unfolding sumcheck maxcheck
andor_info x y z =
    record (initial_info
      (ops (3 + x.ops.count + y.ops.count + z.ops.count)
        (maxcheck (sumcheck y.ops.sat x.ops.sat) (sumcheck y.ops.dsat z.ops.sat))
        (sumcheck x.ops.dsat z.ops.dsat))
      (stacksize (maxcheck (sumcheck x.ss.sat y.ss.sat) (sumcheck x.ss.dsat z.ss.sat))
        (sumcheck x.ss.dsat z.ss.dsat))
      (uint16 (3 + x.script_size + y.script_size + z.script_size))) {
        s = z.s && (x.s || y.s);
        f = z.f && (x.s || y.f);
        e = z.e && (x.s || y.f);
        m = x.m && y.m && z.m && x.e && (x.s || y.s || z.s);
        g = x.g || y.g || z.g;
        h = x.h || y.h || z.h;
        i = x.i || y.i || z.i;
        j = x.j || y.j || z.j;
        k = not (not (x.k && y.k && z.k) || mixes x y);
      }

unfoldable pub and_v_info : ExtInfo → ExtInfo → ExtInfo
unfolding sumcheck maxcheck
and_v_info x y =
    record (join_locks x y (
      initial_info (ops (x.ops.count + y.ops.count) (sumcheck x.ops.sat y.ops.sat) invalid)
        (stacksize (sumcheck x.ss.sat y.ss.sat) invalid)
        (uint16 (x.script_size + y.script_size)))) {
          s = x.s || y.s;
          f = x.s || y.f;
          m = x.m && y.m;
          k = not (not (x.k && y.k) || mixes x y);
          x = y.x;
        }

unfoldable pub and_b_info : ExtInfo → ExtInfo → ExtInfo
unfolding sumcheck maxcheck
and_b_info x y =
    record (join_locks x y (
      initial_info
        (ops (1 + x.ops.count + y.ops.count) (sumcheck x.ops.sat y.ops.sat)
          (sumcheck x.ops.dsat y.ops.dsat))
        (stacksize (sumcheck x.ss.sat y.ss.sat) (sumcheck x.ss.dsat y.ss.dsat))
        (uint16 (1 + x.script_size + y.script_size)))) {
          s = x.s || y.s;
          f = x.f && y.f || x.s && x.f || y.s && y.f;
          e = x.e && y.e && x.s && y.s;
          m = x.m && y.m;
          k = not (not (x.k && y.k) || mixes x y);
        }

unfoldable pub and_n_info : ExtInfo → ExtInfo → ExtInfo
unfolding sumcheck maxcheck
and_n_info x y =
    record (join_locks x y (
      initial_info
        (ops (3 + x.ops.count + y.ops.count) (maxcheck (sumcheck y.ops.sat x.ops.sat) y.ops.dsat)
          x.ops.dsat)
        (stacksize (sumcheck x.ss.sat y.ss.sat) x.ss.dsat)
        (uint16 (4 + x.script_size + y.script_size)))) {
          s = x.s || y.s;
          e = x.s || y.f;
          m = x.m && y.m && x.e && (x.s || y.s);
          k = not (not (x.k && y.k) || mixes x y);
        }

unfoldable pub or_b_info : ExtInfo → ExtInfo → ExtInfo
unfolding sumcheck maxcheck
or_b_info x z =
    record (join_locks x z (
      initial_info
        (ops (1 + x.ops.count + z.ops.count)
          (maxcheck (sumcheck x.ops.sat z.ops.dsat) (sumcheck z.ops.sat x.ops.dsat))
          (sumcheck x.ops.dsat z.ops.dsat))
        (stacksize (maxcheck (sumcheck x.ss.dsat z.ss.sat) (sumcheck x.ss.sat z.ss.dsat))
          (sumcheck x.ss.dsat z.ss.dsat))
        (uint16 (1 + x.script_size + z.script_size)))) {
          s = x.s && z.s;
          e = true;
          m = x.m && z.m && x.e && z.e && (x.s || z.s);
          k = x.k && z.k;
        }

unfoldable pub or_c_info : ExtInfo → ExtInfo → ExtInfo
unfolding sumcheck maxcheck
or_c_info x z =
    record (join_locks x z (
      initial_info
        (ops (2 + x.ops.count + z.ops.count) (maxcheck x.ops.sat (sumcheck z.ops.sat x.ops.dsat))
          invalid)
        (stacksize (maxcheck x.ss.sat (sumcheck x.ss.dsat z.ss.sat)) invalid)
        (uint16 (2 + x.script_size + z.script_size)))) {
          s = x.s && z.s;
          f = true;
          m = x.m && z.m && x.e && (x.s || z.s);
          k = x.k && z.k;
        }

unfoldable pub or_d_info : ExtInfo → ExtInfo → ExtInfo
unfolding sumcheck maxcheck
or_d_info x z =
    record (join_locks x z (
      initial_info
        (ops (3 + x.ops.count + z.ops.count) (maxcheck x.ops.sat (sumcheck z.ops.sat x.ops.dsat))
          (sumcheck x.ops.dsat z.ops.dsat))
        (stacksize (maxcheck x.ss.sat (sumcheck x.ss.dsat z.ss.sat)) (sumcheck x.ss.dsat z.ss.dsat))
        (uint16 (3 + x.script_size + z.script_size)))) {
          s = x.s && z.s;
          f = z.f;
          e = z.e;
          m = x.m && z.m && x.e && (x.s || z.s);
          k = x.k && z.k;
        }

unfoldable pub or_i_info : ExtInfo → ExtInfo → ExtInfo
unfolding sumcheck maxcheck
or_i_info x z =
    record (join_locks x z (
      initial_info
        (ops (3 + x.ops.count + z.ops.count) (maxcheck x.ops.sat z.ops.sat)
          (maxcheck x.ops.dsat z.ops.dsat))
        (stacksize (maxcheck (sumcheck x.ss.sat (pos 1)) (sumcheck z.ss.sat (pos 1)))
          (maxcheck (sumcheck x.ss.dsat (pos 1)) (sumcheck z.ss.dsat (pos 1))))
        (uint16 (3 + x.script_size + z.script_size)))) {
          s = x.s && z.s;
          f = x.f && z.f;
          e = x.e && z.f || z.e && x.f;
          m = x.m && z.m && (x.s || z.s);
          k = x.k && z.k;
        }

unfoldable pub script2_info : Script2Token → ExtInfo → ExtInfo → ExtInfo
unfolding and_v_info and_b_info and_n_info or_b_info or_c_info or_d_info or_i_info
script2_info token_and_v = and_v_info
script2_info token_and_b = and_b_info
script2_info token_and_n = and_n_info
script2_info token_or_b = or_b_info
script2_info token_or_c = or_c_info
script2_info token_or_d = or_d_info
script2_info token_or_i = or_i_info
