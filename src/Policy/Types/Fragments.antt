-- ===== src/Policy/Types/Fragments.antt =====
-- The flags that parse_script (src/common/wallet.c) computes for a fragment from those of its children.
use ledger_app_syscoin.Base.{ℕ, true, false, not, ◌&&◌, ◌||◌, Option, some, ◌>>◌, guard, leb}
use ledger_app_syscoin.Policy.{
  MultisigToken, ScriptToken, Script2Token, token_sortedmulti, token_sh, token_wsh, token_a,
  token_s, token_c, token_t, token_d, token_v, token_j, token_n, token_l, token_u, token_and_v,
  token_and_b, token_and_n, token_or_b, token_or_c, token_or_d, token_or_i,
}
use ledger_app_syscoin.Policy.Types.Kinds.{
  type_b, type_v, type_k, type_w, same_type, Flags, not_miniscript, flags,
}

-- MAX_PUBKEYS_PER_MULTISIG
abbrev pub max_pubkeys_per_multisig : ℕ
max_pubkeys_per_multisig = 16

-- The check of k and n, and the flags: only sortedmulti is no miniscript.
unfoldable pub multisig_flags : MultisigToken → ℕ → ℕ → Option Flags
multisig_flags token k n =
    guard (leb 1 k && leb k n && leb n max_pubkeys_per_multisig)
    >> some (elim token [
      | token_sortedmulti ↦ not_miniscript
      | _ ↦ flags type_b false false true true true
    ])

unfoldable pub andor_flags : Flags → Flags → Flags → Option Flags
andor_flags x y z = do
  guard (x.is_miniscript && y.is_miniscript && z.is_miniscript)
  guard (same_type x.kind type_b && x.d && x.u)
  guard (same_type y.kind z.kind)
  guard (not (same_type y.kind type_w))
  some (
      flags y.kind (x.z && y.z && z.z) (x.z && y.o && z.o || x.o && y.z && z.z) false z.d
        (y.u && z.u))

unfoldable pub and_v_flags : Flags → Flags → Option Flags
and_v_flags x y = do
  guard (same_type x.kind type_v)
  guard (not (same_type y.kind type_w))
  some (flags y.kind (x.z && y.z) (x.z && y.o || x.o && y.z) (x.n || x.z && y.n) false y.u)

unfoldable pub and_b_flags : Flags → Flags → Option Flags
and_b_flags x y = do
  guard (same_type x.kind type_b && same_type y.kind type_w)
  some (flags type_b (x.z && y.z) (x.z && y.o || x.o && y.z) (x.n || x.z && y.n) (x.d && y.d) true)

unfoldable pub and_n_flags : Flags → Flags → Option Flags
and_n_flags x y = do
  guard (same_type x.kind type_b && x.d && x.u)
  guard (same_type y.kind type_b)
  some (flags type_b (x.z && y.z) (x.o && y.z) false true y.u)

unfoldable pub or_b_flags : Flags → Flags → Option Flags
or_b_flags x z = do
  guard (same_type x.kind type_b && x.d)
  guard (same_type z.kind type_w && z.d)
  some (flags type_b (x.z && z.z) (x.z && z.o || x.o && z.z) false true true)

unfoldable pub or_c_flags : Flags → Flags → Option Flags
or_c_flags x z = do
  guard (same_type x.kind type_b && x.d && x.u)
  guard (same_type z.kind type_v)
  some (flags type_v (x.z && z.z) (x.o && z.z) false false false)

unfoldable pub or_d_flags : Flags → Flags → Option Flags
or_d_flags x z = do
  guard (same_type x.kind type_b && x.d && x.u)
  guard (same_type z.kind type_b)
  some (flags type_b (x.z && z.z) (x.o && z.z) false z.d z.u)

unfoldable pub or_i_flags : Flags → Flags → Option Flags
or_i_flags x z = do
  guard (not (same_type x.kind type_w))
  guard (same_type x.kind z.kind)
  some (flags x.kind false (x.z && z.z) false (x.d || z.d) (x.u && z.u))

unfoldable pub script2_flags : Script2Token → Flags → Flags → Option Flags
unfolding and_v_flags and_b_flags and_n_flags or_b_flags or_c_flags or_d_flags or_i_flags
script2_flags token x y = guard (x.is_miniscript && y.is_miniscript) >> elim token [
  | token_and_v ↦ and_v_flags x y
  | token_and_b ↦ and_b_flags x y
  | token_and_n ↦ and_n_flags x y
  | token_or_b ↦ or_b_flags x y
  | token_or_c ↦ or_c_flags x y
  | token_or_d ↦ or_d_flags x y
  | token_or_i ↦ or_i_flags x y
]

-- The loop over the wrappers, from the innermost: the child's flags give the wrapper's. The nodes
-- sh and wsh share their structure, and are no miniscript.
unfoldable pub wrapper_flags : ScriptToken → Flags → Option Flags
wrapper_flags token_sh x = some not_miniscript
wrapper_flags token_wsh x = some not_miniscript
wrapper_flags token_a x = do
  guard x.is_miniscript
  guard (same_type x.kind type_b)
  some (flags type_w false false false x.d x.u)
wrapper_flags token_s x = do
  guard x.is_miniscript
  guard (same_type x.kind type_b && x.o)
  some (flags type_w false false false x.d x.u)
wrapper_flags token_c x = do
  guard x.is_miniscript
  guard (same_type x.kind type_k)
  some (flags type_b false x.o x.n x.d true)
wrapper_flags token_t x = do
  guard x.is_miniscript
  guard (same_type x.kind type_v)
  some (flags type_b x.z x.o x.n false true)
wrapper_flags token_d x = do
  guard x.is_miniscript
  guard (same_type x.kind type_v && x.z)
  some (flags type_b false true true true false)
wrapper_flags token_v x = do
  guard x.is_miniscript
  guard (same_type x.kind type_b)
  some (flags type_v x.z x.o x.n false false)
wrapper_flags token_j x = do
  guard x.is_miniscript
  guard (same_type x.kind type_b && x.n)
  some (flags type_b false x.o true true x.u)
wrapper_flags token_n x = do
  guard x.is_miniscript
  guard (same_type x.kind type_b)
  some (flags type_b x.z x.o x.n x.d true)
wrapper_flags token_l x = do
  guard x.is_miniscript
  guard (same_type x.kind type_b)
  some (flags type_b false x.z false true x.u)
wrapper_flags token_u x = do
  guard x.is_miniscript
  guard (same_type x.kind type_b)
  some (flags type_b false x.z false true x.u)
