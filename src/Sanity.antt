-- ===== src/Sanity.antt =====
-- The miniscript part of is_policy_sane (src/handler/lib/policy.c), and what a script that passes
-- it guarantees. A refusal (WITH_ERROR(-1, …)) is `none`.
pub mod Guarantees
pub mod Oversized
pub mod Placeholders
mod Examples
use ledger_app_syscoin.Base.{
  ℕ, ◌+◌, Bool, true, false, Option, none, some, ◌>>=◌, ◌>>◌, guard, leb, if◌then◌else◌, ℤ, pos,
  negsuc,
}
use ledger_app_syscoin.Policy.{PolicyNode, with_script, token_wsh}
use ledger_app_syscoin.Policy.Types.{Flags, same_type, type_b, node_flags}
use ledger_app_syscoin.Policy.ExtInfo.{ExtInfo}
use ledger_app_syscoin.Policy.ExtInfo.Compute.{compute_miniscript_policy_ext_info}

abbrev pub max_standard_p2wsh_stack_items : ℕ
max_standard_p2wsh_stack_items = 100

abbrev pub max_standard_p2wsh_script_size : ℕ
max_standard_p2wsh_script_size = 3600

abbrev pub max_ops_per_script : ℕ
max_ops_per_script = 201

-- A value of -1 fails, and the other values of sat are not negative.
abbrev pub at_most : ℕ → ℤ → Bool
at_most limit (pos n) = leb n limit
at_most limit (negsuc n) = false

-- ops.count + ops.sat against the limit.
abbrev pub ops_at_most : ℕ → ℕ → ℤ → Bool
ops_at_most limit count (pos n) = leb (count + n) limit
ops_at_most limit count (negsuc n) = false

-- The tests of the computed properties.
unfoldable pub check_ext_info : ExtInfo → Option (Unit {0})
check_ext_info info = do
  guard info.m
  guard info.s
  guard info.k
  guard (at_most max_standard_p2wsh_stack_items info.ss.sat)
  guard (ops_at_most max_ops_per_script info.ops.count info.ops.sat)
  guard (leb info.script_size max_standard_p2wsh_script_size)

unfoldable pub check_miniscript : (ℕ → ℤ) → Flags → PolicyNode → Option (Unit {0})
check_miniscript leftover fl inner = do
  guard (same_type fl.kind type_b)
  info ← compute_miniscript_policy_ext_info leftover inner
  check_ext_info info

-- The check of a policy up to the loops over its keys. The flags of a node are what `parse_script`
-- has left in it, so that a policy with an ill-typed script does not come here.
unfoldable pub is_policy_sane_miniscript : (ℕ → ℤ) → PolicyNode → Option (Unit {0})
is_policy_sane_miniscript leftover (with_script token_wsh inner) = do
  fl ← node_flags inner
  if fl.is_miniscript then check_miniscript leftover fl inner else some tt
is_policy_sane_miniscript leftover policy = some tt
