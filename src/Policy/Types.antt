-- ===== src/Policy/Types.antt =====
-- The miniscript type system of src/common/wallet.c: the flags that `parse_script` computes for
-- each node, and the checks by which it refuses a node. A refusal (WITH_ERROR(-1, …)) is `none`.
mod Kinds
mod Fragments
mod Nodes
unfoldable pub use Kinds.*
unfoldable pub use Fragments.*
unfoldable pub use Nodes.*
