-- ===== src/Script/Size.antt =====
-- The size of a script that get_wallet_internal_script_hash (src/handler/lib/policy.c) emits inside
-- wsh, from the sizes of the scripts of its children.
pub mod Nodes
pub mod Whole
use ledger_app_syscoin.Base.{
  ℕ, zero, suc, ◌+◌, ◌*◌, ◌%◌, ◌^◌, ◌≤◌, ◌≡◌, refl, ap, sym, ◌∙◌, Bool, true, false, not, ◌&&◌, ltb,
  leb, Bool-cases, inl, inr, Option, none, some, ◌>>=◌, ◌>>◌, guard, List, [], ◌∷◌, ◌++◌, length,
  length-append, length-take, take, get_elem?, if◌then◌else◌, Ensures, failure, success,
  Ensures->>=, Ensures-mono, Ensures-each, Ensures-test, arith,
}
use ledger_app_syscoin.Policy.{KeyPlaceholder, PolicyNode}
use ledger_app_syscoin.Policy.ExtInfo.{bit, uint16, ExtInfo}
use ledger_app_syscoin.Policy.ExtInfo.Leaves.{get_push_script_size}
use ledger_app_syscoin.Client.{Exchange}
use ledger_app_syscoin.Wire.{write_u32_le}
use ledger_app_syscoin.Script.{
  Services, Command, op, op_v, push_pk, push_pkh, push_uint32, push_hash20, push_hash32,
  process_child, process_child_v, process_child_vv,
}
use ledger_app_syscoin.Script.Output.{push_u32, has_verify, op_v_bytes}
use ledger_app_syscoin.Script.Commands.{wsh}
use ledger_app_syscoin.Script.Machine.{key_placeholder_of, number_of, hash_of, emitted}
use ledger_app_syscoin.Script.Emit.{Emitter, joined, emit_nth, emit_command, emit_commands}

-- A compressed key has 33 bytes, and a hash160 has 20.
pub record Fits (services : Services) : Type 0 where
  pub pubkey :
      (key : KeyPlaceholder) (exchange : Exchange)
      → Ensures
          (λ (pubkey, exchange'). length pubkey ≡ 33)
          (services.get_derived_pubkey key exchange)
  pub hash160 : (bytes : List ℕ) → length (services.hash160 bytes) ≡ 20

-- The emission is a failure, or has so many bytes modulo 2^16.
abbrev pub Emits : ℕ → Option (List ℕ × Exchange) → Type 0
Emits n emission = Ensures (λ (bytes, exchange). length bytes % 2 ^ 16 ≡ n % 2 ^ 16) emission

pub Emits-joined :
    (a b : ℕ) {m : Option (List ℕ × Exchange)} {f : Exchange → Option (List ℕ × Exchange)}
    → Emits a m
    → ((exchange : Exchange) → Emits b (f exchange))
    → Emits (a + b) (joined m f)
unfolding joined
Emits-joined a b first second = Ensures->>= first (λ (bytes, exchange) e.
    Ensures->>= (second exchange)
      (λ (bytes', exchange') e'. success (omega (arith, length-append bytes bytes'))))

pub Emits-eq :
    (a b : ℕ) {m : Option (List ℕ × Exchange)} → Emits a m → a % 2 ^ 16 ≡ b % 2 ^ 16 → Emits b m
Emits-eq a b h e = Ensures-mono (λ r l. omega arith) h

pub length-push_u32 : (n : ℕ) → length (push_u32 n) ≡ get_push_script_size n
unfolding push_u32 get_push_script_size write_u32_le
length-push_u32 n = ground arith

pub length-op_v_bytes :
    (flags : Bool) (opcode : ℕ)
    → length (op_v_bytes flags opcode) ≡ 1 + bit (flags && not (has_verify opcode))
unfolding op_v_bytes
length-op_v_bytes flags opcode = ground arith

abbrev pub push_size : Option ℕ → ℕ
push_size none = 0
push_size (some n) = get_push_script_size n

-- The size of what a command emits, where child i with a flag emits so many bytes.
abbrev pub command_size : PolicyNode → (ℕ → Bool → ℕ) → Bool → Command → ℕ
command_size p child flags (op opcode) = 1
command_size p child flags (op_v opcode) = 1 + bit (flags && not (has_verify opcode))
command_size p child flags push_pk = 34
command_size p child flags push_pkh = 21
command_size p child flags push_uint32 = push_size (number_of p)
command_size p child flags push_hash20 = 21
command_size p child flags push_hash32 = 33
command_size p child flags (process_child i) = child i false
command_size p child flags (process_child_v i) = child i flags
command_size p child flags (process_child_vv i) = child i true

abbrev pub commands_size : PolicyNode → (ℕ → Bool → ℕ) → Bool → List Command → ℕ
commands_size p child flags [] = 0
commands_size p child flags (command ∷ commands) =
    command_size p child flags command + commands_size p child flags commands

-- What has to hold of the children and of the hash of the node.
module _ (emitters : List Emitter) (p : PolicyNode) (child : ℕ → Bool → ℕ) (flags : Bool) where
  abbrev pub Child : ℕ → Bool → Type 0
  Child i child_flags =
      (depth : ℕ) (exchange : Exchange)
      → Emits (child i child_flags) (emit_nth emitters i depth child_flags exchange)

  abbrev pub Need : Command → Type 0
  Need (process_child i) = Child i false
  Need (process_child_v i) = Child i flags
  Need (process_child_vv i) = Child i true
  Need push_hash20 = (h : List ℕ) → hash_of p ≡ some h → 20 ≤ length h
  Need push_hash32 = (h : List ℕ) → hash_of p ≡ some h → 32 ≤ length h
  Need command = Unit

  abbrev pub Needs : List Command → Type 0
  Needs [] = Unit
  Needs (command ∷ commands) = Need command × Needs commands

module _ (services : Services) (fits : Fits services) (leftover : ℕ) (emitters : List Emitter)
    (p : PolicyNode) (child : ℕ → Bool → ℕ) (flags : Bool) where
  command-Emits :
      (command : Command) (depth : ℕ) (exchange : Exchange)
      → Need emitters p child flags command
      → Emits
          (command_size p child flags command)
          (emit_command services wsh leftover emitters p depth flags command exchange)
  unfolding emit_command emitted
  command-Emits (op opcode) depth exchange h = success refl
  command-Emits (op_v opcode) depth exchange h =
      success (omega (arith, length-op_v_bytes flags opcode))
  command-Emits push_pk depth exchange h = Ensures-each (key_placeholder_of p) (λ key e.
      Ensures->>= (fits.pubkey key exchange) (λ (pubkey, exchange') l. success (omega arith)))
  command-Emits push_pkh depth exchange h = Ensures-each (key_placeholder_of p) (λ key e.
      Ensures->>= (fits.pubkey key exchange)
        (λ (pubkey, exchange') l. success (omega (arith, fits.hash160 pubkey))))
  command-Emits push_uint32 depth exchange h =
      Ensures-each (number_of p)
        (λ n e. success (ap (λ k. k % 2 ^ 16) (length-push_u32 n ∙ ap push_size (sym e))))
  command-Emits push_hash20 depth exchange h =
      Ensures-each (hash_of p) (λ bytes e. success (omega (arith, length-take 20 bytes, h bytes e)))
  command-Emits push_hash32 depth exchange h =
      Ensures-each (hash_of p) (λ bytes e. success (omega (arith, length-take 32 bytes, h bytes e)))
  command-Emits (process_child i) depth exchange h = h depth exchange
  command-Emits (process_child_v i) depth exchange h = h depth exchange
  command-Emits (process_child_vv i) depth exchange h = h depth exchange

  pub commands-Emits :
      (commands : List Command) (depth : ℕ) (exchange : Exchange)
      → Needs emitters p child flags commands
      → Emits
          (commands_size p child flags commands)
          (emit_commands services wsh leftover emitters p depth flags commands exchange)
  unfolding emit_commands
  commands-Emits [] depth exchange h = success refl
  commands-Emits (command ∷ commands) depth exchange (h, hs) =
      Emits-joined _ _ (command-Emits command depth exchange h)
        (λ exchange'. commands-Emits commands depth exchange' hs)

-- The size of the script of a node from what compute_miniscript_policy_ext_info says of it: with the
-- flag, one byte more unless the last opcode has a _VERIFY version.
abbrev pub size_of : ExtInfo → Bool → ℕ
size_of t flags = t.script_size + bit (flags && t.x)
