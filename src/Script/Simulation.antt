-- ===== src/Script/Simulation.antt =====
-- The rounds of get_wallet_internal_script_hash (src/handler/lib/policy.c) and the scripts that the
-- recursion on the policy describes.
pub mod Generic
pub mod Whole
use ledger_app_syscoin.Base.{
  ℕ, zero, suc, ◌+◌, ◌%◌, ◌^◌, ◌≡◌, refl, ap, Bool, Option, none, some, ◌>>=◌, List, [], ◌∷◌, ◌++◌,
  length, length-append, arith,
}
use mathlib.Core.List.{append_assoc}
use ledger_app_syscoin.Policy.{PolicyNode}
use ledger_app_syscoin.Client.{Exchange}
use ledger_app_syscoin.Script.{Services}
use ledger_app_syscoin.Script.Commands.{InternalScriptType}
use ledger_app_syscoin.Script.Machine.{
  NodeState, ParserState, Outcome, continue, finished, pop_to, step, loop,
}
use ledger_app_syscoin.Script.Emit.{Emitter, joined}

abbrev pub node_at : PolicyNode → Bool → ℕ → ℕ → NodeState
node_at p flags n i = record {
  policy_node = p;
  length = n % 2 ^ 16;
  step = i % 2 ^ 8;
  flags = flags;
}

abbrev pub state_at : NodeState → List NodeState → List ℕ → Exchange → ParserState
state_at node below output exchange = record {
  node = node;
  below = below;
  output = output;
  exchange = exchange;
}

-- What is left when the top node, which has emitted n bytes, emits the last ones and is popped.
abbrev pub after : Option (List ℕ × Exchange) → ℕ → List NodeState → List ℕ → Option Outcome
after emission n below output = emission >>= λ (bytes, exchange).
    some (pop_to ((n + length bytes) % 2 ^ 16) below (output ++ bytes) exchange)

shift : (n a b : ℕ) → n + (a + b) ≡ n + a + b
shift n a b = omega arith

pub after-joined :
    (bytes : List ℕ) (exchange : Exchange) (f : Exchange → Option (List ℕ × Exchange)) (n : ℕ)
    (below : List NodeState) (output : List ℕ)
    → after (joined (some (bytes, exchange)) f) n below output
      ≡ after (f exchange) (n + length bytes) below (output ++ bytes)
unfolding joined
after-joined bytes exchange f n below output = last (f exchange)
  where
    last :
        (m : Option (List ℕ × Exchange))
        → after (m >>= λ (bytes', exchange'). some (bytes ++ bytes', exchange')) n below output
          ≡ after m (n + length bytes) below (output ++ bytes)
    last none = refl
    last (some (bytes', exchange')) =
        rw
          (
            append_assoc output bytes bytes',
            length-append bytes bytes',
            shift n (length bytes) (length bytes'),
          )
          refl

module _ (services : Services) (script_type : InternalScriptType) (leftover : ℕ) where
  -- The rounds from an outcome on, to the end of the loop; `none` is a failure.
  pub data Runs : Option Outcome → Option (ℕ × List ℕ × Exchange) → Type 0 where
    failed : Runs none none
    done :
        {n : ℕ} {output : List ℕ} {exchange : Exchange}
        → Runs (some (finished n output exchange)) (some (n, output, exchange))
    next :
        {state : ParserState} {r : Option (ℕ × List ℕ × Exchange)}
        → Runs (step services script_type leftover state) r
        → Runs (some (continue state)) r

  -- The loop gets there with some fuel.
  pub Runs-loop :
      {o : Option Outcome} {r : Option (ℕ × List ℕ × Exchange)}
      → Runs o r
      → (fuel : ℕ) × (loop services script_type leftover fuel o ≡ some r)
  unfolding loop
  Runs-loop failed = (0, refl)
  Runs-loop done = (0, refl)
  Runs-loop (next rounds) = let (fuel, e) = Runs-loop rounds in (suc fuel, e)

  pub Runs-joined :
      {r : Option (ℕ × List ℕ × Exchange)} (m : Option (List ℕ × Exchange))
      (f : Exchange → Option (List ℕ × Exchange)) (n : ℕ) (below : List NodeState) (output : List ℕ)
      (k : List ℕ → Exchange → Option Outcome)
      → Runs (after (joined m f) n below output) r
      → ((bytes : List ℕ) (exchange : Exchange)
          → Runs (after (f exchange) (n + length bytes) below (output ++ bytes)) r
          → Runs (k bytes exchange) r)
      → Runs (m >>= λ (bytes, exchange). k bytes exchange) r
  unfolding joined
  Runs-joined none f n below output k rounds continues = rounds
  Runs-joined (some (bytes, exchange)) f n below output k rounds continues =
      continues bytes exchange (rw (after-joined bytes exchange f n below output) at rounds)

  -- From the round at which a node comes to the top of the stack, the loop emits what the emitter
  -- says, and pops the node.
  abbrev pub Simulates : PolicyNode → Emitter → Type 0
  Simulates p emitter =
      (flags : Bool) (below : List NodeState) (output : List ℕ) (exchange : Exchange)
      (r : Option (ℕ × List ℕ × Exchange))
      → Runs (after (emitter (length below) flags exchange) 0 below output) r
      → Runs
          (step services script_type leftover
            (state_at (node_at p flags 0 0) below output exchange))
          r
