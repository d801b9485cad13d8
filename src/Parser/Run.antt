-- ===== src/Parser/Run.antt =====
-- parser_run of src/common/parser.c, and the loops of its steps. A step returns 1, 0 or a negative
-- number.
use ledger_app_syscoin.Base.{
  ℕ, suc, zero, Bool, true, false, Option, none, some, List, [], ◌∷◌, drop,
}
use ledger_app_syscoin.Parser.{Buffers}

pub data Outcome (S : Type 0) : Type 0 where
  completed incomplete failed : S → Buffers → Outcome S

abbrev pub Step : Type 0 → Type 0
Step S = S → Buffers → Outcome S

module _ {S : Type 0} where
  -- What runs after a step if that is completed.
  abbrev pub then_run : Outcome S → Step S → Outcome S
  then_run (completed state buffers) next = next state buffers
  then_run (incomplete state buffers) next = incomplete state buffers
  then_run (failed state buffers) next = failed state buffers

  -- A step that has perhaps been done before an interruption.
  abbrev pub unless : Bool → Step S → Step S
  unless true step state buffers = completed state buffers
  unless false step state buffers = step state buffers

  abbrev pub finish : Bool × S → Buffers → Outcome S
  finish (true, state) buffers = completed state buffers
  finish (false, state) buffers = failed state buffers

  -- A step that has read, or is incomplete if there is not enough data; `update` says whether it
  -- succeeds.
  abbrev pub read_with :
      {A : Type 0} → Option (A × Buffers) → S → Buffers → (A → S → Bool × S) → Outcome S
  read_with none state buffers update = incomplete state buffers
  read_with (some (a, buffers')) state buffers update = finish (update a state) buffers'

  -- The step with the number `cur_step` has run; `next` runs those after it.
  abbrev pub after_step : ℕ → Outcome S → (S → Buffers → Outcome (ℕ × S)) → Outcome (ℕ × S)
  after_step cur_step (completed state buffers) next = next state buffers
  after_step cur_step (incomplete state buffers) next = incomplete (cur_step, state) buffers
  after_step cur_step (failed state buffers) next = failed (cur_step, state) buffers

  -- The steps that remain, the first of which has the number `cur_step`.
  unfoldable pub run_steps : List (Step S) → ℕ → S → Buffers → Outcome (ℕ × S)
  run_steps [] cur_step state buffers = completed (cur_step, state) buffers
  run_steps (step_fn ∷ steps) cur_step state buffers =
      after_step cur_step (step_fn state buffers) (run_steps steps (suc cur_step))

  unfoldable pub parser_run : List (Step S) → Step (ℕ × S)
  unfolding run_steps
  parser_run parsing_steps (cur_step, state) buffers =
      run_steps (drop cur_step parsing_steps) cur_step state buffers

  -- So many rounds of `body`.
  unfoldable pub rounds : ℕ → Step S → Step S
  rounds zero body state buffers = completed state buffers
  rounds (suc n) body state buffers = then_run (body state buffers) (rounds n body)

-- A step on a part of the state.
module _ {P T : Type 0} (put : T → P) where
  abbrev pub within : Outcome T → Outcome P
  within (completed state buffers) = completed (put state) buffers
  within (incomplete state buffers) = incomplete (put state) buffers
  within (failed state buffers) = failed (put state) buffers
