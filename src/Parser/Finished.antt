-- ===== src/Parser/Finished.antt =====
-- parser_run of src/common/parser.c completes only when no step is left.
use ledger_app_syscoin.Base.{ℕ, suc, ◌≡◌, refl, List, [], ◌∷◌, drop}
use ledger_app_syscoin.Parser.{Buffers}
use ledger_app_syscoin.Parser.Run.{
  Outcome, completed, incomplete, failed, Step, after_step, run_steps, parser_run,
}
use ledger_app_syscoin.Parser.Resumable.Steps.{drop-suc}

pub data Finished {S : Type 0} (steps : List (Step S)) : Outcome (ℕ × S) → Type 0 where
  no_step_left :
      {cur : ℕ} {s : S} {b : Buffers} → drop cur steps ≡ [] → Finished steps (completed (cur, s) b)
  waiting : {s : ℕ × S} {b : Buffers} → Finished steps (incomplete s b)
  broken : {s : ℕ × S} {b : Buffers} → Finished steps (failed s b)

module _ {S : Type 0} (steps : List (Step S)) where
  after_Finished :
      (cur : ℕ) (o : Outcome S) {next : S → Buffers → Outcome (ℕ × S)}
      → ((s : S) (b : Buffers) → Finished steps (next s b))
      → Finished steps (after_step cur o next)
  after_Finished cur (completed s b) k = k s b
  after_Finished cur (incomplete s b) k = waiting
  after_Finished cur (failed s b) k = broken

  run_Finished :
      (rest : List (Step S)) (cur : ℕ)
      → drop cur steps ≡ rest
      → (s : S) (b : Buffers) → Finished steps (run_steps rest cur s b)
  unfolding run_steps
  run_Finished [] cur d s b = no_step_left d
  run_Finished (step ∷ rest) cur d s b =
      after_Finished cur (step s b) (run_Finished rest (suc cur) (drop-suc cur steps d))

  pub parser_run-Finished : (s : ℕ × S) (b : Buffers) → Finished steps (parser_run steps s b)
  unfolding parser_run
  parser_run-Finished (cur, s) b = run_Finished (drop cur steps) cur refl s b

  pub parser_run-over :
      (cur : ℕ) (s : S) (b : Buffers)
      → drop cur steps ≡ []
      → parser_run steps (cur, s) b ≡ completed (cur, s) b
  unfolding parser_run run_steps
  parser_run-over cur s b e = rw e refl
