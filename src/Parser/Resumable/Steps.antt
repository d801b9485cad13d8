-- ===== src/Parser/Resumable/Steps.antt =====
-- parser_run (src/common/parser.c) can be interrupted if its steps can.
use ledger_app_syscoin.Base.{ℕ, zero, suc, ◌≡◌, refl, List, [], ◌∷◌, ◌++◌, drop}
use ledger_app_syscoin.Parser.{Buffers, joined}
use ledger_app_syscoin.Parser.Run.{Outcome, Step, after_step, run_steps, parser_run}
use ledger_app_syscoin.Parser.Resumable.{
  Alike, Resumed, completed_more, failed_more, incomplete_more, completed_alike, Resumable,
  AllResumable, no_step, and_step, Alike-after,
}

pub drop-suc :
    {A : Type 0} (n : ℕ) (xs : List A) {y : A} {ys : List A}
    → drop n xs ≡ y ∷ ys
    → drop (suc n) xs ≡ ys
drop-suc zero [] e = cc
drop-suc zero (x ∷ xs) e = cc
drop-suc (suc n) [] e = cc
drop-suc (suc n) (x ∷ xs) e = drop-suc n xs e

all_after :
    {S : Type 0} (n : ℕ) {steps : List (Step S)} → AllResumable steps → AllResumable (drop n steps)
all_after zero all = all
all_after (suc n) no_step = no_step
all_after (suc n) (and_step r all) = all_after n all

module _ {S : Type 0} where
  run-Alike :
      {steps : List (Step S)}
      → AllResumable steps
      → (cur : ℕ) (s : S) (b c : Buffers) → joined b ≡ joined c
      → Alike (run_steps steps cur s b) (run_steps steps cur s c)
  unfolding run_steps
  run-Alike no_step cur s b c e = completed_alike e
  run-Alike (and_step {step} {steps} r all) cur s b c e =
      Alike-after cur (run_steps steps (suc cur)) (r.alike s b c e) (run-Alike all (suc cur))

  parser_run-Alike :
      {steps : List (Step S)}
      → AllResumable steps
      → (s : ℕ × S) (b c : Buffers) → joined b ≡ joined c
      → Alike (parser_run steps s b) (parser_run steps s c)
  unfolding parser_run
  parser_run-Alike all (cur, s) b c e = run-Alike (all_after cur all) cur s b c e

  module _ (all_steps : List (Step S)) (more : List ℕ) where
    after-Resumed :
        {step : Step S} {steps : List (Step S)} (cur : ℕ) {o o' : Outcome S}
        → drop cur all_steps ≡ step ∷ steps
        → AllResumable steps
        → Resumed step more o o'
        → ((s : S) (b c : Buffers)
            → joined c ≡ joined b ++ more
            → Resumed
                (parser_run all_steps)
                more
                (run_steps steps (suc cur) s b)
                (run_steps steps (suc cur) s c))
        → Resumed
            (parser_run all_steps)
            more
            (after_step cur o (run_steps steps (suc cur)))
            (after_step cur o' (run_steps steps (suc cur)))
    unfolding parser_run run_steps
    after-Resumed cur d all (completed_more e) k = k _ _ _ e
    after-Resumed cur d all (failed_more e) k = failed_more e
    after-Resumed {step} {steps} cur d all (incomplete_more {s} h) k = incomplete_more (λ c e.
        rw d (Alike-after cur (run_steps steps (suc cur)) (h c e) (run-Alike all (suc cur))))

    run-Resumed :
        {steps : List (Step S)}
        → AllResumable steps
        → (cur : ℕ) → drop cur all_steps ≡ steps
        → (s : S) (b c : Buffers) → joined c ≡ joined b ++ more
        → Resumed (parser_run all_steps) more (run_steps steps cur s b) (run_steps steps cur s c)
    unfolding run_steps
    run-Resumed no_step cur d s b c e = completed_more e
    run-Resumed (and_step r all) cur d s b c e =
        after-Resumed cur d all (r.resumed more s b c e)
          (run-Resumed all (suc cur) (drop-suc cur all_steps d))

-- If every step can be interrupted, so can the run of the steps.
pub parser_run-Resumable :
    {S : Type 0} {steps : List (Step S)} → AllResumable steps → Resumable (parser_run steps)
unfolding parser_run
parser_run-Resumable {S} {steps} all = record {
  alike = λ s b c e. parser_run-Alike all s b c e;
  resumed = λ more (cur, s) b c e. run-Resumed steps more (all_after cur all) cur refl s b c e;
}
