-- ===== src/Rawtx/Elements.antt =====
-- The loop over the inputs or the outputs of a transaction (src/handler/lib/psbt_parse_rawtx.c) can
-- be interrupted.
use ledger_app_syscoin.Base.{ℕ, suc, ◌-◌, ◌≡◌, List, arith}
use ledger_app_syscoin.Parser.Run.{Outcome, completed, incomplete, failed, Step, parser_run}
use ledger_app_syscoin.Parser.Resumable.{
  Alike, completed_alike, incomplete_alike, failed_alike, Resumed, completed_more, failed_more,
  incomplete_more, Resumable, AllResumable,
}
use ledger_app_syscoin.Parser.Resumable.Steps.{parser_run-Resumable}
use ledger_app_syscoin.Parser.Resumable.Rounds.{Counted, one_less, unchanged, rounds-Resumable}
use ledger_app_syscoin.Rawtx.{ScriptState, next_element, parse_element, parse_elements}

element-Alike :
    (k : ℕ) {o o' : Outcome (ℕ × ScriptState)}
    → Alike o o'
    → Alike (next_element k o) (next_element k o')
element-Alike k (completed_alike {s = (c, s)} e) = completed_alike e
element-Alike k (incomplete_alike {s = (c, s)} e) = incomplete_alike e
element-Alike k (failed_alike {s = (c, s)} e) = completed_alike e

module _ (steps : ℕ → List (Step ScriptState)) (all : (k : ℕ) → AllResumable (steps k)) where
  element-Resumed :
      (more : List ℕ) (k : ℕ) {o o' : Outcome (ℕ × ScriptState)}
      → Resumed (parser_run (steps k)) more o o'
      → Resumed (parse_element steps) more (next_element k o) (next_element k o')
  unfolding parse_element
  element-Resumed more k (completed_more {s = (c, s)} e) = completed_more e
  element-Resumed more k (failed_more {s = (c, s)} e) = completed_more e
  element-Resumed more k (incomplete_more {s = (c, s)} h) =
      incomplete_more (λ d e. element-Alike k (h d e))

  element-Resumable : Resumable (parse_element steps)
  unfolding parse_element
  element-Resumable = record {
    alike = λ (k, c, s) b d e. element-Alike k ((parser_run-Resumable (all k)).alike (c, s) b d e);
    resumed = λ more (k, c, s) b d e.
        element-Resumed more k ((parser_run-Resumable (all k)).resumed more (c, s) b d e);
  }

  abbrev elements_left : ℕ → ℕ × ℕ × ScriptState → ℕ
  elements_left n (k, c, s) = n - k

  element-Counted :
      (n m k : ℕ) (o : Outcome (ℕ × ScriptState))
      → n - k ≡ suc m
      → Counted (elements_left n) m (next_element k o)
  element-Counted n m k (completed (c, s) b) e = one_less (omega arith)
  element-Counted n m k (incomplete (c, s) b) e = unchanged e
  element-Counted n m k (failed (c, s) b) e = one_less (omega arith)

  -- If every step of an element can be interrupted, so can the loop over the elements.
  pub parse_elements-Resumable : (n : ℕ) → Resumable (parse_elements n steps)
  unfolding parse_elements parse_element
  parse_elements-Resumable n =
      rounds-Resumable (elements_left n) (parse_element steps) element-Resumable
        (λ m (k, c, s) b e. element-Counted n m k _ e)
