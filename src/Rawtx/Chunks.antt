-- ===== src/Rawtx/Chunks.antt =====
-- The parser of raw transactions (src/handler/lib/psbt_parse_rawtx.c) on a stream in chunks.
use ledger_app_syscoin.Base.{
  concat, append_assoc, append_nil, ℕ, ◌+◌, ◌^◌, ◌≤◌, ◌<◌, ◌≡◌, refl, sym, ap, ◌∙◌, le→leb,
  if◌then◌else◌, Bool-cases, inl, inr, Bool, true, false, Option, List, [], ◌∷◌, ◌++◌, length,
  length-append, arith,
}
use mathlib.Core.Path.{subst}
use ledger_app_syscoin.Parser.{Buffers, joined}
use ledger_app_syscoin.Parser.Run.{Outcome, completed, incomplete, failed, Step, parser_run}
use ledger_app_syscoin.Parser.Resumable.{
  Alike, completed_alike, incomplete_alike, failed_alike, Resumed, completed_more, failed_more,
  incomplete_more,
}
use ledger_app_syscoin.Parser.Resumable.Steps.{parser_run-Resumable}
use ledger_app_syscoin.Parser.Finished.{
  Finished, no_step_left, parser_run-Finished, parser_run-over,
}
use ledger_app_syscoin.Rawtx.{TxidParserOutputs, RawtxState}
use ledger_app_syscoin.Rawtx.Whole.{parse_rawtx_steps}
use ledger_app_syscoin.Rawtx.Whole.Resumable.{parse_rawtx_steps-AllResumable}
use ledger_app_syscoin.Rawtx.Store.{missing}
use ledger_app_syscoin.Rawtx.Store.Whole.{FewLeft, run_on-FewLeft}
use ledger_app_syscoin.Rawtx.Flow.{
  FlowState, parser_consolidate_buffers, processed, initial_flow, flow_result, run_on,
  cb_process_data, process_stream, parse_chunks,
}

-- What is visible of the flow.
abbrev pub progress : FlowState → (ℕ × RawtxState) × Bool
progress flow = (flow.context, flow.parser_error)

-- The bytes that an incomplete run leaves fit into the store.
abbrev pub LeftFits : Outcome (ℕ × RawtxState) → Type 0
LeftFits (incomplete context buffers) = length (joined buffers) ≤ 32
LeftFits (completed context buffers) = Unit
LeftFits (failed context buffers) = Unit

consolidated :
    (b : Buffers) (store : List ℕ)
    → length (joined b) ≤ 32
    → parser_consolidate_buffers b 32 store ≡ joined b
unfolding parser_consolidate_buffers
consolidated (first, second) store h =
    rw (le→leb (length first + length second) 32 (omega (arith, h, length-append first second)))
      refl

Alike-progress :
    (flow flow' : FlowState) {o o' : Outcome (ℕ × RawtxState)}
    → flow.parser_error ≡ flow'.parser_error
    → Alike o o'
    → progress (processed flow o) ≡ progress (processed flow' o')
Alike-progress flow flow' e (completed_alike {s} e') = ap (λ x. (s, x)) e
Alike-progress flow flow' e (incomplete_alike {s} e') = ap (λ x. (s, x)) e
Alike-progress flow flow' e (failed_alike e') = refl

module _ (output_index : Option ℕ) where
  abbrev run : Step (ℕ × RawtxState)
  run = parser_run (parse_rawtx_steps output_index)

  cb_running :
      (flow : FlowState) (chunk : List ℕ)
      → flow.parser_error ≡ false
      → cb_process_data output_index flow chunk
        ≡ processed flow (run flow.context (flow.store, chunk))
  unfolding cb_process_data run_on
  cb_running flow chunk e =
      ap (λ t. if t then flow else processed flow (run flow.context (flow.store, chunk))) e

  cb_failed :
      (flow : FlowState) (chunk : List ℕ)
      → flow.parser_error ≡ true
      → cb_process_data output_index flow chunk ≡ flow
  unfolding cb_process_data
  cb_failed flow chunk e =
      ap (λ t. if t then flow else processed flow (run_on output_index flow chunk)) e

  -- Both flows are judged by the outcome of the run on all the data.
  pair_progress :
      (flow : FlowState) (more : List ℕ) {o o' : Outcome (ℕ × RawtxState)}
      → flow.parser_error ≡ false
      → Finished (parse_rawtx_steps output_index) o
      → Resumed run more o o'
      → LeftFits o
      → progress (cb_process_data output_index (processed flow o) more)
        ≡ progress (processed flow o')
  pair_progress flow more e (no_step_left {cur} {s} {b} d) (completed_more e') fits =
      let flow1 = record flow { context = (cur, s) } in
      ap progress (cb_running flow1 more e)
      ∙ ap (λ o. progress (processed flow1 o))
          (parser_run-over (parse_rawtx_steps output_index) cur s (flow.store, more) d)
  pair_progress flow more e f (failed_more {s} {b} e') fits =
      ap progress (cb_failed (processed flow (failed s b)) more refl)
  pair_progress flow more e f (incomplete_more {s} {b} h) fits =
      let flow1 = processed flow (incomplete s b) in
      ap progress (cb_running flow1 more e)
      ∙ ap (λ store. progress (processed flow1 (run s (store, more))))
          (consolidated b flow.store fits)
      ∙ Alike-progress flow1 flow refl (h (joined b, more) refl)

  two_chunks :
      (flow : FlowState) (chunk more : List ℕ)
      → (flow.parser_error ≡ false → LeftFits (run_on output_index flow chunk))
      → progress (cb_process_data output_index (cb_process_data output_index flow chunk) more)
        ≡ progress (cb_process_data output_index flow (chunk ++ more))
  unfolding run_on
  two_chunks flow chunk more fits = elim (Bool-cases flow.parser_error) [
    | inl e ↦
        let stays = cb_failed flow chunk e in
        ap (λ f. progress (cb_process_data output_index f more)) stays
        ∙ ap progress (cb_failed flow more e)
        ∙ sym (ap progress (cb_failed flow (chunk ++ more) e))
    | inr e ↦
        ap (λ f. progress (cb_process_data output_index f more)) (cb_running flow chunk e)
        ∙ pair_progress flow more e
            (parser_run-Finished (parse_rawtx_steps output_index) flow.context (flow.store, chunk))
            ((parser_run-Resumable (parse_rawtx_steps-AllResumable output_index)).resumed more
              flow.context (flow.store, chunk) (flow.store, chunk ++ more)
              (sym (append_assoc flow.store chunk more)))
            (fits e)
        ∙ sym (ap progress (cb_running flow (chunk ++ more) e))
  ]

  -- After every chunk, the bytes that are left fit into the store.
  abbrev StoreSuffices : FlowState → List (List ℕ) → Type 0
  StoreSuffices flow [] = Unit
  StoreSuffices flow (chunk ∷ chunks) =
      (flow.parser_error ≡ false → LeftFits (run_on output_index flow chunk))
      × StoreSuffices (cb_process_data output_index flow chunk) chunks

  stream_progress :
      (flow : FlowState) (chunk : List ℕ) (chunks : List (List ℕ))
      → StoreSuffices flow (chunk ∷ chunks)
      → progress (process_stream output_index flow (chunk ∷ chunks))
        ≡ progress (cb_process_data output_index flow (chunk ++ concat chunks))
  unfolding process_stream
  stream_progress flow chunk [] fits =
      ap (λ c. progress (cb_process_data output_index flow c)) (sym (append_nil chunk))
  stream_progress flow chunk (next ∷ chunks) (fits, rest) =
      stream_progress (cb_process_data output_index flow chunk) next chunks rest
      ∙ two_chunks flow chunk (next ++ concat chunks) fits

abbrev result_of : (List ℕ → List ℕ) → (ℕ × RawtxState) × Bool → Option (List ℕ × TxidParserOutputs)
result_of sha256 (context, parser_error) =
    flow_result sha256 (record { store = []; context = context; parser_error = parser_error })

-- If a script or a stack element is being read, fewer than 2^31 of its bytes are missing.
abbrev pub Moderate : ℕ × RawtxState → Type 0
Moderate context = missing context < 2 ^ 31

-- This is so after every chunk.
abbrev pub AllModerate : Option ℕ → FlowState → List (List ℕ) → Type 0
AllModerate output_index flow [] = Unit
AllModerate output_index flow (chunk ∷ chunks) =
    Moderate (cb_process_data output_index flow chunk).context
    × AllModerate output_index (cb_process_data output_index flow chunk) chunks

fits_if_Moderate :
    (flow : FlowState) (o : Outcome (ℕ × RawtxState))
    → FewLeft o
    → Moderate (processed flow o).context
    → LeftFits o
fits_if_Moderate flow (incomplete context b) (inl h) m = omega arith
fits_if_Moderate flow (incomplete context b) (inr h) m = absurd (omega arith)
fits_if_Moderate flow (completed context b) h m = tt
fits_if_Moderate flow (failed context b) h m = tt

module _ (output_index : Option ℕ) where
  store_suffices :
      (flow : FlowState) (chunks : List (List ℕ))
      → AllModerate output_index flow chunks
      → StoreSuffices output_index flow chunks
  unfolding run_on
  store_suffices flow [] all = tt
  store_suffices flow (chunk ∷ chunks) (m, all) = (
    λ e.
        fits_if_Moderate flow (run output_index flow.context (flow.store, chunk))
          (run_on-FewLeft output_index flow chunk)
          (subst (λ f. Moderate f.context) (cb_running output_index flow chunk e) m),
    store_suffices (cb_process_data output_index flow chunk) chunks all,
  )

-- However the client cuts the stream into chunks, parse_chunks, the part of call_psbt_parse_rawtx from
-- the stream on, gives what it gives for the whole stream in one chunk: the same failure, or the same
-- transaction id and output. It is assumed that, whenever a chunk ends inside of a script or a stack
-- element that is read, fewer than 2^31 bytes of that are missing.
pub parse_chunks-concat :
    (sha256 : List ℕ → List ℕ) (output_index : Option ℕ) (state : RawtxState) (chunk : List ℕ)
    (chunks : List (List ℕ))
    → AllModerate output_index (initial_flow state) (chunk ∷ chunks)
    → parse_chunks output_index sha256 state (chunk ∷ chunks)
      ≡ parse_chunks output_index sha256 state (concat (chunk ∷ chunks) ∷ [])
unfolding parse_chunks
parse_chunks-concat sha256 output_index state chunk chunks moderate = ap (result_of sha256) (
    stream_progress output_index (initial_flow state) chunk chunks
      (store_suffices output_index (initial_flow state) (chunk ∷ chunks) moderate))
