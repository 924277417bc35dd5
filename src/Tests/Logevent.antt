-- ===== src/Tests/Logevent.antt =====
-- The module that reports events, at concrete answers of Windows.
use pandora_agent_win.Base.Int.{pos}
use pandora_agent_win.Base.Result.{ok}
use pandora_agent_win.Base.{ℕ, ◌≡◌, refl, arith, true, false, List, [], ◌∷◌, none, some, All}
use pandora_agent_win.Module.Defs.{Module, new_module}
use pandora_agent_win.Module.Logevent.{LogeventModule, EventRecord, at_end, run_logevent}
use pandora_agent_win.Module.Logevent.Stamp.{IsPrintable}
use pandora_agent_win.Module.Logevent.Stored.{
  Batch, some_events, grown, all_of, batches, with_records, run_logevent-open, run_logevent-first,
}
use pandora_agent_win.Module.Output.{fulfilled, run}
use pandora_agent_win.Tests.Reports.{integers, noon, plain_module}
use pandora_agent_win.Text.{Str, bytes}

abbrev errors : LogeventModule integers
errors = record {
  base = plain_module;
  id = 0;
  type = pos 1;
  source = bytes "System";
  application = [];
  pattern = [];
  regexp = [];
  first_run = true;
  log_event = false;
}

abbrev event : ℕ → Str → EventRecord
event event_type text = record {
  event_id = 7;
  event_type = event_type;
  source_name = bytes "disk";
  computer_name = bytes "host";
  user_name = none;
  time = noon;
  by_xpath = text;
  by_resource = [];
  by_library = [];
}

abbrev old_events : List Batch
old_events = some_events (event 1 (bytes "old") ∷ []) ∷ grown ∷ []

abbrev new_events : List Batch
new_events = grown ∷ some_events (event 1 (bytes "bad block") ∷ event 4 (bytes "started") ∷ []) ∷ []

noon-IsPrintable : IsPrintable noon
noon-IsPrintable = (omega arith, omega arith, omega arith, omega arith, omega arith, omega arith)

new-IsPrintable : All (λ r. IsPrintable r.time) (all_of new_events)
new-IsPrintable = (noon-IsPrintable, (noon-IsPrintable, tt))

abbrev ran : Module integers
ran = record plain_module { executions = 1; has_output = true }

its_turn : run plain_module ≡ (fulfilled, ran)
unfolding run new_module
its_turn = refl

abbrev opened_errors : LogeventModule integers
opened_errors = record errors { base = ran; first_run = false; log_event = true }

run_logevent-first_example :
    run_logevent true false true (batches old_events at_end) (batches new_events at_end) errors
    ≡ ok (
        some (record opened_errors {
          base =
              with_records opened_errors
                (event 1 (bytes "bad block") ∷ event 4 (bytes "started") ∷ [])
                ran;
        }))
run_logevent-first_example =
    run_logevent-first errors ran old_events new_events at_end at_end its_turn refl refl refl
      new-IsPrintable

abbrev reader : LogeventModule integers
reader = record errors { first_run = false; log_event = true }

run_logevent-open_example :
    run_logevent true false true [] (batches new_events at_end) reader
    ≡ ok (
        some (record opened_errors {
          base =
              with_records opened_errors
                (event 1 (bytes "bad block") ∷ event 4 (bytes "started") ∷ [])
                ran;
        }))
run_logevent-open_example =
    run_logevent-open reader ran true false [] new_events at_end its_turn refl new-IsPrintable
