-- ===== src/Module/Watch/Service.antt =====
-- The module that tells whether a service runs, `Pandora_Module_Service`
-- (modules/pandora_module_service.cc), and its thread, which starts the service again.
use pandora_agent_win.Base.Int.{ℤ, pos, eqb_ℤ}
use pandora_agent_win.Base.Result.{Result, ok, err, undefined_behaviour}
use pandora_agent_win.Base.{
  ℕ, ◌%◌, Bool, false, ◌&&◌, ◌||◌, List, [], ◌∷◌, ◌++◌, ◌==◌, if◌then◌else◌,
}
use pandora_agent_win.Data.{SystemTime}
use pandora_agent_win.KeyValue.{lower}
use pandora_agent_win.Module.Defs.{Module}
use pandora_agent_win.Module.Output.{
  RunOutcome, fulfilled, interval_not_fulfilled, division_by_zero, run, set_output,
}
use pandora_agent_win.Module.Setters.{set_kind}
use pandora_agent_win.Module.Watch.{Effect, start_service, wait, send_changed}
use pandora_agent_win.Platform.{Platform}
use pandora_agent_win.Strutils.{inttostr}
use pandora_agent_win.Text.{Str, bytes}

pub record ServiceModule (P : Platform) : Type 0 where
  pub base : Module P
  pub service_name : Str
  pub watchdog : Bool

-- A round: the log of the system cannot be opened, nothing happens in it in ten seconds, or it is
-- read, each time the type and the number of the first event of the buffer, and `isServiceRunning`
-- is asked.
pub data LogRound : Type 0 where
  no_log : LogRound
  quiet : LogRound
  events : List (ℕ × ℕ) → (res : ℤ) → LogRound

-- An event of information with the number of the start and the stop of a service.
unfoldable pub is_service_event : List (ℕ × ℕ) → Bool
is_service_event [] = false
is_service_event ((event_type, event_id) ∷ rest) =
    (event_type == 4 && event_id % 65536 == 7036) || is_service_event rest

module _ {P : Platform} where
  -- The constructor.
  unfoldable pub new_service : Module P → (service_name : Str) → ServiceModule P
  new_service named service_name = record {
    base = set_kind named (bytes "module_service");
    service_name = lower service_name;
    watchdog = false;
  }

  unfoldable pub event_round : ServiceModule P → (prev_res : Str) → (res : ℤ) → Str × List Effect
  event_round m prev_res res =
      let changed = send_changed (inttostr res) prev_res in
      (
        changed.0,
        changed.1
            ++ (if eqb_ℤ res (pos 0) && m.watchdog then start_service m.service_name ∷ [] else []),
      )

  -- The loop of the thread over the rounds that Windows has answered.
  unfoldable pub log_rounds : ServiceModule P → (prev_res : Str) → List LogRound → List Effect
  log_rounds m prev_res [] = []
  log_rounds m prev_res (no_log ∷ rest) = []
  log_rounds m prev_res (quiet ∷ rest) = wait 10000 ∷ log_rounds m prev_res rest
  log_rounds m prev_res (events l res ∷ rest) =
      let now = event_round m prev_res res in
      let after_event = log_rounds m now.0 rest in
      let without = log_rounds m prev_res rest in
      wait 10000 ∷ (if is_service_event l then now.1 ++ after_event else without)

  -- The thread.
  unfoldable pub watch_service : ServiceModule P → List LogRound → List Effect
  watch_service m l = log_rounds m m.base.latest_output l

  abbrev in_turn :
      SystemTime
      → (res : ℤ) → ServiceModule P
      → RunOutcome × Module P
      → Result (ServiceModule P × Bool)
  in_turn now res m (fulfilled, base) =
      let base' = set_output now base (inttostr res) in
      ok (record m { base = record base' { async = false } }, base.async)
  in_turn now res m (interval_not_fulfilled, base) = ok (record m { base = base }, false)
  in_turn now res m (division_by_zero, base) = err undefined_behaviour

  -- `run`, and whether it launches the thread.
  unfoldable pub run_service :
      SystemTime → (res : ℤ) → ServiceModule P → Result (ServiceModule P × Bool)
  run_service now res m = in_turn now res m (run m.base)
