-- ===== src/Module/Watch/Proc.antt =====
-- The module that tells how often a program runs, `Pandora_Module_Proc`
-- (modules/pandora_module_proc.cc), and its thread, which starts the program again.
use pandora_agent_win.Base.Int.{ℤ, pos, ltb_ℤ, leb_ℤ}
use pandora_agent_win.Base.Result.{Result, ok, err, undefined_behaviour}
use pandora_agent_win.Base.{
  ℕ, ◌+◌, ◌-◌, ◌^◌, ◌%◌, Bool, false, List, [], ◌∷◌, ◌++◌, ltb, if◌then◌else◌,
}
use pandora_agent_win.Data.{SystemTime}
use pandora_agent_win.KeyValue.{lower}
use pandora_agent_win.Module.Defs.{Module}
use pandora_agent_win.Module.Output.{
  RunOutcome, fulfilled, interval_not_fulfilled, division_by_zero, run, set_output,
}
use pandora_agent_win.Module.Setters.{set_kind}
use pandora_agent_win.Module.Watch.{Effect, sleep, run_program, wait, send_changed}
use pandora_agent_win.Platform.{Platform}
use pandora_agent_win.Strutils.{inttostr}
use pandora_agent_win.Text.{Str, bytes}

pub record ProcModule (P : Platform) : Type 0 where
  pub base : Module P
  pub process_name : Str
  pub watchdog : Bool
  pub start_command : Str
  pub retries : ℤ
  pub start_delay : ℤ
  pub retry_delay : ℤ

-- What the thread keeps from one round to the next. The watchdog is the module's.
pub record Watch : Type 0 where
  pub watchdog : Bool
  pub counter : ℕ
  pub prev_res : Str

-- A round: `getProcessHandles` finds nothing, or Windows tells how many processes there are, what the
-- wait for one of them gives, and how many there are after it.
pub data Sight : Type 0 where
  absent : Sight
  present : (count result count_after : ℕ) → Sight

-- `result > (WAIT_OBJECT_0 + nprocess - 1)`, on 32 bits without sign.
abbrev pub no_event : (result nprocess : ℕ) → Bool
no_event result nprocess = ltb ((nprocess + (2 ^ 32 - 1)) % 2 ^ 32) result

-- A round of the thread that finds the process.
unfoldable pub present_round : Watch → (count result count_after : ℕ) → Watch × List Effect
present_round w count result count_after =
    let first = send_changed (inttostr (pos count)) w.prev_res in
    let seen = record w { counter = 0; prev_res = first.0 } in
    let done = first.1 ++ wait 10000 ∷ [] in
    if no_event result count
    then (seen, done)
    else (let second = send_changed (inttostr (pos count_after)) first.0 in
        (record seen { prev_res = second.0 }, done ++ second.1))

module _ {P : Platform} where
  -- The constructor.
  unfoldable pub new_proc : Module P → (process_name : Str) → ProcModule P
  new_proc named process_name = record {
    base = set_kind named (bytes "module_proc");
    process_name = lower process_name;
    watchdog = false;
    start_command = [];
    retries = pos 3;
    start_delay = pos 5000;
    retry_delay = pos 2000;
  }

  unfoldable pub set_retries : ProcModule P → ℤ → ProcModule P
  set_retries m retries = if ltb_ℤ retries (pos 1) then m else record m { retries = retries }

  unfoldable pub set_start_delay : ProcModule P → ℤ → ProcModule P
  set_start_delay m mseconds =
      if ltb_ℤ mseconds (pos 0) then m else record m { start_delay = mseconds }

  unfoldable pub set_retry_delay : ProcModule P → ℤ → ProcModule P
  set_retry_delay m mseconds =
      if ltb_ℤ mseconds (pos 0) then m else record m { retry_delay = mseconds }

  -- A round of the thread that finds no process.
  unfoldable pub absent_round : ProcModule P → Watch → Watch × List Effect
  absent_round m w =
      if w.watchdog
      then (if leb_ℤ m.retries (pos w.counter) then (record w { watchdog = false }, []) else (
        record w { counter = w.counter + 1 },
        sleep m.retry_delay ∷ run_program m.start_command ∷ sleep m.start_delay ∷ [],
      ))
      else (w, sleep (pos 2000) ∷ [])

  unfoldable pub round : ProcModule P → Watch → Sight → Watch × List Effect
  round m w absent = absent_round m w
  round m w (present count result count_after) = present_round w count result count_after

  -- The loop, which is not left, over the rounds that Windows has answered.
  unfoldable pub rounds : ProcModule P → Watch → List Sight → Watch × List Effect
  rounds m w [] = (w, [])
  rounds m w (s ∷ ss) =
      let now = round m w s in let later = rounds m now.0 ss in (later.0, now.1 ++ later.1)

  -- The thread.
  unfoldable pub async_run : ProcModule P → List Sight → Watch × List Effect
  async_run m ss =
      let w : Watch = record {
        watchdog = m.watchdog;
        counter = 0;
        prev_res = m.base.latest_output;
      } in
      let all = rounds m w ss in (all.0, sleep m.start_delay ∷ all.1)

  abbrev in_turn :
      SystemTime
      → (running : ℕ) → ProcModule P
      → RunOutcome × Module P
      → Result (ProcModule P × Bool)
  in_turn now running m (fulfilled, base) =
      let base' = set_output now base (inttostr (pos running)) in
      ok (record m { base = record base' { async = false } }, base.async)
  in_turn now running m (interval_not_fulfilled, base) = ok (record m { base = base }, false)
  in_turn now running m (division_by_zero, base) = err undefined_behaviour

  -- `run`, and whether it launches the thread.
  unfoldable pub run_proc : SystemTime → (running : ℕ) → ProcModule P → Result (ProcModule P × Bool)
  run_proc now running m = in_turn now running m (run m.base)
