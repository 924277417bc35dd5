-- ===== src/Service/Rounds.antt =====
-- The loop of `pandora_run` and of `pandora_run_broker` over the modules, and whether a report is sent.
pub mod Laws
use pandora_agent_win.Base.Int.{ℤ, leb_ℤ, ltb_ℤ, ◌+ℤ◌, ◌*ℤ◌}
use pandora_agent_win.Base.Result.{Result, ok, err, ◌>>=◌}
use pandora_agent_win.Base.{
  ℕ, Bool, true, false, not, ◌&&◌, ◌||◌, List, [], ◌∷◌, ◌++◌, Option, none, some, ◌==◌,
  if◌then◌else◌,
}
use pandora_agent_win.Cron.{Tm, check_cron}
use pandora_agent_win.Module.Conditions.{evaluate_intensive_conditions, evaluate_conditions}
use pandora_agent_win.Module.Defs.{Module}
use pandora_agent_win.Module.Output.{set_no_output, export_data_output}
use pandora_agent_win.Module.Setters.{set_timestamp, set_intensive_match}
use pandora_agent_win.Platform.{Platform}
use pandora_agent_win.Text.{Str, is_empty}

-- What a module needs from outside: its preconditions, whose commands are run; `run` of its kind; the
-- clock; whether a command of a condition is started; and what `strtodouble` leaves unset.
pub record Around (P : Platform) : Type 1 where
  pub preconditions : Module P → Bool
  pub run_kind : Module P → Module P
  pub local_time : ℤ → Option Tm
  pub time : ℤ
  pub starts : Str → Bool
  pub unset : P.Double

-- A module after a round: whether it has data, what was put into the environment, and the commands that
-- its conditions started.
pub record Ran (P : Platform) : Type 0 where
  pub module' : Module P
  pub has_data : Bool
  pub exported : Option Str
  pub commands : List Str

-- `unsigned char intensive_match`.
abbrev pub flag : Bool → ℕ
flag true = 1
flag false = 0

module _ {P : Platform} (out : Around P) (forced : Bool) (interval_sec run_time : ℤ) where
  abbrev pub silent : Module P → Option Str → Ran P
  silent m exported = record {
    module' = set_no_output m;
    has_data = false;
    exported = exported;
    commands = [];
  }

  -- The time at which the module is due.
  abbrev pub due_at : Module P → ℤ
  due_at m = m.timestamp +ℤ (m.module_interval *ℤ interval_sec)

  abbrev pub is_held_back : Module P → Bool → Bool
  is_held_back m intensive_match =
      not forced && (flag intensive_match == m.intensive_match) && ltb_ℤ run_time (due_at m)

  -- `setIntensiveMatch`, and `setTimestamp` where the interval is over.
  abbrev pub marked : Module P → Bool → Module P
  marked m intensive_match =
      let m' = set_intensive_match m (flag intensive_match) in
      if leb_ℤ (due_at m) run_time then set_timestamp m' run_time else m'

  abbrev exports : Module P → Result (Option Str)
  exports m = if is_empty m.save then ok none else (export_data_output m >>= λ text. ok (some text))

  -- From the data of the module on.
  unfoldable pub with_output : Module P → Result (Ran P)
  with_output m = do
    exported ← exports m
    intensive_match ← evaluate_intensive_conditions P out.unset m
    if is_held_back m intensive_match
        then ok (silent m exported)
        else (evaluate_conditions P out.starts out.unset (marked m intensive_match) >>= λ commands.
            ok (record {
              module' = marked m intensive_match;
              has_data = true;
              exported = exported;
              commands = commands;
            }))

  abbrev after_run : (has_output : Bool) → Module P → Result (Ran P)
  after_run false m = ok (silent m none)
  after_run true m = with_output m

  abbrev after_cron : Bool → Module P → Result (Ran P)
  after_cron false m = ok (silent m none)
  after_cron true m = let m' = out.run_kind m in after_run m'.has_output m'

  -- One round of the loop.
  unfoldable pub run_module : Module P → Result (Ran P)
  run_module m =
      if out.preconditions m
      then (let (matched, cron) = check_cron out.local_time m.cron out.time in
          after_cron matched (record m { cron = cron }))
      else ok (silent m none)

  -- The loop: the modules after it, and `data_flag`.
  unfoldable pub run_modules : List (Module P) → Result (List (Module P) × Bool)
  run_modules [] = ok ([], false)
  run_modules (m ∷ ms) = do
    ran ← run_module m
    rest ← run_modules ms
    ok (ran.module' ∷ rest.0, ran.has_data || rest.1)

-- Whether `sendXml` is called.
unfoldable pub sends_report :
    (forced data_flag : Bool) (timestamp interval_sec run_time : ℤ) (server_addr : Str) → Bool
sends_report forced data_flag timestamp interval_sec run_time server_addr =
    (forced || data_flag || leb_ℤ (timestamp +ℤ interval_sec) run_time)
    && not (is_empty server_addr)
