-- ===== src/Service/State.antt =====
-- The members of `Pandora_Windows_Service`, and `pandora_init` and `pandora_init_broker`.
use pandora_agent_win.Base.Int.{ℤ, pos, ◌*ℤ◌}
use pandora_agent_win.Base.{ℕ, List, ◌++◌, Option, none, some, if◌then◌else◌}
use pandora_agent_win.Conf.Broker.{Brokers, set_all, count_brokers}
use pandora_agent_win.Conf.File.{set_file}
use pandora_agent_win.Module.Defs.{Module}
use pandora_agent_win.ModuleList.Iterator.{new_list_from}
use pandora_agent_win.Platform.{Platform}
use pandora_agent_win.Service.Config.{agent_name_in}
use pandora_agent_win.Service.Outside.{Outside}
use pandora_agent_win.Service.World.{Run, endless, done, ◌>>=◌, ◌>>◌, return, get, from_result}
use pandora_agent_win.Strutils.{Conversion, converted, invalid_conversion, strtoint}
use pandora_agent_win.Text.{Str, bytes, is_empty, lines}

-- The intervals in milliseconds, and `interval_sec` in seconds.
pub record Intervals : Type 0 where
  pub interval : ℤ
  pub interval_sec : ℤ
  pub intensive_interval : ℤ

pub record State (P : Platform) : Type 0 where
  pub modules : Option (List (Module P))
  pub intervals : Intervals
  pub run_time : ℤ
  pub timestamp : ℤ
  pub execution_number : ℕ

abbrev with_seconds : Conversion ℤ → Intervals → Intervals
with_seconds (converted n) i = record i { interval = n *ℤ pos 1000; interval_sec = n }
with_seconds invalid_conversion i = i

abbrev with_intensive_seconds : Conversion ℤ → Intervals → Intervals
with_intensive_seconds (converted n) i = record i { intensive_interval = n *ℤ pos 1000 }
with_intensive_seconds invalid_conversion i = i

-- The two settings. An interval that is no number leaves the one before.
unfoldable pub set_intervals :
    (unset : ℤ) (interval intensive_interval : Str) → Intervals → Intervals
set_intervals unset interval intensive_interval i =
    let i' = if is_empty interval then i else with_seconds (strtoint unset interval) i in
    if is_empty intensive_interval
    then record i' { intensive_interval = i'.interval }
    else with_intensive_seconds (strtoint unset intensive_interval) i'

abbrev count_text : Option Str → Run ℕ
count_text none w = endless
count_text (some text) w = done w (count_brokers (lines text))

-- `count_broker_agents`, whose loop has no end without the file.
abbrev pub count_broker_agents : (filename : Str) → Run ℕ
count_broker_agents filename w = count_text (w.disk.file filename) w

abbrev put_brokers : Brokers → Run (Unit {0})
put_brokers b w = done (record w { conf = b.conf; disk = b.disk }) tt

module _ {P : Platform} (env : Outside) (unset : Module P) where
  abbrev pub conf_file : Str
  conf_file = env.install_dir ++ bytes "pandora_agent.conf"

  -- `new Pandora_Module_List (filename)`.
  abbrev pub load_modules : Intervals → (filename : Str) → Run (List (Module P))
  load_modules i filename w =
      (from_result (
            new_list_from
              (record { interval = i.interval; intensive_interval = i.intensive_interval })
              env.unset_int unset w.disk.file filename)
          >>= λ l. return l.modules)
        w

  abbrev pub set_all_conf : Run (Unit {0})
  set_all_conf w =
      (from_result
            (set_all env.install_dir (record { conf = w.conf; disk = w.disk; first_conf = none }))
          >>= put_brokers)
        w

  -- `pandora_init`, but for the environment, the log, the proxy and the UDP server.
  unfoldable pub pandora_init : State P → Run (State P)
  pandora_init s = do
    num ← count_broker_agents conf_file
    set_all_conf
    interval ← get (bytes "interval")
    intensive_interval ← get (bytes "intensive_interval")
    let i = set_intervals env.unset_int interval intensive_interval s.intervals
    modules ← load_modules i conf_file
    name ← agent_name_in conf_file
    return (record s { intervals = i; modules = some modules })

  abbrev pub set_conf : (filename : Str) → Run (Unit {0})
  set_conf filename w =
      (from_result (set_file w.disk.file filename w.conf) >>= λ conf v.
      done (record v { conf = conf }) tt)
        w

  -- `pandora_init_broker`: the intervals stay.
  unfoldable pub pandora_init_broker : (file_conf : Str) → State P → Run (State P)
  pandora_init_broker file_conf s = do
    name ← agent_name_in file_conf
    set_conf file_conf
    modules ← load_modules s.intervals file_conf
    return (record s { modules = some modules })
