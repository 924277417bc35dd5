-- ===== src/Service/Run.antt =====
-- `pandora_run` and `pandora_run_broker`: a round of the agent and of its drones.
pub mod Times
use pandora_agent_win.Base.Int.{ℤ, pos, eqb_ℤ, leb_ℤ, ◌+ℤ◌}
use pandora_agent_win.Base.Result.{ok}
use pandora_agent_win.Base.{
  ℕ, suc, ◌+◌, ◌==◌, not, Bool, true, false, List, [], ◌∷◌, ◌++◌, Option, none, some, if◌then◌else◌,
}
use pandora_agent_win.Conf.Broker.{check_brokers}
use pandora_agent_win.Data.{SystemTime}
use pandora_agent_win.Module.Defs.{Module}
use pandora_agent_win.Platform.{Platform}
use pandora_agent_win.Service.Collections.{check_collections}
use pandora_agent_win.Service.Config.{check_config}
use pandora_agent_win.Service.Outside.{Outside}
use pandora_agent_win.Service.Rounds.{Around, run_modules, sends_report}
use pandora_agent_win.Service.SendXml.{Sent, send_xml}
use pandora_agent_win.Service.State.{
  Intervals, State, conf_file, count_broker_agents, pandora_init, pandora_init_broker,
}
use pandora_agent_win.Service.World.{
  World, Run, endless, done, ◌>>=◌, ◌>>◌, return, get, from_result,
}
use pandora_agent_win.Text.{Str, bytes, lines}

-- What a round finds: the clock, what `rand` returns, the modules' surroundings and the debug mode.
pub record Moment (P : Platform) : Type 1 where
  pub around : Around P
  pub now : SystemTime
  pub time : ℤ
  pub gis : Str → Str
  pub number : ℤ
  pub debug : Bool

module _ {P : Platform} (env : Outside) (unset : Module P) (m : Moment P) where
  abbrev pub loop_over : (forced : Bool) → State P → Option (List (Module P)) → Run (State P × Bool)
  loop_over forced s none = return (s, false)
  loop_over forced s (some ms) = do
    (ms', data_flag) ←
        from_result (run_modules m.around forced s.intervals.interval_sec s.run_time ms)
    return (record s { modules = some ms' }, data_flag)

  abbrev pub sent_state : State P → Sent P → State P
  sent_state s sent = record s { modules = sent.modules }

  -- The report, where it is due. What `sendXml` returns is not looked at.
  abbrev pub send_due : (forced : Bool) (server_addr : Str) → State P × Bool → Run (State P)
  send_due forced server_addr (s, data_flag) =
      if sends_report forced data_flag s.timestamp s.intervals.interval_sec s.run_time server_addr
      then (send_xml env m.around.unset m.debug m.now m.gis m.number s.modules >>= λ sent.
          return (sent_state s sent))
      else return s

  -- The modules, then the report.
  unfoldable pub run_and_send : (forced : Bool) → State P → Run (State P)
  run_and_send forced s = do
    server_addr ← get (bytes "server_ip")
    looped ← loop_over forced s s.modules
    send_due forced server_addr looped

  abbrev pub reinit : (rc : ℤ) → Run (State P) → State P → Run (State P)
  reinit rc init s = if eqb_ℤ rc (pos 1) then init else return s

  -- The check for changes, which debugging leaves out.
  abbrev pub checked : (file : Str) (init : State P → Run (State P)) → State P → Run (State P)
  checked file init s = if m.debug then return s else (do
    rc ← check_config env file
    s' ← reinit rc (init s) s
    check_collections env
    return s')

  -- `pandora_run_broker`.
  unfoldable pub pandora_run_broker : (config : Str) → State P → Run (State P)
  pandora_run_broker config s =
      checked config (pandora_init_broker env unset config) s >>= run_and_send false

  -- The loop over the drone agents.
  unfoldable pub run_brokers : List Str → State P → Run (State P)
  run_brokers [] s = return s
  run_brokers (config ∷ rest) s = do
    s' ← pandora_init_broker env unset config s
    s'' ← pandora_run_broker config s'
    run_brokers rest s''

  abbrev broker_paths : Option Str → Run (List Str)
  broker_paths none w = endless
  broker_paths (some text) w = from_result (check_brokers env.install_dir (lines text)) w

  abbrev pub check_broker_agents : Run (List Str)
  check_broker_agents w = broker_paths (w.disk.file (conf_file env unset)) w

  -- The reset of the time reference.
  abbrev pub with_timestamp : State P → State P
  with_timestamp s =
      if leb_ℤ (s.timestamp +ℤ s.intervals.interval_sec) s.run_time
      then record s { timestamp = s.run_time }
      else s

  -- `pandora_run`, without `startup`, which is what the first call does before.
  unfoldable pub pandora_run : (forced : Bool) → State P → Run (State P)
  pandora_run forced s = do
    let s₁ = record s { run_time = m.time }
    s₂ ← checked (conf_file env unset) (pandora_init env unset) s₁
    s₃ ← run_and_send forced (record s₂ { execution_number = s₂.execution_number + 1 })
    num ← count_broker_agents (conf_file env unset)
    all_conf ← check_broker_agents
    s₄ ← run_brokers all_conf s₃
    s₅ ← (if num == 0 then return s₄ else pandora_init env unset s₄)
    return (with_timestamp s₅)
