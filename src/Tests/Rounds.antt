-- ===== src/Tests/Rounds.antt =====
-- A round of the agent (pandora_windows_service.cc) at a concrete state.
use pandora_agent_win.Base.Int.{pos, ◌+ℤ◌}
use pandora_agent_win.Base.{refl, true, false, [], ◌∷◌, none, some, if◌then◌else◌}
use pandora_agent_win.Conf.Broker.{count_brokers, check_brokers}
use pandora_agent_win.Conf.Defs.{
  Conf, get_value_in, is_last_collection, go_first_collection, is_broker_enabled,
}
use pandora_agent_win.Module.Output.{set_no_output}
use pandora_agent_win.Module.Defs.{new_module}
use pandora_agent_win.Service.Config.{check_config}
use pandora_agent_win.Service.Collections.{
  check_collections, check_loop, purge_entries, purge_disk_collections,
}
use pandora_agent_win.Service.Rounds.{run_module, run_modules, sends_report}
use pandora_agent_win.Service.Run.{Moment, run_and_send, run_brokers, pandora_run}
use pandora_agent_win.Service.Run.Times.{IsNextRound, pandora_run-IsNextRound}
use pandora_agent_win.Service.State.{State}
use pandora_agent_win.Service.World.{World, ended_by}
use pandora_agent_win.Tests.Reports.{integers, plain_module, noon}
use pandora_agent_win.Tests.Service.{test_env, around}
use pandora_agent_win.Text.{bytes, eq_str, is_prefix, find, lines}

abbrev quiet_conf : Conf
quiet_conf = record {
  key_values = record { key = bytes "temporal"; value = bytes "T" } ∷ [];
  collection_list = [];
  collection_it = 0;
  broker_enabled = false;
}

abbrev quiet_world : World
quiet_world = record {
  conf = quiet_conf;
  disk = record {
    file = λ path.
        if eq_str path (bytes "I\\pandora_agent.conf") then some (bytes "interval 300") else none;
    operations = 0;
    writable = λ path. true;
    stored = λ operations path text. text;
    removable = λ operations path. true;
  };
  path = [];
  requests = [];
}

abbrev moment : Moment integers
moment = record {
  around = around false;
  now = noon;
  time = pos 1000;
  gis = λ command. [];
  number = pos 0;
  debug = false;
}

abbrev first_state : State integers
first_state = record {
  modules = some (plain_module ∷ []);
  intervals = record {
    interval = pos 300000;
    interval_sec = pos 300;
    intensive_interval = pos 300000;
  };
  run_time = pos 0;
  timestamp = pos 0;
  execution_number = 0;
}

abbrev second_state : State integers
second_state = record first_state {
  modules = some (record plain_module { has_output = false } ∷ []);
  run_time = pos 1000;
  timestamp = pos 1000;
  execution_number = 1;
}

pandora_run-IsNextRound_example : IsNextRound test_env plain_module moment first_state second_state
unfolding pandora_run run_and_send run_brokers check_config check_collections run_module run_modules
    set_no_output new_module get_value_in eq_str is_prefix find lines count_brokers check_brokers
    ended_by check_loop is_last_collection go_first_collection purge_disk_collections
    is_broker_enabled purge_entries sends_report ◌+ℤ◌
pandora_run-IsNextRound_example =
    pandora_run-IsNextRound test_env plain_module moment false quiet_world quiet_world first_state
      second_state refl
