-- ===== src/Tests/Watch.antt =====
-- The threads of the modules that watch a process and a service, at concrete rounds.
use pandora_agent_win.Base.Int.{pos}
use pandora_agent_win.Base.{◌≡◌, refl, arith, true, false, List, [], ◌∷◌, ◌++◌}
use pandora_agent_win.Module.Defs.{new_module}
use pandora_agent_win.Module.Watch.{sent, started}
use pandora_agent_win.Module.Watch.Proc.{
  ProcModule, Watch, Sight, absent, present, rounds, async_run,
}
use pandora_agent_win.Module.Watch.Changes.{IsChanging, async_run-IsChanging}
use pandora_agent_win.Module.Watch.Starts.{absences, rounds_absent}
use pandora_agent_win.Tests.Reports.{integers, plain_module}
use pandora_agent_win.Text.{bytes}

abbrev guarded : ProcModule integers
guarded = record {
  base = plain_module;
  process_name = bytes "httpd.exe";
  watchdog = true;
  start_command = bytes "httpd";
  retries = pos 3;
  start_delay = pos 5000;
  retry_delay = pos 2000;
}

abbrev one_start : Watch
one_start = record { watchdog = true; counter = 1; prev_res = bytes "1" }

abbrev seen : List Sight
seen = present 2 0 1 ∷ absent ∷ present 1 258 1 ∷ []

rounds_absent_example :
    started (rounds guarded one_start (absences 4 ++ seen)).1 ≡ 2
    × (rounds guarded one_start (absences 4 ++ seen)).0.watchdog ≡ false
rounds_absent_example =
    rounds_absent guarded 3 4 one_start seen refl refl (omega arith) (omega arith)

async_run-IsChanging_example : IsChanging [] (sent (async_run guarded seen).1)
unfolding new_module
async_run-IsChanging_example = async_run-IsChanging guarded seen
