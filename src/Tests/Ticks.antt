-- ===== src/Tests/Ticks.antt =====
-- The loop of the service (windows_service.cc) at concrete times.
use pandora_agent_win.Base.Int.{pos}
use pandora_agent_win.Base.{false, [], ◌∷◌}
use pandora_agent_win.WindowsService.{Timer, Turn}
use pandora_agent_win.Conf.Defs.{Conf}
use pandora_agent_win.Service.Startup.{startup}
use pandora_agent_win.Text.{bytes}

abbrev minute : Timer
minute = record { sleep_time = pos 60000; iter_base_ticks = 0 }

-- A delay of two seconds.
abbrev delayed : Conf
delayed = record {
  key_values = record { key = bytes "startup_delay"; value = bytes "2" } ∷ [];
  collection_list = [];
  collection_it = 0;
  broker_enabled = false;
}

-- The first round, which works for a second, and a wait that ends 10 milliseconds too late.
abbrev first : Turn
first = record { run = startup delayed 5; takes = 3005; late = 10 }

-- A round that takes a second.
abbrev quick : Turn
quick = record { run = λ n t. t; takes = 1000; late = 10 }

-- One that takes longer than the sleep time.
abbrev slow : Turn
slow = record { run = λ n t. t; takes = 70000; late = 0 }
