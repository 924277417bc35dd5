-- ===== src/Service/Startup.antt =====
-- What the first `pandora_run` (pandora_windows_service.cc) does before its round.
use pandora_agent_win.Base.Int.{pos_part}
use pandora_agent_win.Base.{ℕ, ◌+◌, ◌*◌}
use pandora_agent_win.Conf.Defs.{Conf, get_value}
use pandora_agent_win.Strutils.{atoi}
use pandora_agent_win.Text.{bytes}
use pandora_agent_win.WindowsService.{Timer, set_iteration_base_ticks}

-- The milliseconds of `startup_delay`, if they are more than zero. The product is an `int` of the source.
unfoldable pub startup_delay : Conf → ℕ
startup_delay conf = pos_part (atoi (get_value conf (bytes "startup_delay"))) * 1000

-- The delay, and the timer, which is set anew after it. The wait ends `late` milliseconds too late.
unfoldable pub startup : Conf → (late : ℕ) → (now : ℕ) → Timer → Timer
startup conf late now t = set_iteration_base_ticks (now + (startup_delay conf + late)) t
