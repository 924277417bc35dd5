-- ===== src/Service/Gis.antt =====
-- `getCoordinatesFromGisExec` of `Pandora_Windows_Service` (pandora_windows_service.cc).
use pandora_agent_win.Base.Int.{pos}
use pandora_agent_win.Base.{ℕ, [], Option, none, some, ◌==◌, if◌then◌else◌}
use pandora_agent_win.Child.{Launch, no_job, no_pipe, not_created, created, poll_loop}
use pandora_agent_win.Text.{Str}

abbrev exit_checked : (retval : ℕ) → Option (Str × Str) → Option Str
exit_checked retval none = none
exit_checked retval (some (output, left)) = some (if retval == 0 then output else [])

-- What the command writes in 30 milliseconds. `none`: the loop over the pipe is not left.
unfoldable pub get_coordinates : Launch → Option Str
get_coordinates no_job = some []
get_coordinates no_pipe = some []
get_coordinates not_created = some []
get_coordinates (created polls retval) = exit_checked retval (poll_loop (pos 30) [] polls)
