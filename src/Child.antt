-- ===== src/Child.antt =====
-- The output of a child process: the loop over its pipe that stands in modules/pandora_module_exec.cc,
-- in `evaluatePreconditions` of modules/pandora_module.cc and in `getCoordinatesFromGisExec` of
-- pandora_windows_service.cc. What the process writes, and when, is given.
pub mod Reads
use pandora_agent_win.Base.Int.{ℤ}
use pandora_agent_win.Base.{
  ℕ, Bool, true, false, List, [], ◌∷◌, ◌++◌, Option, none, some, ltb, take, drop, if◌then◌else◌,
}
use pandora_agent_win.Conf.Defs.{c_str}
use pandora_agent_win.Text.{Str}
use pandora_agent_win.WindowsService.{to_dword}

-- What a round of the loop finds, 500 milliseconds after the one before or less: what the process has
-- written since then, whether it has ended, and the milliseconds since its start.
pub record Poll : Type 0 where
  pub written : Str
  pub has_ended : Bool
  pub elapsed : ℕ

-- `BUFSIZE`.
abbrev pub buffer_size : ℕ
buffer_size = 4096

-- Whether the loop is left after this round. An `int` is compared with a `DWORD`.
unfoldable pub leaves_loop : (timeout : ℤ) → Poll → Bool
leaves_loop timeout p = if p.has_ended then true else ltb (to_dword timeout) p.elapsed

-- The buffer as a string: what is behind a zero byte is lost.
unfoldable pub chunk : (pipe : Str) → Str
chunk pipe = c_str (take buffer_size pipe)

-- What was read before the rest of the output.
abbrev pub after : Str → Option (Str × Str) → Option (Str × Str)
after front none = none
after front (some (output, left)) = some (front ++ output, left)

-- The loop: the output, and what is left in the pipe. `none`: there are no more rounds, and the loop has
-- not been left.
unfoldable pub poll_loop : (timeout : ℤ) (pipe : Str) → List Poll → Option (Str × Str)
poll_loop timeout pipe [] = none
poll_loop timeout pipe (p ∷ ps) =
    let full = pipe ++ p.written in
    let later = poll_loop timeout (drop buffer_size full) ps in
    if leaves_loop timeout p
    then some (chunk full, drop buffer_size full)
    else after (chunk full) later

-- How the process was started, if it was: the job and the pipe come first. `retval` is what
-- `GetExitCodeProcess` gives after the loop.
pub data Launch : Type 0 where
  no_job no_pipe not_created : Launch
  created : (polls : List Poll) (retval : ℕ) → Launch
