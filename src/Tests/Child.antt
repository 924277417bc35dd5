-- ===== src/Tests/Child.antt =====
-- The output of a child process, and the modules and preconditions that read it, at concrete inputs.
use pandora_agent_win.Base.Int.{pos}
use pandora_agent_win.Base.Result.{ok}
use pandora_agent_win.Base.{
  ℕ, ◌≡◌, ◌↔◌, ◌<◌, ◌⊎◌, inr, refl, arith, true, false, List, [], ◌∷◌, ◌++◌, some,
}
use pandora_agent_win.Child.{Poll, Launch, created, leaves_loop, chunk, poll_loop}
use pandora_agent_win.Child.Reads.{written_until, AreText, poll_loop-written_until, poll_loop_left}
use pandora_agent_win.Module.Defs.{Module, new_module}
use pandora_agent_win.Module.Exec.{ExecModule, run_exec}
use pandora_agent_win.Module.Exec.Laws.{exec_value, run_exec-exec_value}
use pandora_agent_win.Module.Output.{fulfilled, run}
use pandora_agent_win.Module.Preconditions.{evaluate_preconditions}
use pandora_agent_win.Module.Preconditions.Laws.{AreMet, IsCreating, evaluate_preconditions-AreMet}
use pandora_agent_win.Tests.Reports.{integers, noon, plain_module, above}
use pandora_agent_win.Text.{Str, bytes}
use pandora_agent_win.WindowsService.{to_dword}

abbrev first_poll : Poll
first_poll = record { written = bytes "4"; has_ended = false; elapsed = 500 }

abbrev last_poll : Poll
last_poll = record { written = bytes "2"; has_ended = true; elapsed = 900 }

abbrev pub two_polls : List Poll
two_polls = first_poll ∷ last_poll ∷ []

pub two_read : poll_loop (pos 15000) [] two_polls ≡ some (bytes "42", [])
unfolding poll_loop leaves_loop chunk to_dword
two_read = refl

pub two_AreText : AreText two_polls
two_AreText = ((omega arith, tt), ((omega arith, tt), tt))

poll_loop-written_until_example : bytes "42" ++ [] ≡ [] ++ written_until (pos 15000) two_polls
poll_loop-written_until_example =
    poll_loop-written_until (pos 15000) [] two_polls (bytes "42") [] tt two_AreText two_read

-- Of a process that does not end.
abbrev late_poll : Poll
late_poll = record { written = []; has_ended = false; elapsed = 15500 }

too_long : (late_poll.has_ended ≡ true) ⊎ (to_dword (pos 15000) < late_poll.elapsed)
unfolding to_dword
too_long = inr (omega arith)

poll_loop_left_example :
    (r : Str × Str) × (poll_loop (pos 15000) [] (first_poll ∷ late_poll ∷ []) ≡ some r)
poll_loop_left_example = poll_loop_left (pos 15000) [] (first_poll ∷ []) late_poll [] too_long

abbrev command : ExecModule integers
command = record { base = plain_module; module_exec = bytes "dir"; proc = false }

abbrev ran : Module integers
ran = record plain_module { executions = 1; has_output = true }

its_turn : run plain_module ≡ (fulfilled, ran)
unfolding run new_module
its_turn = refl

run_exec-exec_value_example :
    (m : ExecModule integers) × (run_exec noon (created two_polls 0) command ≡ ok (some m))
    × (m.base.latest_output ≡ exec_value false 0 (bytes "42"))
    × (m.base.has_output ≡ true)
unfolding new_module
run_exec-exec_value_example =
    run_exec-exec_value noon command ran two_polls 0 (bytes "42") [] its_turn refl two_read

abbrev guarded : Module integers
guarded = record plain_module { precondition_list = some (above (pos 40) ∷ []) }

abbrev launch_all : ℕ → Launch
launch_all k = created two_polls 0

all_created : IsCreating launch_all
all_created k = (two_polls, 0, refl)

evaluate_preconditions-AreMet_example :
    (evaluate_preconditions integers (pos 0) launch_all guarded ≡ some (ok true))
    ↔ AreMet (pos 0) launch_all guarded.module_timeout 0 (above (pos 40) ∷ [])
unfolding new_module
evaluate_preconditions-AreMet_example =
    evaluate_preconditions-AreMet (pos 0) launch_all guarded (above (pos 40) ∷ []) all_created refl
