-- ===== src/Module/Preconditions.antt =====
-- `evaluatePreconditions` (modules/pandora_module.cc): the command of each precondition is run, and the
-- condition is tested on its output. `launch` tells how the command at each place in the list was
-- started and what it did.
pub mod Laws
use pandora_agent_win.Base.Int.{ℤ}
use pandora_agent_win.Base.Result.{Result, ok, err, undefined_behaviour}
use pandora_agent_win.Base.{
  ℕ, suc, ◌+◌, Bool, true, false, List, [], ◌∷◌, Option, none, some, ◌==◌, if◌then◌else◌,
}
use pandora_agent_win.Child.{Launch, no_job, no_pipe, not_created, created, poll_loop}
use pandora_agent_win.Module.Conditions.{evaluate_condition, double_of}
use pandora_agent_win.Module.Defs.{Condition, Module}
use pandora_agent_win.Platform.{Platform}
use pandora_agent_win.Text.{Str}

-- Where the condition holds, the next one is looked at.
abbrev pub and_then : Result Bool → Option (Result Bool) → Option (Result Bool)
and_then (err way) later = some (err way)
and_then (ok false) later = some (ok false)
and_then (ok true) later = later

module _ (P : Platform) (unset : P.Double) where
  -- The end of a process; `next` is the test of the condition, and what follows.
  abbrev pub process_read :
      (retval : ℕ)
      → Option (Str × Str)
      → (Str → P.Double → Option (Result Bool))
      → Option (Result Bool)
  process_read retval none next = none
  process_read retval (some (output, left)) next =
      if retval == 0 then next output (double_of P unset output) else some (ok false)

  -- A process that was not created leaves the variables as the precondition before left them.
  abbrev pub with_launch :
      (timeout : ℤ) (output : Str) (double_output : P.Double)
      → Launch
      → (Str → P.Double → Option (Result Bool))
      → Option (Result Bool)
  with_launch timeout output double_output no_job next = some (ok false)
  with_launch timeout output double_output no_pipe next = some (ok false)
  with_launch timeout output double_output not_created next = next output double_output
  with_launch timeout output double_output (created polls retval) next =
      process_read retval (poll_loop timeout [] polls) next

  -- The loop over the list, from the place `k`. `none`: the loop over a pipe is not left.
  unfoldable pub precondition_loop :
      (launch : ℕ → Launch) (timeout : ℤ) (k : ℕ) (output : Str) (double_output : P.Double)
      → List (Condition P)
      → Option (Result Bool)
  precondition_loop launch timeout k output double_output [] = some (ok true)
  precondition_loop launch timeout k output double_output (c ∷ cs) =
      with_launch timeout output double_output (launch k) (λ o d.
        and_then (evaluate_condition P o d c) (precondition_loop launch timeout (suc k) o d cs))

  -- `evaluatePreconditions`. `double_output` is not set before a process is read.
  unfoldable pub evaluate_preconditions : (launch : ℕ → Launch) → Module P → Option (Result Bool)
  evaluate_preconditions launch m = elim m.precondition_list [
    | none ↦ some (ok true)
    | some cs ↦ precondition_loop launch m.module_timeout 0 [] unset cs
  ]
