-- ===== src/Module/Exec/Laws.antt =====
-- What a module that runs a command has as its value.
use pandora_agent_win.Base.Result.{ok}
use pandora_agent_win.Base.{
  ℕ, ◌≡◌, refl, Bool, true, ◌||◌, Bool-cases, inl, inr, List, [], some, ◌==◌, if◌then◌else◌,
}
use pandora_agent_win.Child.{Poll, created, poll_loop}
use pandora_agent_win.Data.{SystemTime}
use pandora_agent_win.Module.Defs.{Module}
use pandora_agent_win.Module.Exec.{
  ExecModule, exit_checked, in_turn, read_process, store_output, execute, run_exec,
}
use pandora_agent_win.Module.Output.{fulfilled, run, set_output}
use pandora_agent_win.Platform.{Platform}
use pandora_agent_win.Text.{Str, bytes}

-- The text that a finished process stands for.
abbrev pub exec_value : (proc : Bool) (retval : ℕ) (output : Str) → Str
exec_value proc retval output =
    if proc then (if retval == 0 then bytes "1" else bytes "0") else output

module _ {P : Platform} where
  stored :
      (now : SystemTime) (m : ExecModule P) (retval : ℕ) (output : Str)
      → m.base.has_output ≡ true
      → ((store_output now retval output (exit_checked retval m)).base.latest_output
          ≡ exec_value m.proc retval output)
        × ((store_output now retval output (exit_checked retval m)).base.has_output
            ≡ (m.proc || (retval == 0)))
  unfolding store_output set_output
  stored now m retval output h = elim (Bool-cases m.proc) [
    | inl p ↦ elim (Bool-cases (retval == 0)) [
      | inl z ↦ rw (z, p, h) (refl, refl)
      | inr z ↦ rw (z, p) (refl, refl)
    ]
    | inr p ↦ elim (Bool-cases (retval == 0)) [
      | inl z ↦ rw (z, p, h) (refl, refl)
      | inr z ↦ rw (z, p) (refl, refl)
    ]
  ]

  -- A module in its turn whose process was started and whose loop over the pipe is left has the value
  -- that the process stands for: in the mode `proc` whether its code is zero, else what was read of its
  -- output. In the mode `proc` it always has output, else where the code is zero.
  pub run_exec-exec_value :
      (now : SystemTime) (m : ExecModule P) (base : Module P) (polls : List Poll) (retval : ℕ)
      (output left : Str)
      → run m.base ≡ (fulfilled, base)
      → base.has_output ≡ true
      → poll_loop base.module_timeout [] polls ≡ some (output, left)
      → (m' : ExecModule P) × (run_exec now (created polls retval) m ≡ ok (some m'))
        × (m'.base.latest_output ≡ exec_value m.proc retval output)
        × (m'.base.has_output ≡ (m.proc || (retval == 0)))
  unfolding run_exec execute
  run_exec-exec_value now m base polls retval output left r h p = (
    store_output now retval output (exit_checked retval (record m { base = base })),
    rw (r, in_turn, p, read_process) refl,
    (stored now (record m { base = base }) retval output h).0,
    (stored now (record m { base = base }) retval output h).1,
  )
