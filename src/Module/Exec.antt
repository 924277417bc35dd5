-- ===== src/Module/Exec.antt =====
-- The modules that run a command: `Pandora_Module_Exec` (modules/pandora_module_exec.cc) and
-- `Pandora_Module_Plugin` (modules/pandora_module_plugin.cc).
pub mod Laws
pub mod Report
use pandora_agent_win.Base.Int.{ℤ, pos}
use pandora_agent_win.Base.Result.{Result, ok, err, undefined_behaviour}
use pandora_agent_win.Base.{
  ℕ, Bool, true, false, List, [], ◌∷◌, ◌++◌, Option, none, some, ◌==◌, if◌then◌else◌,
}
use pandora_agent_win.Child.{Launch, no_job, no_pipe, not_created, created, poll_loop}
use pandora_agent_win.Data.{PandoraData, SystemTime}
use pandora_agent_win.Module.Defs.{Module, new_module}
use pandora_agent_win.Module.Kinds.{ModuleType, ModuleKind, exec, plugin}
use pandora_agent_win.Module.Output.{
  RunOutcome, fulfilled, interval_not_fulfilled, division_by_zero, run, set_output, clean_data_list,
}
use pandora_agent_win.Module.Setters.{set_kind, set_timeout}
use pandora_agent_win.Platform.{Platform}
use pandora_agent_win.Text.{Str, bytes}

-- The members of the class of its own.
pub record ExecModule (P : Platform) : Type 0 where
  pub base : Module P
  pub module_exec : Str
  pub proc : Bool

abbrev front_value : Option (List PandoraData) → Result Str
front_value none = ok []
front_value (some []) = err undefined_behaviour
front_value (some (d ∷ rest)) = ok d.value

module _ {P : Platform} where
  -- The constructor.
  unfoldable pub new_exec : Module P → (command : Str) → ExecModule P
  new_exec named command = record {
    base = set_kind named (bytes "module_exec");
    module_exec = bytes "cmd.exe /c \"" ++ (command ++ bytes "\"");
    proc = false;
  }

  -- The constructor of a ping.
  unfoldable pub new_ping : Module P → (host count timeout advanced_options : Str) → ExecModule P
  unfolding new_exec
  new_ping named host count timeout advanced_options =
      let command =
        bytes "ping -n "
        ++ (count
            ++ (bytes " -w "
                ++ (timeout ++ (bytes " " ++ (advanced_options ++ (bytes " " ++ host)))))) in
      let m = new_exec named command in
      record m { base = set_kind m.base (bytes "module_ping"); proc = true }

  -- The constructor of a plugin, with `INT_MAX` for the time.
  unfoldable pub new_plugin : Module P → (command : Str) → ExecModule P
  unfolding new_exec
  new_plugin named command =
      let m = new_exec named command in
      record m { base = set_timeout (set_kind m.base (bytes "module_plugin")) (pos 2147483647) }

  abbrev without_output : ExecModule P → ExecModule P
  without_output m = record m { base = record m.base { has_output = false } }

  abbrev pub exit_checked : (retval : ℕ) → ExecModule P → ExecModule P
  exit_checked retval m = if retval == 0 then m else without_output m

  -- The value, in the mode of `proc` and in the other.
  unfoldable pub store_output :
      SystemTime → (retval : ℕ) (output : Str) → ExecModule P → ExecModule P
  store_output now retval output m =
      if m.proc
      then (if retval == 0
          then record m { base = set_output now m.base (bytes "1") }
          else record m { base = record (set_output now m.base (bytes "0")) { has_output = true } })
      else record m { base = set_output now m.base output }

  abbrev pub read_process :
      SystemTime → (retval : ℕ) → ExecModule P → Option (Str × Str) → Option (ExecModule P)
  read_process now retval m none = none
  read_process now retval m (some (output, left)) =
      some (store_output now retval output (exit_checked retval m))

  -- `run`, when it is the turn of the module. `none`: the loop over the pipe is not left.
  unfoldable pub execute : SystemTime → Launch → ExecModule P → Option (ExecModule P)
  execute now no_job m = some (without_output m)
  execute now no_pipe m = some (without_output m)
  execute now not_created m = some (without_output m)
  execute now (created polls retval) m =
      read_process now retval m (poll_loop m.base.module_timeout [] polls)

  abbrev pub in_turn :
      SystemTime → Launch → ExecModule P → RunOutcome × Module P → Result (Option (ExecModule P))
  in_turn now launch m (fulfilled, base) = ok (execute now launch (record m { base = base }))
  in_turn now launch m (interval_not_fulfilled, base) =
      ok (some (without_output (record m { base = base })))
  in_turn now launch m (division_by_zero, base) = err undefined_behaviour

  -- `run`.
  unfoldable pub run_exec : SystemTime → Launch → ExecModule P → Result (Option (ExecModule P))
  run_exec now launch m = in_turn now launch m (run m.base)

  -- `getXml` of a plugin: the output as it is, whether there is one or not.
  unfoldable pub plugin_text : Module P → Result Str × Module P
  plugin_text m = (front_value m.data_list, clean_data_list m)
