-- ===== src/Tests/Factory.antt =====
-- A module definition (modules/pandora_module_factory.cc) at concrete inputs.
use pandora_agent_win.Base.Int.{pos}
use pandora_agent_win.Base.{◌≡◌, some}
use pandora_agent_win.Factory.Build.Laws.{IsSound, build-IsSound}
use pandora_agent_win.Factory.Build.{Service, build}
use pandora_agent_win.Factory.Tokens.First.{first_value, all_values, lines_of, read_definition_lem}
use pandora_agent_win.Factory.Tokens.{
  read_definition, token_text, token_name, precondition_text, condition_text,
  intensive_condition_text, macro_text,
}
use pandora_agent_win.Factory.Work.{exec_work}
use pandora_agent_win.Tests.Reports.{plain_module}
use pandora_agent_win.Text.{Str, bytes}

abbrev text : Str
text = bytes "module_name a\nmodule_exec b\nmodule_name c\nmodule_condition > 1 d\n"

read_definition_lem_example :
    ((read_definition text).token_value token_name
      ≡ first_value (token_text token_name) (lines_of text))
    × ((read_definition text).precondition_list ≡ all_values precondition_text (lines_of text))
    × ((read_definition text).condition_list ≡ all_values condition_text (lines_of text))
    × ((read_definition text).intensive_condition_list
        ≡ all_values intensive_condition_text (lines_of text))
    × ((read_definition text).macro_list ≡ all_values macro_text (lines_of text))
read_definition_lem_example = read_definition_lem text token_name

abbrev service : Service
service = record { interval = pos 30000; intensive_interval = pos 60000 }

build-IsSound_example :
    IsSound
      ((read_definition text).token_value token_name)
      (build service (pos 0) plain_module (read_definition text) (some (exec_work (bytes "b"))))
build-IsSound_example =
    build-IsSound service (pos 0) plain_module (read_definition text) (some (exec_work (bytes "b")))
