-- ===== src/Tests/Reported.antt =====
-- From what Windows gives to the text that is reported, at concrete answers.
use pandora_agent_win.Base.Int.{pos}
use pandora_agent_win.Base.Result.{ok}
use pandora_agent_win.Base.{◌<◌, ◌≡◌, refl, arith, true, false, List, [], ◌∷◌, ◌++◌, some, length}
use pandora_agent_win.Child.{created, leaves_loop}
use pandora_agent_win.Data.{new_data}
use pandora_agent_win.Module.Defs.{Module, new_module}
use pandora_agent_win.Module.Exec.{ExecModule, run_exec}
use pandora_agent_win.Module.Exec.Report.{run_exec-expected_xml}
use pandora_agent_win.Module.Inventory.{InventoryModule, Found, run_inventory, inventory_xml}
use pandora_agent_win.Module.Inventory.Groups.{groups_text}
use pandora_agent_win.Module.Inventory.Sections.{
  sections, chosen, all_entries, run_inventory-chosen,
}
use pandora_agent_win.Module.Kinds.{generic_data_string}
use pandora_agent_win.Module.Output.{fulfilled, run}
use pandora_agent_win.Module.Xml.{xml, get_xml}
use pandora_agent_win.Module.Xml.Laws.{expected_xml}
use pandora_agent_win.Tests.Child.{two_polls, two_read, two_AreText}
use pandora_agent_win.Tests.Reports.{integers, noon, plain_module}
use pandora_agent_win.Text.{Str, bytes, find, is_prefix}
use pandora_agent_win.WindowsService.{to_dword}
use pandora_agent_win.Wmi.Info.{Info, hds, cpus}

abbrev text_module : Module integers
text_module = record plain_module { module_type = generic_data_string }

abbrev text_ran : Module integers
text_ran = record text_module { executions = 1; has_output = true }

text_turn : run text_module ≡ (fulfilled, text_ran)
unfolding run new_module
text_turn = refl

abbrev command : ExecModule integers
command = record { base = text_module; module_exec = bytes "dir"; proc = false }

run_exec-expected_xml_example :
    (m : ExecModule integers) × (run_exec noon (created two_polls 0) command ≡ ok (some m))
    × ((get_xml (pos 0) m.base).0
        ≡ xml (expected_xml (pos 0) m.base (new_data (bytes "42") noon (bytes "cpu") ∷ [])))
unfolding new_module leaves_loop to_dword
run_exec-expected_xml_example =
    run_exec-expected_xml (pos 0) noon command text_ran two_polls (bytes "42") [] text_turn refl
      refl refl refl refl two_AreText (omega arith, (omega arith, tt)) two_read

abbrev rows_found : Info → List Str
rows_found hds = bytes "C:" ∷ bytes "D:" ∷ []
rows_found cpus = bytes "x86" ∷ []
rows_found _ = []

abbrev two_found : Found
two_found = record { info = rows_found; software = bytes "editor" ∷ [] }

abbrev inventory : InventoryModule integers
inventory = record { base = text_module; options = bytes "CPU,HD"; interval_fixed = true }

inventory_turn : run (record text_module { has_output = false }) ≡ (fulfilled, text_ran)
unfolding run new_module
inventory_turn = refl

three_entries : 1 < length (all_entries noon (chosen (bytes "CPU,HD") (sections two_found)))
unfolding find is_prefix
three_entries = omega arith

run_inventory-chosen_example :
    (m : InventoryModule integers) × (run_inventory noon two_found (pos 300000) inventory ≡ ok m)
    × ((inventory_xml (pos 0) m.base).0
        ≡ xml (
            bytes "\t<inventory>\n"
            ++ groups_text [] (chosen (bytes "CPU,HD") (sections two_found))))
unfolding new_module
run_inventory-chosen_example =
    run_inventory-chosen (pos 0) noon two_found (pos 300000) inventory text_ran refl inventory_turn
      refl refl refl three_entries
