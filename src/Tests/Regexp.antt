-- ===== src/Tests/Regexp.antt =====
-- A module with a regular expression (modules/pandora_module_regexp.cc) at concrete texts.
use pandora_agent_win.Base.{◌≡◌, refl, arith, false, List, [], ◌∷◌, some}
use pandora_agent_win.Module.Kinds.{generic_data_string}
use pandora_agent_win.Module.Regexp.{RegexpModule, matching, outputs, line_output, count_output}
use pandora_agent_win.Module.Regexp.Reads.{Change, appended, replaced, rounds, rounds-of_changes}
use pandora_agent_win.Tests.Reports.{integers}
use pandora_agent_win.Text.{bytes, find, is_prefix, lines}

abbrev errors : RegexpModule integers
errors = record {
  source = bytes "log";
  no_seek_eof = false;
  regexp = bytes "E";
  file = some 5;
  size = 5;
}

-- A line that matches and one that does not, then a new file.
abbrev changes : List Change
changes = appended (bytes "E1\nok\n") ∷ replaced (bytes "E2\n") ∷ []

rounds-of_changes_example :
    rounds generic_data_string (bytes "E0\nok") changes errors
    ≡ (bytes "E1" ∷ []) ∷ (bytes "E2" ∷ []) ∷ []
unfolding matching outputs line_output count_output find is_prefix lines
rounds-of_changes_example =
    rounds-of_changes generic_data_string (bytes "E0\nok") changes errors refl refl refl
      (omega arith, tt)
