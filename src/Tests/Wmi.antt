-- ===== src/Tests/Wmi.antt =====
-- What is made of the answers of Windows, at concrete answers.
use pandora_agent_win.Base.Int.{pos}
use pandora_agent_win.Base.{◌≡◌, ◌≤◌, refl, true, false, not, [], ◌∷◌, none, some, if◌then◌else◌}
use pandora_agent_win.File.RemoveDir.{Node, file, folder, no_entry, dots, entry, remove_dir}
use pandora_agent_win.File.RemoveDir.Laws.{all_removable, remove_dir-all_removable}
use pandora_agent_win.Registry.{binary, value_text, hex_text}
use pandora_agent_win.Strutils.{
  converted, longtohex, hex_onto, strtoint, scan_int, skip_space, read_digits, inttostr, print_ℕ,
}
use pandora_agent_win.Text.{Str, bytes, eq_str, is_some}
use pandora_agent_win.Wmi.{Row, Answer, rows, get_cpu_usage_percentage, cpu_loop, mean}
use pandora_agent_win.Wmi.Laws.{get_cpu_usage_percentage_bounded}

abbrev named : Str → Row
named name = record {
  text = λ column. if eq_str column (bytes "Name") then some name else none;
  number = λ column. pos 30;
  size = λ column. 0;
  addresses = [];
}

abbrev answer : Answer
answer = rows (named (bytes "a") ∷ named (bytes "b") ∷ []) true

usage : get_cpu_usage_percentage answer ≡ some 30
unfolding get_cpu_usage_percentage cpu_loop mean
usage = refl

get_cpu_usage_percentage_bounded_example : 30 ≤ 100
get_cpu_usage_percentage_bounded_example = get_cpu_usage_percentage_bounded answer 30 usage

abbrev directory : Node
directory = folder true (
    dots (bytes ".")
      (dots (bytes "..") (entry (bytes "a") (file true) (entry (bytes "b") (file false) no_entry))))

remove_dir-all_removable_example :
    (remove_dir (some directory)).0 ≡ all_removable directory
    × is_some (remove_dir (some directory)).1 ≡ not (all_removable directory)
remove_dir-all_removable_example = remove_dir-all_removable directory

-- A number of the registry that is 16 is read as 10.
sixteen : value_text (pos 0) (some (binary (16 ∷ 0 ∷ 0 ∷ 0 ∷ []))) ≡ converted (bytes "10")
unfolding value_text hex_text longtohex hex_onto eq_str strtoint scan_int skip_space read_digits
    inttostr print_ℕ
sixteen = refl
