-- ===== src/Tests/Reports.antt =====
-- Values, conditions and reports of a module (modules/pandora_module.cc) at concrete inputs, with
-- integers in place of floating-point numbers.
use pandora_agent_win.Base.Int.{ℤ, pos, ltb_ℤ, eqb_ℤ}
use pandora_agent_win.Base.{◌≡◌, refl, true, [], ◌∷◌, Option, none, some, if◌then◌else◌}
use pandora_agent_win.Cron.{scan_word}
use pandora_agent_win.Data.{SystemTime, PandoraData, new_data}
use pandora_agent_win.Module.Conditions.{scan_numeric}
use pandora_agent_win.Module.Defs.{Condition, Module, new_module}
use pandora_agent_win.Module.Kinds.{generic_data, exec}
use pandora_agent_win.Module.Output.{value_error, get_data_output, clean_data_list, out_of_limits}
use pandora_agent_win.Module.Xml.Laws.{expected_xml, NoValueError, get_xml-expected_xml}
use pandora_agent_win.Module.Xml.{xml, get_xml}
use pandora_agent_win.Platform.{Platform}
use pandora_agent_win.Strutils.{is_digit, read_digits, scan_int, skip_space, strtodouble, converted}
use pandora_agent_win.Text.{Str, bytes, has}

abbrev pub after_digits : Str → Str
after_digits [] = []
after_digits (c ∷ s) = if is_digit c then after_digits s else c ∷ s

abbrev pub scan_number : Str → Option (ℤ × Str)
scan_number [] = none
scan_number (c ∷ s) =
    if is_digit c then some (pos (read_digits 0 (c ∷ s)), after_digits s) else none

abbrev pub integers : Platform
integers = record {
  Double = ℤ;
  of_int = λ i. i;
  lt = ltb_ℤ;
  eq = eqb_ℤ;
  scan_le = scan_int;
  scan_lf = scan_number;
  Regex = Str;
  regcomp = some;
  regexec = λ r s. has s r;
}

abbrev pub noon : SystemTime
noon = record { year = 2020; month = 1; day = 5; hour = 12; minute = 0; second = 0 }

abbrev pub seven : PandoraData
seven = new_data (bytes " 7\n") noon (bytes "cpu")

abbrev pub nine : PandoraData
nine = new_data (bytes "9") noon (bytes "cpu")

abbrev pub plain_module : Module integers
plain_module = new_module integers generic_data exec true (bytes "cpu")

abbrev limited : Module integers
limited = record plain_module { has_limits = true; min = pos 3; max = pos 9 }

seven_reads : strtodouble integers.scan_le (pos 0) seven.value ≡ converted (pos 7)
unfolding strtodouble scan_int
seven_reads = refl

nine_reads : strtodouble integers.scan_le (pos 0) nine.value ≡ converted (pos 9)
unfolding strtodouble scan_int
nine_reads = refl

abbrev reporting : Module integers
reporting = record plain_module { data_list = some (seven ∷ nine ∷ []) }

within : NoValueError (pos 0) reporting (seven ∷ nine ∷ [])
unfolding get_data_output new_module strtodouble scan_int
within = (λ e. cc e, (λ e. cc e, tt))

get_xml-expected_xml_example :
    get_xml (pos 0) reporting
    ≡ (xml (expected_xml (pos 0) reporting (seven ∷ nine ∷ [])), clean_data_list reporting)
unfolding new_module
get_xml-expected_xml_example =
    get_xml-expected_xml (pos 0) reporting (seven ∷ nine ∷ []) refl refl (λ e. cc e) refl within

abbrev pub refusing : Module integers
refusing = record limited { data_list = some (seven ∷ nine ∷ []) }

pub nine_refused : get_data_output (pos 0) refusing nine ≡ value_error
unfolding get_data_output new_module strtodouble scan_int out_of_limits
nine_refused = refl

abbrev pub above : ℤ → Condition integers
above n = record {
  value_1 = n;
  value_2 = pos 0;
  string_value = [];
  operation = bytes ">";
  command = [];
  regex = none;
}

number_pattern : scan_numeric integers (bytes "=~ 40 x") ≡ some (bytes "=~", pos 40, bytes " x")
unfolding scan_numeric scan_word skip_space read_digits
number_pattern = refl
