-- ===== src/Module/Regexp.antt =====
-- `Pandora_Module_Regexp` (modules/pandora_module_regexp.cc): the lines of a file that match a regular
-- expression, each of which is looked at once. The file does not change while it is
-- read, and it stays while it is open, as Windows does not let it be deleted then.
pub mod Reads
use pandora_agent_win.Base.{
  ℕ, ◌+◌, Bool, true, false, not, ◌||◌, ◌&&◌, List, [], ◌∷◌, ◌++◌, Option, none, some, ltb, length,
  drop, if◌then◌else◌,
}
use pandora_agent_win.Conf.Defs.{Files}
use pandora_agent_win.Module.Kinds.{
  ModuleType, generic_data_string, async_string, log, generic_proc, async_proc,
}
use pandora_agent_win.Platform.{Platform}
use pandora_agent_win.Strutils.{print_ℕ}
use pandora_agent_win.Text.{Str, bytes, is_empty, lines}

-- `file` is the place in the file, if it is open; between rounds its state is good.
pub record RegexpModule (P : Platform) : Type 0 where
  pub source : Str
  pub no_seek_eof : Bool
  pub regexp : P.Regex
  pub file : Option ℕ
  pub size : ℕ

-- What is handed to `setOutput` for a line.
unfoldable pub line_output : ModuleType → Str → List Str
line_output generic_data_string line = line ∷ []
line_output async_string line = line ∷ []
line_output log line = (line ++ bytes "\n") ∷ []
line_output t line = []

-- What is handed to it at the end.
unfoldable pub count_output : ModuleType → (count : ℕ) → List Str
count_output generic_data_string count = []
count_output async_string count = []
count_output log count = []
count_output generic_proc count = (if ltb 0 count then bytes "1" else bytes "0") ∷ []
count_output async_proc count = (if ltb 0 count then bytes "1" else bytes "0") ∷ []
count_output t count = print_ℕ count ∷ []

abbrev is_match : (regexec : Str → Bool) → Str → Bool
is_match regexec line = not (is_empty line) && regexec line

-- The loop over the lines: the matching ones, in their order.
unfoldable pub matching : (regexec : Str → Bool) → List Str → List Str
matching regexec [] = []
matching regexec (line ∷ rest) =
    let later = matching regexec rest in if is_match regexec line then line ∷ later else later

abbrev opened_at : (no_seek_eof : Bool) → Option Str → Option ℕ
opened_at no_seek_eof none = none
opened_at no_seek_eof (some text) = some (if no_seek_eof then 0 else length text)

abbrev is_open : Option ℕ → Bool
is_open none = false
is_open (some at) = true

abbrev outputs_of : ModuleType → List Str → List Str
outputs_of t [] = []
outputs_of t (line ∷ rest) = line_output t line ++ outputs_of t rest

unfoldable pub outputs : ModuleType → List Str → List Str
outputs t found = outputs_of t found ++ count_output t (length found)

module _ {P : Platform} where
  -- `restart`.
  unfoldable pub restart : Files → (no_seek_eof : Bool) → RegexpModule P → RegexpModule P
  restart files no_seek_eof m = record m { file = opened_at no_seek_eof (files m.source) }

  abbrev with_size : Files → Option Str → RegexpModule P → RegexpModule P
  with_size files none m = m
  with_size files (some text) m =
      record (if ltb (length text) m.size then restart files true m else m) { size = length text }

  -- The test for a file that was truncated.
  unfoldable pub check_size : Files → RegexpModule P → RegexpModule P
  check_size files m = if m.no_seek_eof then m else with_size files (files m.source) m

  abbrev read_from : ModuleType → RegexpModule P → Option ℕ → Option Str → RegexpModule P × List Str
  read_from t m (some at) (some text) = (
    record m { file = if m.no_seek_eof then none else some (at + length (drop at text)) },
    outputs t (matching (P.regexec m.regexp) (lines (drop at text))),
  )
  read_from t m at text = (m, [])

  -- `run`, after the one of `Pandora_Module`: the module, and what is handed to `setOutput`.
  unfoldable pub run_regexp : Files → ModuleType → RegexpModule P → RegexpModule P × List Str
  run_regexp files t m =
      let m' = if is_open m.file then m else restart files m.no_seek_eof m in
      let m'' = check_size files m' in read_from t m'' m''.file (files m''.source)
