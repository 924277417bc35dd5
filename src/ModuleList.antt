-- ===== src/ModuleList.antt =====
-- `Pandora_Module_List` (modules/pandora_module_list.cc): the module definitions in the lines of a
-- configuration file.
pub mod Blocks
pub mod Iterator
use pandora_agent_win.Base.Result.{Result, ok, ◌>>=◌}
use pandora_agent_win.Base.{
  ℕ, ◌+◌, Bool, true, false, List, [], ◌∷◌, ◌++◌, Option, none, some, if◌then◌else◌,
}
use pandora_agent_win.Conf.Defs.{Files}
use pandora_agent_win.Conf.File.{is_significant, remove_quotes, substr}
use pandora_agent_win.Text.{Str, bytes, find, has, lines}

abbrev pub with_newline : Str → Str
with_newline buffer = buffer ++ bytes "\n"

-- The definitions that `parseModuleConf` hands to `parseModuleDefinition`, from the lines that are
-- left. `none`: between definitions; `some str_module`: inside one, which the end of the file ends too.
unfoldable pub parse_module_lines : Option Str → List Str → List Str
parse_module_lines none [] = []
parse_module_lines (some str_module) [] = str_module ∷ []
parse_module_lines (some str_module) (buffer ∷ rest) = elim (has buffer (bytes "module_end")) [
  | true ↦ (str_module ++ with_newline buffer) ∷ parse_module_lines none rest
  | false ↦ parse_module_lines (some (str_module ++ with_newline buffer)) rest
]
parse_module_lines none (buffer ∷ rest) = elim (is_significant buffer) [
  | false ↦ parse_module_lines none rest
  | true ↦ elim (has buffer (bytes "module_begin")) [
    | true ↦ parse_module_lines (some (with_newline buffer)) rest
    | false ↦ elim (has buffer (bytes "module_plugin")) [
      | true ↦ buffer ∷ parse_module_lines none rest
      | false ↦ parse_module_lines none rest
    ]
  ]
]

abbrev parse_module_text : Option Str → List Str
parse_module_text none = []
parse_module_text (some text) = parse_module_lines none (lines text)

-- `parseModuleConf`.
unfoldable pub parse_module_conf : Files → Str → List Str
parse_module_conf files path_file = parse_module_text (files path_file)

abbrev included_at : Files → Str → Option ℕ → Result (List Str)
included_at files buffer none = ok []
included_at files buffer (some pos) =
    substr buffer (pos + 8) >>= λ path. ok (parse_module_conf files (remove_quotes path))

abbrev put_before : List Str → List Str → Result (List Str)
put_before first rest = ok (first ++ rest)

-- The loop of the constructor, which also follows `include`.
unfoldable pub load_lines : Files → Option Str → List Str → Result (List Str)
load_lines files none [] = ok []
load_lines files (some str_module) [] = ok (str_module ∷ [])
load_lines files (some str_module) (buffer ∷ rest) = elim (has buffer (bytes "module_end")) [
  | true ↦ load_lines files none rest >>= put_before ((str_module ++ with_newline buffer) ∷ [])
  | false ↦ load_lines files (some (str_module ++ with_newline buffer)) rest
]
load_lines files none (buffer ∷ rest) = elim (is_significant buffer) [
  | false ↦ load_lines files none rest
  | true ↦ included_at files buffer (find buffer (bytes "include")) >>= λ included.
      elim (has buffer (bytes "module_begin")) [
        | true ↦ load_lines files (some (with_newline buffer)) rest >>= put_before included
        | false ↦ elim (has buffer (bytes "module_plugin")) [
          | true ↦ load_lines files none rest >>= put_before (included ++ buffer ∷ [])
          | false ↦ load_lines files none rest >>= put_before included
        ]
      ]
]

abbrev load_text : Files → Option Str → Result (List Str)
load_text files none = ok []
load_text files (some text) = load_lines files none (lines text)

-- The constructor from a file: the definitions that it hands to `parseModuleDefinition`, in order.
unfoldable pub load : Files → Str → Result (List Str)
load files filename = load_text files (files filename)
