-- ===== src/Conf/File.antt =====
-- `setFile` and `parseFile`: the configuration file, line by line.
pub mod Safe
pub mod Values
use pandora_agent_win.Base.{
  ℕ, suc, ◌+◌, ◌≤◌, Bool, true, false, not, ◌&&◌, ◌||◌, List, [], ◌∷◌, ◌++◌, Option, none, some,
  ◌==◌, leb, if◌then◌else◌, length, drop,
}
use pandora_agent_win.Base.Result.{Result, ok, err, out_of_range, ◌>>=◌}
use pandora_agent_win.Conf.Defs.{Collection, Conf, Files}
use pandora_agent_win.KeyValue.{KeyValue, parse_line}
use pandora_agent_win.Strutils.{trim}
use pandora_agent_win.Text.{Str, bytes, char_at, find, has, is_some, lines}

-- `buffer[0] != '#' && buffer[0] != '\n' && buffer[0] != '\0'`.
abbrev pub is_significant : Str → Bool
is_significant buffer =
    not (char_at buffer 0 == b'#') && not (char_at buffer 0 == b'\n') && not (char_at buffer 0 == 0)

-- `s.substr (i)`, which throws behind the end.
abbrev pub substr : Str → ℕ → Result Str
substr s i = if leb i (length s) then ok (drop i s) else err out_of_range

-- The name behind `file_collection` at `pos`, which has 15 characters, unless it has `..` in it.
pub collection_at : Str → ℕ → List Collection
collection_at buffer pos =
    let collection_name = drop (pos + 15) buffer in
    if has collection_name (bytes "..")
    then []
    else record { name = trim collection_name; verify = 0 } ∷ []

collection_found : Str → Option ℕ → List Collection
collection_found buffer none = []
collection_found buffer (some pos) = collection_at buffer pos

-- The effect of one line of an included file on the collection list.
pub parse_file_line : Str → List Collection
unfolding collection_at collection_found
parse_file_line buffer =
    if is_significant buffer
    then collection_found buffer (find buffer (bytes "file_collection"))
    else []

pub parse_file_lines : List Str → List Collection
parse_file_lines [] = []
parse_file_lines (l ∷ ls) = parse_file_line l ++ parse_file_lines ls

parse_text : Option Str → List Collection
parse_text none = []
parse_text (some text) = parse_file_lines (lines text)

-- `parseFile`: the collections that it appends.
unfoldable pub parse_file : Files → Str → List Collection
unfolding parse_text parse_file_lines parse_file_line
parse_file files path = parse_text (files path)

-- The loop that removes quotation marks. After each one that it erases, the search goes on behind
-- the byte that has moved to its place: that byte stays, whatever it is.
mutual
  pub remove_quotes : Str → Str
  remove_quotes [] = []
  remove_quotes (c ∷ s) = if c == b'"' then keep_next s else c ∷ remove_quotes s

  pub keep_next : Str → Str
  keep_next [] = []
  keep_next (c ∷ s) = c ∷ remove_quotes s

include_at : Files → Str → Option ℕ → Result (List Collection)
include_at files buffer none = ok []
include_at files buffer (some pos) =
    substr buffer (pos + 8) >>= λ path. ok (parse_file files (remove_quotes path))

-- The handling of `include` in a line: the collections of the included file.
pub include_line : Files → Str → Result (List Collection)
unfolding include_at parse_file remove_quotes keep_next
include_line files buffer = include_at files buffer (find buffer (bytes "include"))

value_at : Str → Option ℕ → Result (List Collection × List KeyValue)
value_at buffer (some pos) = ok (collection_at buffer pos, [])
value_at buffer none =
    if has buffer (bytes "module_")
    then ok ([], [])
    else parse_line buffer >>= λ kv. ok ([], kv ∷ [])

-- The rest of a line: a collection, a module token, which this reader skips, or a key and a value.
pub value_line : Str → Result (List Collection × List KeyValue)
unfolding collection_at value_at
value_line buffer = value_at buffer (find buffer (bytes "file_collection"))

-- One round of the loop of `setFile (string filename)`.
pub set_file_line : Files → Str → Conf → Result Conf
unfolding include_line value_line
set_file_line files buffer conf =
    if is_significant buffer
    then (do
      included ← include_line files buffer
      found ← value_line buffer
      ok (record conf {
        collection_list = (conf.collection_list ++ included) ++ found.0;
        key_values = conf.key_values ++ found.1;
      }))
    else ok conf

unfoldable pub set_file_lines : Files → List Str → Conf → Result Conf
unfolding set_file_line
set_file_lines files [] conf = ok conf
set_file_lines files (l ∷ ls) conf = set_file_line files l conf >>= set_file_lines files ls

-- The lists are emptied before the file is opened.
abbrev pub cleared : Conf → Conf
cleared conf = record conf { key_values = []; collection_list = [] }

set_text : Files → Conf → Option Str → Result Conf
set_text files conf none = ok conf
set_text files conf (some text) = set_file_lines files (lines text) conf

-- `setFile (string filename)`.
unfoldable pub set_file : Files → Str → Conf → Result Conf
unfolding set_text set_file_lines
set_file files filename conf = set_text files (cleared conf) (files filename)
