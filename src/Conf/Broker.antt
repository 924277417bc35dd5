-- ===== src/Conf/Broker.antt =====
-- The drone agents of a configuration file: `writeBrokerConf` and `setFile (string *all_conf)`
-- (pandora_agent_conf.cc), `count_broker_agents`, `check_broker_agents` and `checkAgentName`
-- (pandora_windows_service.cc).
pub mod Written
pub mod Count
use pandora_agent_win.Base.Result.{Result, ok, ◌>>=◌}
use pandora_agent_win.Base.{
  ℕ, zero, suc, ◌+◌, Bool, true, false, not, ◌&&◌, ◌||◌, List, [], ◌∷◌, ◌++◌, Option, none, some,
  ◌==◌, if◌then◌else◌, take,
}
use pandora_agent_win.Conf.Defs.{Conf}
use pandora_agent_win.Conf.File.{is_significant, substr, include_line, value_line, cleared}
use pandora_agent_win.File.{Disk, file_exists, write_file}
use pandora_agent_win.Text.{Str, bytes, find, has, lines}

-- The loop that sets `ok`: the bytes before `agent_name` are blanks, tabs and `#`.
abbrev pub is_margin : Str → Bool
is_margin [] = true
is_margin (c ∷ s) = (c == b' ' || c == b'\t' || c == b'#') && is_margin s

abbrev pub named_at : Str → Str → Option ℕ → Str
named_at name_broker buffer none = buffer
named_at name_broker buffer (some pos) =
    if is_margin (take pos buffer)
    then bytes "agent_name " ++ (name_broker ++ bytes "\n")
    else buffer

-- What one line of the file becomes: `agent_name` is given the name of the drone, and a line that names
-- a drone is left out.
unfoldable pub broker_line : Str → Str → Str
broker_line name_broker buffer =
    let buffer' = named_at name_broker buffer (find buffer (bytes "agent_name")) in
    if has buffer' (bytes "broker_agent") then [] else buffer' ++ (b'\n' ∷ [])

-- `writeBrokerConf`: the text of the new file, from the lines of the agent's own.
unfoldable pub broker_text : Str → List Str → Str
broker_text name_broker [] = []
broker_text name_broker (buffer ∷ rest) =
    broker_line name_broker buffer ++ broker_text name_broker rest

-- The object, the disk and `all_conf[0]`, the only element that is written.
pub record Brokers : Type 0 where
  pub conf : Conf
  pub disk : Disk
  pub first_conf : Option Str

-- A stream that cannot be opened swallows what is written to it.
abbrev pub written : Disk → Option Disk → Disk
written disk none = disk
written disk (some disk') = disk'

abbrev pub create_broker : List Str → Str → Str → Disk → Disk
create_broker agent_lines name_broker path disk =
    if file_exists disk path
    then disk
    else written disk (write_file disk path (broker_text name_broker agent_lines))

-- The handling of `broker_agent`, which has 13 characters with the blank behind it.
abbrev pub broker_at : Str → List Str → Str → Brokers → Option ℕ → Result Brokers
broker_at install_dir agent_lines buffer s none = ok s
broker_at install_dir agent_lines buffer s (some pos) = substr buffer (pos + 13) >>= λ name_broker.
    let path = install_dir ++ (name_broker ++ bytes ".conf") in
    ok (record {
      conf = record s.conf { broker_enabled = true };
      disk = create_broker agent_lines name_broker path s.disk;
      first_conf = some path;
    })

-- One round of the loop of `setFile (string *all_conf)`.
unfoldable pub set_all_line : Str → List Str → Str → Brokers → Result Brokers
set_all_line install_dir agent_lines buffer s =
    if is_significant buffer
    then (do
      included ← include_line s.disk.file buffer
      s' ← broker_at install_dir agent_lines buffer s (find buffer (bytes "broker_agent"))
      found ← value_line buffer
      ok (record s' {
        conf = record s'.conf {
          collection_list = (s.conf.collection_list ++ included) ++ found.0;
          key_values = s.conf.key_values ++ found.1;
        };
      }))
    else ok s

unfoldable pub set_all_lines : Str → List Str → List Str → Brokers → Result Brokers
set_all_lines install_dir agent_lines [] s = ok s
set_all_lines install_dir agent_lines (l ∷ ls) s =
    set_all_line install_dir agent_lines l s >>= set_all_lines install_dir agent_lines ls

abbrev set_all_text : Str → Brokers → Option Str → Result Brokers
set_all_text install_dir s none = ok s
set_all_text install_dir s (some text) = set_all_lines install_dir (lines text) (lines text) s

-- `setFile (string *all_conf)`.
unfoldable pub set_all : Str → Brokers → Result Brokers
set_all install_dir s =
    set_all_text install_dir (record s { conf = cleared s.conf })
      (s.disk.file (install_dir ++ bytes "pandora_agent.conf"))

abbrev pub names_broker : Str → Bool
names_broker buffer = is_significant buffer && has buffer (bytes "broker_agent")

-- The loop of `count_broker_agents`, over the lines of a file that is open.
unfoldable pub count_brokers : List Str → ℕ
count_brokers [] = 0
count_brokers (buffer ∷ rest) =
    if names_broker buffer then suc (count_brokers rest) else count_brokers rest

abbrev pub broker_path : Str → Str → Option ℕ → Result (List Str)
broker_path install_dir buffer none = ok []
broker_path install_dir buffer (some pos) = substr buffer (pos + 13) >>= λ name_broker.
    ok ((install_dir ++ (name_broker ++ bytes ".conf")) ∷ [])

-- The loop of `check_broker_agents`: the elements of `all_conf` that are written, from the first.
unfoldable pub check_brokers : Str → List Str → Result (List Str)
check_brokers install_dir [] = ok []
check_brokers install_dir (buffer ∷ rest) =
    (if is_significant buffer
      then broker_path install_dir buffer (find buffer (bytes "broker_agent"))
      else ok [])
    >>= λ path. check_brokers install_dir rest >>= λ paths. ok (path ++ paths)

abbrev pub name_at : Str → Option ℕ → Result Str → Result Str
name_at buffer none rest = rest
name_at buffer (some pos) rest = substr buffer (pos + 11)

-- The loop of `checkAgentName`, over the lines of a file that is open.
unfoldable pub check_agent_name : List Str → Result Str
check_agent_name [] = ok []
check_agent_name (buffer ∷ rest) =
    if is_significant buffer
    then name_at buffer (find buffer (bytes "agent_name")) (check_agent_name rest)
    else check_agent_name rest
