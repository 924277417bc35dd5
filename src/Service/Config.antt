-- ===== src/Service/Config.antt =====
-- `checkConfig`: the configuration file is compared with the one that the server keeps, and replaced
-- where that is another one.
pub mod Laws
pub mod Safe
use pandora_agent_win.Base.Int.{ℤ, pos}
use pandora_agent_win.Base.{
  ℕ, Bool, true, false, List, [], ◌∷◌, ◌++◌, Option, none, some, ◌==◌, ltb, length, take,
  if◌then◌else◌,
}
use pandora_agent_win.Conf.Broker.{check_agent_name}
use pandora_agent_win.File.{md5}
use pandora_agent_win.Service.Outside.{Outside}
use pandora_agent_win.Service.Header.{or_else}
use pandora_agent_win.Service.Receive.{recv_data_file}
use pandora_agent_win.Service.Transfer.{copy_data_file}
use pandora_agent_win.Service.World.{
  World, Run, Outcome, endless, done, thrown, ◌>>=◌, ◌>>◌, return, throw, get, ended_by, attempt,
  from_result, read, write, remove,
}
use pandora_agent_win.Text.{Str, bytes, eq_str, is_empty, lines}

-- `checkAgentName` of a path. The loop over a file that cannot be opened never ends: `getline` does not
-- reach the end of it.
abbrev pub name_in : Option Str → Run Str
name_in none w = endless
name_in (some text) w = from_result (check_agent_name (lines text)) w

abbrev pub agent_name_in : (path : Str) → Run Str
agent_name_in path w = name_in (w.disk.file path) w

-- The loop that compares 32 bytes.
abbrev pub same_md5 : (a b : Str) → Bool
same_md5 a b = eq_str (take 32 a) (take 32 b)

module _ (env : Outside) where
  -- The configuration is sent where the server has none.
  unfoldable pub upload :
      (temp_dir conf_tmp_file md5_tmp_file conf_str conf_md5 : Str) → Run (Unit {0})
  upload temp_dir conf_tmp_file md5_tmp_file conf_str conf_md5 = do
    write (temp_dir ++ conf_tmp_file) conf_str
    rc ← copy_data_file env conf_tmp_file
    remove (temp_dir ++ conf_tmp_file)
    write (temp_dir ++ md5_tmp_file) conf_md5
    rc' ← copy_data_file env md5_tmp_file
    remove (temp_dir ++ md5_tmp_file)

  -- The new file is fetched and saved.
  unfoldable pub fetch : (file temp_dir conf_tmp_file : Str) → Run (Unit {0})
  fetch file temp_dir conf_tmp_file = do
    recv_data_file env conf_tmp_file
    conf_str ← read (temp_dir ++ conf_tmp_file)
    remove (temp_dir ++ conf_tmp_file)
    write file conf_str

  abbrev pub fetched : Option (Unit {0}) → Run ℤ
  fetched none = return (pos 0)
  fetched (some _) = return (pos 1)

  -- The digest of the server's file, which is none where it is too short.
  unfoldable pub remote_md5 : (path : Str) → Run (Option Str)
  remote_md5 path = read path >>= λ text.
      if ltb (length text) 32 then return none else (remove path >> return (some text))

  abbrev pub compared : (file temp_dir conf_tmp_file conf_md5 : Str) → Option (Option Str) → Run ℤ
  compared file temp_dir conf_tmp_file conf_md5 none = return (pos 0)
  compared file temp_dir conf_tmp_file conf_md5 (some none) = return (pos 0)
  compared file temp_dir conf_tmp_file conf_md5 (some (some remote)) =
      if same_md5 remote conf_md5
      then return (pos 0)
      else (attempt (fetch file temp_dir conf_tmp_file) >>= fetched)

  abbrev pub asked :
      (file temp_dir conf_tmp_file md5_tmp_file conf_str conf_md5 : Str) → Option (Unit {0}) → Run ℤ
  asked file temp_dir conf_tmp_file md5_tmp_file conf_str conf_md5 none =
      attempt (upload temp_dir conf_tmp_file md5_tmp_file conf_str conf_md5) >>= λ _. return (pos 0)
  asked file temp_dir conf_tmp_file md5_tmp_file conf_str conf_md5 (some _) =
      attempt (remote_md5 (temp_dir ++ md5_tmp_file))
      >>= compared file temp_dir conf_tmp_file conf_md5

  -- From the text of the file on; the names of the files are composed from the agent's name.
  unfoldable pub check_text : (file temp_dir agent_md5 : Str) → Option Str → Run ℤ
  check_text file temp_dir agent_md5 none = return (pos 0)
  check_text file temp_dir agent_md5 (some conf_str) =
      attempt (recv_data_file env (agent_md5 ++ bytes ".md5"))
      >>= asked file temp_dir (agent_md5 ++ bytes ".conf") (agent_md5 ++ bytes ".md5") conf_str
          (md5 env.digest conf_str)

  -- `checkConfig`.
  unfoldable pub check_config : (file : Str) → Run ℤ
  check_config file = do
    remote_config ← get (bytes "remote_config")
    if eq_str remote_config (bytes "1")
        then (do
          temporal ← get (bytes "temporal")
          temp_dir ← ended_by b'\\' temporal
          name ← agent_name_in file
          if is_empty (or_else name env.system_name)
              then return (pos 0)
              else (attempt (read file)
                  >>= check_text file temp_dir (md5 env.digest (or_else name env.system_name))))
        else return (pos 0)
