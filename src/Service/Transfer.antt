-- ===== src/Service/Transfer.antt =====
-- `copyDataFile` and the ways in which it copies a file of the directory `temporal` to a server.
pub mod Keeps
use pandora_agent_win.Base.Int.{ℤ, pos, negsuc, ltb_ℤ, leb_ℤ, ◌*ℤ◌, eqb_ℤ}
use pandora_agent_win.Base.{
  ℕ, Bool, true, false, ◌&&◌, ◌||◌, not, List, [], ◌∷◌, ◌++◌, Option, none, some, ◌==◌,
  if◌then◌else◌,
}
use pandora_agent_win.Conf.Defs.{get_value}
use pandora_agent_win.File.{read_file}
use pandora_agent_win.Ftp.{ftp_url, ftp_code}
use pandora_agent_win.Service.Outside.{Outside, Process, not_created, not_ended, exited}
use pandora_agent_win.Service.World.{
  World, Run, undefined, hung, done, thrown, ◌>>=◌, ◌>>◌, return, throw, undefined_here, get,
  request, ended_by, Request, run_client, scp_send, ftp_send, copy_file,
}
use pandora_agent_win.Ssh.{
  connect_with_public_key, scp_file_filename, ScpEnd, scp_code, channel_error,
}
use pandora_agent_win.Strutils.{atoi, strtoint, Conversion, converted, invalid_conversion}
use pandora_agent_win.Text.{Str, bytes, eq_str, is_empty}

-- `temporal` with a backslash at its end, and the name.
abbrev pub temporal_file : Str → Run Str
temporal_file filename = do
  var ← get (bytes "temporal")
  dir ← ended_by b'\\' var
  return (dir ++ filename)

abbrev pub option_of : (name value : Str) → Str
option_of name value = if is_empty value then [] else name ++ value

-- The command of `copyTentacleDataFile`.
unfoldable pub tentacle_cmd : (host filepath port ssl pass opts : Str) → Str
tentacle_cmd host filepath port ssl pass opts =
    bytes "tentacle_client.exe -a "
    ++ (host
        ++ (option_of (bytes " -p ") port
            ++ ((if eq_str ssl (bytes "1") then bytes " -c" else [])
                ++ (option_of (bytes " -x ") pass
                    ++ (option_of (bytes " ") opts ++ (bytes " \"" ++ (filepath ++ bytes "\"")))))))

-- The milliseconds to wait: `INFINITE`, which is none, unless the setting is positive. A product that
-- is no `int` is undefined in C, and is kept here.
unfoldable pub tentacle_timeout : Str → Option ℤ
tentacle_timeout setting =
    let seconds = atoi setting in if leb_ℤ seconds (pos 0) then none else some (seconds *ℤ pos 1000)

-- The code of a Tentacle client that was waited for.
unfoldable pub process_code : Process → ℤ
process_code not_created = negsuc 0
process_code not_ended = negsuc 0
process_code (exited code) = if code == 0 then pos 0 else negsuc 0

-- A port that `strtoint` reads, or an `Invalid_Conversion`.
abbrev port_read : Conversion ℤ → Run ℤ
port_read (converted port) = return port
port_read invalid_conversion = throw

abbrev pub port_of : (unset default : ℤ) → Str → Run ℤ
port_of unset default port_str =
    if is_empty port_str then return default else port_read (strtoint unset port_str)

abbrev text_at : Str → Run (Option Str)
text_at filepath w = done w (read_file w.disk filepath)

-- The end of the path that the mode wants.
abbrev remote_end : (mode : Str) → ℕ
remote_end mode = if eq_str mode (bytes "local") then b'\\' else b'/'

-- `copy_to_secondary`.
unfoldable pub copies_to_secondary : (secondary_mode : Str) (rc : ℤ) → Bool
copies_to_secondary secondary_mode rc =
    (not (eqb_ℤ rc (pos 0)) && eq_str secondary_mode (bytes "on_error"))
    || eq_str secondary_mode (bytes "always")

-- The wait for a process, with the milliseconds that it is given.
abbrev pub waited : (timeout : Option ℤ) → Process → Run ℤ
waited none not_ended w = hung
waited timeout process w = done w (process_code process)

module _ (env : Outside) where
  abbrev answer_process : (timeout : Option ℤ) → Run ℤ
  answer_process timeout w = waited timeout (env.process w.requests) w

  -- `copyTentacleDataFile`.
  unfoldable pub copy_tentacle_data_file : (host filename port ssl pass opts : Str) → Run ℤ
  copy_tentacle_data_file host filename port ssl pass opts = do
    filepath ← temporal_file filename
    timeout ← get (bytes "tentacle_timeout")
    request (run_client (tentacle_cmd host filepath port ssl pass opts) (tentacle_timeout timeout))
    answer_process (tentacle_timeout timeout)

  abbrev connect : (host : Str) (port : ℤ) → Run (Bool × ℤ)
  connect host port w = done w (
      connect_with_public_key (env.opening w.requests host port) (env.accepted w.requests host port)
        false)

  abbrev scp_ended : ScpEnd → Run ℤ
  scp_ended (scp_code rc) = return rc
  scp_ended channel_error = throw

  abbrev scp_over : (host : Str) (port : ℤ) (remote : Str) (session : Bool) → Option Str → Run ℤ
  scp_over host port remote false text = scp_ended (scp_file_filename (λ _. none) false text)
  scp_over host port remote true none = scp_ended (scp_file_filename (λ _. none) true none)
  scp_over host port remote true (some text) = do
    request (scp_send host port remote text)
    λ w. scp_ended (scp_file_filename (λ _. env.channel w.requests) true (some text)) w

  -- `copyScpDataFile`. Of the codes of `connectWithPublicKey` only `AUTHENTICATION_FAILED` and
  -- `PANDORA_EXCEPTION` end it.
  unfoldable pub copy_scp_data_file : (host remote_path filename : Str) → Run ℤ
  copy_scp_data_file host remote_path filename = do
    filepath ← temporal_file filename
    port_str ← get (bytes "server_port")
    port ← port_of env.unset_int (pos 22) port_str
    (session, rc) ← connect host port
    if eqb_ℤ rc (pos 12) || eqb_ℤ rc (pos 11)
        then return rc
        else (text_at filepath >>= scp_over host port (remote_path ++ filename) session)

  abbrev ftp_perform : (url rename : Str) → Option Str → Run ℤ
  ftp_perform url rename none = undefined_here
  ftp_perform url rename (some text) = do
    request (ftp_send url rename (some text))
    λ w. done w (ftp_code env.off_end (env.curl w.requests))

  -- `copyFtpDataFile`, with `ftpFileFilename`.
  unfoldable pub copy_ftp_data_file : (host remote_path filename password : Str) → Run ℤ
  copy_ftp_data_file host remote_path filename password = do
    filepath ← temporal_file filename
    port_str ← get (bytes "server_port")
    port ← port_of env.unset_int (pos 21) port_str
    if is_empty host then return (pos 13) else (λ w.
        ftp_perform (ftp_url (bytes "pandora") password host filepath) (remote_path ++ filename)
          (w.disk.file filepath) w)

  -- `copyLocalDataFile`, which returns nothing where the file was copied.
  unfoldable pub copy_local_data_file : (remote_path filename : Str) → Run ℤ
  copy_local_data_file remote_path filename = do
    local_file ← temporal_file filename
    request (copy_file local_file (remote_path ++ filename))
    λ w. done w (if env.copied w.requests then env.off_end else pos 11)

  -- The setting of the first server, or of the second one: its name with a prefix.
  abbrev copy_by_tentacle : (prefix host filename : Str) → Run ℤ
  copy_by_tentacle prefix host filename = do
    port ← get (prefix ++ bytes "server_port")
    ssl ← get (prefix ++ bytes "server_ssl")
    pass ← get (prefix ++ bytes "server_pwd")
    opts ← get (prefix ++ bytes "server_opts")
    copy_tentacle_data_file host filename port ssl pass opts

  abbrev copy_by_ftp : (prefix host remote_path filename : Str) → Run ℤ
  copy_by_ftp prefix host remote_path filename = do
    password ← get (prefix ++ bytes "server_pwd")
    copy_ftp_data_file host remote_path filename password

  -- The first `if` chain over the mode. An unknown one is `PANDORA_EXCEPTION`.
  unfoldable pub copy_to_first : (mode host remote_path filename : Str) → Run ℤ
  copy_to_first mode host remote_path filename =
      if eq_str mode (bytes "ftp")
      then copy_by_ftp [] host remote_path filename
      else if eq_str mode (bytes "tentacle") || is_empty mode
      then copy_by_tentacle [] host filename
      else if eq_str mode (bytes "ssh")
      then copy_scp_data_file host remote_path filename
      else if eq_str mode (bytes "local")
      then copy_local_data_file remote_path filename
      else return (pos 11)

  -- The second one, which has no mode `local`.
  unfoldable pub copy_to_second : (mode host remote_path filename : Str) → Run ℤ
  copy_to_second mode host remote_path filename =
      if eq_str mode (bytes "ftp")
      then copy_by_ftp (bytes "secondary_") host remote_path filename
      else if eq_str mode (bytes "tentacle") || is_empty mode
      then copy_by_tentacle (bytes "secondary_") host filename
      else if eq_str mode (bytes "ssh")
      then copy_scp_data_file host remote_path filename
      else return (pos 11)

  abbrev first_server : (filename : Str) → Run ℤ
  first_server filename = do
    mode ← get (bytes "transfer_mode")
    host ← get (bytes "server_ip")
    path ← get (bytes "server_path")
    remote_path ← ended_by (remote_end mode) path
    copy_to_first mode host remote_path filename

  abbrev second_server : (filename : Str) → Run ℤ
  second_server filename = do
    mode ← get (bytes "secondary_transfer_mode")
    host ← get (bytes "secondary_server_ip")
    path ← get (bytes "secondary_server_path")
    remote_path ← ended_by (remote_end mode) path
    copy_to_second mode host remote_path filename

  -- `copyDataFile`.
  unfoldable pub copy_data_file : (filename : Str) → Run ℤ
  copy_data_file filename = do
    rc ← first_server filename
    secondary_mode ← get (bytes "secondary_mode")
    if copies_to_secondary secondary_mode rc then second_server filename else return rc
