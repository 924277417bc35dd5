-- ===== src/Service/Receive.antt =====
-- `recvDataFile` and `recvTentacleDataFile`: a file is fetched into the directory `temporal`.
use pandora_agent_win.Base.Int.{ℤ, pos, eqb_ℤ}
use pandora_agent_win.Base.{[], ◌∷◌, ◌++◌, Option, none, some, ◌==◌, if◌then◌else◌}
use pandora_agent_win.File.{updated}
use pandora_agent_win.Service.Outside.{Outside}
use pandora_agent_win.Service.Transfer.{option_of}
use pandora_agent_win.Service.World.{
  World, Run, Outcome, hung, done, ◌>>=◌, return, throw, get, ended_by, last_byte, run_command,
}
use pandora_agent_win.Text.{Str, bytes, eq_str}

-- The command, which names no path: the client leaves the file where it runs.
unfoldable pub recv_cmd : (host port ssl pass opts filename : Str) → Str
recv_cmd host port ssl pass opts filename =
    bytes "tentacle_client.exe -g -a "
    ++ (host
        ++ (option_of (bytes " -p ") port
            ++ ((if eq_str ssl (bytes "1") then bytes " -c" else [])
                ++ (option_of (bytes " -x ") pass
                    ++ (option_of (bytes " ") opts ++ (bytes " " ++ filename))))))

-- A file of a directory whose name may end with a backslash.
abbrev pub in_dir : (dir name : Str) → Str
in_dir dir name =
    if last_byte b'\\' dir == b'\\' then dir ++ name else (dir ++ (b'\\' ∷ [])) ++ name

abbrev pub left_at : (path : Str) → Option Str → World → World
left_at path none w = w
left_at path (some text) w = record w {
  disk = record w.disk { file = updated w.disk.file path (some text) };
}

abbrev pub ended : World → Option ℤ → Outcome ℤ
ended w none = hung
ended w (some code) = done w code

module _ (env : Outside) where
  -- `system`: the client may leave the file whatever its code is.
  abbrev pub run_recv : (path command : Str) → Run ℤ
  run_recv path command w =
      let requests = run_command command ∷ w.requests in
      ended (left_at path (env.downloaded requests) (record w { requests = requests }))
        (env.command requests)

  -- `recvTentacleDataFile`.
  unfoldable pub recv_tentacle_data_file : (host filename : Str) → Run (Unit {0})
  recv_tentacle_data_file host filename = do
    temporal ← get (bytes "temporal")
    port ← get (bytes "server_port")
    ssl ← get (bytes "server_ssl")
    pass ← get (bytes "server_pwd")
    opts ← get (bytes "server_opts")
    if env.chdir temporal
        then (run_recv (in_dir temporal filename) (recv_cmd host port ssl pass opts filename)
            >>= λ rc. if eqb_ℤ rc (pos 0) then return tt else throw)
        else throw

  -- `recvDataFile`. Only the mode `tentacle`, spelled out, fetches files.
  unfoldable pub recv_data_file : (filename : Str) → Run (Unit {0})
  recv_data_file filename = do
    mode ← get (bytes "transfer_mode")
    host ← get (bytes "server_ip")
    path ← get (bytes "server_path")
    remote_path ← ended_by b'/' path
    if eq_str mode (bytes "tentacle") then recv_tentacle_data_file host filename else throw
