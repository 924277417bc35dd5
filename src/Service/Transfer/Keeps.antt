-- ===== src/Service/Transfer/Keeps.antt =====
-- `copyDataFile` leaves the configuration and the files as they were.
use pandora_agent_win.Base.Int.{ℤ, pos, eqb_ℤ}
use pandora_agent_win.Base.{refl, Bool, true, false, ◌||◌, Option, none, some, [], ◌∷◌, ◌++◌}
use pandora_agent_win.Ftp.{ftp_url}
use pandora_agent_win.Service.Kept.{
  Frame, same, Kept, Keeps, get-Keeps, Keeps-bind, Keeps-if, Keeps-return, ended_by-Keeps,
}
use pandora_agent_win.Service.Outside.{Outside, Process, not_created, not_ended, exited}
use pandora_agent_win.Service.Transfer.{
  tentacle_timeout, tentacle_cmd, process_code, waited, temporal_file, port_of, port_read,
  copy_tentacle_data_file, copy_scp_data_file, copy_ftp_data_file, copy_local_data_file,
  copy_to_first, copy_to_second, copy_data_file, scp_ended, scp_over, connect, text_at, remote_end,
  copy_by_tentacle, copy_by_ftp, ftp_perform, first_server, second_server, copies_to_secondary,
}
use pandora_agent_win.Service.World.{scp_send, World, Request, request, run_client}
use pandora_agent_win.Ssh.{scp_file_filename}
use pandora_agent_win.Strutils.{Conversion, converted, invalid_conversion, strtoint}
use pandora_agent_win.Text.{Str, bytes, is_empty, eq_str}

temporal_file-Keeps : (filename : Str) → Keeps same (temporal_file filename)
temporal_file-Keeps filename =
    Keeps-bind (get-Keeps (bytes "temporal"))
      (λ var. Keeps-bind (ended_by-Keeps b'\\' var) (λ dir. Keeps-return (dir ++ filename)))

port_read-Keeps : (c : Conversion ℤ) → Keeps same (port_read c)
port_read-Keeps (converted port) = Keeps-return port
port_read-Keeps invalid_conversion = record { kept = λ w. same.frame_refl w }

port_of-Keeps : (unset default : ℤ) (s : Str) → Keeps same (port_of unset default s)
port_of-Keeps unset default s =
    Keeps-if (is_empty s) (Keeps-return default) (port_read-Keeps (strtoint unset s))

text_at-Keeps : (path : Str) → Keeps same (text_at path)
text_at-Keeps path = record { kept = λ w. same.frame_refl w }

asked-Keeps : (r : Request) → Keeps same (request r)
asked-Keeps r = record {
  kept = λ w. record { same_conf = refl; same_disk = refl; same_path = refl };
}

pub waited-Keeps :
    (F : Frame) (timeout : Option ℤ) (process : Process) → Keeps F (waited timeout process)
waited-Keeps F none not_created = Keeps-return (process_code not_created)
waited-Keeps F none not_ended = record { kept = λ w. tt }
waited-Keeps F none (exited code) = Keeps-return (process_code (exited code))
waited-Keeps F (some t) process = Keeps-return (process_code process)

module _ (env : Outside) where
  tentacle-Keeps :
      (host filename port ssl pass opts : Str)
      → Keeps same (copy_tentacle_data_file env host filename port ssl pass opts)
  unfolding copy_tentacle_data_file
  tentacle-Keeps host filename port ssl pass opts =
      Keeps-bind (temporal_file-Keeps filename) (λ filepath.
        Keeps-bind (get-Keeps (bytes "tentacle_timeout")) (λ timeout.
          Keeps-bind
            (asked-Keeps (
              run_client (tentacle_cmd host filepath port ssl pass opts)
                (tentacle_timeout timeout)))
            (λ _. record {
              kept = λ w.
                  (waited-Keeps same (tentacle_timeout timeout) (env.process w.requests)).kept w;
            })))

  connect-Keeps : (host : Str) (port : ℤ) → Keeps same (connect env host port)
  connect-Keeps host port = record { kept = λ w. same.frame_refl w }

  scp_over-Keeps :
      (host : Str) (port : ℤ) (remote : Str) (session : Bool) (text : Option Str)
      → Keeps same (scp_over env host port remote session text)
  unfolding scp_file_filename
  scp_over-Keeps host port remote false text = Keeps-return (pos 19)
  scp_over-Keeps host port remote true none = Keeps-return (pos 20)
  scp_over-Keeps host port remote true (some text) = record {
    kept = λ w. asked w (env.channel (scp_send host port remote text ∷ w.requests));
  }
    where
      asked :
          (w : World) (channel : Option ℤ)
          → Kept same w (
              scp_ended env
                (scp_file_filename (λ _. channel) true (some text))
                (record w { requests = scp_send host port remote text ∷ w.requests }))
      asked w none = record { same_conf = refl; same_disk = refl; same_path = refl }
      asked w (some result) = record { same_conf = refl; same_disk = refl; same_path = refl }

  scp-Keeps :
      (host remote_path filename : Str)
      → Keeps same (copy_scp_data_file env host remote_path filename)
  unfolding copy_scp_data_file
  scp-Keeps host remote_path filename = Keeps-bind (temporal_file-Keeps filename) (λ filepath.
      Keeps-bind (get-Keeps (bytes "server_port")) (λ port_str.
        Keeps-bind (port_of-Keeps env.unset_int (pos 22) port_str) (λ port.
          Keeps-bind {V = Bool × ℤ} (connect-Keeps host port) (λ c.
            Keeps-if (eqb_ℤ c.1 (pos 12) || eqb_ℤ c.1 (pos 11)) (Keeps-return c.1) (
              Keeps-bind (text_at-Keeps filepath)
                (scp_over-Keeps host port (remote_path ++ filename) c.0))))))

  ftp_perform-Keeps :
      (url rename : Str) (text : Option Str) → Keeps same (ftp_perform env url rename text)
  ftp_perform-Keeps url rename none = record { kept = λ w. tt }
  ftp_perform-Keeps url rename (some text) = record {
    kept = λ w. record { same_conf = refl; same_disk = refl; same_path = refl };
  }

  ftp-Keeps :
      (host remote_path filename password : Str)
      → Keeps same (copy_ftp_data_file env host remote_path filename password)
  unfolding copy_ftp_data_file
  ftp-Keeps host remote_path filename password =
      Keeps-bind (temporal_file-Keeps filename) (λ filepath.
        Keeps-bind (get-Keeps (bytes "server_port")) (λ port_str.
          Keeps-bind (port_of-Keeps env.unset_int (pos 21) port_str) (λ port.
            Keeps-if (is_empty host) (Keeps-return (pos 13)) (record {
              kept = λ w.
                  (ftp_perform-Keeps (ftp_url (bytes "pandora") password host filepath)
                      (remote_path ++ filename) (w.disk.file filepath)).kept
                    w;
            }))))

  local-Keeps :
      (remote_path filename : Str) → Keeps same (copy_local_data_file env remote_path filename)
  unfolding copy_local_data_file
  local-Keeps remote_path filename = Keeps-bind (temporal_file-Keeps filename) (λ path. record {
    kept = λ w. record { same_conf = refl; same_disk = refl; same_path = refl };
  })

  by_tentacle-Keeps :
      (prefix host filename : Str) → Keeps same (copy_by_tentacle env prefix host filename)
  by_tentacle-Keeps prefix host filename =
      Keeps-bind (get-Keeps (prefix ++ bytes "server_port")) (λ port.
        Keeps-bind (get-Keeps (prefix ++ bytes "server_ssl")) (λ ssl.
          Keeps-bind (get-Keeps (prefix ++ bytes "server_pwd")) (λ pass.
            Keeps-bind (get-Keeps (prefix ++ bytes "server_opts"))
              (tentacle-Keeps host filename port ssl pass))))

  by_ftp-Keeps :
      (prefix host remote_path filename : Str)
      → Keeps same (copy_by_ftp env prefix host remote_path filename)
  by_ftp-Keeps prefix host remote_path filename =
      Keeps-bind (get-Keeps (prefix ++ bytes "server_pwd")) (ftp-Keeps host remote_path filename)

  first-Keeps :
      (mode host remote_path filename : Str)
      → Keeps same (copy_to_first env mode host remote_path filename)
  unfolding copy_to_first
  first-Keeps mode host remote_path filename =
      Keeps-if (eq_str mode (bytes "ftp")) (by_ftp-Keeps [] host remote_path filename) (
        Keeps-if (eq_str mode (bytes "tentacle") || is_empty mode)
          (by_tentacle-Keeps [] host filename)
          (Keeps-if (eq_str mode (bytes "ssh")) (scp-Keeps host remote_path filename) (
            Keeps-if (eq_str mode (bytes "local")) (local-Keeps remote_path filename)
              (Keeps-return (pos 11)))))

  second-Keeps :
      (mode host remote_path filename : Str)
      → Keeps same (copy_to_second env mode host remote_path filename)
  unfolding copy_to_second
  second-Keeps mode host remote_path filename =
      Keeps-if (eq_str mode (bytes "ftp"))
        (by_ftp-Keeps (bytes "secondary_") host remote_path filename)
        (Keeps-if (eq_str mode (bytes "tentacle") || is_empty mode)
          (by_tentacle-Keeps (bytes "secondary_") host filename)
          (Keeps-if (eq_str mode (bytes "ssh")) (scp-Keeps host remote_path filename)
            (Keeps-return (pos 11))))

  first_server-Keeps : (filename : Str) → Keeps same (first_server env filename)
  first_server-Keeps filename = Keeps-bind (get-Keeps (bytes "transfer_mode")) (λ mode.
      Keeps-bind (get-Keeps (bytes "server_ip")) (λ host.
        Keeps-bind (get-Keeps (bytes "server_path")) (λ path.
          Keeps-bind (ended_by-Keeps (remote_end mode) path)
            (λ remote_path. first-Keeps mode host remote_path filename))))

  second_server-Keeps : (filename : Str) → Keeps same (second_server env filename)
  second_server-Keeps filename = Keeps-bind (get-Keeps (bytes "secondary_transfer_mode")) (λ mode.
      Keeps-bind (get-Keeps (bytes "secondary_server_ip")) (λ host.
        Keeps-bind (get-Keeps (bytes "secondary_server_path")) (λ path.
          Keeps-bind (ended_by-Keeps (remote_end mode) path)
            (λ remote_path. second-Keeps mode host remote_path filename))))

  -- Whatever the settings are and whatever the other programs do.
  pub copy_data_file-Keeps : (filename : Str) → Keeps same (copy_data_file env filename)
  unfolding copy_data_file
  copy_data_file-Keeps filename = Keeps-bind (first_server-Keeps filename) (λ rc.
      Keeps-bind (get-Keeps (bytes "secondary_mode")) (λ mode.
        Keeps-if (copies_to_secondary mode rc) (second_server-Keeps filename) (Keeps-return rc)))
