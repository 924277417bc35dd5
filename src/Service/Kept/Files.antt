-- ===== src/Service/Kept/Files.antt =====
-- Runs on other files, and fetching one, keep a file.
use pandora_agent_win.Base.{
  suc, ◌≡◌, ◌≢◌, refl, Bool, true, false, Bool-cases, inl, inr, Option, none, some, if◌then◌else◌,
  ◌∷◌, [],
}
use pandora_agent_win.Base.Int.{ℤ, pos, eqb_ℤ}
use pandora_agent_win.File.{write_file, remove_file, updated}
use pandora_agent_win.Service.Kept.{
  Frame, same_file, SameFile, Kept, Keeps, Keeps-bind, Keeps-if, Keeps-return, Keeps-throw,
}
use pandora_agent_win.Service.Outside.{Outside}
use pandora_agent_win.Service.Receive.{
  recv_data_file, recv_tentacle_data_file, run_recv, recv_cmd, in_dir, left_at, ended,
}
use pandora_agent_win.Conf.Defs.{Files, get_value}
use pandora_agent_win.Service.World.{
  World, done, bound, throw, ended_by, or_thrown, written_to, read, write, remove, run_command,
}
use pandora_agent_win.Text.Laws.{eq_str_iff}
use pandora_agent_win.Text.{Str, bytes, eq_str}

eq_str_other : (a b : Str) → a ≢ b → eq_str a b ≡ false
eq_str_other a b h = elim (Bool-cases (eq_str a b)) [
  | inl e ↦ absurd (h ((eq_str_iff a b).0 e))
  | inr e ↦ e
]

pub read-Keeps : (F : Frame) (path : Str) → Keeps F (read path)
read-Keeps F path = record { kept = λ w. ends w _ }
  where
    ends : (w : World) (o : Option Str) → Kept F w (or_thrown w o (done w))
    ends w none = F.frame_refl w
    ends w (some text) = F.frame_refl w

pub ended-Kept : (F : Frame) (o : Option ℤ) (w v : World) → F.rel w v → Kept F w (ended v o)
ended-Kept F none w v s = tt
ended-Kept F (some code) w v s = s

module _ (file path : Str) (other : path ≢ file) where
  pub remove-Keeps : Keeps (same_file file) (remove path)
  unfolding remove_file
  remove-Keeps = record {
    kept = λ w. record {
      file_conf = refl;
      file_text = stays w.disk.file (w.disk.removable w.disk.operations path);
    };
  }
    where
      stays :
          (files : Files) (b : Bool)
          → (if b then updated files path none else files) file ≡ files file
      stays files true = rw (eq_str_other path file other) refl
      stays files false = refl

  pub write-Keeps : (text : Str) → Keeps (same_file file) (write path text)
  unfolding write_file
  write-Keeps text = record { kept = λ w. ends w (w.disk.writable path) }
    where
      ends :
          (w : World) (b : Bool)
          → Kept (same_file file) w (
              written_to w (
                if b
                then some (record w.disk {
                  file =
                      updated w.disk.file path (some (w.disk.stored w.disk.operations path text));
                  operations = suc w.disk.operations;
                })
                else none))
      ends w true = record { file_conf = refl; file_text = rw (eq_str_other path file other) refl }
      ends w false = (same_file file).frame_refl w

  left_at_file :
      (o : Option Str) (w v : World) → SameFile file w v → SameFile file w (left_at path o v)
  left_at_file none w v s = s
  left_at_file (some text) w v s = record {
    file_conf = s.file_conf;
    file_text = rw (eq_str_other path file other) s.file_text;
  }

  pub run_recv-Keeps :
      (env : Outside) (command : Str) → Keeps (same_file file) (run_recv env path command)
  run_recv-Keeps env command = record {
    kept = λ w. ended-Kept (same_file file) (env.command (run_command command ∷ w.requests)) w _ (
        left_at_file (env.downloaded (run_command command ∷ w.requests)) w
          (record w { requests = run_command command ∷ w.requests })
          (record { file_conf = refl; file_text = refl }));
  }

-- No file of the directory `temporal` is the given one.
abbrev pub IsApart : (file temporal : Str) → Type 0
IsApart file temporal = (name : Str) → in_dir temporal name ≢ file

module _ (env : Outside) (file : Str) (w : World)
    (apart : IsApart file (get_value w.conf (bytes "temporal"))) where
  recv_tentacle-Kept :
      (host filename : Str) → Kept (same_file file) w (recv_tentacle_data_file env host filename w)
  unfolding recv_tentacle_data_file
  recv_tentacle-Kept host filename =
      let temporal = get_value w.conf (bytes "temporal") in
      (Keeps-if (env.chdir temporal)
          (Keeps-bind
            (run_recv-Keeps file (in_dir temporal filename) (apart filename) env (
              recv_cmd host (get_value w.conf (bytes "server_port"))
                (get_value w.conf (bytes "server_ssl")) (get_value w.conf (bytes "server_pwd"))
                (get_value w.conf (bytes "server_opts")) filename))
            (λ rc. Keeps-if (eqb_ℤ rc (pos 0)) (Keeps-return tt) Keeps-throw))
          Keeps-throw).kept
        w

  pub recv-Kept : (filename : Str) → Kept (same_file file) w (recv_data_file env filename w)
  unfolding recv_data_file
  recv-Kept filename =
      ends (get_value w.conf (bytes "server_path"))
        (eq_str (get_value w.conf (bytes "transfer_mode")) (bytes "tentacle"))
    where
      ends :
          (path : Str) (b : Bool)
          → Kept (same_file file) w (
              bound (ended_by b'/' path w) (λ _.
                if b
                then recv_tentacle_data_file env (get_value w.conf (bytes "server_ip")) filename
                else throw))
      ends [] b = unfold ended_by in tt
      ends (c ∷ path) true =
          unfold ended_by in recv_tentacle-Kept (get_value w.conf (bytes "server_ip")) filename
      ends (c ∷ path) false = unfold ended_by in (same_file file).frame_refl w
