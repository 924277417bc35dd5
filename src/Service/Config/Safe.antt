-- ===== src/Service/Config/Safe.antt =====
-- `checkConfig` leaves the configuration file alone or replaces it.
use pandora_agent_win.Base.Int.{ℤ, pos}
use pandora_agent_win.Base.Result.{Result, ok, err, out_of_range, undefined_behaviour}
use pandora_agent_win.Base.{
  ◌≡◌, ◌≢◌, refl, ◌∙◌, inl, Bool, true, false, [], ◌∷◌, ◌++◌, Option, none, some, if◌then◌else◌,
}
use pandora_agent_win.Conf.Broker.{check_agent_name}
use pandora_agent_win.Conf.Defs.{get_value}
use pandora_agent_win.File.{md5}
use pandora_agent_win.Service.Config.Laws.{IsChecked, in_dir_ended, check_text_post}
use pandora_agent_win.Service.Config.{agent_name_in, check_text, check_config, name_in}
use pandora_agent_win.Service.Header.{or_else}
use pandora_agent_win.Service.Kept.Files.{IsApart, read-Keeps}
use pandora_agent_win.Service.Kept.{Frame, same_file, SameFile, Keeps-attempt}
use pandora_agent_win.Service.Outside.{Outside}
use pandora_agent_win.Service.Post.{Post, Post-Kept}
use pandora_agent_win.Service.Receive.{in_dir}
use pandora_agent_win.Service.World.{
  World, Run, done, bound, read, get, ended_by, attempt, return, from_result, ◌>>=◌,
}
use pandora_agent_win.Text.{Str, bytes, eq_str, is_empty, lines}

abbrev nothing_changed : Frame
nothing_changed = record {
  rel = λ w w'. w' ≡ w;
  frame_refl = λ w. refl;
  frame_trans = λ s t. t ∙ s;
}

module _ (env : Outside) (file : Str) (w : World)
    (here : IsApart file (get_value w.conf (bytes "temporal"))) where
  abbrev Checked : World → ℤ → Type 0
  Checked w' rc = IsChecked file w w' rc

  abbrev named : (dir name : Str) → Run ℤ
  named dir name =
      if is_empty (or_else name env.system_name)
      then return (pos 0)
      else (attempt (read file)
          >>= check_text env file dir (md5 env.digest (or_else name env.system_name)))

  module _ (dir : Str) (apart : (name : Str) → dir ++ name ≢ file) where
    named_post : (name : Str) → Post (SameFile file w) Checked (named dir name w)
    named_post name = ends (is_empty (or_else name env.system_name))
      where
        agent : Str
        agent = md5 env.digest (or_else name env.system_name)

        ends :
            (b : Bool)
            → Post (SameFile file w) Checked (
                (if b
                    then return (pos 0)
                    else (attempt (read file) >>= check_text env file dir agent))
                  w)
        ends true = inl (refl, (same_file file).frame_refl w)
        ends false =
            Post-Kept nothing_changed (SameFile file w) Checked w (attempt (read file) w)
              (check_text env file dir agent)
              ((Keeps-attempt (read-Keeps nothing_changed file)).kept w)
              (λ w' e. rw e ((same_file file).frame_refl w))
              (λ w' text e. rw e (check_text_post env file dir w apart here agent text))

    from_name :
        (r : Result Str) → Post (SameFile file w) Checked (bound (from_result r w) (named dir))
    from_name (ok name) = named_post name
    from_name (err out_of_range) = (same_file file).frame_refl w
    from_name (err undefined_behaviour) = tt

    in_file :
        (text : Option Str) → Post (SameFile file w) Checked (bound (name_in text w) (named dir))
    in_file none = tt
    in_file (some text) = from_name (check_agent_name (lines text))

  checked :
      (remote_config : Bool)
      → Post (SameFile file w) Checked (
          (if remote_config
              then get (bytes "temporal") >>= (λ temporal.
                ended_by b'\\' temporal >>= (λ temp_dir. agent_name_in file >>= named temp_dir))
              else return (pos 0))
            w)
  checked false = inl (refl, (same_file file).frame_refl w)
  checked true = ends (get_value w.conf (bytes "temporal")) (λ dir e name.
      let e' : in_dir (get_value w.conf (bytes "temporal")) name ≡ dir ++ name =
        in_dir_ended (get_value w.conf (bytes "temporal")) name w e in
      λ f. here name (e' ∙ f))
    where
      ends :
          (temporal : Str)
          → ((dir : Str)
              → ended_by b'\\' temporal w ≡ done w dir
              → (name : Str) → dir ++ name ≢ file)
          → Post (SameFile file w) Checked (
              bound (ended_by b'\\' temporal w) (λ temp_dir. agent_name_in file >>= named temp_dir))
      ends [] apart = unfold ended_by in tt
      ends (c ∷ s) apart = unfold ended_by in in_file _ (apart _ refl) (w.disk.file file)

  post : Post (SameFile file w) Checked (check_config env file w)
  unfolding check_config
  post = checked (eq_str (get_value w.conf (bytes "remote_config")) (bytes "1"))

-- For a file that is not in the directory `temporal`: when the code is 0, the file and the configuration
-- in memory are what they were; when it is 1, the file has what the disk stored of a text that is not
-- empty, which is all of it unless that last write failed; no other code is returned. So whatever the
-- server, the clients and the disk do, only the write of a new text itself can damage the configuration.
pub check_config-IsChecked :
    (env : Outside) (file : Str) (w w' : World) (rc : ℤ)
    → IsApart file (get_value w.conf (bytes "temporal"))
    → check_config env file w ≡ done w' rc
    → IsChecked file w w' rc
check_config-IsChecked env file w w' rc here e = rw e at (post env file w here)
