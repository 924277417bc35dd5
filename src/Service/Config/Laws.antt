-- ===== src/Service/Config/Laws.antt =====
-- What `checkConfig` does to the configuration file.
use pandora_agent_win.Base.Int.{ℤ, pos}
use pandora_agent_win.Base.{
  ℕ, suc, ◌≡◌, ◌≢◌, refl, sym, ap, ◌⊎◌, inl, inr, Bool, true, false, Bool-cases, [], ◌∷◌, ◌++◌,
  Option, none, some, if◌then◌else◌, length, ltb, ◌==◌,
}
use pandora_agent_win.Conf.Defs.{get_value}
use pandora_agent_win.File.{updated, write_file, remove_file, nonempty, read_bin_file, md5}
use pandora_agent_win.Service.Config.{
  fetch, upload, remote_md5, check_text, asked, compared, fetched, same_md5,
}
use pandora_agent_win.Service.Kept.Files.{IsApart, recv-Kept, read-Keeps, write-Keeps, remove-Keeps}
use pandora_agent_win.Service.Kept.{
  same_file, SameFile, Keeps, Keeps-bind, Keeps-if, Keeps-return, Kept-attempt, Keeps-attempt,
  Keeps-weaker,
}
use pandora_agent_win.Service.Outside.{Outside}
use pandora_agent_win.Service.Post.{Post, Post-Kept, Post-attempt}
use pandora_agent_win.Service.Receive.{recv_data_file, in_dir}
use pandora_agent_win.Service.Transfer.Keeps.{copy_data_file-Keeps}
use pandora_agent_win.Service.World.{
  World, last_byte, done, bound, read, write, remove, ended_by, attempt, return, ◌>>=◌, or_thrown,
  written_to,
}
use pandora_agent_win.Text.Laws.{eq_str_iff}
use pandora_agent_win.Text.{Str, bytes, is_empty}

-- The file has what the disk stored of a text that is not empty.
abbrev pub HasText : (file : Str) → World → Type 0
HasText file w =
    (operations : ℕ) × (text : Str) × (w.disk.file file ≡ some (w.disk.stored operations file text))
    × (is_empty text ≡ false)

-- Where the code is 0, the file and the configuration in memory are as they were; where it is 1, the
-- file was replaced. There is no other code.
abbrev pub IsChecked : (file : Str) → World → World → ℤ → Type 0
IsChecked file w w' rc = ((rc ≡ pos 0) × SameFile file w w') ⊎ ((rc ≡ pos 1) × HasText file w')

pub done-injective : {w : World} {a b : Str} → done w a ≡ done w b → a ≡ b
done-injective h = cc

pub in_dir_ended :
    (temporal name : Str) (w : World) {dir : Str}
    → ended_by b'\\' temporal w ≡ done w dir
    → in_dir temporal name ≡ dir ++ name
unfolding ended_by
in_dir_ended [] name w h = cc
in_dir_ended (c ∷ s) name w {dir} h = elim (Bool-cases (last_byte c s == b'\\')) [
  | inl b ↦
      let e : done w (c ∷ s) ≡ done w dir = rw b at h in
      rw b (ap (λ t. t ++ name) (done-injective e))
  | inr b ↦
      let e : done w ((c ∷ s) ++ (b'\\' ∷ [])) ≡ done w dir = rw b at h in
      rw b (ap (λ t. t ++ name) (done-injective e))
]

module _ (env : Outside) (file dir : Str) (w₀ : World)
    (apart : (name : Str) → dir ++ name ≢ file) where
  -- The last step of a replacement.
  saved :
      (c : _) (s : Str) (w : World)
      → SameFile file w₀ w
      → Post (SameFile file w₀) (λ w' _. HasText file w') (write file (c ∷ s) w)
  unfolding write_file
  saved c s w h = ends (w.disk.writable file)
    where
      ends :
          (b : Bool)
          → Post
              (SameFile file w₀)
              (λ w' _. HasText file w')
              (written_to w (
                if b
                then some (record w.disk {
                  file =
                      updated w.disk.file file
                        (some (w.disk.stored w.disk.operations file (c ∷ s)));
                  operations = suc w.disk.operations;
                })
                else none))
      ends true = (w.disk.operations, c ∷ s, rw ((eq_str_iff file file).1 refl) refl, refl)
      ends false = h

  -- Reading the file that was fetched, and what follows.
  read_saved :
      (path : Str) (w : World)
      → SameFile file w₀ w
      → path ≢ file
      → Post
          (SameFile file w₀)
          (λ w' _. HasText file w')
          (bound (read path w) (λ s. remove path >>= λ _. write file s))
  unfolding read_bin_file
  read_saved path w h other = ends (w.disk.file path)
    where
      removed : SameFile file w₀ (record w { disk = remove_file w.disk path })
      removed = (same_file file).frame_trans h ((remove-Keeps file path other).kept w)

      ends :
          (o : Option Str)
          → Post
              (SameFile file w₀)
              (λ w' _. HasText file w')
              (bound (or_thrown w (nonempty o) (done w)) (λ s. remove path >>= λ _. write file s))
      ends none = h
      ends (some []) = h
      ends (some (c ∷ s)) = saved c s (record w { disk = remove_file w.disk path }) removed

  module _ (here : IsApart file (get_value w₀.conf (bytes "temporal"))) where
    still : (w : World) → SameFile file w₀ w → IsApart file (get_value w.conf (bytes "temporal"))
    still w h = let e : w.conf ≡ w₀.conf = h.file_conf in rw (sym e) at here

    fetch_post :
        (conf_tmp_file : Str) (w : World)
        → SameFile file w₀ w
        → Post (SameFile file w₀) (λ w' _. HasText file w') (fetch env file dir conf_tmp_file w)
    unfolding fetch
    fetch_post conf_tmp_file w h =
        Post-Kept (same_file file) (SameFile file w₀) (λ w' _. HasText file w') w
          (recv_data_file env conf_tmp_file w) _ (recv-Kept env file w (still w h) conf_tmp_file)
          (λ w' s. (same_file file).frame_trans h s)
          (λ w' _ s.
            read_saved (dir ++ conf_tmp_file) w' ((same_file file).frame_trans h s)
              (apart conf_tmp_file))

    compared_post :
        (conf_tmp_file conf_md5 : Str) (r : Option (Option Str)) (w : World)
        → SameFile file w₀ w
        → Post
            (SameFile file w₀)
            (IsChecked file w₀)
            (compared env file dir conf_tmp_file conf_md5 r w)
    compared_post conf_tmp_file conf_md5 none w h = inl (refl, h)
    compared_post conf_tmp_file conf_md5 (some none) w h = inl (refl, h)
    compared_post conf_tmp_file conf_md5 (some (some remote)) w h = ends (same_md5 remote conf_md5)
      where
        replaced :
            Post
              (SameFile file w₀)
              (IsChecked file w₀)
              ((attempt (fetch env file dir conf_tmp_file) >>= fetched env) w)
        replaced =
            Post-attempt (SameFile file w₀) (λ w' _. HasText file w') (SameFile file w₀)
              (IsChecked file w₀) (fetch env file dir conf_tmp_file) w
              (fetch env file dir conf_tmp_file w) (fetched env) refl (fetch_post conf_tmp_file w h)
              (λ w' s. inl (refl, s)) (λ w' _ t. inr (refl, t))

        ends :
            (b : Bool)
            → Post (SameFile file w₀) (IsChecked file w₀) (
                (if b
                    then return (pos 0)
                    else (attempt (fetch env file dir conf_tmp_file) >>= fetched env))
                  w)
        ends true = inl (refl, h)
        ends false = replaced

    upload-Keeps :
        (conf_tmp_file md5_tmp_file conf_str conf_md5 : Str)
        → Keeps (same_file file) (upload env dir conf_tmp_file md5_tmp_file conf_str conf_md5)
    unfolding upload
    upload-Keeps conf_tmp_file md5_tmp_file conf_str conf_md5 =
        Keeps-bind (write-Keeps file (dir ++ conf_tmp_file) (apart conf_tmp_file) conf_str) (λ _.
          Keeps-bind (Keeps-weaker file (copy_data_file-Keeps env conf_tmp_file)) (λ rc.
            Keeps-bind (remove-Keeps file (dir ++ conf_tmp_file) (apart conf_tmp_file)) (λ _.
              Keeps-bind (write-Keeps file (dir ++ md5_tmp_file) (apart md5_tmp_file) conf_md5)
                (λ _.
                  Keeps-bind (Keeps-weaker file (copy_data_file-Keeps env md5_tmp_file))
                    (λ rc'. remove-Keeps file (dir ++ md5_tmp_file) (apart md5_tmp_file))))))

    remote_md5-Keeps :
        (md5_tmp_file : Str) → Keeps (same_file file) (remote_md5 env (dir ++ md5_tmp_file))
    unfolding remote_md5
    remote_md5-Keeps md5_tmp_file =
        Keeps-bind (read-Keeps (same_file file) (dir ++ md5_tmp_file)) (λ text.
          Keeps-if (ltb (length text) 32) (Keeps-return none) (
            Keeps-bind (remove-Keeps file (dir ++ md5_tmp_file) (apart md5_tmp_file))
              (λ _. Keeps-return (some text))))

    asked_post :
        (conf_tmp_file md5_tmp_file conf_str conf_md5 : Str) (r : Option (Unit {0})) (w : World)
        → SameFile file w₀ w
        → Post
            (SameFile file w₀)
            (IsChecked file w₀)
            (asked env file dir conf_tmp_file md5_tmp_file conf_str conf_md5 r w)
    asked_post conf_tmp_file md5_tmp_file conf_str conf_md5 none w h =
        Post-Kept (same_file file) (SameFile file w₀) (IsChecked file w₀) w
          (attempt (upload env dir conf_tmp_file md5_tmp_file conf_str conf_md5) w) _
          ((Keeps-attempt (upload-Keeps conf_tmp_file md5_tmp_file conf_str conf_md5)).kept w)
          (λ w' s. (same_file file).frame_trans h s)
          (λ w' _ s. inl (refl, (same_file file).frame_trans h s))
    asked_post conf_tmp_file md5_tmp_file conf_str conf_md5 (some _) w h =
        Post-Kept (same_file file) (SameFile file w₀) (IsChecked file w₀) w
          (attempt (remote_md5 env (dir ++ md5_tmp_file)) w) _
          ((Keeps-attempt (remote_md5-Keeps md5_tmp_file)).kept w)
          (λ w' s. (same_file file).frame_trans h s)
          (λ w' r s. compared_post conf_tmp_file conf_md5 r w' ((same_file file).frame_trans h s))

    pub check_text_post :
        (agent_md5 : Str) (text : Option Str)
        → Post (SameFile file w₀) (IsChecked file w₀) (check_text env file dir agent_md5 text w₀)
    unfolding check_text
    check_text_post agent_md5 none = inl (refl, (same_file file).frame_refl w₀)
    check_text_post agent_md5 (some conf_str) =
        Post-Kept (same_file file) (SameFile file w₀) (IsChecked file w₀) w₀
          (attempt (recv_data_file env (agent_md5 ++ bytes ".md5")) w₀) _
          (Kept-attempt (same_file file) w₀ (recv_data_file env (agent_md5 ++ bytes ".md5")) _ refl
            (recv-Kept env file w₀ here (agent_md5 ++ bytes ".md5")))
          (λ w' s. s)
          (λ w' r s.
            asked_post (agent_md5 ++ bytes ".conf") (agent_md5 ++ bytes ".md5") conf_str
              (md5 env.digest conf_str) r w' s)
