-- ===== src/Service/Buffer/Laws.antt =====
-- What `sendBufferedXml` does to the files.
use pandora_agent_win.Base.Int.{ℤ, pos, eqb_ℤ, eq_of_parts, pos_part, neg_part}
use pandora_agent_win.Base.{
  ◌≡◌, refl, sym, ap, ◌∙◌, ◌+◌, ==_iff, true, false, Bool-cases, ◌⊎◌, inl, inr, List, [], ◌∷◌, ◌++◌,
}
use pandora_agent_win.File.{Disk, remove_file}
use pandora_agent_win.Service.Buffer.{send_files}
use pandora_agent_win.Service.Kept.{Kept-at_end}
use pandora_agent_win.Service.Outside.{Outside}
use pandora_agent_win.Service.Transfer.Keeps.{copy_data_file-Keeps}
use pandora_agent_win.Service.Transfer.{copy_data_file}
use pandora_agent_win.Service.World.{World, done, bound-eq-done}
use pandora_agent_win.Text.Laws.{eq_str_iff}
use pandora_agent_win.Text.{Str, eq_str}

pub eqb_zero : (rc : ℤ) → eqb_ℤ rc (pos 0) ≡ true → rc ≡ pos 0
eqb_zero rc h = eq_of_parts rc (pos 0) ((==_iff (pos_part rc + 0) (0 + neg_part rc)).0 h)

abbrev pub remove_each : (base_path : Str) → List Str → Disk → Disk
remove_each base_path [] disk = disk
remove_each base_path (name ∷ names) disk =
    remove_each base_path names (remove_file disk (base_path ++ name))

abbrev pub without : (path : Str) → World → World
without path w = record w { disk = remove_file w.disk path }

module _ (env : Outside) (base_path : Str) where
  -- One file after the other is copied with the code 0 and then removed, until none is left or a copy
  -- has another code.
  pub data Delivered : World → (sent rest : List Str) → World → Type 0 where
    all_sent : (w : World) → Delivered w [] [] w
    not_copied :
        (w w' : World) (name : Str) (rest : List Str) (rc : ℤ)
        → copy_data_file env name w ≡ done w' rc
        → eqb_ℤ rc (pos 0) ≡ false
        → Delivered w [] (name ∷ rest) w'
    and_sent :
        (w w₁ w' : World) (name : Str) (sent rest : List Str)
        → copy_data_file env name w ≡ done w₁ (pos 0)
        → Delivered (without (base_path ++ name) w₁) sent rest w'
        → Delivered w (name ∷ sent) rest w'

  copy_disk :
      (name : Str) (w w' : World) (rc : ℤ)
      → copy_data_file env name w ≡ done w' rc
      → w'.disk ≡ w.disk
  copy_disk name w w' rc e = (Kept-at_end rc (copy_data_file-Keeps env name) e).same_disk

  Delivered-disk :
      {w w' : World} {sent rest : List Str}
      → Delivered w sent rest w'
      → w'.disk ≡ remove_each base_path sent w.disk
  Delivered-disk (all_sent w) = refl
  Delivered-disk (not_copied w w' name rest rc e f) = copy_disk name w w' rc e
  Delivered-disk (and_sent w w₁ w' name sent rest e later) =
      Delivered-disk later
      ∙ ap (λ d. remove_each base_path sent (remove_file d (base_path ++ name)))
          (copy_disk name w w₁ (pos 0) e)

  send_files-Delivered' :
      (names : List Str) (w w' : World)
      → send_files env base_path names w ≡ done w' tt
      → (sent rest : List Str) × (names ≡ sent ++ rest) × Delivered w sent rest w'
  unfolding send_files
  send_files-Delivered' [] w w' h =
      let same : w ≡ w' = cc in ([], [], refl, rw (sym same) (all_sent w))
  send_files-Delivered' (name ∷ names) w w' h =
      let (w₁, rc, e, k) = bound-eq-done (copy_data_file env name w) _ h in
      elim (Bool-cases (eqb_ℤ rc (pos 0))) [
        | inl b ↦
            let (sent, rest, split, later) =
              send_files-Delivered' names (without (base_path ++ name) w₁) w' (rw b at k) in
            (
              name ∷ sent,
              rest,
              ap (◌∷◌ name) split,
              and_sent w w₁ w' name sent rest (rw (eqb_zero rc b) at e) later,
            )
        | inr b ↦
            let back : done w₁ tt ≡ done w' tt = rw b at k in
            let same : w₁ ≡ w' = cc in
            ([], name ∷ names, refl, not_copied w w' name names rc (rw same at e) b)
      ]

  -- A run that ends has sent the first of the files, one after the other, each with the code 0, and
  -- stopped at the end or at the first file that had another code. Each file sent is removed once after
  -- it was sent, in this order, and no other one is: the disk is what these removals make of it, each of
  -- which removes the file or fails.
  pub send_files-Delivered :
      (names : List Str) (w w' : World)
      → send_files env base_path names w ≡ done w' tt
      → (sent rest : List Str) × (names ≡ sent ++ rest)
        × Delivered w sent rest w'
        × (w'.disk ≡ remove_each base_path sent w.disk)
  send_files-Delivered names w w' h =
      let (sent, rest, split, d) = send_files-Delivered' names w w' h in
      (sent, rest, split, d, Delivered-disk d)

  -- The file at the path is one of those that were sent.
  abbrev pub IsAmong : (path : Str) (sent : List Str) → Type 0
  IsAmong path sent =
      (before : List Str) × (name : Str) × (later : List Str) × (sent ≡ before ++ name ∷ later)
      × (base_path ++ name ≡ path)

  remove_file_other :
      (disk : Disk) (removed path : Str)
      → eq_str removed path ≡ false
      → (remove_file disk removed).file path ≡ disk.file path
  unfolding remove_file
  remove_file_other disk removed path other =
      elim (Bool-cases (disk.removable disk.operations removed)) [
        | inl b ↦ rw (b, other) refl
        | inr b ↦ rw b refl
      ]

  -- A file of the disk stays, or it is one that was sent.
  pub kept_or_sent :
      (disk : Disk) (path : Str) (sent : List Str)
      → ((remove_each base_path sent disk).file path ≡ disk.file path) ⊎ IsAmong path sent
  kept_or_sent disk path [] = inl refl
  kept_or_sent disk path (name ∷ sent) = elim (Bool-cases (eq_str (base_path ++ name) path)) [
    | inl b ↦ inr ([], name, sent, refl, (eq_str_iff (base_path ++ name) path).0 b)
    | inr b ↦ elim (kept_or_sent (remove_file disk (base_path ++ name)) path sent) [
      | inl same ↦ inl (same ∙ remove_file_other disk (base_path ++ name) path b)
      | inr (before, n, later, e, at_path) ↦ inr (name ∷ before, n, later, ap (◌∷◌ name) e, at_path)
    ]
  ]
