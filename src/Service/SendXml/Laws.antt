-- ===== src/Service/SendXml/Laws.antt =====
-- What becomes of a report that was written to the disk.
use pandora_agent_win.Base.Int.{ℤ, pos, eqb_ℤ, ltb_ℤ, ◌*ℤ◌}
use pandora_agent_win.Base.{
  ℕ, ◌≡◌, refl, sym, ap, ◌∙◌, ◌⊎◌, arith, true, Bool-cases, inl, inr, List, [], ◌∷◌, ◌++◌, Option,
  none, some,
}
use pandora_agent_win.Conf.Defs.{get_value}
use pandora_agent_win.Service.Buffer.Laws.{
  eqb_zero, Delivered, IsAmong, send_files-Delivered, kept_or_sent,
}
use pandora_agent_win.Service.Buffer.{send_buffered_xml}
use pandora_agent_win.Service.Kept.{Kept-at_end}
use pandora_agent_win.Service.Outside.{Outside}
use pandora_agent_win.Service.SendXml.{deletes_file, deliver}
use pandora_agent_win.Service.Transfer.Keeps.{copy_data_file-Keeps}
use pandora_agent_win.Service.Transfer.{copy_data_file}
use pandora_agent_win.Service.World.{World, done, bound-eq-done, ended_by}
use pandora_agent_win.Strutils.{atoi}
use pandora_agent_win.Text.{Str, bytes}

-- With the buffer on, a file is deleted for one of two reasons.
deletes_file-true :
    (rc : ℤ) (free : Option ℕ) (min : ℤ)
    → deletes_file rc (pos 1) free min ≡ true
    → (rc ≡ pos 0) ⊎ ((n : ℕ) × (free ≡ some n) × (ltb_ℤ (pos n) min ≡ true))
unfolding deletes_file
deletes_file-true rc none min h = elim (Bool-cases (eqb_ℤ rc (pos 0))) [
  | inl b ↦ inl (eqb_zero rc b)
  | inr b ↦ absurd (ground (arith, h, b))
]
deletes_file-true rc (some n) min h = elim (Bool-cases (eqb_ℤ rc (pos 0))) [
  | inl b ↦ inl (eqb_zero rc b)
  | inr b ↦ inr (n, refl, rw b at h)
]

ended_by_at :
    (c : ℕ) (s : Str) (w v : World) {t : Str}
    → ended_by c s w ≡ done w t
    → ended_by c s v ≡ done v t
unfolding ended_by
ended_by_at c [] w v h = cc
ended_by_at c (d ∷ s) w v h = cc

module _ (env : Outside) where
  -- The disk was nearly full where the requests were those of `w`.
  abbrev pub IsLow : World → Type 0
  IsLow w =
      (n : ℕ) × (env.free_bytes w.requests ≡ some n)
      × (ltb_ℤ (pos n) (pos 1024 *ℤ atoi (get_value w.conf (bytes "temporal_min_size"))) ≡ true)

  -- From `w` to `w'` the files of the directory were sent, up to the first error, and the one at the path
  -- is among those that had the code 0.
  abbrev pub WasSent : (dir path : Str) → World → World → Type 0
  WasSent dir path w w' =
      (sent rest : List Str) × (env.found w.requests (dir ++ bytes "*.data") ≡ sent ++ rest)
      × Delivered env dir w sent rest w'
      × IsAmong env dir path sent

  buffered_safe :
      (w w' : World) (temporal dir path : Str)
      → ended_by b'\\' temporal w ≡ done w dir
      → send_buffered_xml env temporal w ≡ done w' tt
      → (w'.disk.file path ≡ w.disk.file path) ⊎ WasSent dir path w w'
  unfolding send_buffered_xml
  buffered_safe w w' temporal dir path e h =
      let (sent, rest, split, d, disk) =
        send_files-Delivered env dir (env.found w.requests (dir ++ bytes "*.data")) w w'
          (rw e at h) in
      elim (kept_or_sent env dir w.disk path sent) [
        | inl same ↦ inl (rw disk same)
        | inr among ↦ inr (sent, rest, split, d, among)
      ]

  -- What became of the file at the path: it is as it was, or the copy had the code 0, or the disk was
  -- nearly full after the copy, or the file was sent after that with the others of the directory.
  abbrev pub IsHandled : (dir path : Str) (w w₁ : World) (rc : ℤ) (w' : World) → Type 0
  IsHandled dir path w w₁ rc w' =
      (w'.disk.file path ≡ w.disk.file path) ⊎ (rc ≡ pos 0) ⊎ IsLow w₁ ⊎ WasSent dir path w₁ w'

  -- With the buffer on, a report that is written stays on the disk as it is, but for three cases of this
  -- run: the copy of it had the code 0, the space that was left on the disk after the copy was less than
  -- the least, or the report is one of the files of the directory that were sent after that, each of
  -- which had the code 0.
  pub deliver-IsHandled :
      (w w' : World) (name dir : Str)
      → ended_by b'\\' (get_value w.conf (bytes "temporal")) w ≡ done w dir
      → atoi (get_value w.conf (bytes "xml_buffer")) ≡ pos 1
      → deliver env name (dir ++ name) w ≡ done w' tt
      → (w₁ : World) × (rc : ℤ) × (copy_data_file env name w ≡ done w₁ rc)
        × IsHandled dir (dir ++ name) w w₁ rc w'
  unfolding deliver
  deliver-IsHandled w w' name dir t b h =
      let (w₁, rc, e, k) = bound-eq-done (copy_data_file env name w) _ h in
      let same = Kept-at_end rc (copy_data_file-Keeps env name) e in
      (
        w₁,
        rc,
        e,
        elim (Bool-cases (
            deletes_file rc (atoi (get_value w.conf (bytes "xml_buffer")))
              (env.free_bytes w₁.requests)
              (pos 1024 *ℤ atoi (get_value w.conf (bytes "temporal_min_size"))))) [
                | inl d ↦
                    elim (deletes_file-true rc (env.free_bytes w₁.requests)
                      (pos 1024 *ℤ atoi (get_value w.conf (bytes "temporal_min_size")))
                      (rw b at d)) [
                        | inl z ↦ inr (inl z)
                        | inr (n, free, low) ↦ inr (inr (inl (n, free, rw same.same_conf low)))
                      ]
                | inr d ↦
                    let sent =
                      buffered_safe w₁ w' (get_value w₁.conf (bytes "temporal")) dir (dir ++ name)
                        (rw (sym same.same_conf) at
                          (ended_by_at b'\\' (get_value w.conf (bytes "temporal")) w w₁ t))
                        (rw (d, b) at k) in
                    elim sent [
                      | inl unchanged ↦
                          inl (unchanged ∙ ap (λ disk. disk.file (dir ++ name)) same.same_disk)
                      | inr was ↦ inr (inr (inr was))
                    ]
              ],
      )
