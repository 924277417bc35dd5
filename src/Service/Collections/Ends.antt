-- ===== src/Service/Collections/Ends.antt =====
-- The loop over the collections ends.
use pandora_agent_win.Base.{
  ℕ, zero, suc, ◌+◌, ◌-◌, ◌<◌, ◌≡◌, ◌≢◌, sym, ap, ◌∙◌, ◌||◌, arith, true, Bool-cases, inl, inr,
  List, [], ◌∷◌, ◌++◌, Option, none, some, ◌==◌, ==_iff, ltb, length, take,
}
use pandora_agent_win.Conf.Defs.{
  get_value, get_current_collection_name, get_current_collection_verify, is_last_collection,
  go_next_collection, go_first_collection, is_broker_enabled, is_in_collection_list,
}
use pandora_agent_win.Service.Collections.{
  verified, current_name, next_collection, fetch_zip, after_first, after_zip, after_md5,
  sync_collection, check_collection, check_loop, purge_entries, purge_opened,
  purge_disk_collections, check_collections,
}
use pandora_agent_win.Service.Config.{same_md5}
use pandora_agent_win.Service.Kept.Files.{read-Keeps}
use pandora_agent_win.Service.Kept.{
  Frame, Kept, Keeps, Keeps-bind, Keeps-if, Keeps-return, Keeps-attempt, ended_by-Keeps,
}
use pandora_agent_win.Service.Outside.{Outside}
use pandora_agent_win.Service.World.{
  World, Run, Outcome, undefined, hung, endless, thrown, done, bound, read, write, attempt,
  remove_dir, ended_by,
}
use pandora_agent_win.Text.{Str, bytes, eq_str}
use pandora_agent_win.Service.Collections.Place.{
  SamePlace, same_place, verified-Keeps, write-Keeps, request-Keeps, fetch_md5-Keeps,
  fetch_zip-Keeps, first_md5-Keeps,
}

-- A run that ends, with the given property where it ends with a value.
abbrev Stops {ℓ} : {V : Type ℓ} → (World → V → Type 0) → Outcome V → Type 0
Stops Q undefined = Unit
Stops Q hung = Unit
Stops Q endless = ⊥
Stops Q (thrown w) = Unit
Stops Q (done w v) = Q w v

Stops-Kept {ι κ} :
    {V : Type ι} {W : Type κ} (F : Frame) (Q : World → W → Type 0) (w : World) (o : Outcome V)
    (next : V → Run W)
    → Kept F w o
    → ((w' : World) (v : V) → F.rel w w' → Stops Q (next v w'))
    → Stops Q (bound o next)
Stops-Kept F Q w undefined next k q = tt
Stops-Kept F Q w hung next k q = tt
Stops-Kept F Q w endless next k q = k
Stops-Kept F Q w (thrown w') next k q = tt
Stops-Kept F Q w (done w' v) next k q = q w' v k

Stops-of_Kept {ℓ} :
    {V : Type ℓ} (F : Frame) (Q : World → V → Type 0) (w : World) (o : Outcome V)
    → Kept F w o
    → ((w' : World) (v : V) → F.rel w w' → Q w' v)
    → Stops Q o
Stops-of_Kept F Q w undefined k q = tt
Stops-of_Kept F Q w hung k q = tt
Stops-of_Kept F Q w endless k q = k
Stops-of_Kept F Q w (thrown w') k q = tt
Stops-of_Kept F Q w (done w' v) k q = q w' v k

Stops-then {ι κ} :
    {V : Type ι} {W : Type κ} (P : World → V → Type 0) (Q : World → W → Type 0) (o : Outcome V)
    (next : V → Run W)
    → Stops P o
    → ((w' : World) (v : V) → P w' v → Stops Q (next v w'))
    → Stops Q (bound o next)
Stops-then P Q undefined next k q = tt
Stops-then P Q hung next k q = tt
Stops-then P Q endless next k q = k
Stops-then P Q (thrown w') next k q = tt
Stops-then P Q (done w' v) next k q = q w' v k

module _ (env : Outside) where
  -- One round moves on by one.
  abbrev Next : World → World → Unit {0} → Type 0
  Next w w' _ =
      (w'.conf.collection_it ≡ w.conf.collection_it + 1)
      × (length w'.conf.collection_list ≡ length w.conf.collection_list)

  Next-Stops : (w w' : World) → SamePlace w w' → Stops (Next w) (next_collection w')
  unfolding go_next_collection
  Next-Stops w w' s = (ap (λ i. i + 1) s.same_it, s.same_length)

  after_first-Stops :
      (temp_dir dir name : Str) (o : Option (Option (Unit {0}))) (w w' : World)
      → SamePlace w w'
      → Stops (Next w) (after_first env temp_dir dir name o w')
  after_first-Stops temp_dir dir name none w w' s = Next-Stops w w' s
  after_first-Stops temp_dir dir name (some none) w w' s = Next-Stops w w' s
  after_first-Stops temp_dir dir name (some (some _)) w w' s =
      Stops-Kept same_place (Next w) w' (attempt (fetch_zip env temp_dir dir name) w') _
        ((Keeps-attempt (fetch_zip-Keeps env temp_dir dir name)).kept w')
        (λ v _ t. Next-Stops w v (same_place.frame_trans s t))

  after_zip-Stops :
      (path text : Str) (o : Option (Unit {0})) (w w' : World)
      → SamePlace w w'
      → Stops (Next w) (after_zip env path text o w')
  after_zip-Stops path text none w w' s = Next-Stops w w' s
  after_zip-Stops path text (some _) w w' s =
      Stops-Kept same_place (Next w) w' (write path (take 32 text) w') _
        ((write-Keeps path (take 32 text)).kept w')
        (λ v _ t. Next-Stops w v (same_place.frame_trans s t))

  after_md5-Stops :
      (temp_dir dir name coll_md5 : Str) (o : Option (Option Str)) (w w' : World)
      → SamePlace w w'
      → Stops (Next w) (after_md5 env temp_dir dir name coll_md5 o w')
  after_md5-Stops temp_dir dir name coll_md5 none w w' s = Next-Stops w w' s
  after_md5-Stops temp_dir dir name coll_md5 (some none) w w' s = Next-Stops w w' s
  after_md5-Stops temp_dir dir name coll_md5 (some (some text)) w w' s =
      elim (Bool-cases (same_md5 coll_md5 text)) [
        | inl b ↦ rw b (Next-Stops w w' s)
        | inr b ↦ rw b (
            Stops-Kept same_place (Next w) w' (attempt (fetch_zip env temp_dir dir name) w') _
              ((Keeps-attempt (fetch_zip-Keeps env temp_dir dir name)).kept w')
              (λ v o t.
                after_zip-Stops (dir ++ (name ++ bytes ".md5")) text o w v
                  (same_place.frame_trans s t)))
      ]

  sync-Stops :
      (temp_dir dir name : Str) (o : Option Str) (w w' : World)
      → SamePlace w w'
      → Stops (Next w) (sync_collection env temp_dir dir name o w')
  unfolding sync_collection
  sync-Stops temp_dir dir name none w w' s =
      Stops-Kept same_place (Next w) w' _ (after_first env temp_dir dir name)
        ((Keeps-attempt (
            Keeps-bind (fetch_md5-Keeps env temp_dir (name ++ bytes ".md5"))
              (first_md5-Keeps env temp_dir dir (name ++ bytes ".md5")))).kept
          w')
        (λ v o t. after_first-Stops temp_dir dir name o w v (same_place.frame_trans s t))
  sync-Stops temp_dir dir name (some coll_md5) w w' s =
      elim (Bool-cases (ltb (length coll_md5) 32)) [
        | inl b ↦ rw b (Next-Stops w w' s)
        | inr b ↦ rw b (
            Stops-Kept same_place (Next w) w' _ (after_md5 env temp_dir dir name coll_md5)
              ((Keeps-attempt (fetch_md5-Keeps env temp_dir (name ++ bytes ".md5"))).kept w')
              (λ v o t.
                after_md5-Stops temp_dir dir name coll_md5 o w v (same_place.frame_trans s t)))
      ]

  round-Stops :
      (temp_dir dir : Str) (w : World) → Stops (Next w) (check_collection env temp_dir dir w)
  unfolding check_collection
  round-Stops temp_dir dir w =
      Stops-Kept same_place (Next w) w (current_name (get_current_collection_name w.conf) w) _
        ((name-Keeps (get_current_collection_name w.conf)).kept w)
        (λ a name s.
          Stops-Kept same_place (Next w) a
            (verified (dir ++ name) (get_current_collection_verify a.conf) a) _
            ((verified-Keeps (dir ++ name) (get_current_collection_verify a.conf)).kept a)
            (λ b _ t.
              Stops-Kept same_place (Next w) b (attempt (read (dir ++ (name ++ bytes ".md5"))) b) _
                ((Keeps-attempt (read-Keeps same_place (dir ++ (name ++ bytes ".md5")))).kept b)
                (λ c o u.
                  sync-Stops temp_dir dir name o w c
                    (same_place.frame_trans (same_place.frame_trans s t) u))))
    where
      name-Keeps : (o : Option Str) → Keeps same_place (current_name o)
      name-Keeps none = record { kept = λ w. tt }
      name-Keeps (some name) = Keeps-return name

  -- The iterator is at the end.
  abbrev AtEnd : World → Unit {0} → Type 0
  AtEnd w _ = w.conf.collection_it ≡ length w.conf.collection_list

  loop-Stops :
      (fuel k : ℕ) (temp_dir dir : Str) (w : World)
      → w.conf.collection_it + k ≡ length w.conf.collection_list
      → k < fuel
      → Stops AtEnd (check_loop env fuel temp_dir dir w)
  unfolding check_loop is_last_collection
  loop-Stops zero k temp_dir dir w e h = absurd (omega arith)
  loop-Stops (suc fuel) k temp_dir dir w e h =
      elim (Bool-cases (w.conf.collection_it == length w.conf.collection_list)) [
        | inl b ↦ rw b ((==_iff w.conf.collection_it (length w.conf.collection_list)).0 b)
        | inr b ↦
            let left : 0 < k = ground (arith, b, e) in
            rw b (
              Stops-then (Next w) AtEnd (check_collection env temp_dir dir w)
                (λ _. check_loop env fuel temp_dir dir) (round-Stops temp_dir dir w)
                (λ w' _ n.
                  loop-Stops fuel (k - 1) temp_dir dir w' (ground (arith, n.0, n.1))
                    (ground (arith, n.0))))
      ]

  purge-Keeps :
      (filepath : Str) (names : List Str) → Keeps same_place (purge_entries env filepath names)
  unfolding purge_entries
  purge-Keeps filepath [] = Keeps-return tt
  purge-Keeps filepath (d_name ∷ rest) =
      Keeps-bind
        (record {
          kept = λ w.
              (Keeps-if
                  (eq_str d_name (bytes ".")
                    || eq_str d_name (bytes "..")
                    || is_in_collection_list w.conf d_name)
                  (Keeps-return tt) (request-Keeps (remove_dir (filepath ++ d_name)))).kept
                w;
        })
        (λ _. purge-Keeps filepath rest)

  opened-Keeps :
      (filepath : Str) (o : Option (List Str)) → Keeps same_place (purge_opened env filepath o)
  opened-Keeps filepath none = record { kept = λ w. tt }
  opened-Keeps filepath (some names) = purge-Keeps filepath names

  purge_all-Keeps : Keeps same_place (purge_disk_collections env)
  unfolding purge_disk_collections
  purge_all-Keeps = record {
    kept = λ w.
        (Keeps-if (is_broker_enabled w.conf) (Keeps-return tt) (
            opened-Keeps (env.install_dir ++ bytes "collections\\")
              (env.entries w.requests (env.install_dir ++ bytes "collections\\")))).kept
          w;
  }

  AtEnd-still : (w w' : World) → AtEnd w tt → SamePlace w w' → AtEnd w' tt
  AtEnd-still w w' e s = s.same_it ∙ e ∙ sym s.same_length

  all-Stops : (w : World) → Stops AtEnd (check_collections env w)
  unfolding check_collections go_first_collection
  all-Stops w =
      Stops-Kept same_place AtEnd w (ended_by b'\\' (get_value w.conf (bytes "temporal")) w) _
        ((ended_by-Keeps {F = same_place} b'\\' (get_value w.conf (bytes "temporal"))).kept w)
        (λ a temp_dir s.
          Stops-then AtEnd AtEnd _ (λ _. purge_disk_collections env)
            (loop-Stops (suc (length a.conf.collection_list)) (length a.conf.collection_list)
              temp_dir (env.install_dir ++ bytes "collections\\")
              (record a { conf = record a.conf { collection_it = 0 } }) (omega arith) (omega arith))
            (λ b _ e.
              Stops-of_Kept same_place AtEnd b (purge_disk_collections env b)
                (purge_all-Keeps.kept b) (λ c _ t. AtEnd-still b c e t)))

  -- Whatever the server, the clients and the disk do, the loop over the collections does not go round
  -- without end: it takes at most one round more than there are collections, unless it waits for a
  -- program that never ends, which is not excluded; and where it ends by itself, the iterator stands at
  -- the end of the list.
  pub check_collections-Stops :
      (w : World)
      → (check_collections env w ≢ endless)
        × ((w' : World) → check_collections env w ≡ done w' tt → is_last_collection w'.conf ≡ true)
  unfolding is_last_collection
  check_collections-Stops w = (
    λ e. rw e at (all-Stops w),
    λ w' e.
        (==_iff w'.conf.collection_it (length w'.conf.collection_list)).1
          (at_the_end w' (rw e at (all-Stops w))),
  )
    where
      at_the_end : (w' : World) → Stops AtEnd (done w' tt) → AtEnd w' tt
      at_the_end w' h = h
