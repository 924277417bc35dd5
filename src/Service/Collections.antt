-- ===== src/Service/Collections.antt =====
-- `checkCollections`, `unzipCollection` and `purgeDiskCollections`: the collections that the
-- configuration names are put on the `PATH`, fetched, and kept as the server has them.
pub mod Place
pub mod Ends
use pandora_agent_win.Base.Int.{ℤ, pos, negsuc}
use pandora_agent_win.Base.{
  ℕ, zero, suc, ◌+◌, ◌-◌, Bool, true, false, not, ◌&&◌, ◌||◌, List, [], ◌∷◌, ◌++◌, Option, none,
  some, ◌==◌, ltb, length, take, if◌then◌else◌,
}
use pandora_agent_win.Conf.Defs.{
  Conf, is_in_collection_list, go_first_collection, go_next_collection, is_last_collection,
  get_current_collection_name, get_current_collection_verify, set_current_collection_verify,
  is_broker_enabled,
}
use pandora_agent_win.Service.Config.{same_md5}
use pandora_agent_win.Service.Outside.{Outside}
use pandora_agent_win.Service.Receive.{recv_data_file}
use pandora_agent_win.Service.Transfer.{waited}
use pandora_agent_win.Service.World.{
  World, Run, undefined, endless, done, ◌>>=◌, ◌>>◌, return, undefined_here, get, ended_by, attempt,
  read, write, remove, request, change_conf, run_client, remove_dir, make_dir,
}
use pandora_agent_win.Text.{Str, bytes, eq_str, is_some, has, is_prefix}

-- `s.rfind (p)`.
unfoldable pub rfind : Str → Str → Option ℕ
rfind [] p = if is_prefix p [] then some 0 else none
rfind (c ∷ s) p = elim (rfind s p) [
  | some i ↦ some (suc i)
  | none ↦ if is_prefix p (c ∷ s) then some 0 else none
]

abbrev at_tail : (path p : Str) → Option ℕ → Bool
at_tail path p none = false
at_tail path p (some found) = (found + length p) == length path

-- The new value of `PATH`.
unfoldable pub with_collection : (path collection_path : Str) → Str
with_collection path collection_path =
    if has path (collection_path ++ bytes ";")
    then path
    else if at_tail path collection_path (rfind path collection_path)
    then path
    else path ++ (bytes ";" ++ collection_path)

abbrev change_path : (collection_path : Str) → Run (Unit {0})
change_path collection_path w = done (record w { path = with_collection w.path collection_path }) tt

abbrev current_name : Option Str → Run Str
current_name none = undefined_here
current_name (some name) = return name

abbrev next_collection : Run (Unit {0})
next_collection = change_conf go_next_collection

-- The part that is run once for each collection.
abbrev verified : (collection_path : Str) → Option ℕ → Run (Unit {0})
verified collection_path none = undefined_here
verified collection_path (some verify) =
    if verify == 0
    then (change_path collection_path >> change_conf set_current_collection_verify)
    else return tt

module _ (env : Outside) where
  abbrev unzip_code : Run ℤ
  unzip_code w = waited none (env.process w.requests) w

  -- `unzipCollection`, which throws nothing.
  unfoldable pub unzip_collection : (zip_path dest_dir : Str) → Run ℤ
  unzip_collection zip_path dest_dir = do
    request (remove_dir dest_dir)
    request (make_dir dest_dir)
    λ w.
        (if env.made w.requests
            then (request (
                  run_client
                    (bytes "unzip.exe \""
                      ++ (zip_path ++ (bytes "\" -d \"" ++ (dest_dir ++ bytes "\""))))
                    none)
                >> unzip_code)
            else return (negsuc 0))
          w

  -- A digest is fetched and read; none where it is too short.
  unfoldable pub fetch_md5 : (temp_dir collection_md5 : Str) → Run (Option Str)
  fetch_md5 temp_dir collection_md5 = do
    recv_data_file env collection_md5
    text ← read (temp_dir ++ collection_md5)
    remove (temp_dir ++ collection_md5)
    if ltb (length text) 32 then return none else return (some text)

  -- The collection is fetched and unpacked; what `unzipCollection` returns is not looked at.
  unfoldable pub fetch_zip : (temp_dir collections_dir collection_name : Str) → Run (Unit {0})
  fetch_zip temp_dir collections_dir collection_name = do
    recv_data_file env (collection_name ++ bytes ".zip")
    rc ←
        unzip_collection (temp_dir ++ (collection_name ++ bytes ".zip"))
          (collections_dir ++ collection_name)
    remove (temp_dir ++ (collection_name ++ bytes ".zip"))

  -- The first digest of a collection is saved before the collection is there.
  unfoldable pub first_md5 :
      (temp_dir collections_dir collection_md5 : Str) → Option Str → Run (Option (Unit {0}))
  first_md5 temp_dir collections_dir collection_md5 none = return none
  first_md5 temp_dir collections_dir collection_md5 (some text) =
      write (collections_dir ++ collection_md5) (take 32 text) >> return (some tt)

  abbrev after_first :
      (temp_dir collections_dir name : Str) → Option (Option (Unit {0})) → Run (Unit {0})
  after_first temp_dir collections_dir name none = next_collection
  after_first temp_dir collections_dir name (some none) = next_collection
  after_first temp_dir collections_dir name (some (some _)) =
      attempt (fetch_zip temp_dir collections_dir name) >>= λ _. next_collection

  abbrev after_zip : (path text : Str) → Option (Unit {0}) → Run (Unit {0})
  after_zip path text none = next_collection
  after_zip path text (some _) = write path (take 32 text) >> next_collection

  abbrev after_md5 :
      (temp_dir collections_dir name coll_md5 : Str) → Option (Option Str) → Run (Unit {0})
  after_md5 temp_dir collections_dir name coll_md5 none = next_collection
  after_md5 temp_dir collections_dir name coll_md5 (some none) = next_collection
  after_md5 temp_dir collections_dir name coll_md5 (some (some text)) =
      if same_md5 coll_md5 text
      then next_collection
      else (attempt (fetch_zip temp_dir collections_dir name)
          >>= after_zip (collections_dir ++ (name ++ bytes ".md5")) text)

  -- The rest of a round, from the digest that is on the disk, if it can be read.
  unfoldable pub sync_collection :
      (temp_dir collections_dir name : Str) → Option Str → Run (Unit {0})
  sync_collection temp_dir collections_dir name none =
      attempt (
        fetch_md5 temp_dir (name ++ bytes ".md5")
        >>= first_md5 temp_dir collections_dir (name ++ bytes ".md5"))
      >>= after_first temp_dir collections_dir name
  sync_collection temp_dir collections_dir name (some coll_md5) =
      if ltb (length coll_md5) 32
      then next_collection
      else (attempt (fetch_md5 temp_dir (name ++ bytes ".md5"))
          >>= after_md5 temp_dir collections_dir name coll_md5)

  -- One round of the loop.
  unfoldable pub check_collection : (temp_dir collections_dir : Str) → Run (Unit {0})
  check_collection temp_dir collections_dir = do
    name ← (λ w. current_name (get_current_collection_name w.conf) w)
    λ w. verified (collections_dir ++ name) (get_current_collection_verify w.conf) w
    coll_md5 ← attempt (read (collections_dir ++ (name ++ bytes ".md5")))
    sync_collection temp_dir collections_dir name coll_md5

  -- The loop. Without fuel it is taken to have no end.
  unfoldable pub check_loop : (fuel : ℕ) (temp_dir collections_dir : Str) → Run (Unit {0})
  check_loop zero temp_dir collections_dir w = endless
  check_loop (suc fuel) temp_dir collections_dir w =
      let rest =
        (check_collection temp_dir collections_dir >> check_loop fuel temp_dir collections_dir) in
      if is_last_collection w.conf then done w tt else rest w

  unfoldable pub purge_entries : (filepath : Str) → List Str → Run (Unit {0})
  purge_entries filepath [] = return tt
  purge_entries filepath (d_name ∷ rest) = do
    λ w.
        (if eq_str d_name (bytes ".")
              || eq_str d_name (bytes "..")
              || is_in_collection_list w.conf d_name
            then return tt
            else request (remove_dir (filepath ++ d_name)))
          w
    purge_entries filepath rest

  abbrev purge_opened : (filepath : Str) → Option (List Str) → Run (Unit {0})
  purge_opened filepath none = undefined_here
  purge_opened filepath (some names) = purge_entries filepath names

  -- `purgeDiskCollections`. A directory that cannot be opened is read all the same.
  unfoldable pub purge_disk_collections : Run (Unit {0})
  purge_disk_collections w =
      (if is_broker_enabled w.conf
          then return tt
          else purge_opened (env.install_dir ++ bytes "collections\\")
              (env.entries w.requests (env.install_dir ++ bytes "collections\\")))
        w

  -- `checkCollections`: a round for each collection is enough.
  unfoldable pub check_collections : Run (Unit {0})
  check_collections = do
    temporal ← get (bytes "temporal")
    temp_dir ← ended_by b'\\' temporal
    change_conf go_first_collection
    λ w.
        check_loop (suc (length w.conf.collection_list)) temp_dir
          (env.install_dir ++ bytes "collections\\") w
    purge_disk_collections
