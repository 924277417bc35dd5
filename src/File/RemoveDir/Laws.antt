-- ===== src/File/RemoveDir/Laws.antt =====
-- When a directory is deleted, and what is left of it.
use pandora_agent_win.Base.{◌≡◌, refl, not, Bool, true, false, ◌&&◌, Option, none, some}
use pandora_agent_win.File.RemoveDir.{
  Node, file, folder, closed_folder, Entries, no_entry, dots, entry, then_rmdir, then_rest,
  remove_node, remove_entries, remove_dir,
}
use pandora_agent_win.Text.{Str, is_some}

-- All that is at the path and below it can be deleted.
unfoldable mutual
  pub all_removable : Node → Bool
  all_removable (file removable) = removable
  all_removable closed_folder = false
  all_removable (folder removable content) = all_entries content && removable

  pub all_entries : Entries → Bool
  all_entries no_entry = true
  all_entries (dots d_name rest) = all_entries rest
  all_entries (entry d_name node rest) = all_removable node && all_entries rest

then_rmdir_lem :
    (removable b : Bool) (p : Bool × Entries)
    → p.0 ≡ b
    → (then_rmdir removable p).0 ≡ (b && removable)
      × is_some (then_rmdir removable p).1 ≡ not (b && removable)
then_rmdir_lem true true (true, es) e = (refl, refl)
then_rmdir_lem false true (true, es) e = (refl, refl)
then_rmdir_lem removable false (false, es) e = (refl, refl)
then_rmdir_lem removable true (false, es) e = cc
then_rmdir_lem removable false (true, es) e = cc

then_rest_lem :
    (d_name : Str) (rest : Entries) (b c : Bool) (one : Bool × Option Node) (later : Bool × Entries)
    → one.0 ≡ b
    → is_some one.1 ≡ not b
    → later.0 ≡ c
    → (then_rest d_name rest one later).0 ≡ b && c
then_rest_lem d_name rest true c (true, none) later e f g = g
then_rest_lem d_name rest true c (true, some n) later e f g = cc
then_rest_lem d_name rest true c (false, left) later e f g = cc
then_rest_lem d_name rest false c (false, none) later e f g = refl
then_rest_lem d_name rest false c (false, some n) later e f g = refl
then_rest_lem d_name rest false c (true, left) later e f g = cc

mutual
  unfolding remove_node all_removable

  node_removed :
      (n : Node)
      → (remove_node n).0 ≡ all_removable n × is_some (remove_node n).1 ≡ not (all_removable n)
  node_removed (file true) = (refl, refl)
  node_removed (file false) = (refl, refl)
  node_removed closed_folder = (refl, refl)
  node_removed (folder removable content) =
      then_rmdir_lem removable (all_entries content) (remove_entries content)
        (entries_removed content)

  entries_removed : (es : Entries) → (remove_entries es).0 ≡ all_entries es
  entries_removed no_entry = refl
  entries_removed (dots d_name rest) = entries_removed rest
  entries_removed (entry d_name node rest) =
      let h = node_removed node in
      then_rest_lem d_name rest (all_removable node) (all_entries rest) (remove_node node)
        (remove_entries rest) h.0 h.1 (entries_removed rest)

-- The function returns 0 exactly if all that is at the path and below it can be deleted, and nothing is
-- left at the path exactly then.
pub remove_dir-all_removable :
    (n : Node)
    → (remove_dir (some n)).0 ≡ all_removable n
      × is_some (remove_dir (some n)).1 ≡ not (all_removable n)
unfolding remove_dir
remove_dir-all_removable n = node_removed n
