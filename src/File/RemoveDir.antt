-- ===== src/File/RemoveDir.antt =====
-- `removeDir` of `Pandora_File` (misc/pandora_file.cc): a directory is deleted with all that is in it.
pub mod Laws
use pandora_agent_win.Base.{Bool, true, false, Option, none, some, if◌then◌else◌}
use pandora_agent_win.Text.{Str}

-- What stands at a path: a file or a folder, each with whether `remove` or `rmdir` of it succeeds once
-- it is empty, or a folder that cannot be opened. A folder holds its entries in the order of `readdir`,
-- with `.` and `..` among them.
mutual
  pub data Node : Type 0 where
    file : (removable : Bool) → Node
    folder : (removable : Bool) (content : Entries) → Node
    closed_folder : Node

  pub data Entries : Type 0 where
    no_entry : Entries
    dots : (d_name : Str) (rest : Entries) → Entries
    entry : (d_name : Str) (node : Node) (rest : Entries) → Entries

-- Whether 0 is returned, and what is left; an entry that is deleted is no longer there.
abbrev pub removed : (removable : Bool) → Node → Bool × Option Node
removed removable n = if removable then (true, none) else (false, some n)

abbrev pub then_rmdir : (removable : Bool) → Bool × Entries → Bool × Option Node
then_rmdir removable (true, content) = removed removable (folder removable content)
then_rmdir removable (false, content) = (false, some (folder removable content))

abbrev pub behind_dots : (d_name : Str) → Bool × Entries → Bool × Entries
behind_dots d_name (done, content) = (done, dots d_name content)

-- The loop goes on with the rest where the entry was deleted.
abbrev pub then_rest :
    (d_name : Str) (rest : Entries) → Bool × Option Node → Bool × Entries → Bool × Entries
then_rest d_name rest (true, none) later = later
then_rest d_name rest (true, some n) (done, content) = (done, entry d_name n content)
then_rest d_name rest (false, none) later = (false, rest)
then_rest d_name rest (false, some n) later = (false, entry d_name n rest)

unfoldable mutual
  pub remove_node : Node → Bool × Option Node
  remove_node (file removable) = removed removable (file removable)
  remove_node closed_folder = (false, some closed_folder)
  remove_node (folder removable content) = then_rmdir removable (remove_entries content)

  pub remove_entries : Entries → Bool × Entries
  remove_entries no_entry = (true, no_entry)
  remove_entries (dots d_name rest) = behind_dots d_name (remove_entries rest)
  remove_entries (entry d_name node rest) =
      then_rest d_name rest (remove_node node) (remove_entries rest)

-- `removeDir`; nothing is at a path that does not exist.
unfoldable pub remove_dir : Option Node → Bool × Option Node
remove_dir none = (true, none)
remove_dir (some n) = remove_node n
