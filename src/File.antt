-- ===== src/File.antt =====
-- `Pandora_File` (misc/pandora_file.cc) on a disk that gives each path its file, if there is one. An
-- exception of its functions is `none`.
pub mod Hex
pub mod RemoveDir
use pandora_agent_win.Base.{
  ℕ, zero, suc, ◌+◌, ◌-◌, ◌/◌, ◌%◌, ◌==◌, ◌||◌, Bool, true, false, List, [], ◌∷◌, ◌++◌, Option,
  none, some, ltb, if◌then◌else◌, drop,
}
use pandora_agent_win.Conf.Defs.{Files}
use pandora_agent_win.Text.{Str, bytes, is_some, eq_str, lines, later}

-- The files, and how the disk answers to what is done to it: the paths at which a file can be opened to be
-- written, what a write leaves of a text, which is all of it unless the write fails, and whether a file is
-- removed. The last two depend on how many files were written and removed before.
pub record Disk : Type 0 where
  pub file : Files
  pub operations : ℕ
  pub writable : Str → Bool
  pub stored : (operations : ℕ) (filepath text : Str) → Str
  pub removable : (operations : ℕ) (filepath : Str) → Bool

unfoldable pub file_exists : Disk → Str → Bool
file_exists disk filepath = is_some (disk.file filepath)

-- `line + '\n'` for each line.
abbrev pub join_lines : List Str → Str
join_lines [] = []
join_lines (line ∷ rest) = line ++ (b'\n' ∷ join_lines rest)

-- `readFile`: what is appended to the result; `none` is `FILE_NOT_FOUND`.
unfoldable pub read_file : Disk → Str → Option Str
read_file disk filepath = elim (disk.file filepath) [
  | none ↦ none
  | some text ↦ some (join_lines (lines text))
]

abbrev pub nonempty : Option Str → Option Str
nonempty none = none
nonempty (some []) = none
nonempty (some (c ∷ s)) = some (c ∷ s)

-- `readBinFile`: a file that is not there, and one that is empty, are exceptions.
unfoldable pub read_bin_file : Disk → Str → Option Str
read_bin_file disk filepath = nonempty (disk.file filepath)

abbrev pub updated : Files → Str → Option Str → Files
updated files filepath content path = if eq_str filepath path then content else files path

-- `writeFile` and `writeBinFile`: the file is emptied where it is opened, and a write that fails is not
-- an exception.
unfoldable pub write_file : Disk → Str → Str → Option Disk
write_file disk filepath text =
    if disk.writable filepath
    then some (record disk {
      file = updated disk.file filepath (some (disk.stored disk.operations filepath text));
      operations = suc disk.operations;
    })
    else none

-- `removeFile`. A file that cannot be removed stays, and every caller drops the code.
unfoldable pub remove_file : Disk → Str → Disk
remove_file disk filepath = record disk {
  file =
      if disk.removable disk.operations filepath
      then updated disk.file filepath none
      else disk.file;
  operations = suc disk.operations;
}

abbrev pub has_backslash : Str → Bool
has_backslash [] = false
has_backslash (c ∷ s) = c == b'\\' || has_backslash s

-- `find_last_of ("\\")` and what stands behind it: the part of the path that follows.
unfoldable pub file_name : Str → Str
file_name [] = []
file_name (c ∷ s) =
    let rest = file_name s in if has_backslash s then rest else if c == b'\\' then s else c ∷ s

-- The digits of `%.2x`.
abbrev pub hex_digit : ℕ → ℕ
hex_digit n = if ltb n 10 then b'0' + n else b'a' + (n - 10)

abbrev pub hex_of : List ℕ → Str
hex_of [] = []
hex_of (n ∷ ns) = hex_digit (n / 16) ∷ hex_digit (n % 16) ∷ hex_of ns

-- `md5`: the digest, 16 bytes, as 32 hexadecimal digits. `digest` is the library's hash.
unfoldable pub md5 : (Str → List ℕ) → Str → Str
md5 digest text = hex_of (digest text)
