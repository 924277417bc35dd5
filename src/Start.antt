-- ===== src/Start.antt =====
-- The start of the program, `main` (main.cc), without the debug build: what its parameters ask for.
use pandora_agent_win.Base.{Bool, true, false, List, [], ◌∷◌, ◌++◌, ◌==◌, ◌||◌, if◌then◌else◌}
use pandora_agent_win.KeyValue.{lower}
use pandora_agent_win.Text.{Str, bytes, eq_str}

-- What is done, and all but the last two are over at once.
pub data Start : Type 0 where
  install : (binary_path : Str) → Start
  uninstall test_ssh test_ftp help unrecognized : Start
  as_process as_service : Start

-- `_stricmp (…) == 0`.
abbrev is_option : Str → Str → Bool
is_option arg option = eq_str (lower arg) option

-- The loop over the parameters: the first one that is not `--process` decides.
unfoldable pub arguments_loop : (install_path : Str) (process : Bool) → List Str → Start
arguments_loop install_path process [] = if process then as_process else as_service
arguments_loop install_path process (arg ∷ args) =
    let rest = arguments_loop install_path true args in
    if is_option arg (bytes "--install")
    then install (bytes "\"" ++ (install_path ++ bytes "\""))
    else if is_option arg (bytes "--uninstall")
    then uninstall
    else if is_option arg (bytes "--test-ssh")
    then test_ssh
    else if is_option arg (bytes "--test-ftp")
    then test_ftp
    else if is_option arg (bytes "--help")
    then help
    else if is_option arg (bytes "--process")
    then rest
    else unrecognized

abbrev has_backslash : Str → Bool
has_backslash [] = false
has_backslash (c ∷ s) = c == b'\\' || has_backslash s

-- The directory of the program: the path up to its last backslash, nothing where it has none.
unfoldable pub install_dir : Str → Str
install_dir [] = []
install_dir (c ∷ s) =
    let rest = install_dir s in
    if has_backslash s then c ∷ rest else if c == b'\\' then c ∷ [] else []

-- `PANDORA_HOME`, and what is done.
unfoldable pub main : (install_path : Str) (argv : List Str) → Str × Start
main install_path argv =
    (bytes "PANDORA_HOME=" ++ install_dir install_path, arguments_loop install_path false argv)
