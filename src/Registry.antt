-- ===== src/Registry.antt =====
-- `Pandora_Windows_Info` (windows/pandora_windows_info.cc): the registry, and the handles of the
-- processes with a name. What Windows answers is given, and memory does not run out.
use pandora_agent_win.Base.Int.{ℤ, pos}
use pandora_agent_win.Base.{
  ℕ, Bool, true, false, ◌&&◌, List, [], ◌∷◌, ◌++◌, Option, none, some, ◌==◌, if◌then◌else◌,
}
use pandora_agent_win.KeyValue.{lower}
use pandora_agent_win.Strutils.{
  Conversion, converted, invalid_conversion, stringtok, strtoint, inttostr, longtohex,
}
use pandora_agent_win.Text.{Str, bytes, eq_str, is_empty}

-- A value of the registry: a text, or the bytes of a value of another type.
pub data RegistryValue : Type 0 where
  text : Str → RegistryValue
  binary : List ℕ → RegistryValue

-- Whether the key at a path opens, the path given by its parts; the values of a key by their names; and
-- the names of the keys below a key, none where one cannot be read.
pub record Registry : Type 0 where
  pub opens : List Str → Bool
  pub value_of : List Str → Str → Option RegistryValue
  pub sub_keys : List Str → List (Option Str)

-- The loop over the parts of the path, each below the one before.
unfoldable pub open_path : Registry → (before rest : List Str) → Bool
open_path r before [] = true
open_path r before (key ∷ rest) =
    let path = before ++ key ∷ [] in let later = open_path r path rest in r.opens path && later

-- The bytes as one text, the last one in front. Only a byte that is zero gets two digits.
unfoldable pub hex_text : (result : Str) → List ℕ → Str
hex_text result [] = result
hex_text result (b ∷ bs) =
    let hex = longtohex (pos b) in
    hex_text ((if eq_str hex (bytes "0") then b'0' ∷ hex else hex) ++ result) bs

abbrev as_int : Conversion ℤ → Conversion Str
as_int (converted n) = converted (inttostr n)
as_int invalid_conversion = invalid_conversion

-- The digits of `hex_text` are read as decimal ones.
unfoldable pub value_text : (unset : ℤ) → Option RegistryValue → Conversion Str
value_text unset none = converted []
value_text unset (some (text s)) = converted s
value_text unset (some (binary bs)) = as_int (strtoint unset (hex_text [] bs))

-- `getRegistryValue`, below the root that the registry stands for.
unfoldable pub get_registry_value : Registry → (unset : ℤ) (treepath keyname : Str) → Conversion Str
get_registry_value r unset treepath keyname =
    let tokens = stringtok [] treepath (bytes "\\") in
    let value = value_text unset (r.value_of tokens keyname) in
    if open_path r [] tokens then value else converted []

abbrev uninstall_tree : Str
uninstall_tree = bytes "SOFTWARE\\Microsoft\\Windows\\CurrentVersion\\Uninstall"

-- A value that does not convert is thrown out of the loop.
abbrev with_version :
    (separator app_name : Str) → Conversion Str → Conversion (List Str) → Conversion (List Str)
with_version separator app_name invalid_conversion rest = invalid_conversion
with_version separator app_name (converted version) invalid_conversion = invalid_conversion
with_version separator app_name (converted version) (converted rows) =
    converted ((if is_empty version then app_name else app_name ++ (separator ++ version)) ∷ rows)

abbrev with_name :
    (separator : Str)
    → Conversion Str
    → Conversion Str
    → Conversion (List Str)
    → Conversion (List Str)
with_name separator invalid_conversion version rest = invalid_conversion
with_name separator (converted app_name) version rest =
    if is_empty app_name then rest else with_version separator app_name version rest

-- The loop over the keys below the tree.
unfoldable pub software_loop :
    Registry → (unset : ℤ) (separator : Str) → List (Option Str) → Conversion (List Str)
software_loop r unset separator [] = converted []
software_loop r unset separator (none ∷ keys) = software_loop r unset separator keys
software_loop r unset separator (some key ∷ keys) =
    let reg_path = uninstall_tree ++ (bytes "\\" ++ key) in
    with_name separator (get_registry_value r unset reg_path (bytes "DisplayName"))
      (get_registry_value r unset reg_path (bytes "DisplayVersion"))
      (software_loop r unset separator keys)

-- `getSoftware`.
unfoldable pub get_software : Registry → (unset : ℤ) (separator : Str) → Conversion (List Str)
get_software r unset separator =
    let tokens = stringtok [] uninstall_tree (bytes "\\") in
    let rows = software_loop r unset separator (r.sub_keys tokens) in
    if r.opens tokens then rows else converted []

-- A process of the enumeration: its number, and its name if it can be opened and read.
pub record ProcessEntry : Type 0 where
  pub pid : ℕ
  pub process_name : Option Str

abbrev is_named : (name : Str) → ProcessEntry → Bool
is_named name p = elim p.process_name [
  | none ↦ false
  | some found ↦ if p.pid == 0 then false else eq_str (lower found) (lower name)
]

-- `getProcessHandles`: the handles, each told by the number of its process. `none` is a null pointer.
unfoldable pub handles_of : (name : Str) → List ProcessEntry → List ℕ
handles_of name [] = []
handles_of name (p ∷ ps) =
    let rest = handles_of name ps in if is_named name p then p.pid ∷ rest else rest

abbrev or_null : List ℕ → Option (List ℕ)
or_null [] = none
or_null (h ∷ hs) = some (h ∷ hs)

unfoldable pub get_process_handles : (name : Str) → Option (List ProcessEntry) → Option (List ℕ)
get_process_handles name none = none
get_process_handles name (some processes) = or_null (handles_of name processes)
