-- ===== src/Wmi.antt =====
-- `Pandora_Wmi` (windows/pandora_wmi.cc): what the agent asks of Windows Management Instrumentation and
-- what it makes of the answers. The answers, and the texts of floating-point numbers, are parameters.
pub mod Laws
pub mod Info
use pandora_agent_win.Base.Int.{ℤ, pos, negsuc}
use pandora_agent_win.Base.{
  ℕ, zero, suc, ◌+◌, ◌*◌, ◌/◌, Bool, true, false, not, List, [], ◌∷◌, ◌++◌, Option, none, some,
  ◌==◌, leb, length, if◌then◌else◌,
}
use pandora_agent_win.Base.Result.{Result, ok, err, undefined_behaviour}
use pandora_agent_win.Strutils.{print_ℕ}
use pandora_agent_win.Text.{Str, bytes, eq_str, is_empty}

-- An object of an answer. A text that is a null pointer is none; a byte string of `numbers` that stands
-- for a `double` is a size in bytes below 2^46, for which the sums of the code are exact. An address
-- is none where an element of the array is no string.
pub record Row : Type 0 where
  pub text : (column : Str) → Option Str
  pub number : (column : Str) → ℤ
  pub size : (column : Str) → ℕ
  pub addresses : List (Option Str)

-- A query that is refused, or the objects that are enumerated, and whether the enumeration came to its
-- end or threw.
pub data Answer : Type 0 where
  refused : Answer
  rows : List Row → (complete : Bool) → Answer

abbrev pub rows_of : Answer → List Row
rows_of refused = []
rows_of (rows l complete) = l

-- `isProcessRunning`, of the answer to its query, and those below alike.
unfoldable pub process_query : (process_name : Str) → Str
process_query process_name =
    bytes "SELECT * FROM Win32_Process WHERE Name=\"" ++ (process_name ++ bytes "\"")

unfoldable pub is_process_running : Answer → ℕ
is_process_running a = length (rows_of a)

unfoldable pub service_query : (service_name : Str) → Str
service_query service_name =
    bytes "SELECT * FROM Win32_Service WHERE Name = \"" ++ (service_name ++ bytes "\"")

abbrev state_code : Option Str → Result ℤ
state_code none = err undefined_behaviour
state_code (some state) =
    if eq_str state (bytes "Running")
    then ok (pos 1)
    else if eq_str state (bytes "Stopped")
    then ok (pos 0)
    else ok (negsuc 0)

abbrev first_state : List Row → Result ℤ
first_state [] = ok (pos 0)
first_state (r ∷ rs) = state_code (r.text (bytes "State"))

unfoldable pub is_service_running : Answer → Result ℤ
is_service_running a = first_state (rows_of a)

-- The three values of the first object; `none` is `Pandora_Wmi_Exception`.
abbrev first_of {ℓ} : {A : Type ℓ} → (Row → A) → List Row → Option A
first_of value [] = none
first_of value (r ∷ rs) = some (value r)

unfoldable pub disk_query : (disk_id : Str) → Str
disk_query disk_id =
    bytes "SELECT FreeSpace FROM Win32_LogicalDisk WHERE DeviceID = \"" ++ (disk_id ++ bytes "\"")

unfoldable pub get_disk_free_space : Answer → Option ℕ
get_disk_free_space a = first_of (λ r. r.size (bytes "FreeSpace") / 1048576) (rows_of a)

-- `a * 100 / b`, and zero where `b` is.
unfoldable pub percentage : ℕ → ℕ → ℕ
percentage a b = if b == 0 then 0 else (a * 100) / b

unfoldable pub get_disk_free_space_percent : Answer → Option ℕ
get_disk_free_space_percent a =
    first_of (λ r. percentage (r.size (bytes "FreeSpace")) (r.size (bytes "Size"))) (rows_of a)

unfoldable pub get_freememory : Answer → Option ℤ
get_freememory a = first_of (λ r. r.number (bytes "AvailableMBytes")) (rows_of a)

unfoldable pub get_freememory_percent : Answer → Option ℕ
get_freememory_percent a =
    first_of
      (λ r.
        percentage (r.size (bytes "FreePhysicalMemory")) (r.size (bytes "TotalVisibleMemorySize")))
      (rows_of a)

unfoldable pub cpu_query : (cpu_id : ℤ) → Str
cpu_query (negsuc n) = bytes "SELECT * FROM Win32_Processor"
cpu_query (pos n) =
    bytes "SELECT * FROM Win32_Processor WHERE DeviceID = \"CPU" ++ (print_ℕ n ++ bytes "\"")

-- The processors that are counted, and the sum of their loads.
abbrev counted : ℤ → ℕ × ℕ → ℕ × ℕ
counted (negsuc n) sums = sums
counted (pos n) (total_cpus, total_load) =
    if leb n 100 then (total_cpus + 1, total_load + n) else (total_cpus, total_load)

unfoldable pub cpu_loop : ℕ × ℕ → List Row → ℕ × ℕ
cpu_loop sums [] = sums
cpu_loop sums (r ∷ rs) = cpu_loop (counted (r.number (bytes "LoadPercentage")) sums) rs

unfoldable pub mean : ℕ × ℕ → ℕ
mean (total_cpus, total_load) = if total_cpus == 0 then 0 else total_load / total_cpus

unfoldable pub get_cpu_usage_percentage : Answer → Option ℕ
get_cpu_usage_percentage refused = none
get_cpu_usage_percentage (rows l false) = none
get_cpu_usage_percentage (rows l true) = some (mean (cpu_loop (0, 0) l))

-- The `(R)` character of a name.
abbrev without_registered : Str → Str
without_registered [] = []
without_registered (c ∷ s) = (if c == 174 then b' ' else c) ∷ without_registered s

abbrev cleaned : (before : Str) → Option Str → Str
cleaned before none = before
cleaned before (some text) = without_registered text

-- `getOSName` and `getOSVersion`, by their columns: the last text that there is.
unfoldable pub last_cleaned : (column before : Str) → List Row → Str
last_cleaned column before [] = before
last_cleaned column before (r ∷ rs) = last_cleaned column (cleaned before (r.text column)) rs

abbrev pub get_os_name : Answer → Str
get_os_name a = last_cleaned (bytes "Caption") [] (rows_of a)

abbrev pub get_os_version : Answer → Str
get_os_version a = last_cleaned (bytes "CSDVersion") [] (rows_of a)

-- `getOSBuild` and `getSystemName`: a null pointer is not looked for.
unfoldable pub last_text : (column before : Str) → List Row → Result Str
last_text column before [] = ok before
last_text column before (r ∷ rs) = elim (r.text column) [
  | none ↦ err undefined_behaviour
  | some text ↦ last_text column text rs
]

abbrev pub get_os_build : Answer → Result Str
get_os_build a = last_text (bytes "Version") [] (rows_of a)

abbrev pub get_system_name : Answer → Result Str
get_system_name a = last_text (bytes "CSName") [] (rows_of a)

abbrev if_any : Option Str → List Str → List Str
if_any none l = l
if_any (some value) l = value ∷ l

-- `runWMIQuery`, and `getSoftware` with its two columns.
unfoldable pub column_values : (column : Str) → List Row → List Str
column_values column [] = []
column_values column (r ∷ rs) = if_any (r.text column) (column_values column rs)

unfoldable pub run_wmi_query : (column : Str) → Answer → List Str
run_wmi_query column a = column_values column (rows_of a)

unfoldable pub software_values : List Row → List Str
software_values [] = []
software_values (r ∷ rs) =
    if_any (r.text (bytes "Name")) (if_any (r.text (bytes "Version")) (software_values rs))

-- `getIPs`.
unfoldable pub get_ips : (first : Bool) → List (Option Str) → Str
get_ips first [] = []
get_ips first (none ∷ rest) = get_ips false rest
get_ips first (some ip ∷ rest) = (if first then ip else bytes " , " ++ ip) ++ get_ips false rest

-- `getSystemAddress`: the addresses of the first adapter that has one, or of the last.
unfoldable pub system_address : (before : Str) → List Row → Str
system_address before [] = before
system_address before (r ∷ rs) =
    let found = get_ips true r.addresses in
    let rest = system_address found rs in
    if not (eq_str found (bytes "0.0.0.0")) then found else rest

abbrev pub get_system_address : Answer → Str
get_system_address a = system_address [] (rows_of a)

-- `runProgram`; `created`: what `CreateProcess` returns.
unfoldable pub run_program_code : (created : Bool) (command : Str) → Bool
run_program_code created command = if is_empty command then false else created

-- `startService` and `stopService`: the manager, the service and the control.
unfoldable pub control_service : (manager service success : Bool) → Bool
control_service manager service success =
    if manager then (if service then success else false) else false
