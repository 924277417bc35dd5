-- ===== src/Wmi/Info.antt =====
-- The queries for the inventory (windows/pandora_wmi.cc): each object of an answer becomes a row, whose
-- fields stand between separators. `scaled` is the text of a number divided by another, as `atof` and a
-- stream give it.
pub mod Split
use pandora_agent_win.Base.{ℕ, true, List, [], ◌∷◌, ◌++◌, Option, none, some, length}
use pandora_agent_win.Text.{Str, bytes}
use pandora_agent_win.Wmi.{Row, Answer, rows_of, get_ips}

pub data Info : Type 0 where
  cdrom video hds cpus nics patches ram services : Info

-- A field that is there, between two texts.
abbrev pub field : (before : Str) → Option Str → (after : Str) → Str
field before none after = []
field before (some value) after = before ++ (value ++ after)

abbrev pub plain : Option Str → Str
plain value = field [] value []

abbrev pub scaled_text : (scaled : Str → ℕ → Str) (divisor : ℕ) → Option Str → Option Str
scaled_text scaled divisor none = none
scaled_text scaled divisor (some text) = some (scaled text divisor)

-- `inventory_field_separator` and what follows it.
infixr 5 ◌◁◌
abbrev pub ◌◁◌ : Str → Str → Str
first ◁ rest = first ++ (b';' ∷ rest)

-- The row of `getCdRomInfo`.
unfoldable pub cdrom_row : Row → Str
cdrom_row r =
    plain (r.text (bytes "Name"))
    ◁ field (bytes " ") (r.text (bytes "Description")) []
    ◁ field (bytes " (") (r.text (bytes "Drive")) (bytes ")")

-- `getVideoInfo`.
unfoldable pub video_row : (scaled : Str → ℕ → Str) → Row → Str
video_row scaled r =
    plain (r.text (bytes "Caption"))
    ◁ field (bytes " ") (scaled_text scaled 1048576 (r.text (bytes "AdapterRAM"))) (bytes " MBytes")
    ◁ plain (r.text (bytes "VideoProcessor"))

-- `getHDsInfo`.
unfoldable pub hds_row : (scaled : Str → ℕ → Str) → Row → Str
hds_row scaled r =
    plain (r.text (bytes "Model"))
    ◁ field [] (scaled_text scaled 1073741824 (r.text (bytes "Size"))) (bytes " GBs")
    ◁ field (bytes " (") (r.text (bytes "SystemName")) (bytes ")")

-- `getCPUsInfo`.
unfoldable pub cpus_row : Row → Str
cpus_row r =
    plain (r.text (bytes "Name"))
    ◁ field [] (r.text (bytes "MaxClockSpeed")) (bytes " MHz")
    ◁ plain (r.text (bytes "Description"))

-- `getNICsInfo`.
unfoldable pub nics_row : Row → Str
nics_row r =
    plain (r.text (bytes "Caption"))
    ◁ plain (r.text (bytes "MACAddress"))
    ◁ get_ips true r.addresses

-- `getPatchInfo`.
unfoldable pub patch_row : Row → Str
patch_row r =
    plain (r.text (bytes "HotFixID"))
    ◁ plain (r.text (bytes "Description"))
    ◁ plain (r.text (bytes "FixComments"))
    ◁ plain (r.text (bytes "ServicePackInEffect"))

-- `getRAMInfo`.
unfoldable pub ram_row : (scaled : Str → ℕ → Str) → Row → Str
ram_row scaled r =
    plain (r.text (bytes "Tag"))
    ◁ field [] (scaled_text scaled 1048576 (r.text (bytes "Capacity"))) (bytes " MBs")
    ◁ plain (r.text (bytes "Name"))

-- `getServices`.
unfoldable pub service_row : Row → Str
service_row r =
    plain (r.text (bytes "Name"))
    ◁ plain (r.text (bytes "PathName"))
    ◁ plain (r.text (bytes "State"))

abbrev pub info_row : (scaled : Str → ℕ → Str) → Info → Row → Str
info_row scaled cdrom r = cdrom_row r
info_row scaled video r = video_row scaled r
info_row scaled hds r = hds_row scaled r
info_row scaled cpus r = cpus_row r
info_row scaled nics r = nics_row r
info_row scaled patches r = patch_row r
info_row scaled ram r = ram_row scaled r
info_row scaled services r = service_row r

abbrev pub info_rows : (scaled : Str → ℕ → Str) → Info → List Row → List Str
info_rows scaled info [] = []
info_rows scaled info (r ∷ rs) = info_row scaled info r ∷ info_rows scaled info rs

-- `getCdRomInfo`, `getVideoInfo`, `getHDsInfo`, `getCPUsInfo`, `getNICsInfo`, `getPatchInfo`,
-- `getRAMInfo` and `getServices`: the rows, and their number.
unfoldable pub get_info : (scaled : Str → ℕ → Str) → Info → Answer → List Str × ℕ
get_info scaled info a = (info_rows scaled info (rows_of a), length (rows_of a))

-- The eight functions by their names.
unfoldable pub get_cd_rom_info : (scaled : Str → ℕ → Str) → Answer → List Str × ℕ
get_cd_rom_info scaled = get_info scaled cdrom

unfoldable pub get_video_info : (scaled : Str → ℕ → Str) → Answer → List Str × ℕ
get_video_info scaled = get_info scaled video

unfoldable pub get_hds_info : (scaled : Str → ℕ → Str) → Answer → List Str × ℕ
get_hds_info scaled = get_info scaled hds

unfoldable pub get_cpus_info : (scaled : Str → ℕ → Str) → Answer → List Str × ℕ
get_cpus_info scaled = get_info scaled cpus

unfoldable pub get_nics_info : (scaled : Str → ℕ → Str) → Answer → List Str × ℕ
get_nics_info scaled = get_info scaled nics

unfoldable pub get_patch_info : (scaled : Str → ℕ → Str) → Answer → List Str × ℕ
get_patch_info scaled = get_info scaled patches

unfoldable pub get_ram_info : (scaled : Str → ℕ → Str) → Answer → List Str × ℕ
get_ram_info scaled = get_info scaled ram

unfoldable pub get_services : (scaled : Str → ℕ → Str) → Answer → List Str × ℕ
get_services scaled = get_info scaled services
