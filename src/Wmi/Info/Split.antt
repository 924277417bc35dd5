-- ===== src/Wmi/Info/Split.antt =====
-- The fields of the rows, read back at the separators.
use pandora_agent_win.Base.{
  ℕ, ◌^◌, ◌≢◌, true, List, [], ◌∷◌, ◌++◌, none, some, ◌==◌, All, if◌then◌else◌,
}
use pandora_agent_win.Text.{Str, bytes}
use pandora_agent_win.Wmi.{Row, get_ips}
use pandora_agent_win.Wmi.Info.{Info, cdrom, video, hds, cpus, nics, patches, ram, services}

-- A column of a table: the property that is asked for, what the text of a value is put between, and the
-- number that a value is divided by, if it is. The addresses of a network card are a list.
pub data Column : Type 0 where
  column : (property before after : Str) → Column
  divided : (property : Str) (divisor : ℕ) (before after : Str) → Column
  addresses : Column

-- The columns of each table, the first one and the others.
abbrev pub columns : Info → Column × List Column
columns cdrom = (
  column (bytes "Name") [] [],
  column (bytes "Description") (bytes " ") []
      ∷ column (bytes "Drive") (bytes " (") (bytes ")")
      ∷ [],
)
columns video = (
  column (bytes "Caption") [] [],
  divided (bytes "AdapterRAM") (2 ^ 20) (bytes " ") (bytes " MBytes")
      ∷ column (bytes "VideoProcessor") [] []
      ∷ [],
)
columns hds = (
  column (bytes "Model") [] [],
  divided (bytes "Size") (2 ^ 30) [] (bytes " GBs")
      ∷ column (bytes "SystemName") (bytes " (") (bytes ")")
      ∷ [],
)
columns cpus = (
  column (bytes "Name") [] [],
  column (bytes "MaxClockSpeed") [] (bytes " MHz") ∷ column (bytes "Description") [] [] ∷ [],
)
columns nics = (column (bytes "Caption") [] [], column (bytes "MACAddress") [] [] ∷ addresses ∷ [])
columns patches = (
  column (bytes "HotFixID") [] [],
  column (bytes "Description") [] []
      ∷ column (bytes "FixComments") [] []
      ∷ column (bytes "ServicePackInEffect") [] []
      ∷ [],
)
columns ram = (
  column (bytes "Tag") [] [],
  divided (bytes "Capacity") (2 ^ 20) [] (bytes " MBs") ∷ column (bytes "Name") [] [] ∷ [],
)
columns services = (
  column (bytes "Name") [] [],
  column (bytes "PathName") [] [] ∷ column (bytes "State") [] [] ∷ [],
)

-- The text of an object in a column: nothing where the object has no value.
abbrev pub cell : (scaled : Str → ℕ → Str) → Row → Column → Str
cell scaled r (column property before after) = elim (r.text property) [
  | none ↦ []
  | some value ↦ before ++ (value ++ after)
]
cell scaled r (divided property divisor before after) = elim (r.text property) [
  | none ↦ []
  | some value ↦ before ++ (scaled value divisor ++ after)
]
cell scaled r addresses = get_ips true r.addresses

abbrev pub cells : (scaled : Str → ℕ → Str) → Row → List Column → List Str
cells scaled r [] = []
cells scaled r (c ∷ cs) = cell scaled r c ∷ cells scaled r cs

-- What an object has in the columns of a table.
abbrev pub expected_fields : (scaled : Str → ℕ → Str) → Info → Row → Str × List Str
expected_fields scaled info r = (cell scaled r (columns info).0, cells scaled r (columns info).1)

-- Texts with the separator between them.
abbrev joined : (first : Str) → List Str → Str
joined first [] = first
joined first (next ∷ rest) = first ++ (b';' ∷ joined next rest)

abbrev onto_first : ℕ → Str × List Str → Str × List Str
onto_first c (first, rest) = (c ∷ first, rest)

-- The fields of a row, as the server reads them.
abbrev pub split_fields : Str → Str × List Str
split_fields [] = ([], [])
split_fields (c ∷ s) =
    let later = split_fields s in if c == b';' then ([], later.0 ∷ later.1) else onto_first c later

abbrev pub IsPlain : Str → Type 0
IsPlain = All (λ c. c ≢ b';')

-- No field has the separator in it.
abbrev pub ArePlain : (scaled : Str → ℕ → Str) → Info → Row → Type 0
ArePlain scaled info r =
    IsPlain (expected_fields scaled info r).0 × All IsPlain (expected_fields scaled info r).1

abbrev pub split_rows : List Str → List (Str × List Str)
split_rows [] = []
split_rows (row ∷ rest) = split_fields row ∷ split_rows rest

abbrev pub fields_of : (scaled : Str → ℕ → Str) → Info → List Row → List (Str × List Str)
fields_of scaled info [] = []
fields_of scaled info (r ∷ rs) = expected_fields scaled info r ∷ fields_of scaled info rs
