-- ===== src/Module/Inventory.antt =====
-- The inventory module, `Pandora_Module_Inventory` (modules/pandora_module_inventory.cc). What Windows
-- answers to its queries is given.
pub mod Groups
pub mod Sections
use pandora_agent_win.Base.Int.{ℤ, pos, ◌*ℤ◌}
use pandora_agent_win.Base.Result.{Result, ok, err, undefined_behaviour, ◌>>=◌}
use pandora_agent_win.Base.{
  ℕ, Bool, true, false, not, ◌&&◌, ◌||◌, List, [], ◌∷◌, ◌++◌, Option, none, some, ltb, length,
  if◌then◌else◌,
}
use pandora_agent_win.Data.{PandoraData, SystemTime, new_data}
use pandora_agent_win.Factory.Build.{quotient}
use pandora_agent_win.Module.Defs.{Module}
use pandora_agent_win.Module.Output.{
  DataOutput, output, output_error, value_error, RunOutcome, fulfilled, interval_not_fulfilled,
  division_by_zero, run, get_data_output, clean_data_list,
}
use pandora_agent_win.Module.Setters.{set_interval, set_kind}
use pandora_agent_win.Module.Xml.{XmlOutcome, xml, value_error_thrown, data_clean}
use pandora_agent_win.Platform.{Platform}
use pandora_agent_win.Text.{Str, bytes, eq_str, has, is_empty}
use pandora_agent_win.Wmi.Info.{Info, cdrom, video, hds, cpus, nics, patches, ram, services}

pub record InventoryModule (P : Platform) : Type 0 where
  pub base : Module P
  pub options : Str
  pub interval_fixed : Bool

-- What the queries give: the rows of `Pandora_Wmi`, and those of `getSoftware`.
pub record Found : Type 0 where
  pub info : Info → List Str
  pub software : List Str

abbrev pub or_new_list : Option (List PandoraData) → List PandoraData
or_new_list none = []
or_new_list (some l) = l

-- The list of a module with one entry more, for each row.
unfoldable pub store_rows :
    (now : SystemTime) (data_origin : Str)
    → List Str
    → Option (List PandoraData)
    → Option (List PandoraData)
store_rows now data_origin [] l = l
store_rows now data_origin (row ∷ rest) l =
    store_rows now data_origin rest (some (or_new_list l ++ new_data row now data_origin ∷ []))

module _ {P : Platform} where
  -- The constructor.
  unfoldable pub new_inventory : Module P → (options : Str) → InventoryModule P
  new_inventory named options = record {
    base = set_kind named (bytes "module_inventory");
    options = options;
    interval_fixed = false;
  }

  abbrev stored : SystemTime → Str → List Str → InventoryModule P → InventoryModule P
  stored now data_origin rows m = record m {
    base = record m.base { inventory_list = store_rows now data_origin rows m.base.inventory_list };
  }

  -- A section, if its name is found in the options. The first seven set `has_output` for each row.
  unfoldable pub section :
      SystemTime
      → (sets_output : Bool) (data_origin : Str) → List Str
      → InventoryModule P
      → InventoryModule P
  section now sets_output data_origin rows m =
      if has m.options data_origin
      then (let m' = stored now data_origin rows m in
          record m' {
            base = record m'.base {
              has_output = m'.base.has_output || (sets_output && ltb 0 (length rows));
            };
          })
      else m

  -- The nine sections.
  unfoldable pub gather : SystemTime → Found → InventoryModule P → InventoryModule P
  gather now found m =
      let m₁ = section now true (bytes "CDROM") (found.info cdrom) m in
      let m₂ = section now true (bytes "Video") (found.info video) m₁ in
      let m₃ = section now true (bytes "HD") (found.info hds) m₂ in
      let m₄ = section now true (bytes "CPU") (found.info cpus) m₃ in
      let m₅ = section now true (bytes "NIC") (found.info nics) m₄ in
      let m₆ = section now true (bytes "Patches") (found.info patches) m₅ in
      let m₇ = section now true (bytes "RAM") (found.info ram) m₆ in
      let m₈ = section now false (bytes "Software") found.software m₇ in
      section now false (bytes "Services") (found.info services) m₈

  abbrev to_days : ℤ → InventoryModule P → Option ℤ → Result (InventoryModule P)
  to_days seconds m none = err undefined_behaviour
  to_days seconds m (some interval) =
      ok (record m { base = set_interval m.base interval; interval_fixed = true })

  -- The interval in days, once, by the interval of the agent in milliseconds.
  unfoldable pub fix_interval :
      (agent_interval : ℤ) → InventoryModule P → Result (InventoryModule P)
  fix_interval agent_interval m =
      if m.interval_fixed then ok m else elim (quotient agent_interval (pos 1000)) [
        | none ↦ err undefined_behaviour
        | some seconds ↦ to_days seconds m (quotient (m.base.module_interval *ℤ pos 86400) seconds)
      ]

  abbrev pub in_turn :
      SystemTime → Found → InventoryModule P → RunOutcome × Module P → Result (InventoryModule P)
  in_turn now found m (fulfilled, base) = ok (gather now found (record m { base = base }))
  in_turn now found m (interval_not_fulfilled, base) = ok (record m { base = base })
  in_turn now found m (division_by_zero, base) = err undefined_behaviour

  -- `run`.
  unfoldable pub run_inventory :
      SystemTime → Found → (agent_interval : ℤ) → InventoryModule P → Result (InventoryModule P)
  run_inventory now found agent_interval m = fix_interval agent_interval m >>= λ m'.
      in_turn now found m' (run (record m'.base { has_output = false }))

-- The texts of `getXml`.
unfoldable pub module_end : Str
module_end = bytes "\t\t\t</datalist>\n\t\t</inventory_module>\n"

unfoldable pub inventory_end : Str
inventory_end = bytes "\t</inventory>\n"

unfoldable pub data_item : Str → Str
data_item clean = bytes "\t\t\t\t<data><![CDATA[" ++ (clean ++ bytes "]]></data>\n")

unfoldable pub module_begin : (type origin : Str) → Str
module_begin type origin =
    bytes "\t\t<inventory_module>\n\t\t\t<name><![CDATA["
    ++ (origin
        ++ (bytes "]]></name>\n\t\t\t<type><![CDATA["
            ++ (type ++ bytes "]]></type>\n\t\t\t<datalist>\n")))

-- What a new section puts in front of its first value.
abbrev pub opening : (type prev_module current_module : Str) → Str
opening type prev_module current_module =
    if eq_str current_module prev_module
    then []
    else (if is_empty prev_module then [] else module_end) ++ module_begin type current_module

abbrev pub in_front : Str → Option Str → Option Str
in_front front none = none
in_front front (some rest) = some (front ++ rest)

abbrev pub surrounded : Option Str → XmlOutcome
surrounded none = value_error_thrown
surrounded (some s) = xml (bytes "\t<inventory>\n" ++ s)

module _ {P : Platform} where
  -- The loop over the values, and what follows it. `none` is a `Value_Error`, which is not caught.
  unfoldable pub xml_loop :
      P.Double → Module P → (prev_module : Str) → List PandoraData → Option Str
  xml_loop unset m prev_module [] = some (module_end ++ inventory_end)
  xml_loop unset m prev_module (d ∷ ds) =
      let front = opening m.module_type_str prev_module d.data_origin in
      let kept = xml_loop unset m prev_module ds in
      let later = xml_loop unset m d.data_origin ds in
      elim (get_data_output unset m d) [
        | value_error ↦ none
        | output_error ↦ in_front front kept
        | output text ↦ in_front front (in_front (data_item (data_clean text)) later)
      ]

  -- `getXml`. A list of one entry gives no text, and is emptied too.
  unfoldable pub inventory_xml : P.Double → Module P → XmlOutcome × Module P
  inventory_xml unset m = if not m.has_output then (xml [], m) else elim m.inventory_list [
    | none ↦ (xml [], m)
    | some l ↦ (
      (if ltb 1 (length l) then surrounded (xml_loop unset m [] l) else xml []),
      clean_data_list m,
    )
  ]
