-- ===== src/Module/Kinds.antt =====
-- The type and the kind of a module, and their names in the configuration.
use pandora_agent_win.Base.{Bool, true, false, ◌||◌, if◌then◌else◌}
use pandora_agent_win.Text.{Str, bytes, eq_str, is_empty}

pub data ModuleType : Type 0 where
  type_0 generic_data generic_data_inc generic_proc generic_data_string : ModuleType
  async_data async_proc async_string log : ModuleType

pub data ModuleKind : Type 0 where
  module_0 exec proc service freedisk freedisk_percent cpuusage inventory : ModuleKind
  freememory freememory_percent logevent wmiquery perfcounter tcpcheck : ModuleKind
  regexp plugin ping snmpget : ModuleKind

abbrev pub is_plugin : ModuleKind → Bool
is_plugin plugin = true
is_plugin _ = false

abbrev pub is_inventory : ModuleKind → Bool
is_inventory inventory = true
is_inventory _ = false

unfoldable pub parse_module_type : Str → ModuleType
parse_module_type type =
    if eq_str type (bytes "generic_data") || is_empty type
    then generic_data
    else if eq_str type (bytes "generic_data_inc")
    then generic_data_inc
    else if eq_str type (bytes "generic_data_string")
    then generic_data_string
    else if eq_str type (bytes "generic_proc")
    then generic_proc
    else if eq_str type (bytes "async_data")
    then async_data
    else if eq_str type (bytes "async_proc")
    then async_proc
    else if eq_str type (bytes "async_string")
    then async_string
    else if eq_str type (bytes "log")
    then log
    else type_0

unfoldable pub parse_module_kind : Str → ModuleKind
parse_module_kind kind =
    if eq_str kind (bytes "module_exec")
    then exec
    else if eq_str kind (bytes "module_proc")
    then proc
    else if eq_str kind (bytes "module_service")
    then service
    else if eq_str kind (bytes "module_freedisk")
    then freedisk
    else if eq_str kind (bytes "module_freedisk_percent")
    then freedisk_percent
    else if eq_str kind (bytes "module_freememory")
    then freememory
    else if eq_str kind (bytes "module_freememory_percent")
    then freememory_percent
    else if eq_str kind (bytes "module_cpuusage")
    then cpuusage
    else if eq_str kind (bytes "module_inventory")
    then inventory
    else if eq_str kind (bytes "module_logevent")
    then logevent
    else if eq_str kind (bytes "module_wmiquery")
    then wmiquery
    else if eq_str kind (bytes "module_perfcounter")
    then perfcounter
    else if eq_str kind (bytes "module_tcpcheck")
    then tcpcheck
    else if eq_str kind (bytes "module_regexp")
    then regexp
    else if eq_str kind (bytes "module_plugin")
    then plugin
    else if eq_str kind (bytes "module_ping")
    then ping
    else if eq_str kind (bytes "module_snmpget")
    then snmpget
    else module_0

-- The types whose values are numbers: `getDataOutput` converts them.
abbrev pub is_text : ModuleType → Bool
is_text generic_data_string = true
is_text async_string = true
is_text log = true
is_text _ = false
