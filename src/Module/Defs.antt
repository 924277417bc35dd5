-- ===== src/Module/Defs.antt =====
-- The members of `Pandora_Module`, and a new module.
use pandora_agent_win.Base.Int.{ℤ, pos}
use pandora_agent_win.Base.{ℕ, Bool, false, List, [], Option, none}
use pandora_agent_win.Cron.{Cron}
use pandora_agent_win.Data.{PandoraData}
use pandora_agent_win.Module.Kinds.{ModuleType, ModuleKind}
use pandora_agent_win.Platform.{Platform}
use pandora_agent_win.Text.{Str}

-- A `Condition`. A regular expression that was never compiled is none.
pub record Condition (P : Platform) : Type 0 where
  pub value_1 : P.Double
  pub value_2 : P.Double
  pub string_value : Str
  pub operation : Str
  pub command : Str
  pub regex : Option P.Regex

-- A list that is a null pointer is none.
pub record Module (P : Platform) : Type 0 where
  pub module_name : Str
  pub module_description : Str
  pub module_type_str : Str
  pub module_type : ModuleType
  pub module_kind_str : Str
  pub module_kind : ModuleKind
  pub module_interval : ℤ
  pub module_timeout : ℤ
  pub executions : ℕ
  pub max : ℤ
  pub min : ℤ
  pub has_limits : Bool
  pub has_min : Bool
  pub has_max : Bool
  pub has_output : Bool
  pub async : Bool
  pub data_list : Option (List PandoraData)
  pub inventory_list : Option (List PandoraData)
  pub latest_output : Str
  pub precondition_list : Option (List (Condition P))
  pub condition_list : Option (List (Condition P))
  pub intensive_condition_list : Option (List (Condition P))
  pub cron : Option Cron
  pub intensive_interval : ℤ
  pub timestamp : ℤ
  pub intensive_match : ℕ
  pub save : Str
  pub min_critical : Str
  pub max_critical : Str
  pub min_warning : Str
  pub max_warning : Str
  pub post_process : Str
  pub disabled : Str
  pub min_ff_event : Str
  pub unit : Str
  pub module_group : Str
  pub custom_id : Str
  pub str_warning : Str
  pub str_critical : Str
  pub critical_instructions : Str
  pub warning_instructions : Str
  pub unknown_instructions : Str
  pub tags : Str
  pub critical_inverse : Str
  pub warning_inverse : Str
  pub quiet : Str
  pub module_ff_interval : Str

-- The constructor. It leaves the type, the kind and `has_output` unset: their values are given.
unfoldable pub new_module : (P : Platform) → ModuleType → ModuleKind → Bool → Str → Module P
new_module P unset_type unset_kind unset_output name = record {
  module_name = name;
  module_description = [];
  module_type_str = [];
  module_type = unset_type;
  module_kind_str = [];
  module_kind = unset_kind;
  module_interval = pos 1;
  module_timeout = pos 15000;
  executions = 0;
  max = pos 0;
  min = pos 0;
  has_limits = false;
  has_min = false;
  has_max = false;
  has_output = unset_output;
  async = false;
  data_list = none;
  inventory_list = none;
  latest_output = [];
  precondition_list = none;
  condition_list = none;
  intensive_condition_list = none;
  cron = none;
  intensive_interval = pos 1;
  timestamp = pos 0;
  intensive_match = 0;
  save = [];
  min_critical = [];
  max_critical = [];
  min_warning = [];
  max_warning = [];
  post_process = [];
  disabled = [];
  min_ff_event = [];
  unit = [];
  module_group = [];
  custom_id = [];
  str_warning = [];
  str_critical = [];
  critical_instructions = [];
  warning_instructions = [];
  unknown_instructions = [];
  tags = [];
  critical_inverse = [];
  warning_inverse = [];
  quiet = [];
  module_ff_interval = [];
}
