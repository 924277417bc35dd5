-- ===== src/Factory/Tokens.antt =====
-- `parseLine` and the loop of `getModuleFromDefinition` (modules/pandora_module_factory.cc) that reads
-- the tokens of a definition.
pub mod First
use pandora_agent_win.Base.{Bool, List, [], ◌∷◌, ◌++◌, if◌then◌else◌, length, drop}
use pandora_agent_win.Strutils.{trim, stringtok}
use pandora_agent_win.Text.{Str, bytes, is_empty, is_prefix}

-- The tokens whose value is kept in one variable.
pub data Token : Type 0 where
  token_name token_type token_interval token_exec token_proc token_service token_freedisk : Token
  token_freedisk_percent token_freememory token_freememory_percent token_cpuusage : Token
  token_inventory token_max token_min token_post_process token_min_critical : Token
  token_max_critical token_min_warning token_max_warning token_disabled token_min_ff_event : Token
  token_description token_logevent token_source token_eventtype token_eventcode : Token
  token_pattern token_application token_async token_start_command token_watchdog : Token
  token_wmiquery token_wmicolumn token_retries token_startdelay token_retrydelay : Token
  token_perfcounter token_tcpcheck token_port token_timeout token_regexp token_plugin : Token
  token_save token_crontab token_croninterval token_noseekeof token_ping token_ping_count : Token
  token_ping_timeout token_snmpget token_snmpversion token_snmpcommunity token_snmpagent : Token
  token_snmpoid token_advancedoptions token_cooked token_unit token_module_group : Token
  token_custom_id token_str_warning token_str_critical token_critical_instructions : Token
  token_warning_instructions token_unknown_instructions token_tags token_critical_inverse : Token
  token_warning_inverse token_quiet token_module_ff_interval : Token

-- The macro `TOKEN_…` of each.
unfoldable pub token_text : Token → Str
token_text token_name = bytes "module_name "
token_text token_type = bytes "module_type "
token_text token_interval = bytes "module_interval "
token_text token_exec = bytes "module_exec "
token_text token_proc = bytes "module_proc "
token_text token_service = bytes "module_service "
token_text token_freedisk = bytes "module_freedisk "
token_text token_freedisk_percent = bytes "module_freepercentdisk "
token_text token_freememory = bytes "module_freememory"
token_text token_freememory_percent = bytes "module_freepercentmemory"
token_text token_cpuusage = bytes "module_cpuusage "
token_text token_inventory = bytes "module_inventory"
token_text token_max = bytes "module_max "
token_text token_min = bytes "module_min "
token_text token_post_process = bytes "module_postprocess "
token_text token_min_critical = bytes "module_min_critical "
token_text token_max_critical = bytes "module_max_critical "
token_text token_min_warning = bytes "module_min_warning "
token_text token_max_warning = bytes "module_max_warning "
token_text token_disabled = bytes "module_disabled "
token_text token_min_ff_event = bytes "module_min_ff_event "
token_text token_description = bytes "module_description "
token_text token_logevent = bytes "module_logevent"
token_text token_source = bytes "module_source "
token_text token_eventtype = bytes "module_eventtype "
token_text token_eventcode = bytes "module_eventcode "
token_text token_pattern = bytes "module_pattern "
token_text token_application = bytes "module_application "
token_text token_async = bytes "module_async"
token_text token_start_command = bytes "module_start_command "
token_text token_watchdog = bytes "module_watchdog "
token_text token_wmiquery = bytes "module_wmiquery "
token_text token_wmicolumn = bytes "module_wmicolumn "
token_text token_retries = bytes "module_retries "
token_text token_startdelay = bytes "module_startdelay "
token_text token_retrydelay = bytes "module_retrydelay "
token_text token_perfcounter = bytes "module_perfcounter "
token_text token_tcpcheck = bytes "module_tcpcheck "
token_text token_port = bytes "module_port "
token_text token_timeout = bytes "module_timeout "
token_text token_regexp = bytes "module_regexp "
token_text token_plugin = bytes "module_plugin "
token_text token_save = bytes "module_save "
token_text token_crontab = bytes "module_crontab "
token_text token_croninterval = bytes "module_cron_interval "
token_text token_noseekeof = bytes "module_noseekeof "
token_text token_ping = bytes "module_ping "
token_text token_ping_count = bytes "module_ping_count "
token_text token_ping_timeout = bytes "module_ping_timeout "
token_text token_snmpget = bytes "module_snmpget"
token_text token_snmpversion = bytes "module_snmp_version "
token_text token_snmpcommunity = bytes "module_snmp_community "
token_text token_snmpagent = bytes "module_snmp_agent "
token_text token_snmpoid = bytes "module_snmp_oid "
token_text token_advancedoptions = bytes "module_advanced_options "
token_text token_cooked = bytes "module_cooked "
token_text token_unit = bytes "module_unit "
token_text token_module_group = bytes "module_group "
token_text token_custom_id = bytes "module_custom_id "
token_text token_str_warning = bytes "module_str_warning "
token_text token_str_critical = bytes "module_str_critical "
token_text token_critical_instructions = bytes "module_critical_instructions "
token_text token_warning_instructions = bytes "module_warning_instructions "
token_text token_unknown_instructions = bytes "module_unknown_instructions "
token_text token_tags = bytes "module_tags "
token_text token_critical_inverse = bytes "module_critical_inverse "
token_text token_warning_inverse = bytes "module_warning_inverse "
token_text token_quiet = bytes "module_quiet "
token_text token_module_ff_interval = bytes "module_ff_interval "

abbrev pub precondition_text : Str
precondition_text = bytes "module_precondition "

abbrev pub condition_text : Str
condition_text = bytes "module_condition "

abbrev pub intensive_condition_text : Str
intensive_condition_text = bytes "module_intensive_condition "

abbrev pub macro_text : Str
macro_text = bytes "module_macro"

abbrev or_space : Str → Str
or_space [] = b' ' ∷ []
or_space (c ∷ s) = c ∷ s

-- `parseLine (line, token)`: `find` answers 0 exactly if the line begins with the token.
unfoldable pub parse_line_token : Str → Str → Str
parse_line_token line token =
    if is_prefix token line then or_space (drop (length token) line) else []

-- The variables of `getModuleFromDefinition`: one for each token, and the four queues.
pub record Definition : Type 0 where
  pub token_value : Token → Str
  pub precondition_list : List Str
  pub condition_list : List Str
  pub intensive_condition_list : List Str
  pub macro_list : List Str

-- A variable that is still empty takes what the line gives.
abbrev pub keep_or_parse : Str → Str → Str → Str
keep_or_parse value line token = if is_empty value then parse_line_token line token else value

abbrev pub push_parsed : List Str → Str → List Str
push_parsed l value = if is_empty value then l else l ++ value ∷ []

-- One round of the loop over the lines.
unfoldable pub read_line : Definition → Str → Definition
read_line d line = record {
  token_value = λ t. keep_or_parse (d.token_value t) line (token_text t);
  precondition_list = push_parsed d.precondition_list (parse_line_token line precondition_text);
  condition_list = push_parsed d.condition_list (parse_line_token line condition_text);
  intensive_condition_list =
      push_parsed d.intensive_condition_list (parse_line_token line intensive_condition_text);
  macro_list = push_parsed d.macro_list (parse_line_token line macro_text);
}

unfoldable pub read_lines : Definition → List Str → Definition
read_lines d [] = d
read_lines d (token ∷ tokens) = read_lines (read_line d (trim token)) tokens

-- Every variable is set to `""` first.
abbrev pub empty_definition : Definition
empty_definition = record {
  token_value = λ t. [];
  precondition_list = [];
  condition_list = [];
  intensive_condition_list = [];
  macro_list = [];
}

unfoldable pub read_definition : Str → Definition
read_definition definition = read_lines empty_definition (stringtok [] definition (b'\n' ∷ []))
