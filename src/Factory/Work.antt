-- ===== src/Factory/Work.antt =====
-- The class of the module that `getModuleFromDefinition` (modules/pandora_module_factory.cc) creates, and
-- what its constructor is given.
use pandora_agent_win.Base.Int.{ℤ, pos, negsuc}
use pandora_agent_win.Base.{
  ◌%◌, ◌-◌, ◌&&◌, ◌||◌, Bool, true, false, not, Option, none, some, if◌then◌else◌,
}
use pandora_agent_win.Factory.Tokens.{
  Definition, token_exec, token_proc, token_service, token_freedisk, token_freedisk_percent,
  token_freememory, token_freememory_percent, token_cpuusage, token_inventory, token_logevent,
  token_source, token_eventtype, token_eventcode, token_pattern, token_application, token_watchdog,
  token_start_command, token_wmiquery, token_wmicolumn, token_retries, token_startdelay,
  token_retrydelay, token_perfcounter, token_cooked, token_tcpcheck, token_port, token_timeout,
  token_regexp, token_plugin, token_noseekeof, token_ping, token_ping_count, token_ping_timeout,
  token_snmpget, token_snmpversion, token_snmpcommunity, token_snmpagent, token_snmpoid,
  token_advancedoptions,
}
use pandora_agent_win.KeyValue.{is_enabled}
use pandora_agent_win.Strutils.{atoi, strtoint, Conversion, converted, invalid_conversion}
use pandora_agent_win.Text.{Str, bytes, is_empty}

-- The class of the new object with what its constructor is given besides the name. Of a watched
-- process: the start command, the retries and the two delays; of a watched service: whether it is.
pub data Work : Type 0 where
  exec_work freedisk_work freedisk_percent_work inventory_work plugin_work : Str → Work
  freememory_work freememory_percent_work : Work
  proc_work : Str → Work
  watched_proc_work : Str → Str → ℤ → ℤ → ℤ → Work
  service_work : Str → Bool → Work
  cpuusage_work : ℤ → Work
  logevent_work : Str → Str → Str → Str → Str → Work
  wmiquery_work perfcounter_work : Str → Str → Work
  tcpcheck_work : Str → Str → Str → Work
  regexp_work : Str → Str → ℤ → Work
  ping_work : Str → Str → Str → Str → Work
  snmpget_work : Str → Str → Str → Str → Str → Work

-- The name of its kind, which each constructor passes to `setKind`.
abbrev pub kind_text : Work → Str
kind_text (exec_work c) = bytes "module_exec"
kind_text (freedisk_work d) = bytes "module_freedisk"
kind_text (freedisk_percent_work d) = bytes "module_freedisk_percent"
kind_text (inventory_work o) = bytes "module_inventory"
kind_text (plugin_work p) = bytes "module_plugin"
kind_text freememory_work = bytes "module_freememory"
kind_text freememory_percent_work = bytes "module_freememory_percent"
kind_text (proc_work p) = bytes "module_proc"
kind_text (watched_proc_work p c r s d) = bytes "module_proc"
kind_text (service_work s w) = bytes "module_service"
kind_text (cpuusage_work i) = bytes "module_cpuusage"
kind_text (logevent_work s t c p a) = bytes "module_logevent"
kind_text (wmiquery_work q c) = bytes "module_wmiquery"
kind_text (perfcounter_work s c) = bytes "module_perfcounter"
kind_text (tcpcheck_work a p t) = bytes "module_tcpcheck"
kind_text (regexp_work s p n) = bytes "module_regexp"
kind_text (ping_work h c t o) = bytes "module_ping"
kind_text (snmpget_work v c a o p) = bytes "module_snmpget"

-- The classes whose modules are given the timeout of the definition.
abbrev pub has_timeout : Work → Bool
has_timeout (exec_work c) = true
has_timeout (ping_work h c t o) = true
has_timeout (snmpget_work v c a o p) = true
has_timeout _ = false

abbrev or_default : Str → Str → Str
or_default default s = if is_empty s then default else s

-- A process, watched or not. A watched one without a start command is refused.
abbrev proc_of : Definition → Option Work
proc_of d =
    if is_empty (d.token_value token_watchdog) || not (is_enabled (d.token_value token_watchdog))
    then some (proc_work (d.token_value token_proc))
    else if is_empty (d.token_value token_start_command)
    then none
    else some (
        watched_proc_work (d.token_value token_proc) (d.token_value token_start_command)
          (atoi (d.token_value token_retries)) (atoi (d.token_value token_startdelay))
          (atoi (d.token_value token_retrydelay)))

abbrev service_of : Definition → Work
service_of d =
    service_work (d.token_value token_service)
      (not (is_empty (d.token_value token_watchdog)) && is_enabled (d.token_value token_watchdog))

abbrev cpu_id_of : Conversion ℤ → ℤ
cpu_id_of (converted n) = n
cpu_id_of invalid_conversion = negsuc 0

-- `(unsigned char) n`.
abbrev unsigned_char : ℤ → ℤ
unsigned_char (pos n) = pos (n % 256)
unsigned_char (negsuc n) = pos (255 - n % 256)

-- The chain that chooses the class: the first token that has a value decides.
unfoldable pub work_of : ℤ → Definition → Option Work
work_of unset d =
    let v = d.token_value in
    if not (is_empty (v token_exec))
    then some (exec_work (v token_exec))
    else if not (is_empty (v token_proc))
    then proc_of d
    else if not (is_empty (v token_service))
    then some (service_of d)
    else if not (is_empty (v token_freedisk))
    then some (freedisk_work (v token_freedisk))
    else if not (is_empty (v token_freedisk_percent))
    then some (freedisk_percent_work (v token_freedisk_percent))
    else if not (is_empty (v token_freememory))
    then some freememory_work
    else if not (is_empty (v token_freememory_percent))
    then some freememory_percent_work
    else if not (is_empty (v token_cpuusage))
    then some (cpuusage_work (cpu_id_of (strtoint unset (v token_cpuusage))))
    else if not (is_empty (v token_inventory))
    then some (inventory_work (v token_inventory))
    else if not (is_empty (v token_logevent))
    then some (
        logevent_work (v token_source) (v token_eventtype) (v token_eventcode) (v token_pattern)
          (v token_application))
    else if not (is_empty (v token_wmiquery))
    then some (wmiquery_work (v token_wmiquery) (v token_wmicolumn))
    else if not (is_empty (v token_perfcounter))
    then some (perfcounter_work (v token_perfcounter) (v token_cooked))
    else if not (is_empty (v token_tcpcheck))
    then some (tcpcheck_work (v token_tcpcheck) (v token_port) (v token_timeout))
    else if not (is_empty (v token_regexp))
    then some
        (regexp_work (v token_regexp) (v token_pattern) (unsigned_char (atoi (v token_noseekeof))))
    else if not (is_empty (v token_plugin))
    then some (plugin_work (v token_plugin))
    else if not (is_empty (v token_ping))
    then some (
        ping_work (v token_ping) (or_default (bytes "1") (v token_ping_count))
          (or_default (bytes "1000") (v token_ping_timeout)) (v token_advancedoptions))
    else if not (is_empty (v token_snmpget))
    then some (
        snmpget_work (or_default (bytes "1") (v token_snmpversion))
          (or_default (bytes "public") (v token_snmpcommunity))
          (or_default (bytes "localhost") (v token_snmpagent)) (v token_snmpoid)
          (v token_advancedoptions))
    else none
