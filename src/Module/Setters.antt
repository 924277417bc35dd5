-- ===== src/Module/Setters.antt =====
-- The setters of `Pandora_Module`, and those of its getters that are more than a member.
use pandora_agent_win.Base.Int.{ℤ, pos, ◌*ℤ◌, ltb_ℤ}
use pandora_agent_win.Base.{ℕ, Bool, true, some, if◌then◌else◌}
use pandora_agent_win.Cron.{set_cron, set_cron_interval}
use pandora_agent_win.Module.Defs.{Module}
use pandora_agent_win.Module.Kinds.{parse_module_type, parse_module_kind}
use pandora_agent_win.Platform.{Platform}
use pandora_agent_win.Text.{Str}

module _ {P : Platform} where
  unfoldable pub set_max : Module P → ℤ → Module P
  set_max m value = record m { has_limits = true; has_max = true; max = value }

  unfoldable pub set_min : Module P → ℤ → Module P
  set_min m value = record m { has_limits = true; has_min = true; min = value }

  -- Seconds become milliseconds; a negative timeout is ignored.
  unfoldable pub set_timeout : Module P → ℤ → Module P
  set_timeout m timeout =
      if ltb_ℤ timeout (pos 0) then m else record m { module_timeout = timeout *ℤ pos 1000 }

  unfoldable pub set_interval : Module P → ℤ → Module P
  set_interval m interval = record m { module_interval = interval }

  unfoldable pub set_intensive_interval : Module P → ℤ → Module P
  set_intensive_interval m intensive_interval = record m { intensive_interval = intensive_interval }

  unfoldable pub set_async : Module P → Bool → Module P
  set_async m async = record m { async = async }

  unfoldable pub set_type : Module P → Str → Module P
  set_type m type = record m { module_type_str = type; module_type = parse_module_type type }

  unfoldable pub set_kind : Module P → Str → Module P
  set_kind m kind = record m { module_kind_str = kind; module_kind = parse_module_kind kind }

  unfoldable pub set_description : Module P → Str → Module P
  set_description m description = record m { module_description = description }

  unfoldable pub set_save : Module P → Str → Module P
  set_save m save = record m { save = save }

  unfoldable pub set_timestamp : Module P → ℤ → Module P
  set_timestamp m timestamp = record m { timestamp = timestamp }

  unfoldable pub set_intensive_match : Module P → ℕ → Module P
  set_intensive_match m intensive_match = record m { intensive_match = intensive_match }

  -- `setCron` and `setCronInterval` on the member.
  unfoldable pub set_module_cron : Module P → Str → Module P
  set_module_cron m cron_string = record m { cron = some (set_cron m.cron cron_string) }

  unfoldable pub set_module_cron_interval : Module P → ℤ → Module P
  set_module_cron_interval m interval = record m { cron = some (set_cron_interval m.cron interval) }

  unfoldable pub set_post_process : Module P → Str → Module P
  set_post_process m value = record m { post_process = value }

  unfoldable pub set_min_critical : Module P → Str → Module P
  set_min_critical m value = record m { min_critical = value }

  unfoldable pub set_max_critical : Module P → Str → Module P
  set_max_critical m value = record m { max_critical = value }

  unfoldable pub set_min_warning : Module P → Str → Module P
  set_min_warning m value = record m { min_warning = value }

  unfoldable pub set_max_warning : Module P → Str → Module P
  set_max_warning m value = record m { max_warning = value }

  unfoldable pub set_disabled : Module P → Str → Module P
  set_disabled m value = record m { disabled = value }

  unfoldable pub set_min_ff_event : Module P → Str → Module P
  set_min_ff_event m value = record m { min_ff_event = value }

  unfoldable pub set_unit : Module P → Str → Module P
  set_unit m value = record m { unit = value }

  unfoldable pub set_module_group : Module P → Str → Module P
  set_module_group m value = record m { module_group = value }

  unfoldable pub set_custom_id : Module P → Str → Module P
  set_custom_id m value = record m { custom_id = value }

  unfoldable pub set_str_warning : Module P → Str → Module P
  set_str_warning m value = record m { str_warning = value }

  unfoldable pub set_str_critical : Module P → Str → Module P
  set_str_critical m value = record m { str_critical = value }

  unfoldable pub set_critical_instructions : Module P → Str → Module P
  set_critical_instructions m value = record m { critical_instructions = value }

  unfoldable pub set_warning_instructions : Module P → Str → Module P
  set_warning_instructions m value = record m { warning_instructions = value }

  unfoldable pub set_unknown_instructions : Module P → Str → Module P
  set_unknown_instructions m value = record m { unknown_instructions = value }

  unfoldable pub set_tags : Module P → Str → Module P
  set_tags m value = record m { tags = value }

  unfoldable pub set_critical_inverse : Module P → Str → Module P
  set_critical_inverse m value = record m { critical_inverse = value }

  unfoldable pub set_warning_inverse : Module P → Str → Module P
  set_warning_inverse m value = record m { warning_inverse = value }

  unfoldable pub set_quiet : Module P → Str → Module P
  set_quiet m value = record m { quiet = value }

  unfoldable pub set_module_ff_interval : Module P → Str → Module P
  set_module_ff_interval m value = record m { module_ff_interval = value }
