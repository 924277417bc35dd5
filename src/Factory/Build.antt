-- ===== src/Factory/Build.antt =====
-- The module that `getModuleFromDefinition` (modules/pandora_module_factory.cc) builds from the values
-- of the tokens.
pub mod Laws
use pandora_agent_win.Base.Int.{ℤ, pos, negsuc, ◌*ℤ◌}
use pandora_agent_win.Base.{
  ℕ, zero, suc, ◌/◌, ◌&&◌, Bool, true, false, not, List, [], ◌∷◌, Option, none, some, ◌==◌,
  if◌then◌else◌,
}
use pandora_agent_win.Factory.Macros.{subst_macros}
use pandora_agent_win.Factory.Tokens.{
  Token, Definition, read_definition, token_name, token_type, token_interval, token_max, token_min,
  token_post_process, token_min_critical, token_max_critical, token_min_warning, token_max_warning,
  token_disabled, token_min_ff_event, token_description, token_async, token_timeout, token_plugin,
  token_save, token_crontab, token_croninterval, token_unit, token_module_group, token_custom_id,
  token_str_warning, token_str_critical, token_critical_instructions, token_warning_instructions,
  token_unknown_instructions, token_tags, token_critical_inverse, token_warning_inverse,
  token_quiet, token_module_ff_interval,
}
use pandora_agent_win.Factory.Work.{Work, kind_text, has_timeout, work_of}
use pandora_agent_win.Module.Conditions.{add_condition, add_pre_condition, add_intensive_condition}
use pandora_agent_win.Module.Defs.{Module, new_module}
use pandora_agent_win.Module.Kinds.{ModuleType, parse_module_type, is_text, type_0, module_0}
use pandora_agent_win.Module.Output.{interval_size}
use pandora_agent_win.Module.Setters.{
  set_max, set_min, set_timeout, set_interval, set_intensive_interval, set_type, set_kind,
  set_module_cron, set_module_cron_interval,
}
use pandora_agent_win.Platform.{Platform}
use pandora_agent_win.Strutils.{atoi, signed, strtoint, Conversion, converted, invalid_conversion}
use pandora_agent_win.Text.{Str, bytes, is_empty}

-- The intervals of the service, in milliseconds (`getInterval`, `getIntensiveInterval`).
pub record Service : Type 0 where
  pub interval : ℤ
  pub intensive_interval : ℤ

abbrev is_negative : ℤ → Bool
is_negative (pos n) = false
is_negative (negsuc n) = true

abbrev xor : Bool → Bool → Bool
xor false b = b
xor true b = not b

-- The quotient of C, which is rounded towards zero; a division by zero has none.
abbrev pub quotient : ℤ → ℤ → Option ℤ
quotient a b =
    if interval_size b == 0
    then none
    else some (signed (xor (is_negative a) (is_negative b)) (interval_size a / interval_size b))

-- What `getModuleFromDefinition` ends with.
pub data Built (P : Platform) : Type 0 where
  null_module : Built P
  divides_by_zero : Built P
  built : Work → Module P → Built P

-- `if (text != "") module->set… (text);`
abbrev keep : Str → Str → Str
keep old text = if is_empty text then old else text

abbrev is_type_0 : ModuleType → Bool
is_type_0 type_0 = true
is_type_0 _ = false

module _ {P : Platform} where
  abbrev pub add_all : (Module P → Str → Module P) → List Str → Module P → Module P
  add_all add [] m = m
  add_all add (c ∷ cs) m = add_all add cs (add m c)

  abbrev if_converted : Conversion ℤ → (ℤ → Module P) → Module P → Module P
  if_converted (converted n) f m = f n
  if_converted invalid_conversion f m = m

  -- The new object, and its timeout. `unset` are the values of members before they are set.
  unfoldable pub create : Module P → Work → Definition → Module P
  create unset work d =
      let m =
        set_kind
          (new_module P unset.module_type unset.module_kind unset.has_output
            (d.token_value token_name))
          (kind_text work) in
      if has_timeout work && not (is_empty (d.token_value token_timeout))
      then set_timeout m (atoi (d.token_value token_timeout))
      else m

  -- The description, the variable to save to, the flag `async`, and the two lists of conditions.
  unfoldable pub with_conditions : Definition → Module P → Module P
  with_conditions d m = add_all (add_condition P) d.condition_list (
      add_all (add_pre_condition P) d.precondition_list (record m {
        module_description = keep m.module_description (d.token_value token_description);
        save = keep m.save (d.token_value token_save);
        async = if is_empty (d.token_value token_async) then m.async else true;
      }))

  unfoldable pub with_interval : ℤ → Definition → Module P → Module P
  with_interval unset d m =
      if is_empty (d.token_value token_interval)
      then m
      else if_converted (strtoint unset (d.token_value token_interval))
          (λ n. set_intensive_interval (set_interval m n) n) m

  abbrev pub adjusted : Module P → Option ℤ → Option (Module P)
  adjusted m none = none
  adjusted m (some ratio) = some (set_intensive_interval m (m.module_interval *ℤ ratio))

  -- The intensive conditions. A module without any runs once in so many intensive intervals as its
  -- interval has.
  unfoldable pub with_intensive : Service → List Str → Module P → Option (Module P)
  with_intensive service [] m = adjusted m (quotient service.interval service.intensive_interval)
  with_intensive service (c ∷ cs) m = some (add_all (add_intensive_condition P) (c ∷ cs) m)

  unfoldable pub with_cron : Definition → Module P → Module P
  with_cron d m =
      if is_empty (d.token_value token_crontab)
      then m
      else let m' = set_module_cron m (d.token_value token_crontab) in
        if is_empty (d.token_value token_croninterval)
        then m'
        else set_module_cron_interval m' (atoi (d.token_value token_croninterval))

  -- A plugin has no type of its own; another module without a valid type is refused.
  unfoldable pub with_type : Definition → Module P → Option (Module P)
  with_type d m =
      if not (is_empty (d.token_value token_plugin))
      then some (set_type m (bytes "generic_data_string"))
      else if is_type_0 (parse_module_type (d.token_value token_type))
      then none
      else some (set_type m (d.token_value token_type))

  abbrev with_max : ℤ → Str → Module P → Module P
  with_max unset text m =
      if is_empty text then m else if_converted (strtoint unset text) (set_max m) m

  abbrev with_min : ℤ → Str → Module P → Module P
  with_min unset text m =
      if is_empty text then m else if_converted (strtoint unset text) (set_min m) m

  -- The limits of a module with a numeric type.
  unfoldable pub with_limits : ℤ → Definition → Module P → Module P
  with_limits unset d m =
      if is_text m.module_type
      then m
      else with_min unset (d.token_value token_min) (with_max unset (d.token_value token_max) m)

  -- The members that hold the text of a token.
  unfoldable pub with_texts : Definition → Module P → Module P
  with_texts d m = record m {
    post_process = keep m.post_process (d.token_value token_post_process);
    min_critical = keep m.min_critical (d.token_value token_min_critical);
    max_critical = keep m.max_critical (d.token_value token_max_critical);
    min_warning = keep m.min_warning (d.token_value token_min_warning);
    max_warning = keep m.max_warning (d.token_value token_max_warning);
    disabled = keep m.disabled (d.token_value token_disabled);
    min_ff_event = keep m.min_ff_event (d.token_value token_min_ff_event);
    unit = keep m.unit (d.token_value token_unit);
    module_group = keep m.module_group (d.token_value token_module_group);
    custom_id = keep m.custom_id (d.token_value token_custom_id);
    str_warning = keep m.str_warning (d.token_value token_str_warning);
    str_critical = keep m.str_critical (d.token_value token_str_critical);
    critical_instructions =
        keep m.critical_instructions (d.token_value token_critical_instructions);
    warning_instructions = keep m.warning_instructions (d.token_value token_warning_instructions);
    unknown_instructions = keep m.unknown_instructions (d.token_value token_unknown_instructions);
    tags = keep m.tags (d.token_value token_tags);
    critical_inverse = keep m.critical_inverse (d.token_value token_critical_inverse);
    warning_inverse = keep m.warning_inverse (d.token_value token_warning_inverse);
    quiet = keep m.quiet (d.token_value token_quiet);
    module_ff_interval = keep m.module_ff_interval (d.token_value token_module_ff_interval);
  }

  abbrev pub typed : ℤ → Work → Definition → Option (Module P) → Built P
  typed unset_int work d none = null_module
  typed unset_int work d (some m) = built work (with_texts d (with_limits unset_int d m))

  abbrev pub scheduled : ℤ → Work → Definition → Option (Module P) → Built P
  scheduled unset_int work d none = divides_by_zero
  scheduled unset_int work d (some m) = typed unset_int work d (with_type d (with_cron d m))

  abbrev pub build : Service → ℤ → Module P → Definition → Option Work → Built P
  build service unset_int unset d none = null_module
  build service unset_int unset d (some work) = scheduled unset_int work d (
      with_intensive service d.intensive_condition_list
        (with_interval unset_int d (with_conditions d (create unset work d))))

  -- `getModuleFromDefinition`.
  unfoldable pub get_module_from_definition : Service → ℤ → Module P → Str → Built P
  get_module_from_definition service unset_int unset definition =
      let read = read_definition definition in
      let d = subst_macros read.macro_list read in
      build service unset_int unset d (work_of unset_int d)
