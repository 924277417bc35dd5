-- ===== src/Module/Output.antt =====
-- The data of a module: `setOutput`, `getDataOutput`, `exportDataOutput` and `run`.
pub mod Limits
pub mod Texts
use pandora_agent_win.Base.Int.{ℤ, pos, negsuc}
use pandora_agent_win.Base.Result.{Result, ok, err, undefined_behaviour, ◌>>=◌}
use pandora_agent_win.Base.{
  ℕ, zero, suc, ◌+◌, ◌%◌, Bool, true, false, not, ◌&&◌, ◌||◌, List, [], ◌∷◌, ◌++◌, Option, none,
  some, ◌==◌, if◌then◌else◌, length,
}
use pandora_agent_win.Data.{PandoraData, SystemTime, new_data, get_timestamp}
use pandora_agent_win.Module.Defs.{Module}
use pandora_agent_win.Module.Kinds.{ModuleType, is_text, log}
use pandora_agent_win.Platform.{Platform}
use pandora_agent_win.Strutils.{
  trim, strreplace, inttostr, Conversion, converted, invalid_conversion, strtodouble,
}
use pandora_agent_win.Text.{Str, bytes, is_empty}

-- What `getDataOutput` returns or throws.
pub data DataOutput : Type 0 where
  output : Str → DataOutput
  output_error value_error : DataOutput

-- What `run` does: it goes on, it throws `Interval_Not_Fulfilled`, or it divides by zero.
pub data RunOutcome : Type 0 where
  fulfilled interval_not_fulfilled division_by_zero : RunOutcome

abbrev or_new_data : Option (List PandoraData) → List PandoraData
or_new_data none = []
or_new_data (some l) = l

-- The size of the divisor.
abbrev pub interval_size : ℤ → ℕ
interval_size (pos n) = n
interval_size (negsuc n) = suc n

module _ {P : Platform} where
  unfoldable pub clean_data_list : Module P → Module P
  clean_data_list m = record m { data_list = none; inventory_list = none }

  -- `setOutput (output)`, at the system time `now`.
  unfoldable pub set_output : SystemTime → Module P → Str → Module P
  set_output now m output_text = record m {
    data_list = some (or_new_data m.data_list ++ new_data output_text now m.module_name ∷ []);
    latest_output = output_text;
  }

  -- `setOutput (output, system_time)`, which leaves the latest output alone.
  unfoldable pub set_output_at : Module P → Str → SystemTime → Module P
  set_output_at m output_text system_time = record m {
    data_list =
        some (or_new_data m.data_list ++ new_data output_text system_time m.module_name ∷ []);
  }

  unfoldable pub set_no_output : Module P → Module P
  unfolding clean_data_list
  set_no_output m = record (clean_data_list m) { has_output = false }

  -- The test on the limits, `value >= this->max || value <= this->min`.
  unfoldable pub out_of_limits : Module P → P.Double → Bool
  out_of_limits m value =
      let max = P.of_int m.max in
      let min = P.of_int m.min in
      (P.lt max value || P.eq value max) || (P.lt value min || P.eq value min)

  abbrev checked_output : Module P → Str → Conversion P.Double → DataOutput
  checked_output m text invalid_conversion = output_error
  checked_output m text (converted value) =
      if m.has_limits && out_of_limits m value then value_error else output (trim text)

  -- `getDataOutput`; `unset` is what `strtodouble` returns of a text with nothing to convert.
  unfoldable pub get_data_output : P.Double → Module P → PandoraData → DataOutput
  get_data_output unset m d =
      if is_text m.module_type
      then output d.value
      else checked_output m d.value (strtodouble P.scan_le unset d.value)

  -- `exportDataOutput`: what is given to `putenv`. The front of an empty list is not defined.
  unfoldable pub export_data_output : Module P → Result Str
  export_data_output m =
      let putenv_str = m.save ++ bytes "=" in
      if not m.has_output then ok putenv_str else elim m.data_list [
        | none ↦ ok putenv_str
        | some [] ↦ err undefined_behaviour
        | some (d ∷ rest) ↦ ok (putenv_str ++ d.value)
      ]

  -- `run`. A remainder of C is zero exactly where that of the sizes is.
  unfoldable pub run : Module P → RunOutcome × Module P
  run m =
      let size = interval_size m.intensive_interval in
      if size == 0
      then (division_by_zero, m)
      else if not (m.executions % size == 0)
      then (interval_not_fulfilled, record m { executions = m.executions + 1; has_output = false })
      else (fulfilled, record m { executions = m.executions + 1; has_output = true })
