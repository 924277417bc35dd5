-- ===== src/Service/Fields.antt =====
-- The custom fields of a report, which `sendXml` writes: a loop over the settings `custom_field1_name`,
-- `custom_field1_value` and so on.
pub mod Loop
use pandora_agent_win.Base.Result.{Result, ok, err, undefined_behaviour, ◌>>=◌}
use pandora_agent_win.Base.{
  ℕ, zero, suc, ◌+◌, Bool, true, false, ◌||◌, List, [], ◌∷◌, ◌++◌, Option, none, some,
  if◌then◌else◌, ltb, length,
}
use pandora_agent_win.Conf.Defs.{Conf, get_value}
use pandora_agent_win.Strutils.{print_ℕ}
use pandora_agent_win.Text.{Str, bytes, is_empty}

unfoldable pub field_key : (c : ℕ) (suffix : Str) → Str
field_key c suffix = bytes "custom_field" ++ (print_ℕ c ++ suffix)

-- `sprintf` into one of the arrays, which have 21 bytes: the text and its terminator must fit.
unfoldable pub sprintf_21 : Str → Result Str
sprintf_21 text = if ltb (length text) 21 then ok text else err undefined_behaviour

abbrev pub field_name : Conf → ℕ → Str
field_name conf c = get_value conf (field_key c (bytes "_name"))

abbrev pub field_value : Conf → ℕ → Str
field_value conf c = get_value conf (field_key c (bytes "_value"))

-- The two settings of number `c`.
unfoldable pub read_field : Conf → ℕ → Result (Str × Str)
read_field conf c = sprintf_21 (field_key c (bytes "_name")) >>= λ name_key.
    sprintf_21 (field_key c (bytes "_value")) >>= λ value_key.
    ok (get_value conf name_key, get_value conf value_key)

unfoldable pub field_text : (name value : Str) → Str
field_text name value =
    bytes "\t<field>\n\t\t<name><![CDATA["
    ++ (name
        ++ (bytes "]]></name>\n\t\t<value><![CDATA["
            ++ (value ++ bytes "]]></value>\n\t</field>\n")))

abbrev put_field : (name value : Str) → Option (Result Str) → Option (Result Str)
put_field name value none = none
put_field name value (some rest) = some (rest >>= λ text. ok (field_text name value ++ text))

abbrev field_loop : Result (Str × Str) → Option (Result Str) → Option (Result Str)
field_loop (err way) rest = some (err way)
field_loop (ok (name, value)) rest =
    if is_empty name || is_empty value then some (ok []) else put_field name value rest

-- The `while` loop, from number `c`. `none`: the fuel ran out.
unfoldable pub custom_fields : (fuel : ℕ) → Conf → ℕ → Option (Result Str)
custom_fields zero conf c = none
custom_fields (suc fuel) conf c = field_loop (read_field conf c) (custom_fields fuel conf (suc c))

abbrev pub in_element : Str → Str
in_element text =
    if is_empty text then [] else bytes "<custom_fields>\n" ++ (text ++ bytes "</custom_fields>\n")

abbrev element_of : Option (Result Str) → Result Str
element_of none = err undefined_behaviour
element_of (some fields) = fields >>= λ text. ok (in_element text)

-- All of it. A hundred rounds are enough.
unfoldable pub custom_fields_text : Conf → Result Str
custom_fields_text conf = element_of (custom_fields 100 conf 1)
