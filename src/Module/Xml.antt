-- ===== src/Module/Xml.antt =====
-- `getXml` (modules/pandora_module.cc): the text that reports a module and its data.
pub mod Laws
use pandora_agent_win.Base.{
  ℕ, suc, Bool, true, false, not, List, [], ◌∷◌, ◌++◌, Option, none, some, if◌then◌else◌, length,
}
use pandora_agent_win.Data.{PandoraData, get_timestamp}
use pandora_agent_win.Module.Defs.{Module}
use pandora_agent_win.Module.Kinds.{ModuleType, log}
use pandora_agent_win.Module.Output.{
  DataOutput, output, output_error, value_error, clean_data_list, get_data_output,
}
use pandora_agent_win.Platform.{Platform}
use pandora_agent_win.Strutils.{strreplace, inttostr}
use pandora_agent_win.Text.{Str, bytes, is_empty}

-- What `getXml` ends with: the text, or `Value_Error`, which it does not catch, or the front of an
-- empty list, which is not defined.
pub data XmlOutcome : Type 0 where
  xml : Str → XmlOutcome
  value_error_thrown front_of_empty : XmlOutcome

abbrev pub or_empty : Option Str → Str
or_empty none = []
or_empty (some t) = t

-- `strreplace (…, "%", "%%")`; the fuel is enough.
unfoldable pub data_clean : Str → Str
data_clean s = or_empty (strreplace (suc (length s)) s (bytes "%") (bytes "%%"))

-- `"\t<tag><![CDATA["`, the text and `"]]></tag>\n"`, unless the text is empty.
abbrev cdata_line : Str → Str → Str
cdata_line tag text =
    bytes "\t<"
    ++ (tag ++ (bytes "><![CDATA[" ++ (text ++ (bytes "]]></" ++ (tag ++ bytes ">\n")))))

unfoldable pub cdata_element : Str → Str → Str
cdata_element tag text = if is_empty text then [] else cdata_line tag text

-- The same without `CDATA`, for the later members.
unfoldable pub plain_element : Str → Str → Str
plain_element tag text =
    if is_empty text
    then []
    else bytes "\t<" ++ (tag ++ (bytes ">" ++ (text ++ (bytes "</" ++ (tag ++ bytes ">\n")))))

abbrev append_output : (Str → Str) → DataOutput → Option Str → Option Str
append_output item value_error rest = none
append_output item output_error rest = rest
append_output item (output text) none = none
append_output item (output text) (some s) = some (item (data_clean text) ++ s)

-- One value of several, and the only value.
pub list_item : PandoraData → Str → Str
list_item d clean =
    bytes "\t\t<data>\n\t\t\t<value><![CDATA["
    ++ (clean
        ++ (bytes "]]></value>\n\t\t\t<timestamp><![CDATA["
            ++ (get_timestamp d ++ bytes "]]></timestamp>\n\t\t</data>\n")))

pub single_item : PandoraData → Str → Str
single_item d clean = bytes "\t<data><![CDATA[" ++ (clean ++ bytes "]]></data>\n")

abbrev surround : Str → Str → Option Str → XmlOutcome
surround before behind none = value_error_thrown
surround before behind (some s) = xml (before ++ (s ++ behind))

log_item : PandoraData → Str → Str
log_item d clean = clean

abbrev pub is_log : ModuleType → Bool
is_log log = true
is_log _ = false

module _ {P : Platform} where
  -- The name and the type.
  pub xml_name : Module P → Str
  xml_name m =
      bytes "<module>\n\t<name><![CDATA["
      ++ (m.module_name
          ++ (bytes "]]></name>\n\t<type><![CDATA[" ++ (m.module_type_str ++ bytes "]]></type>\n")))

  -- The description, the interval, the limits and the elements in `CDATA` sections.
  pub xml_values : Module P → Str
  unfolding cdata_element
  xml_values m =
      cdata_element (bytes "description") m.module_description
      ++ (cdata_line (bytes "module_interval") (inttostr m.module_interval)
          ++ ((if m.has_min then cdata_line (bytes "min") (inttostr m.min) else [])
              ++ ((if m.has_max then cdata_line (bytes "max") (inttostr m.max) else [])
                  ++ (cdata_element (bytes "post_process") m.post_process
                      ++ (cdata_element (bytes "min_critical") m.min_critical
                          ++ (cdata_element (bytes "max_critical") m.max_critical
                              ++ (cdata_element (bytes "min_warning") m.min_warning
                                  ++ (cdata_element (bytes "max_warning") m.max_warning
                                      ++ (cdata_element (bytes "disabled") m.disabled
                                          ++ (cdata_element (bytes "min_ff_event") m.min_ff_event
                                              ++ cdata_element (bytes "unit") m.unit))))))))))

  -- The elements that hold a member as it is.
  pub xml_plain : Module P → Str
  unfolding plain_element
  xml_plain m =
      plain_element (bytes "module_group") m.module_group
      ++ (plain_element (bytes "custom_id") m.custom_id
          ++ (plain_element (bytes "str_warning") m.str_warning
              ++ (plain_element (bytes "str_critical") m.str_critical
                  ++ (plain_element (bytes "critical_instructions") m.critical_instructions
                      ++ (plain_element (bytes "warning_instructions") m.warning_instructions
                          ++ (plain_element (bytes "unknown_instructions") m.unknown_instructions
                              ++ (plain_element (bytes "tags") m.tags
                                  ++ (plain_element (bytes "critical_inverse") m.critical_inverse
                                      ++ (plain_element (bytes "warning_inverse") m.warning_inverse
                                          ++ (plain_element (bytes "quiet") m.quiet
                                              ++ plain_element (bytes "module_ff_interval")
                                                  m.module_ff_interval))))))))))

  -- The loop over the data. A value with an `Output_Error` is passed over; none: a `Value_Error`.
  pub xml_items : P.Double → Module P → (PandoraData → Str → Str) → List PandoraData → Option Str
  xml_items unset m item [] = some []
  xml_items unset m item (d ∷ ds) =
      append_output (item d) (get_data_output unset m d) (xml_items unset m item ds)

  -- The text of a log module, which has no element for each value.
  pub log_xml : P.Double → Module P → List PandoraData → XmlOutcome
  unfolding xml_items log_item
  log_xml unset m [] = front_of_empty
  log_xml unset m (d ∷ ds) =
      surround
        (bytes "<log_module>\n\t<source><![CDATA["
          ++ (m.module_name ++ bytes "]]></source>\n\t<data><![CDATA["))
        (bytes "]]></data></log_module>") (xml_items unset m log_item (d ∷ ds))

  abbrev header_xml : Module P → Str
  header_xml m = xml_name m ++ (xml_values m ++ xml_plain m)

  -- Around the only value, and around several.
  abbrev single_xml : Module P → Option Str → XmlOutcome
  single_xml m = surround (header_xml m) (bytes "</module>\n")

  abbrev list_xml : Module P → Option Str → XmlOutcome
  list_xml m =
      surround (header_xml m ++ bytes "\t<datalist>\n") (bytes "\t</datalist>\n</module>\n")

  -- The text of any other module.
  pub module_xml : P.Double → Module P → List PandoraData → XmlOutcome
  unfolding xml_items list_item single_item xml_name xml_values xml_plain
  module_xml unset m [] = front_of_empty
  module_xml unset m (d ∷ []) = single_xml m (xml_items unset m single_item (d ∷ []))
  module_xml unset m (d ∷ e ∷ ds) = list_xml m (xml_items unset m list_item (d ∷ e ∷ ds))

  -- The data are removed when the text is complete, and stay where an exception leaves.
  abbrev consume : Module P → XmlOutcome → XmlOutcome × Module P
  consume m (xml s) = (xml s, clean_data_list m)
  consume m value_error_thrown = (value_error_thrown, m)
  consume m front_of_empty = (front_of_empty, m)

  abbrev xml_of : P.Double → Module P → Option (List PandoraData) → XmlOutcome × Module P
  xml_of unset m none = (xml [], m)
  xml_of unset m (some ds) =
      consume m (if is_log m.module_type then log_xml unset m ds else module_xml unset m ds)

  -- `getXml`.
  unfoldable pub get_xml : P.Double → Module P → XmlOutcome × Module P
  get_xml unset m = if not m.has_output then (xml [], m) else xml_of unset m m.data_list
