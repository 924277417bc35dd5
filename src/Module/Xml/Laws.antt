-- ===== src/Module/Xml/Laws.antt =====
-- What the text of a module holds, and when there is none.
use pandora_agent_win.Base.{
  suc, ◌≡◌, ◌≢◌, refl, ap, ◌∙◌, true, false, not, List, [], ◌∷◌, ◌++◌, none, some, arith, All,
  if◌then◌else◌, length,
}
use pandora_agent_win.Data.{PandoraData}
use pandora_agent_win.Module.Defs.{Module}
use pandora_agent_win.Module.Output.{
  DataOutput, output, output_error, value_error, clean_data_list, get_data_output,
}
use pandora_agent_win.Module.Xml.{
  xml, value_error_thrown, or_empty, data_clean, xml_items, log_xml, module_xml, get_xml,
  append_output, is_log, single_item, list_item, xml_of, single_xml, list_xml, header_xml, consume,
}
use pandora_agent_win.Platform.{Platform}
use pandora_agent_win.Strutils.Replace.{doubled, strreplace-percent}
use pandora_agent_win.Text.{Str, bytes}

-- The text that `getXml` puts into a report for a value is the value with every `%` doubled.
pub data_clean-doubled : (s : Str) → data_clean s ≡ doubled s
unfolding data_clean
data_clean-doubled s = ap or_empty (strreplace-percent s (suc (length s)) (omega arith))

module _ {P : Platform} (unset : P.Double) (m : Module P) where
  -- The values that are reported, in order, those with an `Output_Error` left out.
  abbrev pub texts_of : List PandoraData → (PandoraData → Str → Str) → Str
  texts_of [] item = []
  texts_of (d ∷ ds) item = elim (get_data_output unset m d) [
    | output t ↦ item d (doubled t) ++ texts_of ds item
    | _ ↦ texts_of ds item
  ]

  -- No value lies outside the limits.
  abbrev pub NoValueError : List PandoraData → Type 0
  NoValueError = All (λ d. get_data_output unset m d ≢ value_error)

  xml_items_lem :
      (item : PandoraData → Str → Str) (ds : List PandoraData)
      → NoValueError ds
      → xml_items unset m item ds ≡ some (texts_of ds item)
  unfolding xml_items
  xml_items_lem item [] h = refl
  xml_items_lem item (d ∷ ds) h = step (get_data_output unset m d) refl (xml_items_lem item ds h.1)
    where
      step :
          (o : DataOutput)
          → get_data_output unset m d ≡ o
          → xml_items unset m item ds ≡ some (texts_of ds item)
          → xml_items unset m item (d ∷ ds) ≡ some (texts_of (d ∷ ds) item)
      step (output t) e later = ground (arith, e, later, data_clean-doubled t)
      step output_error e later = ground (arith, e, later)
      step value_error e later = absurd (h.0 e)

  xml_items_thrown :
      (item : PandoraData → Str → Str) (ds : List PandoraData) (d : PandoraData)
      (es : List PandoraData)
      → get_data_output unset m d ≡ value_error
      → xml_items unset m item (ds ++ d ∷ es) ≡ none
  unfolding xml_items
  xml_items_thrown item [] d es e = rw e
  xml_items_thrown item (c ∷ ds) d es e =
      step (get_data_output unset m c) (xml_items_thrown item ds d es e)
    where
      step :
          (o : DataOutput)
          → xml_items unset m item (ds ++ d ∷ es) ≡ none
          → append_output (item c) o (xml_items unset m item (ds ++ d ∷ es)) ≡ none
      step (output t) later = ground (arith, later)
      step output_error later = later
      step value_error later = refl

  -- The text of a module, by the number of its values: what stands before and behind them, and the
  -- form of one value.
  abbrev pub expected_xml : List PandoraData → Str
  expected_xml [] = []
  expected_xml (d ∷ []) = header_xml m ++ (texts_of (d ∷ []) single_item ++ bytes "</module>\n")
  expected_xml (d ∷ e ∷ ds) =
      (header_xml m ++ bytes "\t<datalist>\n")
      ++ (texts_of (d ∷ e ∷ ds) list_item ++ bytes "\t</datalist>\n</module>\n")

  module_xml_lem :
      (ds : List PandoraData)
      → ds ≢ []
      → NoValueError ds
      → module_xml unset m ds ≡ xml (expected_xml ds)
  unfolding module_xml
  module_xml_lem [] ne h = absurd (ne refl)
  module_xml_lem (d ∷ []) ne h = ap (single_xml m) (xml_items_lem single_item (d ∷ []) h)
  module_xml_lem (d ∷ e ∷ ds) ne h = ap (list_xml m) (xml_items_lem list_item (d ∷ e ∷ ds) h)

  -- A module that is no log and has output and data reports by `module_xml`.
  reported :
      {ds : List PandoraData}
      → m.has_output ≡ true
      → m.data_list ≡ some ds
      → is_log m.module_type ≡ false
      → get_xml unset m ≡ consume m (module_xml unset m ds)
  unfolding get_xml
  reported {ds} out e l =
      ap (λ b. if not b then (xml [], m) else xml_of unset m m.data_list) out
      ∙ ap (xml_of unset m) e
      ∙ ap (λ b. consume m (if b then log_xml unset m ds else module_xml unset m ds)) l

  -- A module that is no log, that has output and whose values are within its limits is reported with
  -- every value that can be converted, `%` doubled, in order; its data are then gone.
  pub get_xml-expected_xml :
      (ds : List PandoraData)
      → m.has_output ≡ true
      → m.data_list ≡ some ds
      → ds ≢ []
      → is_log m.module_type ≡ false
      → NoValueError ds
      → get_xml unset m ≡ (xml (expected_xml ds), clean_data_list m)
  get_xml-expected_xml ds out e ne l h = reported out e l ∙ ap (consume m) (module_xml_lem ds ne h)

  module_xml_thrown :
      (ds : List PandoraData) (d : PandoraData) (es : List PandoraData)
      → get_data_output unset m d ≡ value_error
      → module_xml unset m (ds ++ d ∷ es) ≡ value_error_thrown
  unfolding module_xml
  module_xml_thrown [] d [] e = ap (single_xml m) (xml_items_thrown single_item [] d [] e)
  module_xml_thrown [] d (f ∷ es) e = ap (list_xml m) (xml_items_thrown list_item [] d (f ∷ es) e)
  module_xml_thrown (c ∷ []) d es e = ap (list_xml m) (xml_items_thrown list_item (c ∷ []) d es e)
  module_xml_thrown (c ∷ b ∷ ds) d es e =
      ap (list_xml m) (xml_items_thrown list_item (c ∷ b ∷ ds) d es e)

  -- One value outside the limits takes the whole text with it: `Value_Error` leaves `getXml`.
  pub get_xml_thrown :
      (ds : List PandoraData) (d : PandoraData) (es : List PandoraData)
      → m.has_output ≡ true
      → m.data_list ≡ some (ds ++ d ∷ es)
      → is_log m.module_type ≡ false
      → get_data_output unset m d ≡ value_error
      → get_xml unset m ≡ (value_error_thrown, m)
  get_xml_thrown ds d es out e l h = reported out e l ∙ ap (consume m) (module_xml_thrown ds d es h)
