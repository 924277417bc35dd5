-- ===== src/Service/SendXml/Errors.antt =====
-- What a value outside the limits of its module does to the report.
use pandora_agent_win.Base.Result.{Result, ok, err, out_of_range, undefined_behaviour}
use pandora_agent_win.Base.{
  ◌≡◌, refl, Bool, true, false, Bool-cases, inl, inr, List, [], ◌∷◌, ◌++◌, some,
}
use pandora_agent_win.Base.Int.{ℤ}
use pandora_agent_win.Data.{PandoraData, SystemTime}
use pandora_agent_win.Module.Defs.{Module}
use pandora_agent_win.Module.Exec.{plugin_text}
use pandora_agent_win.Module.Inventory.{inventory_xml}
use pandora_agent_win.Module.Kinds.{is_plugin, is_inventory}
use pandora_agent_win.Module.Output.{value_error, get_data_output}
use pandora_agent_win.Module.Xml.Laws.{get_xml_thrown}
use pandora_agent_win.Module.Xml.{
  XmlOutcome, xml, value_error_thrown, front_of_empty, is_log, get_xml,
}
use pandora_agent_win.Platform.{Platform}
use pandora_agent_win.Service.Fields.{custom_fields_text}
use pandora_agent_win.Service.Outside.{Outside}
use pandora_agent_win.Service.SendXml.{
  xml_end, plugin_end, virtual_xml, modules_xml, report_xml, send_xml,
}
use pandora_agent_win.Service.World.{
  World, Run, Outcome, undefined, hung, endless, thrown, done, bound, from_result,
}
use pandora_agent_win.Text.{Str}

-- A run without effects outside, however it ends.
abbrev Still {ℓ} : {V : Type ℓ} → World → Outcome V → Type 0
Still w undefined = Unit
Still w hung = ⊥
Still w endless = ⊥
Still w (thrown w') = w' ≡ w
Still w (done w' v) = w' ≡ w

-- A run that ends with an exception, or undefined behaviour, before it has had any effect outside.
abbrev pub IsStopped {ℓ} : {V : Type ℓ} → World → Outcome V → Type 0
IsStopped w undefined = Unit
IsStopped w hung = ⊥
IsStopped w endless = ⊥
IsStopped w (thrown w') = w' ≡ w
IsStopped w (done w' v) = ⊥

Still-bound {ι κ} :
    {V : Type ι} {W : Type κ} (w : World) (o : Outcome V) (next : V → Run W)
    → Still w o
    → ((v : V) → IsStopped w (next v w))
    → IsStopped w (bound o next)
Still-bound w undefined next s k = tt
Still-bound w hung next s k = s
Still-bound w endless next s k = s
Still-bound w (thrown w') next s k = s
Still-bound w (done w' v) next s k = rw s (k v)

IsStopped-bound {ι κ} :
    {V : Type ι} {W : Type κ} (w : World) (o : Outcome V) (next : V → Run W)
    → IsStopped w o
    → IsStopped w (bound o next)
IsStopped-bound w undefined next s = tt
IsStopped-bound w hung next s = s
IsStopped-bound w endless next s = s
IsStopped-bound w (thrown w') next s = s
IsStopped-bound w (done w' v) next s = absurd s

result-Still {ℓ} : {V : Type ℓ} (r : Result V) (w : World) → Still w (from_result r w)
result-Still (ok v) w = refl
result-Still (err out_of_range) w = refl
result-Still (err undefined_behaviour) w = tt

module _ {P : Platform} (unset : P.Double) where
  xml_end-Still : (r : XmlOutcome × Module P) (w : World) → Still w (xml_end unset r w)
  xml_end-Still (xml text, m) w = refl
  xml_end-Still (value_error_thrown, m) w = refl
  xml_end-Still (front_of_empty, m) w = tt

  plugin_end-Still : (r : Result Str × Module P) (w : World) → Still w (plugin_end unset r w)
  plugin_end-Still (ok text, m) w = refl
  plugin_end-Still (err out_of_range, m) w = refl
  plugin_end-Still (err undefined_behaviour, m) w = tt

  virtual_xml-Still : (m : Module P) (w : World) → Still w (virtual_xml unset m w)
  unfolding virtual_xml
  virtual_xml-Still m w = elim (Bool-cases (is_plugin m.module_kind)) [
    | inl b ↦ rw b (plugin_end-Still (plugin_text m) w)
    | inr b ↦ elim (Bool-cases (is_inventory m.module_kind)) [
      | inl c ↦ rw (b, c) (xml_end-Still (inventory_xml unset m) w)
      | inr c ↦ rw (b, c) (xml_end-Still (get_xml unset m) w)
    ]
  ]

  module _ (m : Module P) (ds : List PandoraData) (d : PandoraData) (es : List PandoraData)
      (not_plugin : is_plugin m.module_kind ≡ false)
      (not_inventory : is_inventory m.module_kind ≡ false) (out : m.has_output ≡ true)
      (values : m.data_list ≡ some (ds ++ d ∷ es)) (not_log : is_log m.module_type ≡ false)
      (refused : get_data_output unset m d ≡ value_error) where
    refused_xml : (w : World) → virtual_xml unset m w ≡ thrown w
    unfolding virtual_xml
    refused_xml w =
        rw (not_plugin, not_inventory, get_xml_thrown unset m ds d es out values not_log refused)
          refl

    modules_xml-IsStopped :
        (before later : List (Module P)) (w : World)
        → IsStopped w (modules_xml unset (before ++ m ∷ later) w)
    unfolding modules_xml
    modules_xml-IsStopped [] later w = rw (refused_xml w) refl
    modules_xml-IsStopped (b ∷ before) later w =
        Still-bound w (virtual_xml unset b w) _ (virtual_xml-Still b w) (λ v.
          IsStopped-bound w (modules_xml unset (before ++ m ∷ later) w) _
            (modules_xml-IsStopped before later w))

    -- One value that a module with limits refuses, of whatever module but a plugin, an inventory or a
    -- log, takes the whole report of all modules with it: `Value_Error`, or undefined behaviour before
    -- it, leaves `sendXml` before any file is written and anything is sent.
    pub send_xml-IsStopped :
        (env : Outside) (debug : Bool) (now : SystemTime) (gis : Str → Str) (number : ℤ)
        (before later : List (Module P)) (w : World)
        → IsStopped w (send_xml env unset debug now gis number (some (before ++ m ∷ later)) w)
    unfolding send_xml report_xml
    send_xml-IsStopped env debug now gis number before later w =
        IsStopped-bound w (report_xml env unset debug now gis (some (before ++ m ∷ later)) w) _ (
          Still-bound w (from_result (custom_fields_text w.conf) w) _
            (result-Still (custom_fields_text w.conf) w)
            (λ fields. IsStopped-bound w _ _ (
              IsStopped-bound w (modules_xml unset (before ++ m ∷ later) w) _
                (modules_xml-IsStopped before later w))))
