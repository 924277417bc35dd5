-- ===== src/Service/SendXml.antt =====
-- `sendXml`: the report is put together, written to the directory `temporal`, and sent.
pub mod Laws
pub mod Errors
use pandora_agent_win.Base.Int.{ℤ, pos, eqb_ℤ, ltb_ℤ, ◌*ℤ◌}
use pandora_agent_win.Base.{
  ℕ, Bool, true, false, ◌&&◌, ◌||◌, not, List, [], ◌∷◌, ◌++◌, Option, none, some, if◌then◌else◌,
}
use pandora_agent_win.Conf.Defs.{c_str}
use pandora_agent_win.Data.{SystemTime}
use pandora_agent_win.Module.Defs.{Module}
use pandora_agent_win.Base.Result.{Result}
use pandora_agent_win.Module.Exec.{plugin_text}
use pandora_agent_win.Module.Inventory.{inventory_xml}
use pandora_agent_win.Module.Kinds.{is_plugin, is_inventory}
use pandora_agent_win.Module.Xml.{XmlOutcome, xml, value_error_thrown, front_of_empty, get_xml}
use pandora_agent_win.Platform.{Platform}
use pandora_agent_win.Service.Buffer.{send_buffered_xml}
use pandora_agent_win.Service.Fields.{custom_fields_text}
use pandora_agent_win.Service.Header.{get_xml_header, or_else}
use pandora_agent_win.Service.Outside.{Outside}
use pandora_agent_win.Service.Transfer.{copy_data_file}
use pandora_agent_win.Service.World.{
  World, Run, Outcome, undefined, done, thrown, bound, ◌>>=◌, ◌>>◌, return, throw, undefined_here,
  from_result, get, remove, ended_by,
}
use pandora_agent_win.Strutils.{atoi, inttostr}
use pandora_agent_win.File.{write_file, Disk}
use pandora_agent_win.Text.{Str, bytes}

module _ {P : Platform} (unset : P.Double) where
  abbrev xml_end : XmlOutcome × Module P → Run (Str × Module P)
  xml_end (xml text, m) = return (text, m)
  xml_end (value_error_thrown, m) = throw
  xml_end (front_of_empty, m) = undefined_here

  -- The front of an empty list is undefined behaviour.
  abbrev plugin_end : Result Str × Module P → Run (Str × Module P)
  plugin_end (text, m) = from_result text >>= λ s. return (s, m)

  -- `getXml`, a virtual function: a plugin and an inventory have their own.
  unfoldable pub virtual_xml : Module P → Run (Str × Module P)
  virtual_xml m =
      if is_plugin m.module_kind
      then plugin_end (plugin_text m)
      else if is_inventory m.module_kind
      then xml_end (inventory_xml unset m)
      else xml_end (get_xml unset m)

  -- The loop over the modules: their texts, and the modules without the data that were reported.
  unfoldable pub modules_xml : List (Module P) → Run (Str × List (Module P))
  modules_xml [] = return ([], [])
  modules_xml (m ∷ ms) = do
    (text, m') ← virtual_xml m
    (texts, ms') ← modules_xml ms
    return (text ++ texts, m' ∷ ms')

-- Whether the file is deleted: it was copied, nothing is buffered, or the disk is nearly full. The
-- comparison of the numbers is one of doubles, and exact.
unfoldable pub deletes_file :
    (rc xml_buffer : ℤ) (free_bytes : Option ℕ) (min_free_bytes : ℤ) → Bool
deletes_file rc xml_buffer none min_free_bytes = eqb_ℤ rc (pos 0) || eqb_ℤ xml_buffer (pos 0)
deletes_file rc xml_buffer (some free) min_free_bytes =
    eqb_ℤ rc (pos 0) || eqb_ℤ xml_buffer (pos 0) || ltb_ℤ (pos free) min_free_bytes

module _ (env : Outside) where
  -- The name of the file; `number` is what `rand` returns.
  abbrev report_name : (number : ℤ) → Run Str
  report_name number = do
    agent_name ← get (bytes "agent_name")
    return (or_else agent_name env.system_name ++ (bytes "." ++ (inttostr number ++ bytes ".data")))

  abbrev delete_if : Bool → Str → Run (Unit {0})
  delete_if false path = return tt
  delete_if true path = remove path

  -- What follows the writing of the file, unless debugging.
  unfoldable pub deliver : (tmp_filename tmp_filepath : Str) → Run (Unit {0})
  deliver tmp_filename tmp_filepath = do
    min_size ← get (bytes "temporal_min_size")
    buffer ← get (bytes "xml_buffer")
    rc ← copy_data_file env tmp_filename
    λ w.
        delete_if
          (deletes_file rc (atoi buffer) (env.free_bytes w.requests) (pos 1024 *ℤ atoi min_size))
          tmp_filepath w
    temporal ← get (bytes "temporal")
    if eqb_ℤ (atoi buffer) (pos 1) then send_buffered_xml env temporal else return tt

-- How `sendXml` ends, the mutex released: the code, and the modules. An exception leaves it locked.
pub record Sent (P : Platform) : Type 0 where
  pub code : ℤ
  pub modules : Option (List (Module P))

module _ {P : Platform} (env : Outside) (unset : P.Double) (debug : Bool) where
  abbrev all_modules_xml : Option (List (Module P)) → Run (Str × Option (List (Module P)))
  all_modules_xml none = return ([], none)
  all_modules_xml (some ms) = do (text, ms') ← modules_xml unset ms; return (text, some ms')

  -- `data_xml`. What `gis` gives is the output of the program of `gis_exec`.
  unfoldable pub report_xml :
      (now : SystemTime) (gis : Str → Str)
      → Option (List (Module P))
      → Run (Str × Option (List (Module P)))
  report_xml now gis modules = do
    header ← (λ w. done w (get_xml_header env now gis w.conf))
    fields ← (λ w. from_result (custom_fields_text w.conf) w)
    (text, modules') ← all_modules_xml modules
    return (header ++ (fields ++ (text ++ bytes "</agent_data>")), modules')

  abbrev after_write :
      (name path : Str) → Option (List (Module P)) → World → Option Disk → Outcome (Sent P)
  after_write name path modules w none = done w (record { code = pos 11; modules = modules })
  after_write name path modules w (some disk) =
      bound
        (if debug
          then return tt (record w { disk = disk })
          else deliver env name path (record w { disk = disk }))
        (λ _. return (record { code = env.off_end; modules = modules }))

  abbrev save_report : (name path text : Str) → Option (List (Module P)) → Run (Sent P)
  save_report name path text modules w =
      after_write name path modules w (write_file w.disk path (c_str text))

  -- `sendXml`.
  unfoldable pub send_xml :
      (now : SystemTime) (gis : Str → Str) (number : ℤ) → Option (List (Module P)) → Run (Sent P)
  send_xml now gis number modules = do
    (data_xml, modules') ← report_xml now gis modules
    tmp_filename ← report_name env number
    temporal ← get (bytes "temporal")
    dir ← ended_by b'\\' temporal
    save_report tmp_filename (dir ++ tmp_filename) data_xml modules'
