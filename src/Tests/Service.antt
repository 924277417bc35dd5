-- ===== src/Tests/Service.antt =====
-- The service (pandora_windows_service.cc) at concrete inputs.
use pandora_agent_win.Base.Int.{ℤ, pos}
use pandora_agent_win.Base.Result.{ok}
use pandora_agent_win.Base.{
  ℕ, zero, suc, ◌+◌, ◌<◌, ◌≡◌, ◌≢◌, arith, refl, Bool, true, false, List, [], ◌∷◌, ◌++◌, none, some,
  if◌then◌else◌,
}
use pandora_agent_win.Conf.Defs.{Conf, get_value, get_value_in, is_last_collection}
use pandora_agent_win.Data.{new_data}
use pandora_agent_win.File.{Disk, md5, read_bin_file, write_file, remove_file}
use pandora_agent_win.Ftp.{curle_ok}
use pandora_agent_win.KeyValue.{KeyValue}
use pandora_agent_win.Service.Outside.{Outside, exited}
use pandora_agent_win.Service.World.{
  World, Outcome, undefined, hung, endless, thrown, done, ended_by,
}
use pandora_agent_win.Service.Config.{check_config}
use pandora_agent_win.Service.Config.Laws.{IsChecked}
use pandora_agent_win.Service.Config.Safe.{check_config-IsChecked}
use pandora_agent_win.Conf.Broker.{check_agent_name}
use pandora_agent_win.Service.Config.{check_text, fetch, remote_md5}
use pandora_agent_win.Service.Kept.Files.{IsApart}
use pandora_agent_win.Service.Receive.{recv_data_file, recv_tentacle_data_file}
use pandora_agent_win.Service.Buffer.{send_files, send_buffered_xml}
use pandora_agent_win.Service.Buffer.Laws.{Delivered, remove_each, send_files-Delivered}
use pandora_agent_win.Service.Collections.{check_collections}
use pandora_agent_win.Service.Collections.Ends.{check_collections-Stops}
use pandora_agent_win.Service.Fields.{field_key, custom_fields_text, in_element}
use pandora_agent_win.Service.Fields.Loop.{IsField, fields_from, custom_fields_text-fields_from}
use pandora_agent_win.Service.Rounds.{Around, run_module, run_modules}
use pandora_agent_win.Service.Rounds.Laws.{run_modules-modules_xml}
use pandora_agent_win.Service.SendXml.{send_xml, deliver, deletes_file, modules_xml}
use pandora_agent_win.Service.SendXml.Errors.{IsStopped, send_xml-IsStopped}
use pandora_agent_win.Service.SendXml.Laws.{IsHandled, deliver-IsHandled}
use pandora_agent_win.Service.Transfer.{
  copy_data_file, copy_to_first, copy_tentacle_data_file, copies_to_secondary, process_code,
  tentacle_cmd, tentacle_timeout,
}
use pandora_agent_win.Module.Defs.{Module, new_module}
use pandora_agent_win.Module.Output.{set_no_output, clean_data_list}
use pandora_agent_win.Strutils.{print_ℕ, atoi, scan_int, skip_space, read_digits}
use pandora_agent_win.Tests.Reports.{
  refusing, seven, nine, nine_refused, integers, plain_module, noon,
}
use pandora_agent_win.Ssh.{started}
use pandora_agent_win.Text.{Str, bytes, eq_str, find, is_prefix, lines}

abbrev set : Str → Str → KeyValue
set k v = record { key = k; value = v }

abbrev test_conf : Conf
test_conf = record {
  key_values =
      set (bytes "temporal") (bytes "T")
      ∷ set (bytes "transfer_mode") (bytes "tentacle")
      ∷ set (bytes "server_path") (bytes "/")
      ∷ set (bytes "server_ip") (bytes "h")
      ∷ set (bytes "remote_config") (bytes "1")
      ∷ set (bytes "xml_buffer") (bytes "1")
      ∷ set (bytes "custom_field1_name") (bytes "n")
      ∷ set (bytes "custom_field1_value") (bytes "v")
      ∷ [];
  collection_list = record { name = bytes "c"; verify = 0 } ∷ [];
  collection_it = 0;
  broker_enabled = true;
}

abbrev test_disk : Disk
test_disk = record {
  file = λ path.
      if eq_str path (bytes "conf")
      then some (bytes "agent_name x")
      else if eq_str path (bytes "T\\a.data")
      then some (bytes "r")
      else none;
  operations = 0;
  writable = λ path. true;
  stored = λ operations path text. text;
  removable = λ operations path. true;
}

abbrev test_world : World
test_world = record { conf = test_conf; disk = test_disk; path = []; requests = [] }

abbrev thirty_two : Str
thirty_two = bytes "0123456789abcdef0123456789abcdef"

-- Everything works, and each download brings the same 32 bytes.
abbrev pub test_env : Outside
test_env = record {
  install_dir = bytes "I\\";
  agent_version = bytes "1";
  system_name = bytes "s";
  system_address = bytes "a";
  os_name = bytes "w";
  os_version = bytes "7";
  digest = λ text. 0 ∷ 1 ∷ 2 ∷ 3 ∷ 4 ∷ 5 ∷ 6 ∷ 7 ∷ 8 ∷ 9 ∷ 10 ∷ 11 ∷ 12 ∷ 13 ∷ 14 ∷ 15 ∷ [];
  off_end = pos 0;
  unset_int = pos 0;
  chdir = λ path. true;
  process = λ requests. exited 0;
  command = λ requests. some (pos 0);
  downloaded = λ requests. some thirty_two;
  made = λ requests. true;
  entries = λ requests path. some [];
  copied = λ requests. true;
  opening = λ requests host port. started;
  accepted = λ requests host port. true;
  channel = λ requests. none;
  curl = λ requests. curle_ok;
  found = λ requests pattern. bytes "a.data" ∷ [];
  free_bytes = λ requests. none;
}

abbrev world_of {ℓ} : {V : Type ℓ} → World → Outcome V → World
world_of w undefined = w
world_of w hung = w
world_of w endless = w
world_of w (thrown w') = w'
world_of w (done w' v) = w'

conf_IsApart : IsApart (bytes "conf") (get_value test_conf (bytes "temporal"))
unfolding get_value_in eq_str
conf_IsApart name e = cc e

check_config-IsChecked_example :
    IsChecked
      (bytes "conf")
      test_world
      (world_of test_world (check_config test_env (bytes "conf") test_world))
      (pos 1)
unfolding check_config check_text fetch remote_md5 recv_data_file recv_tentacle_data_file ended_by
    get_value_in eq_str check_agent_name find is_prefix lines md5 read_bin_file write_file
    remove_file
check_config-IsChecked_example =
    check_config-IsChecked test_env (bytes "conf") test_world
      (world_of test_world (check_config test_env (bytes "conf") test_world)) (pos 1) conf_IsApart
      refl

abbrev sent_world : World
sent_world =
    world_of test_world (send_files test_env (bytes "T\\") (bytes "a.data" ∷ []) test_world)

send_files-Delivered_example :
    (sent rest : List Str) × (bytes "a.data" ∷ [] ≡ sent ++ rest)
    × Delivered test_env (bytes "T\\") test_world sent rest sent_world
    × (sent_world.disk ≡ remove_each (bytes "T\\") sent test_disk)
unfolding send_files copy_data_file copy_to_first copy_tentacle_data_file copies_to_secondary
    process_code ended_by get_value_in eq_str remove_file tentacle_cmd tentacle_timeout atoi
send_files-Delivered_example =
    send_files-Delivered test_env (bytes "T\\") (bytes "a.data" ∷ []) test_world sent_world refl

abbrev delivered_world : World
delivered_world =
    world_of test_world (deliver test_env (bytes "a.data") (bytes "T\\a.data") test_world)

deliver-IsHandled_example :
    (w₁ : World) × (rc : ℤ) × (copy_data_file test_env (bytes "a.data") test_world ≡ done w₁ rc)
    × IsHandled test_env
        (bytes "T\\")
        (bytes "T\\" ++ bytes "a.data")
        test_world
        w₁
        rc
        delivered_world
unfolding deliver send_buffered_xml deletes_file send_files copy_data_file copy_to_first
    copy_tentacle_data_file copies_to_secondary process_code ended_by get_value_in eq_str
    remove_file tentacle_cmd atoi scan_int skip_space read_digits tentacle_timeout
deliver-IsHandled_example =
    deliver-IsHandled test_env test_world delivered_world (bytes "a.data") (bytes "T\\") refl refl
      refl

check_collections-Stops_example :
    (check_collections test_env test_world ≢ endless)
    × ((w' : World)
        → check_collections test_env test_world ≡ done w' tt
        → is_last_collection w'.conf ≡ true)
check_collections-Stops_example = check_collections-Stops test_env test_world

one-IsField : (i : ℕ) → i < 1 → IsField test_conf (1 + i)
unfolding get_value_in eq_str field_key print_ℕ
one-IsField zero h = refl
one-IsField (suc i) h = absurd (omega arith)

custom_fields_text-fields_from_example :
    custom_fields_text test_conf ≡ ok (in_element (fields_from test_conf 1 1))
unfolding get_value_in eq_str field_key print_ℕ
custom_fields_text-fields_from_example =
    custom_fields_text-fields_from test_conf 1 (omega arith) one-IsField refl

-- Every precondition holds, or none does; a module of this kind has the value 7.
abbrev pub around : Bool → Around integers
around holds = record {
  preconditions = λ m. holds;
  run_kind =
      λ m. record m { has_output = true; data_list = some (new_data (bytes "7") noon [] ∷ []) };
  local_time = λ t. none;
  time = pos 0;
  starts = λ command. true;
  unset = pos 0;
}

abbrev quiet_module : Module integers
quiet_module = record plain_module { has_output = false }

run_modules-modules_xml_example :
    modules_xml {P = integers} (pos 0) (quiet_module ∷ []) test_world
    ≡ done test_world ([], quiet_module ∷ [])
unfolding run_modules run_module set_no_output clean_data_list new_module
run_modules-modules_xml_example =
    run_modules-modules_xml (around false) false (pos 300) (pos 1000) (plain_module ∷ [])
      (quiet_module ∷ []) (pos 0) test_world refl

send_xml-IsStopped_example : IsStopped test_world (
    send_xml test_env
      (pos 0)
      false
      noon
      (λ command. [])
      (pos 1)
      (some (quiet_module ∷ refusing ∷ []))
      test_world)
unfolding new_module
send_xml-IsStopped_example =
    send_xml-IsStopped (pos 0) refusing (seven ∷ []) nine [] refl refl refl refl refl nine_refused
      test_env false noon (λ command. []) (pos 1) (quiet_module ∷ []) [] test_world
