-- ===== src/Tests/Config.antt =====
-- The reader of the configuration (pandora.cc, pandora_agent_conf.cc) at concrete inputs.
use pandora_agent_win.Base.Result.{ok}
use pandora_agent_win.Base.{◌≡◌, ◌≢◌, refl, false, [], ◌∷◌, none, some, All, if◌then◌else◌}
use pandora_agent_win.Conf.Defs.{Conf, Files, get_value, get_value_in}
use pandora_agent_win.Conf.File.Safe.{IsSafe, set_file-IsSafe}
use pandora_agent_win.Conf.File.Values.{set_file_lines-get_value}
use pandora_agent_win.Conf.File.{set_file, set_file_lines}
use pandora_agent_win.KeyValue.Lines.{IsToken}
use pandora_agent_win.KeyValue.{parse_line}
use pandora_agent_win.Strutils.{trim, stringtok}
use pandora_agent_win.Text.{Str, bytes, eq_str, lines, find, find_first_not_of, find_last_not_of}

a_IsToken : IsToken (bytes "A")
a_IsToken = record { plain = ((refl, refl, refl), tt); ne_nil = λ e. cc e }

b_IsToken : IsToken (bytes "b")
b_IsToken = record { plain = ((refl, refl, refl), tt); ne_nil = λ e. cc e }

abbrev main_path : Str
main_path = bytes "main.conf"

-- One included file, which names a collection and an unsafe one.
abbrev test_files : Files
test_files path =
    if eq_str path main_path
    then some (bytes "server_ip 10.0.0.1\ninclude \"a.conf\nserver_ip 2\n")
    else if eq_str path (bytes "a.conf")
    then some (bytes "file_collection fc_1\nfile_collection ../x\n")
    else none

abbrev no_conf : Conf
no_conf = record {
  key_values = [];
  collection_list = [];
  collection_it = 0;
  broker_enabled = false;
}

abbrev first_conf : Conf
first_conf = record {
  key_values = record { key = bytes "server_ip"; value = bytes "10.0.0.1" } ∷ [];
  collection_list = [];
  collection_it = 0;
  broker_enabled = false;
}

abbrev whole_conf : Conf
whole_conf = record {
  key_values =
      record { key = bytes "server_ip"; value = bytes "10.0.0.1" }
      ∷ record { key = bytes "include"; value = bytes "a.conf" }
      ∷ record { key = bytes "server_ip"; value = bytes "2" }
      ∷ [];
  collection_list = record { name = bytes "fc_1"; verify = 0 } ∷ [];
  collection_it = 0;
  broker_enabled = false;
}

whole_file : set_file test_files main_path no_conf ≡ ok whole_conf
unfolding set_file eq_str lines find parse_line stringtok trim find_first_not_of find_last_not_of
whole_file = refl

set_file-IsSafe_example : All IsSafe whole_conf.collection_list
set_file-IsSafe_example = set_file-IsSafe test_files main_path no_conf whole_conf whole_file

abbrev second_conf : Conf
second_conf = record first_conf {
  key_values =
      record { key = bytes "server_ip"; value = bytes "10.0.0.1" }
      ∷ record { key = bytes "server_ip"; value = bytes "2" }
      ∷ [];
}

second_line : set_file_lines test_files (bytes "server_ip 2" ∷ []) first_conf ≡ ok second_conf
unfolding set_file_lines eq_str lines find parse_line stringtok trim find_first_not_of
    find_last_not_of
second_line = refl

has_server_ip : get_value first_conf (bytes "server_ip") ≢ []
unfolding eq_str get_value_in
has_server_ip e = cc e

set_file_lines-get_value_example :
    get_value second_conf (bytes "server_ip") ≡ get_value first_conf (bytes "server_ip")
set_file_lines-get_value_example =
    set_file_lines-get_value test_files (bytes "server_ip 2" ∷ []) first_conf second_conf
      (bytes "server_ip") second_line has_server_ip
