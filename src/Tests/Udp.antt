-- ===== src/Tests/Udp.antt =====
-- The UDP server (udp_server/udp_server.cc) at concrete packets.
use pandora_agent_win.Base.{◌≡◌, refl, false, List, [], ◌∷◌, All}
use pandora_agent_win.Conf.Defs.{Conf, get_value_in}
use pandora_agent_win.Cron.{scan_word}
use pandora_agent_win.KeyValue.{lower}
use pandora_agent_win.Strutils.{atoi, scan_int, skip_space, read_digits}
use pandora_agent_win.Text.{bytes, eq_str}
use pandora_agent_win.Udp.{
  UdpServer, Action, start_service, run_program, Received, packet, socket_error, listen,
  is_authorised, process_command, command_words, service_command, process_management,
}
use pandora_agent_win.Udp.Access.{WasAllowed, authorised, listen-WasAllowed, listen-authorised}

abbrev server : UdpServer
server = record { address = 0; auth_address = 7; port = 41122; running = 1 }

abbrev conf : Conf
conf = record {
  key_values =
      record { key = bytes "service_web"; value = bytes "1" }
      ∷ record { key = bytes "process_app_start"; value = bytes "app.exe" }
      ∷ [];
  collection_list = [];
  collection_it = 0;
  broker_enabled = false;
}

-- A client that is not the authorised one, two commands, and one that the configuration does not allow.
abbrev received : List Received
received =
    packet 8 (bytes "STOP SERVICE web")
    ∷ packet 7 (bytes "START SERVICE web")
    ∷ packet 7 (bytes "START PROCESS app")
    ∷ packet 7 (bytes "STOP SERVICE db")
    ∷ socket_error
    ∷ []

abbrev actions : List Action
actions = start_service (bytes "web") ∷ run_program (bytes "app.exe") ∷ []

listen-WasAllowed_example : All (WasAllowed server (λ before. conf)) actions
unfolding listen is_authorised process_command command_words service_command process_management
    get_value_in eq_str scan_word lower atoi scan_int skip_space read_digits
listen-WasAllowed_example = listen-WasAllowed server (λ before. conf) [] received actions refl

listen-authorised_example :
    listen server (λ before. conf) [] received
    ≡ listen server (λ before. conf) [] (authorised server (λ before. conf) received)
listen-authorised_example = listen-authorised server (λ before. conf) [] received
