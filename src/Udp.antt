-- ===== src/Udp.antt =====
-- `UDP_Server` (udp_server/udp_server.cc): commands for the agent, which come in packets. The sockets
-- are parameters.
pub mod Access
use pandora_agent_win.Base.Int.{ℤ, pos, eqb_ℤ}
use pandora_agent_win.Base.Result.{Result, ok, err, undefined_behaviour, ◌>>=◌}
use pandora_agent_win.Base.{
  ℕ, Bool, true, false, not, ◌&&◌, List, [], ◌∷◌, ◌++◌, Option, none, some, ◌==◌, ltb, length,
  if◌then◌else◌,
}
use pandora_agent_win.Conf.Defs.{Conf, get_value, c_str}
use pandora_agent_win.Cron.{scan_word}
use pandora_agent_win.KeyValue.{lower}
use pandora_agent_win.Strutils.{atoi}
use pandora_agent_win.Text.{Str, bytes, eq_str, is_empty}

-- Addresses as the numbers that `inet_addr` gives; zero is `INADDR_ANY`.
pub record UdpServer : Type 0 where
  pub address : ℕ
  pub auth_address : ℕ
  pub port : ℕ
  pub running : ℕ

abbrev address_of : (inet_addr : Str → ℕ) → Str → ℕ
address_of inet_addr address = if is_empty address then 0 else inet_addr address

-- The constructor.
unfoldable pub new_server :
    (inet_addr : Str → ℕ) (address auth_address : Str) (port : ℕ) → UdpServer
new_server inet_addr address auth_address port = record {
  address = address_of inet_addr address;
  auth_address = address_of inet_addr auth_address;
  port = port;
  running = 0;
}

-- `start`, and the code; `created`: `CreateThread` made the thread.
unfoldable pub start : (created : Bool) → UdpServer → UdpServer × ℕ
start created server =
    if not (server.running == 0)
    then (server, 1)
    else if created
    then (record server { running = 1 }, 0)
    else (record server { running = 0 }, 1)

-- `stop`, and the code.
unfoldable pub stop : UdpServer → UdpServer × ℕ
stop server = if not (server.running == 0) then (server, 1) else (record server { running = 0 }, 0)

-- What a command makes the agent do.
pub data Action : Type 0 where
  refresh : Action
  start_service stop_service run_program : Str → Action

-- The words of `"%s %s %s"`, if there are three.
abbrev two_more : (operation : Str) → Option (Str × Str) → Option (Str × Str × Str)
two_more operation none = none
two_more operation (some (action, rest)) = elim (scan_word (length rest) rest) [
  | none ↦ none
  | some (target, behind) ↦ some (operation, action, target)
]

unfoldable pub command_words : Str → Option (Str × Str × Str)
command_words command = elim (scan_word (length command) command) [
  | none ↦ none
  | some (operation, rest) ↦ two_more operation (scan_word (length rest) rest)
]

-- The management of services.
unfoldable pub service_command : Conf → (operation target : Str) → ℕ × List Action
service_command conf operation target =
    if not (eqb_ℤ (atoi (get_value conf (lower (bytes "service_" ++ target)))) (pos 1))
    then (1, [])
    else if eq_str operation (bytes "START")
    then (0, start_service target ∷ [])
    else if eq_str operation (bytes "STOP")
    then (0, stop_service target ∷ [])
    else (0, [])

abbrev run_value : (value : Str) → ℕ × List Action
run_value value = if is_empty value then (1, []) else (0, run_program value ∷ [])

-- The management of processes: the command is what the configuration has under the name.
unfoldable pub process_management : Conf → (operation target : Str) → ℕ × List Action
process_management conf operation target =
    let var = lower (bytes "process_" ++ target) in
    if eq_str operation (bytes "START")
    then run_value (get_value conf (var ++ bytes "_start"))
    else if eq_str operation (bytes "STOP")
    then run_value (get_value conf (var ++ bytes "_stop"))
    else (1, [])

abbrev commanded : Conf → Option (Str × Str × Str) → ℕ × List Action
commanded conf none = (1, [])
commanded conf (some (operation, action, target)) =
    if eq_str operation (bytes "REFRESH")
    then (0, refresh ∷ [])
    else if eq_str action (bytes "SERVICE")
    then service_command conf operation target
    else if eq_str action (bytes "PROCESS")
    then process_management conf operation target
    else (0, [])

-- `process_command`: the code, and what is done.
unfoldable pub process_command : Conf → (command : Str) → ℕ × List Action
process_command conf command = commanded conf (command_words command)

-- What comes before `recvfrom` returns: an error of the socket, or a packet. A packet that is larger than
-- the buffer, `MAX_PACKET_SIZE`, is an error of `recvfrom` as well, `WSAEMSGSIZE`.
pub data Received : Type 0 where
  socket_error : Received
  packet : (from : ℕ) (mesg : Str) → Received

-- The authentication of a client.
unfoldable pub is_authorised : UdpServer → ℕ → Bool
is_authorised server from = if server.auth_address == 0 then true else from == server.auth_address

-- The loop of `listen`, over what is received, and what is done. `conf_at` is the configuration after
-- what was done before. `mesg[n] = 0` writes behind the array when the packet fills it. `running` stays
-- 1, since `stop` leaves a server that runs as it is.
unfoldable pub listen :
    UdpServer
    → (conf_at : List Action → Conf) (before : List Action) → List Received
    → Result (List Action)
listen server conf_at before [] = ok []
listen server conf_at before (socket_error ∷ rest) = ok []
listen server conf_at before (packet from mesg ∷ rest) = elim (ltb 1024 (length mesg)) [
  | true ↦ ok []
  | false ↦ elim (is_authorised server from) [
    | false ↦ listen server conf_at before rest
    | true ↦
        if ltb (length mesg) 1024
        then (let actions = (process_command (conf_at before) (c_str mesg)).1 in
            listen server conf_at (before ++ actions) rest >>= λ later. ok (actions ++ later))
        else err undefined_behaviour
  ]
]
