-- ===== src/Service/Proxy.antt =====
-- The Tentacle proxy of `Pandora_Windows_Service` (pandora_windows_service.cc). Both functions leave what
-- they return undefined where they come to their end, and nothing reads it.
use pandora_agent_win.Base.{Bool, true, false, ◌++◌, Option, none, some, if◌then◌else◌}
use pandora_agent_win.Text.{Str, bytes, eq_str, is_empty}

abbrev or_default : (default value : Str) → Str
or_default default value = if is_empty value then default else value

-- The command that is started, unless the server is this machine.
unfoldable pub proxy_cmd : (get_value : Str → Str) → Option Str
proxy_cmd get_value =
    let server_ip = get_value (bytes "server_ip") in
    if eq_str server_ip (bytes "localhost")
    then none
    else some (
        bytes "tentacle_server.exe -b "
        ++ (server_ip
            ++ (bytes " -g "
                ++ (or_default (bytes "41121") (get_value (bytes "server_port"))
                    ++ (bytes " -c "
                        ++ (or_default (bytes "10") (get_value (bytes "proxy_max_connection"))
                            ++ (bytes " -t "
                                ++ or_default (bytes "1") (get_value (bytes "proxy_timeout")))))))))

abbrev started : (created : Str → Bool) (tentacle_proxy : Bool) → Option Str → Bool
started created tentacle_proxy none = tentacle_proxy
started created tentacle_proxy (some cmd) = if created cmd then true else tentacle_proxy

-- `launchTentacleProxy`: the member `tentacle_proxy` after it.
unfoldable pub launch_tentacle_proxy :
    (get_value : Str → Str) (created : Str → Bool) (tentacle_proxy : Bool) → Bool
launch_tentacle_proxy get_value created tentacle_proxy =
    started created tentacle_proxy (proxy_cmd get_value)

-- `killTentacleProxy`.
unfoldable pub kill_tentacle_proxy : (created : Str → Bool) (tentacle_proxy : Bool) → Bool
kill_tentacle_proxy created tentacle_proxy =
    if tentacle_proxy
    then (if created (bytes "taskkill.exe /F /IM tentacle_server.exe") then false else true)
    else false

-- What `pandora_init` makes of the setting `proxy_mode`.
unfoldable pub init_proxy :
    (get_value : Str → Str) (created : Str → Bool) (tentacle_proxy : Bool) → Bool
init_proxy get_value created tentacle_proxy =
    if is_empty (get_value (bytes "proxy_mode"))
    then tentacle_proxy
    else if tentacle_proxy
    then tentacle_proxy
    else launch_tentacle_proxy get_value created tentacle_proxy
