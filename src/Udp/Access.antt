-- ===== src/Udp/Access.antt =====
-- What a packet can make the agent do.
use pandora_agent_win.Base.Int.{pos, eqb_ℤ}
use pandora_agent_win.Base.Result.{Result, ok, err, ◌>>=◌, Every, Every-value}
use pandora_agent_win.Base.{
  ◌||◌, ◌≡◌, refl, true, false, Bool-cases, inl, inr, List, [], ◌∷◌, ◌++◌, Option, none, some, ltb,
  length, if◌then◌else◌, All, All-append,
}
use pandora_agent_win.Conf.Defs.{Conf, get_value, c_str}
use pandora_agent_win.KeyValue.{lower}
use pandora_agent_win.Strutils.{atoi}
use pandora_agent_win.Text.{Str, bytes, eq_str, is_empty}
use pandora_agent_win.Udp.{
  UdpServer, Action, refresh, start_service, stop_service, run_program, Received, socket_error,
  packet, service_command, process_management, commanded, command_words, process_command,
  is_authorised, listen, run_value,
}

-- What the configuration allows: any round, a service that it gives the number 1, and a program that it
-- has under some name.
abbrev pub IsAllowed : Conf → Action → Type 0
IsAllowed conf refresh = Unit
IsAllowed conf (start_service target) =
    eqb_ℤ (atoi (get_value conf (lower (bytes "service_" ++ target)))) (pos 1) ≡ true
IsAllowed conf (stop_service target) =
    eqb_ℤ (atoi (get_value conf (lower (bytes "service_" ++ target)))) (pos 1) ≡ true
IsAllowed conf (run_program command) =
    (target : Str) × (suffix : Str) × (get_value conf (lower (bytes "process_" ++ target) ++ suffix)
      ≡ command)
    × (is_empty command ≡ false)

service-IsAllowed :
    (conf : Conf) (operation target : Str)
    → All (IsAllowed conf) (service_command conf operation target).1
unfolding service_command
service-IsAllowed conf operation target =
    elim (Bool-cases (eqb_ℤ (atoi (get_value conf (lower (bytes "service_" ++ target)))) (pos 1))) [
      | inr b ↦ rw b tt
      | inl b ↦ elim (Bool-cases (eq_str operation (bytes "START"))) [
        | inl s ↦ rw (b, s) (b, tt)
        | inr s ↦ elim (Bool-cases (eq_str operation (bytes "STOP"))) [
          | inl t ↦ rw (b, s, t) (b, tt)
          | inr t ↦ rw (b, s, t) tt
        ]
      ]
    ]

run-IsAllowed :
    (conf : Conf) (target suffix value : Str)
    → get_value conf (lower (bytes "process_" ++ target) ++ suffix) ≡ value
    → All (IsAllowed conf) (run_value value).1
run-IsAllowed conf target suffix [] e = tt
run-IsAllowed conf target suffix (c ∷ value) e = ((target, suffix, e, refl), tt)

process-IsAllowed :
    (conf : Conf) (operation target : Str)
    → All (IsAllowed conf) (process_management conf operation target).1
unfolding process_management
process-IsAllowed conf operation target = elim (Bool-cases (eq_str operation (bytes "START"))) [
  | inl s ↦ rw s (
      run-IsAllowed conf target (bytes "_start")
        (get_value conf (lower (bytes "process_" ++ target) ++ bytes "_start")) refl)
  | inr s ↦ elim (Bool-cases (eq_str operation (bytes "STOP"))) [
    | inl t ↦
        rw (s, t)
          (run-IsAllowed conf target (bytes "_stop")
            (get_value conf (lower (bytes "process_" ++ target) ++ bytes "_stop")) refl)
    | inr t ↦ rw (s, t) tt
  ]
]

commanded-IsAllowed :
    (conf : Conf) (words : Option (Str × Str × Str)) → All (IsAllowed conf) (commanded conf words).1
commanded-IsAllowed conf none = tt
commanded-IsAllowed conf (some (operation, action, target)) =
    elim (Bool-cases (eq_str operation (bytes "REFRESH"))) [
      | inl r ↦ rw r (tt, tt)
      | inr r ↦ elim (Bool-cases (eq_str action (bytes "SERVICE"))) [
        | inl s ↦ rw (r, s) (service-IsAllowed conf operation target)
        | inr s ↦ elim (Bool-cases (eq_str action (bytes "PROCESS"))) [
          | inl p ↦ rw (r, s, p) (process-IsAllowed conf operation target)
          | inr p ↦ rw (r, s, p) tt
        ]
      ]
    ]

module _ (server : UdpServer) (conf_at : List Action → Conf) where
  -- Allowed by the configuration at some time.
  abbrev pub WasAllowed : Action → Type 0
  WasAllowed a = (before : List Action) × IsAllowed (conf_at before) a

  at_some_time :
      (before actions : List Action)
      → All (IsAllowed (conf_at before)) actions
      → All WasAllowed actions
  at_some_time before [] h = tt
  at_some_time before (a ∷ actions) h = ((before, h.0), at_some_time before actions h.1)

  listen-Every :
      (before : List Action) (received : List Received)
      → Every (All WasAllowed) (listen server conf_at before received)
  unfolding listen process_command
  listen-Every before [] = tt
  listen-Every before (socket_error ∷ rest) = tt
  listen-Every before (packet from mesg ∷ rest) = elim (Bool-cases (ltb 1024 (length mesg))) [
    | inl o ↦ rw (o, listen) tt
    | inr o ↦ elim (Bool-cases (is_authorised server from)) [
      | inr a ↦ rw (o, a, listen) (listen-Every before rest)
      | inl a ↦ elim (Bool-cases (ltb (length mesg) 1024)) [
        | inr l ↦ rw (o, a, l, listen) tt
        | inl l ↦
            let actions = (commanded (conf_at before) (command_words (c_str mesg))).1 in
            let allowed =
              at_some_time before actions
                (commanded-IsAllowed (conf_at before) (command_words (c_str mesg))) in
            rw (o, a, l, listen)
              (then_more actions (listen server conf_at (before ++ actions) rest) allowed
                (listen-Every (before ++ actions) rest))
      ]
    ]
  ]
    where
      then_more :
          (actions : List Action) (later : Result (List Action))
          → All WasAllowed actions
          → Every (All WasAllowed) later
          → Every (All WasAllowed) (later >>= λ l. ok (actions ++ l))
      then_more actions (err way) h k = tt
      then_more actions (ok l) h k = All-append WasAllowed actions l h k

  -- Whatever packets come from wherever: each service that is started or stopped has the number 1 in the
  -- configuration at some time, and each command that is run stands in it under a name with `process_`.
  pub listen-WasAllowed :
      (before : List Action) (received : List Received) (actions : List Action)
      → listen server conf_at before received ≡ ok actions
      → All WasAllowed actions
  listen-WasAllowed before received actions e =
      Every-value (All WasAllowed) (listen-Every before received) e

  -- The packets of clients that are authorised, and those that are an error of the socket.
  abbrev pub authorised : List Received → List Received
  authorised [] = []
  authorised (socket_error ∷ rest) = socket_error ∷ authorised rest
  authorised (packet from mesg ∷ rest) =
      if ltb 1024 (length mesg) || is_authorised server from
      then packet from mesg ∷ authorised rest
      else authorised rest

  -- Packets of at most 1024 bytes from addresses that are not authorised have no effect, whatever they
  -- hold: the actions of the server are those that it would take without them. A larger packet ends the
  -- loop, wherever it comes from.
  pub listen-authorised :
      (before : List Action) (received : List Received)
      → listen server conf_at before received ≡ listen server conf_at before (authorised received)
  unfolding listen
  listen-authorised before [] = refl
  listen-authorised before (socket_error ∷ rest) = refl
  listen-authorised before (packet from mesg ∷ rest) = elim (Bool-cases (ltb 1024 (length mesg))) [
    | inl o ↦ rw (o, listen, o) refl
    | inr o ↦ elim (Bool-cases (is_authorised server from)) [
      | inr a ↦ rw (o, a, listen) (listen-authorised before rest)
      | inl a ↦
          let actions = (process_command (conf_at before) (c_str mesg)).1 in
          let ih = listen-authorised (before ++ actions) rest in rw (o, a, listen, o, a, ih) refl
    ]
  ]
