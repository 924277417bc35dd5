-- ===== src/Module/Watch.antt =====
-- What the threads of the modules that watch a process or a service share (`async_run` of
-- modules/pandora_module_proc.cc and of modules/pandora_module_service.cc).
pub mod Proc
pub mod Service
pub mod Changes
pub mod Starts
use pandora_agent_win.Base.Int.{ℤ}
use pandora_agent_win.Base.{ℕ, ◌+◌, List, [], ◌∷◌, ◌++◌, if◌then◌else◌}
use pandora_agent_win.Text.{Str, eq_str}

-- What a thread does, in order. `send_output` is `setOutput` of the text and `sendXml` of the module.
pub data Effect : Type 0 where
  sleep : (mseconds : ℤ) → Effect
  run_program : (command : Str) → Effect
  start_service : (service_name : Str) → Effect
  send_output : Str → Effect
  wait : (mseconds : ℕ) → Effect

-- `if (str_res != prev_res)`: the new `prev_res`, and what is done.
unfoldable pub send_changed : (str_res prev_res : Str) → Str × List Effect
send_changed str_res prev_res =
    if eq_str str_res prev_res then (prev_res, []) else (str_res, send_output str_res ∷ [])

abbrev pub sent_of : Effect → List Str
sent_of (send_output text) = text ∷ []
sent_of _ = []

-- The texts that were sent.
abbrev pub sent : List Effect → List Str
sent [] = []
sent (e ∷ es) = sent_of e ++ sent es

abbrev pub start_of : Effect → ℕ
start_of (run_program command) = 1
start_of _ = 0

-- The number of programs that were run.
abbrev pub started : List Effect → ℕ
started [] = 0
started (e ∷ es) = start_of e + started es
