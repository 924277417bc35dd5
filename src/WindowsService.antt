-- ===== src/WindowsService.antt =====
-- `Windows_Service` (windows_service.cc): the loop that runs the agent every `sleep_time` milliseconds.
-- The clock is `GetTickCount`, which counts milliseconds in 32 bits.
pub mod Starts
use pandora_agent_win.Base.Int.{ℤ, pos, negsuc, pos_part, leb_ℤ}
use pandora_agent_win.Base.{ℕ, ◌+◌, ◌-◌, ◌%◌, ◌&&◌, Bool, List, [], ◌∷◌, ltb, if◌then◌else◌}

-- Numbers below this one are a `DWORD`.
abbrev pub dword : ℕ
dword = 4294967296

-- An `int` as a `DWORD`, and back.
unfoldable pub to_dword : ℤ → ℕ
to_dword (pos n) = n % dword
to_dword (negsuc n) = (dword - 1) - n % dword

unfoldable pub to_int : ℕ → ℤ
to_int n = if ltb (n % dword) 2147483648 then pos (n % dword) else negsuc ((dword - 1) - n % dword)

unfoldable pub sub_dword : ℕ → ℕ → ℕ
sub_dword a b = (a + (dword - b % dword)) % dword

pub record Timer : Type 0 where
  pub sleep_time : ℤ
  pub iter_base_ticks : ℕ

unfoldable pub set_sleep_time : ℕ → Timer → Timer
set_sleep_time s t = record t { sleep_time = to_int s }

unfoldable pub set_iteration_base_ticks : ℕ → Timer → Timer
set_iteration_base_ticks ticks t = record t { iter_base_ticks = ticks % dword }

-- Whether the round was in time: `sleep_time_remain` is no less than zero and no more than `sleep_time`.
unfoldable pub is_in_time : (sleep_time remain : ℤ) → Bool
is_in_time sleep_time remain = leb_ℤ (pos 0) remain && leb_ℤ remain sleep_time

-- The end of a round: the timer, and how long to wait.
unfoldable pub turn_end : (ticknow : ℕ) → Timer → Timer × ℤ
turn_end ticknow t =
    let remain = to_int (sub_dword (to_dword t.sleep_time) (sub_dword ticknow t.iter_base_ticks)) in
    if is_in_time t.sleep_time remain
    then (set_iteration_base_ticks (t.iter_base_ticks + to_dword t.sleep_time) t, remain)
    else (set_iteration_base_ticks ticknow t, pos 0)

-- A round: what `run_function` does to the timer where it begins at the given time, the milliseconds that
-- it takes, and those by which the wait after it ends too late.
pub record Turn : Type 0 where
  pub run : (now : ℕ) → Timer → Timer
  pub takes : ℕ
  pub late : ℕ

-- The loop, from the time `now`: the times at which the rounds begin. No function sets `stop_event`.
unfoldable pub exec_loop : List Turn → (now : ℕ) → Timer → List ℕ
exec_loop [] now t = []
exec_loop (turn ∷ turns) now t =
    let t' = turn.run now t in
    let ended = turn_end ((now + turn.takes) % dword) t' in
    let later = exec_loop turns (now + turn.takes + pos_part ended.1 + turn.late) ended.0 in
    if leb_ℤ t'.sleep_time (pos 0) then now ∷ [] else now ∷ later

-- `execRunFunction`.
unfoldable pub exec_run_function : List Turn → (now : ℕ) → Timer → List ℕ
exec_run_function turns now t = exec_loop turns now (set_iteration_base_ticks now t)
