-- ===== src/WindowsService/Starts.antt =====
-- The times at which the rounds of the service begin.
use pandora_agent_win.Base.Int.{pos}
use pandora_agent_win.Base.{ℕ, ◌+◌, ◌-◌, ◌<◌, ◌≤◌, ◌≡◌, List, [], ◌∷◌}
use pandora_agent_win.Conf.Defs.{Conf}
use pandora_agent_win.Service.Startup.{startup_delay, startup}
use pandora_agent_win.WindowsService.{dword, Timer, Turn}

abbrev timer : ℕ → ℕ → Timer
timer s base = record { sleep_time = pos s; iter_base_ticks = base }

-- Rounds that leave the timer as it is, the first of which begins `late` milliseconds too late. Between
-- the time when a round ought to begin and its end the counter does not go round once.
abbrev pub AreBounded : (late : ℕ) → List Turn → Type 0
AreBounded late [] = Unit
AreBounded late (turn ∷ turns) =
    ((n : ℕ) (t : Timer) → turn.run n t ≡ t)
    × (late + turn.takes < dword)
    × AreBounded turn.late turns

-- The times at which rounds ought to begin: each `s` milliseconds after the one before, or at its end if
-- that is later. They begin too late by what the waits are too long, and no more.
abbrev pub starts : (s base late : ℕ) → List Turn → List ℕ
starts s base late [] = []
starts s base late (turn ∷ turns) =
    (base + late)
    ∷ starts s (base + (late + turn.takes) + (s - (late + turn.takes))) turn.late turns

-- The first round of the service: it waits for `startup_delay`, wakes up `late` milliseconds too late,
-- sets the timer and then works for `work` milliseconds. It changes nothing else of the timer.
abbrev pub IsFirst : Conf → (late work : ℕ) → Turn → Type 0
IsFirst conf late work turn =
    ((n : ℕ) (t : Timer) → turn.run n t ≡ startup conf late n t)
    × (turn.takes ≡ startup_delay conf + late + work)

-- Rounds that leave the timer as it is and end within `s` milliseconds of the time when they ought to
-- begin.
abbrev pub AreTimely : (s late : ℕ) → List Turn → Type 0
AreTimely s late [] = Unit
AreTimely s late (turn ∷ turns) =
    ((n : ℕ) (t : Timer) → turn.run n t ≡ t) × (late + turn.takes ≤ s) × AreTimely s turn.late turns

-- Each `s` milliseconds a round, which begins `late` too late.
abbrev pub evenly : (s base late : ℕ) → List Turn → List ℕ
evenly s base late [] = []
evenly s base late (turn ∷ turns) = (base + late) ∷ evenly s (base + s) turn.late turns
