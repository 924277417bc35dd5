-- ===== src/Module/Watch/Starts.antt =====
-- How often the thread of a process module starts the program.
use pandora_agent_win.Base.Int.{pos, leb_ℤ}
use pandora_agent_win.Base.{
  ℕ, zero, suc, ◌+◌, ◌-◌, ◌≤◌, ◌<◌, ◌≡◌, refl, ◌∙◌, arith, true, false, Bool-cases, inl, inr, List,
  [], ◌∷◌, ◌++◌, ltb, if◌then◌else◌,
}
use pandora_agent_win.Module.Watch.{Effect, sleep, run_program, send_changed, started}
use pandora_agent_win.Module.Watch.Proc.{
  ProcModule, Watch, Sight, absent, present, no_event, absent_round, present_round, round, rounds,
}
use pandora_agent_win.Platform.{Platform}
use pandora_agent_win.Strutils.{inttostr}
use pandora_agent_win.Text.{Str, eq_str}

-- `n` rounds in a row that find no process.
abbrev pub absences : ℕ → List Sight
absences zero = []
absences (suc n) = absent ∷ absences n

abbrev smaller : ℕ → ℕ → ℕ
smaller a b = if ltb a b then a else b

started-append : (es fs : List Effect) → started (es ++ fs) ≡ started es + started fs
started-append [] fs = ground arith
started-append (e ∷ es) fs = let rest = started-append es fs in ground arith

started-send_changed : (text p : Str) → started (send_changed text p).1 ≡ 0
unfolding send_changed
started-send_changed text p = elim (Bool-cases (eq_str text p)) [ inl e ↦ rw e | inr e ↦ rw e ]

both : {a b : ℕ} → a ≡ 0 → b ≡ 0 → a + b ≡ 0
both h k = omega arith

-- A round that finds the process starts nothing, and leaves the watchdog alone.
started-present_round :
    (w : Watch) (count result count_after : ℕ)
    → started (present_round w count result count_after).1 ≡ 0
      × (present_round w count result count_after).0.watchdog ≡ w.watchdog
unfolding present_round
started-present_round w count result count_after =
    let first = send_changed (inttostr (pos count)) w.prev_res in
    let second = send_changed (inttostr (pos count_after)) first.0 in
    let a = started-send_changed (inttostr (pos count)) w.prev_res in
    let b = started-send_changed (inttostr (pos count_after)) first.0 in
    elim (Bool-cases (no_event result count)) [
      | inl e ↦ rw e (rw (started-append, a), refl)
      | inr e ↦ rw e (rw (started-append, started-append, a, b), refl)
    ]

module _ {P : Platform} (m : ProcModule P) where
  absent_round_off :
      (w : Watch) → w.watchdog ≡ false → absent_round m w ≡ (w, sleep (pos 2000) ∷ [])
  unfolding absent_round
  absent_round_off w off = simp off

  absent_round_again :
      (w : Watch)
      → w.watchdog ≡ true
      → leb_ℤ m.retries (pos w.counter) ≡ false
      → absent_round m w ≡ (
        record w { counter = w.counter + 1 },
        sleep m.retry_delay ∷ run_program m.start_command ∷ sleep m.start_delay ∷ [],
      )
  unfolding absent_round
  absent_round_again w on more = simp (on, more)

  absent_round_given_up :
      (w : Watch)
      → w.watchdog ≡ true
      → leb_ℤ m.retries (pos w.counter) ≡ true
      → absent_round m w ≡ (record w { watchdog = false }, [])
  unfolding absent_round
  absent_round_given_up w on enough = simp (on, enough)

  round_off :
      (w : Watch) (s : Sight)
      → w.watchdog ≡ false
      → started (round m w s).1 ≡ 0 × (round m w s).0.watchdog ≡ false
  unfolding round
  round_off w absent off = let h = absent_round_off w off in rw h (ground arith, off)
  round_off w (present count result count_after) off =
      let h = started-present_round w count result count_after in (h.0, h.1 ∙ off)

  -- Without the watchdog nothing is started, whatever the thread finds.
  rounds_off :
      (w : Watch) (ss : List Sight)
      → w.watchdog ≡ false
      → started (rounds m w ss).1 ≡ 0 × (rounds m w ss).0.watchdog ≡ false
  unfolding rounds
  rounds_off w [] off = (refl, off)
  rounds_off w (s ∷ ss) off =
      let now = round_off w s off in
      let later = rounds_off (round m w s).0 ss now.1 in
      (started-append (round m w s).1 _ ∙ both now.0 later.0, later.1)

  rounds_after :
      (w w' : Watch) (es : List Effect) (ss : List Sight)
      → absent_round m w ≡ (w', es)
      → rounds m w (absent ∷ ss) ≡ ((rounds m w' ss).0, es ++ (rounds m w' ss).1)
  unfolding rounds round
  rounds_after w w' es ss e = rw e

  -- Where the watchdog is on, and no process is found in more rounds in a row than there are retries
  -- left, the program is started in exactly as many of them as retries were left, then the watchdog is
  -- off and, whatever is found in the rounds that follow, the program is not started again.
  pub rounds_absent :
      (r n : ℕ) (w : Watch) (ss : List Sight)
      → m.retries ≡ pos r
      → w.watchdog ≡ true
      → w.counter ≤ r
      → r - w.counter < n
      → started (rounds m w (absences n ++ ss)).1 ≡ r - w.counter
        × (rounds m w (absences n ++ ss)).0.watchdog ≡ false
  rounds_absent r zero w ss hr on le more = absurd (omega arith)
  rounds_absent r (suc n) w ss hr on le more = elim (Bool-cases (leb_ℤ m.retries (pos w.counter))) [
    | inl e ↦
        let off = rounds_off (record w { watchdog = false }) (absences n ++ ss) refl in
        let enough : leb_ℤ (pos r) (pos w.counter) ≡ true = rw hr at e in
        let none_left : r - w.counter ≡ 0 = ground arith in
        rw (rounds_after w _ _ (absences n ++ ss) (absent_round_given_up w on e), none_left) off
    | inr e ↦
        let more' : leb_ℤ (pos r) (pos w.counter) ≡ false = rw hr at e in
        let h =
          rounds_absent r n (record w { counter = w.counter + 1 }) ss hr on (ground arith)
            (ground arith) in
        rw (rounds_after w _ _ (absences n ++ ss) (absent_round_again w on e))
          (ground (arith, h.0), h.1)
  ]
