-- ===== src/Module/Watch/Changes.antt =====
-- What the threads of the modules send: each text differs from the one before it.
use pandora_agent_win.Base.{
  ◌≡◌, ◌≢◌, refl, ℕ, true, Bool-cases, inl, inr, List, [], ◌∷◌, ◌++◌, append_assoc, append-nil,
  ◌&&◌,
}
use pandora_agent_win.Base.Int.{ℤ, pos, leb_ℤ, eqb_ℤ}
use pandora_agent_win.KeyValue.{last_of}
use pandora_agent_win.Module.Watch.{Effect, wait, send_changed, sent}
use pandora_agent_win.Module.Watch.Proc.{
  ProcModule, Watch, Sight, absent, present, no_event, absent_round, present_round, round, rounds,
  async_run,
}
use pandora_agent_win.Module.Watch.Service.{
  ServiceModule, LogRound, no_log, quiet, events, is_service_event, event_round, log_rounds,
  watch_service,
}
use pandora_agent_win.Platform.{Platform}
use pandora_agent_win.Strutils.{inttostr}
use pandora_agent_win.Text.{Str, eq_str}
use pandora_agent_win.Text.Laws.{eq_str_iff}

-- Each text differs from the one before it, the first one from `prev_res`.
abbrev pub IsChanging : (prev_res : Str) → List Str → Type 0
IsChanging prev_res [] = Unit
IsChanging prev_res (text ∷ texts) = text ≢ prev_res × IsChanging text texts

sent-append : (es fs : List Effect) → sent (es ++ fs) ≡ sent es ++ sent fs
sent-append [] fs = refl
sent-append (e ∷ es) fs = rw (sent-append es fs, append_assoc)

IsChanging-append :
    (prev_res : Str) (ts us : List Str)
    → IsChanging prev_res ts
    → IsChanging (last_of prev_res ts) us
    → IsChanging prev_res (ts ++ us)
IsChanging-append prev_res [] us h k = k
IsChanging-append prev_res (t ∷ ts) us (ne, h) k = (ne, IsChanging-append t ts us h k)

-- What was sent changes, and `now` is the text after it.
abbrev Tracks : (prev_res : Str) → List Effect → (now : Str) → Type 0
Tracks prev_res es now = IsChanging prev_res (sent es) × last_of prev_res (sent es) ≡ now

last_of-append : (p : Str) (ts us : List Str) → last_of p (ts ++ us) ≡ last_of (last_of p ts) us
last_of-append p [] us = refl
last_of-append p (t ∷ ts) us = last_of-append t ts us

Tracks-append :
    (p q r : Str) (es fs : List Effect) → Tracks p es q → Tracks q fs r → Tracks p (es ++ fs) r
Tracks-append p q r es fs (h, e) (k, f) =
    let k' : IsChanging (last_of p (sent es)) (sent fs) = rw e k in
    let f' : last_of (last_of p (sent es)) (sent fs) ≡ r = rw e f in
    rw sent-append (IsChanging-append p (sent es) (sent fs) h k', rw last_of-append f')

send_changed-Tracks :
    (str_res p : Str) → Tracks p (send_changed str_res p).1 (send_changed str_res p).0
unfolding send_changed
send_changed-Tracks str_res p = elim (Bool-cases (eq_str str_res p)) [
  | inl e ↦ rw e (tt, refl)
  | inr e ↦
      rw e
        (((λ q. let same : eq_str str_res p ≡ true = (eq_str_iff str_res p).1 q in cc), tt), refl)
]

module _ {P : Platform} (m : ProcModule P) where
  absent_round-Tracks :
      (w : Watch) → Tracks w.prev_res (absent_round m w).1 (absent_round m w).0.prev_res
  unfolding absent_round
  absent_round-Tracks w = elim (Bool-cases w.watchdog) [
    | inl e ↦ elim (Bool-cases (leb_ℤ m.retries (pos w.counter))) [
      | inl f ↦ rw (absent_round, e, f) (tt, refl)
      | inr f ↦ rw (absent_round, e, f) (tt, refl)
    ]
    | inr e ↦ rw (absent_round, e) (tt, refl)
  ]

present_round-Tracks :
    (w : Watch) (count result count_after : ℕ)
    → Tracks w.prev_res
        (present_round w count result count_after).1
        (present_round w count result count_after).0.prev_res
unfolding present_round
present_round-Tracks w count result count_after =
    let p = w.prev_res in
    let first = send_changed (inttostr (pos count)) p in
    let h = send_changed-Tracks (inttostr (pos count)) p in
    let k : Tracks p (first.1 ++ wait 10000 ∷ []) first.0 =
      Tracks-append p first.0 first.0 first.1 (wait 10000 ∷ []) h (tt, refl) in
    elim (Bool-cases (no_event result count)) [
      | inl e ↦ rw e k
      | inr e ↦ rw e (
          Tracks-append p first.0 (send_changed (inttostr (pos count_after)) first.0).0
            (first.1 ++ wait 10000 ∷ []) (send_changed (inttostr (pos count_after)) first.0).1 k
            (send_changed-Tracks (inttostr (pos count_after)) first.0))
    ]

module _ {P : Platform} (m : ProcModule P) where
  round-Tracks :
      (w : Watch) (s : Sight) → Tracks w.prev_res (round m w s).1 (round m w s).0.prev_res
  unfolding round
  round-Tracks w absent = absent_round-Tracks m w
  round-Tracks w (present count result count_after) =
      present_round-Tracks w count result count_after

  rounds-Tracks :
      (w : Watch) (ss : List Sight) → Tracks w.prev_res (rounds m w ss).1 (rounds m w ss).0.prev_res
  unfolding rounds
  rounds-Tracks w [] = (tt, refl)
  rounds-Tracks w (s ∷ ss) =
      let now = round m w s in
      Tracks-append w.prev_res now.0.prev_res (rounds m now.0 ss).0.prev_res now.1
        (rounds m now.0 ss).1 (round-Tracks w s) (rounds-Tracks now.0 ss)

  -- Whatever the thread of a process module finds, each text that it sends differs from the one
  -- that it sent before, and the first one from the latest output of the module.
  pub async_run-IsChanging :
      (ss : List Sight) → IsChanging m.base.latest_output (sent (async_run m ss).1)
  unfolding async_run
  async_run-IsChanging ss =
      (rounds-Tracks
        (record { watchdog = m.watchdog; counter = 0; prev_res = m.base.latest_output }) ss).0

module _ {P : Platform} (m : ServiceModule P) where
  event_round-Tracks :
      (p : Str) (res : ℤ) → Tracks p (event_round m p res).1 (event_round m p res).0
  unfolding event_round
  event_round-Tracks p res =
      let changed = send_changed (inttostr res) p in
      let h = send_changed-Tracks (inttostr res) p in
      elim (Bool-cases (eqb_ℤ res (pos 0) && m.watchdog)) [
        | inl e ↦ rw e (Tracks-append p changed.0 changed.0 changed.1 _ h (tt, refl))
        | inr e ↦ rw (e, append-nil) h
      ]

  log_rounds-IsChanging : (p : Str) (l : List LogRound) → IsChanging p (sent (log_rounds m p l))
  unfolding log_rounds
  log_rounds-IsChanging p [] = tt
  log_rounds-IsChanging p (no_log ∷ rest) = tt
  log_rounds-IsChanging p (quiet ∷ rest) = log_rounds-IsChanging p rest
  log_rounds-IsChanging p (events l res ∷ rest) =
      let now = event_round m p res in
      let h = event_round-Tracks p res in
      let k : IsChanging (last_of p (sent now.1)) (sent (log_rounds m now.0 rest)) =
        rw h.1 (log_rounds-IsChanging now.0 rest) in
      elim (Bool-cases (is_service_event l)) [
        | inl e ↦ rw (e, sent-append) (IsChanging-append p (sent now.1) _ h.0 k)
        | inr e ↦ rw e (log_rounds-IsChanging p rest)
      ]

  -- Whatever the thread of a service module reads in the log of the system, each text that it sends
  -- differs from the one that it sent before, and the first one from the latest output of the module.
  pub watch_service-IsChanging :
      (l : List LogRound) → IsChanging m.base.latest_output (sent (watch_service m l))
  unfolding watch_service
  watch_service-IsChanging l = log_rounds-IsChanging m.base.latest_output l
