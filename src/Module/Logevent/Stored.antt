-- ===== src/Module/Logevent/Stored.antt =====
-- What a run of the module stores of the events that Windows gives it.
use pandora_agent_win.Base.Result.{ok}
use pandora_agent_win.Base.{
  ◌≡◌, refl, ap, ◌∙◌, arith, Bool, true, false, Bool-cases, inl, inr, List, [], ◌∷◌, ◌++◌, some,
  All, ltb, length, take, drop, if◌then◌else◌,
}
use pandora_agent_win.Data.{SystemTime}
use pandora_agent_win.Module.Defs.{Module}
use pandora_agent_win.Module.Logevent.Stamp.{
  strftime, IsPrintable, timestamp_to_systemtime-strftime,
}
use pandora_agent_win.Module.Logevent.{
  LogeventModule, EventRecord, LogRead, events, insufficient_buffer, corrupt_or_changed, failed,
  no_more, LogEnd, at_end, with_error, closed, description_of, event_body, event_text, filter_event,
  process_events, read_loop, get_log_events, open_log_event, store_events, closed_if,
  read_and_store, run_logevent,
}
use pandora_agent_win.Module.Output.{fulfilled, run, set_output_at}
use pandora_agent_win.Text.{Str}
use pandora_agent_win.Platform.{Platform}

-- The last answer of Windows, for each end of the loop.
abbrev pub answer : LogEnd → LogRead
answer at_end = no_more
answer with_error = failed
answer closed = corrupt_or_changed

-- What Windows gives before its last answer: as many events as the buffer holds, or none, where the
-- next event is larger than the buffer, for which the module then gets the memory.
pub data Batch : Type 0 where
  some_events : List EventRecord → Batch
  grown : Batch

-- The batches, then the last answer.
abbrev pub batches : List Batch → LogEnd → List LogRead
batches [] end = answer end ∷ []
batches (some_events rs ∷ bs) end = events rs ∷ batches bs end
batches (grown ∷ bs) end = insufficient_buffer true ∷ batches bs end

abbrev pub all_of : List Batch → List EventRecord
all_of [] = []
all_of (some_events rs ∷ bs) = rs ++ all_of bs
all_of (grown ∷ bs) = all_of bs

abbrev pub still_open : LogEnd → Bool
still_open closed = false
still_open _ = true

take-strftime : (t : SystemTime) (body : Str) → take 19 (strftime t ++ body) ≡ strftime t
unfolding strftime
take-strftime t body = refl

drop-strftime : (t : SystemTime) (body : Str) → drop 19 (strftime t ++ body) ≡ body
unfolding strftime
drop-strftime t body = refl

strftime_long : (t : SystemTime) (body : Str) → ltb (length (strftime t ++ body)) 19 ≡ false
unfolding strftime
strftime_long t body = ground arith

module _ {P : Platform} where
  -- The values of the events that pass the filters, each with its time.
  abbrev pub with_records : LogeventModule P → List EventRecord → Module P → Module P
  with_records m [] base = base
  with_records m (r ∷ rs) base =
      if filter_event m r (description_of r)
      then with_records m rs (set_output_at base (event_body m.base.module_type r) r.time)
      else with_records m rs base

  process_events-append :
      (m : LogeventModule P) (rs ss : List EventRecord)
      → process_events m (rs ++ ss) ≡ process_events m rs ++ process_events m ss
  unfolding process_events
  process_events-append m [] ss = refl
  process_events-append m (r ∷ rs) ss = elim (Bool-cases (filter_event m r (description_of r))) [
    | inl e ↦ rw (e, process_events-append m rs ss)
    | inr e ↦ rw (e, process_events-append m rs ss)
  ]

  read_loop-batches :
      (m : LogeventModule P) (rss : List Batch) (end : LogEnd)
      → read_loop m false (batches rss end) ≡ some (process_events m (all_of rss), end)
  unfolding read_loop process_events
  read_loop-batches m [] at_end = refl
  read_loop-batches m [] with_error = refl
  read_loop-batches m [] closed = refl
  read_loop-batches m (some_events rs ∷ rss) end =
      rw (read_loop-batches m rss end, process_events-append m rs (all_of rss))
  read_loop-batches m (grown ∷ rss) end = read_loop-batches m rss end

  read_loop_discard :
      (m : LogeventModule P) (rss : List Batch) (end : LogEnd)
      → read_loop m true (batches rss end) ≡ some ([], end)
  unfolding read_loop
  read_loop_discard m [] at_end = refl
  read_loop_discard m [] with_error = refl
  read_loop_discard m [] closed = refl
  read_loop_discard m (some_events rs ∷ rss) end = rw (read_loop_discard m rss end)
  read_loop_discard m (grown ∷ rss) end = read_loop_discard m rss end

  store_one :
      (m : LogeventModule P) (r : EventRecord) (texts : List Str) (base : Module P)
      → IsPrintable r.time
      → store_events (event_text m.base.module_type r ∷ texts) base
        ≡ store_events texts (set_output_at base (event_body m.base.module_type r) r.time)
  unfolding store_events
  store_one m r texts base h =
      let body = event_body m.base.module_type r in
      rw (
        strftime_long r.time body,
        take-strftime r.time body,
        drop-strftime r.time body,
        timestamp_to_systemtime-strftime r.time h,
      )

  store_events-process_events :
      (m : LogeventModule P) (rs : List EventRecord) (base : Module P)
      → All (λ r. IsPrintable r.time) rs
      → store_events (process_events m rs) base ≡ with_records m rs base
  unfolding process_events store_events
  store_events-process_events m [] base all = refl
  store_events-process_events m (r ∷ rs) base (h, all) =
      elim (Bool-cases (filter_event m r (description_of r))) [
        | inl e ↦
            rw e
              (store_one m r (process_events m rs) base h ∙ store_events-process_events m rs _ all)
        | inr e ↦ rw e (store_events-process_events m rs base all)
      ]

  -- What `getLogEvents` and the loop after it make of an open log.
  stored_by :
      (m : LogeventModule P) (new : List Batch) (end : LogEnd)
      → m.log_event ≡ true
      → All (λ r. IsPrintable r.time) (all_of new)
      → read_and_store true (batches new end) (some m)
        ≡ some (closed_if end (record m { base = with_records m (all_of new) m.base }))
  unfolding get_log_events
  stored_by m new at_end o h =
      simp (o, read_loop-batches m new at_end, store_events-process_events m (all_of new) m.base h)
  stored_by m new with_error o h =
      simp
        (o, read_loop-batches m new with_error, store_events-process_events m (all_of new) m.base h)
  stored_by m new closed o h =
      simp (o, read_loop-batches m new closed, store_events-process_events m (all_of new) m.base h)

  open_already :
      (opened debug : Bool) (old : List LogRead) (m : LogeventModule P)
      → m.log_event ≡ true
      → open_log_event opened debug true old m ≡ some m
  unfolding open_log_event
  open_already opened debug old m o = simp o

  -- Once the log is open, a module in its turn that has memory for its buffer, also where that grows for
  -- a large event, stores each event that Windows gives before its last answer and that passes the
  -- filters, in their order, with the time at which it was generated, and nothing else, if each time has
  -- a year of at most four digits and other numbers of at most two. Where the reading ends with an error
  -- this holds for what came before it. The log is closed if it turns out to be corrupt or cleared.
  pub run_logevent-open :
      (m : LogeventModule P) (base : Module P) (opened debug : Bool) (old : List LogRead)
      (new : List Batch) (end : LogEnd)
      → run m.base ≡ (fulfilled, base)
      → m.log_event ≡ true
      → All (λ r. IsPrintable r.time) (all_of new)
      → run_logevent opened debug true old (batches new end) m ≡ (
          let m' = record m { base = base } in
          ok (some (closed_if end (record m' { base = with_records m' (all_of new) base }))))
  unfolding run_logevent
  run_logevent-open m base opened debug old new end r o h =
      let m' : LogeventModule P = record m { base = base } in
      rw (r, open_already opened debug old m' o) (ap ok (stored_by m' new end o h))

  discarded :
      (m : LogeventModule P) (old : List Batch) (before : LogEnd)
      → m.log_event ≡ true
      → still_open before ≡ true
      → get_log_events true true (batches old before) m ≡ some ([], m)
  unfolding get_log_events
  discarded m old at_end o e = simp (o, read_loop_discard m old at_end)
  discarded m old with_error o e = simp (o, read_loop_discard m old with_error)
  discarded m old closed o e = cc

  -- The first turn of the module, in which the log opens, reads it twice. Without the debug mode it
  -- stores, of what Windows gives to the first reading, nothing, and of what it gives to the second, each
  -- event that passes the filters, in their order and with its time. The conditions are that the first
  -- reading does not find the log corrupt or cleared, that there is memory for the buffer, also where it
  -- grows for a large event, and that each time has a year of at most four digits and other numbers of at
  -- most two.
  pub run_logevent-first :
      (m : LogeventModule P) (base : Module P) (old new : List Batch) (before end : LogEnd)
      → run m.base ≡ (fulfilled, base)
      → m.log_event ≡ false
      → m.first_run ≡ true
      → still_open before ≡ true
      → All (λ r. IsPrintable r.time) (all_of new)
      → run_logevent true false true (batches old before) (batches new end) m ≡ (
          let m' = record m { base = base; log_event = true; first_run = false } in
          ok (some (closed_if end (record m' { base = with_records m' (all_of new) base }))))
  unfolding run_logevent open_log_event
  run_logevent-first m base old new before end r shut first going h =
      let m' : LogeventModule P = record m { base = base; log_event = true; first_run = false } in
      simp (r, shut, first, discarded m' old before refl going, stored_by m' new end refl h)
