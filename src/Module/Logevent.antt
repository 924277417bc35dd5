-- ===== src/Module/Logevent.antt =====
-- The module that reports the events of a log of Windows, `Pandora_Module_Logevent`
-- (modules/pandora_module_logevent.cc). What Windows answers when the log is opened and read, and the
-- descriptions that it finds for an event, are given.
pub mod Stamp
pub mod Stored
use pandora_agent_win.Base.Int.{ℤ, pos, negsuc, eqb_ℤ}
use pandora_agent_win.Base.Result.{Result, ok, err, undefined_behaviour}
use pandora_agent_win.Base.{
  ℕ, ◌-◌, ◌^◌, ◌%◌, Bool, true, false, not, ◌&&◌, ◌||◌, List, [], ◌∷◌, ◌++◌, Option, none, some,
  ◌==◌, leb, ltb, length, take, drop, if◌then◌else◌,
}
use pandora_agent_win.Data.{SystemTime}
use pandora_agent_win.KeyValue.{upper}
use pandora_agent_win.Module.Defs.{Module}
use pandora_agent_win.Module.Kinds.{ModuleType, log}
use pandora_agent_win.Module.Logevent.Stamp.{strftime, timestamp_to_systemtime}
use pandora_agent_win.Module.Output.{
  RunOutcome, fulfilled, interval_not_fulfilled, division_by_zero, run, set_output_at,
}
use pandora_agent_win.Module.Setters.{set_kind}
use pandora_agent_win.Platform.{Platform}
use pandora_agent_win.Strutils.{print_ℕ}
use pandora_agent_win.Text.{Str, bytes, eq_str, is_empty}

-- The members of the class of its own. `log_event` tells whether the log is open.
pub record LogeventModule (P : Platform) : Type 0 where
  pub base : Module P
  pub id : ℕ
  pub type : ℤ
  pub source : Str
  pub application : Str
  pub pattern : Str
  pub regexp : P.Regex
  pub first_run : Bool
  pub log_event : Bool

-- What is used of an `EVENTLOGRECORD`, the local time of its `TimeGenerated`, the name of its user, and
-- the description of `getEventDescriptionXPATH` and the two of `getEventDescription`.
pub record EventRecord : Type 0 where
  pub event_id : ℕ
  pub event_type : ℕ
  pub source_name : Str
  pub computer_name : Str
  pub user_name : Option Str
  pub time : SystemTime
  pub by_xpath : Str
  pub by_resource : Str
  pub by_library : Str

-- An answer of `ReadEventLog`: events, too small a buffer, with the answer of `realloc` for a larger
-- one, a log that is corrupt or was cleared, another error, or nothing more.
pub data LogRead : Type 0 where
  events : List EventRecord → LogRead
  insufficient_buffer : (grown : Bool) → LogRead
  corrupt_or_changed failed no_more : LogRead

pub data LogEnd : Type 0 where
  at_end with_error closed : LogEnd

-- The type filter of the constructor, `EVENTLOG_ERROR_TYPE` and the others, -1 for none.
unfoldable pub type_filter : Str → ℤ
type_filter type =
    let t = upper type in
    if eq_str t (bytes "ERROR")
    then pos 1
    else if eq_str t (bytes "WARNING")
    then pos 2
    else if eq_str t (bytes "INFORMATION")
    then pos 4
    else if eq_str t (bytes "AUDIT SUCCESS")
    then pos 8
    else if eq_str t (bytes "AUDIT FAILURE")
    then pos 16
    else negsuc 0

abbrev pub first_text : Str → Str → Str
first_text a b = if is_empty a then b else a

unfoldable pub description_of : EventRecord → Str
description_of r =
    first_text r.by_xpath (first_text r.by_resource (first_text r.by_library (bytes "N/A")))

abbrev or_not_available : Option Str → Str
or_not_available none = bytes "N/A"
or_not_available (some name) = name

-- What a log module tells of an event, the timestamp again in front.
unfoldable pub log_details : EventRecord → Str
log_details r =
    bytes "[Timestamp: "
    ++ (strftime r.time
        ++ (bytes "][ID: "
            ++ (print_ℕ (r.event_id % 2 ^ 30)
                ++ (bytes "] [Source: "
                    ++ (r.source_name
                        ++ (bytes "] [Computer: "
                            ++ (r.computer_name
                                ++ (bytes "] [User: "
                                    ++ (or_not_available r.user_name ++ bytes "]")))))))))

abbrev is_log : ModuleType → Bool
is_log log = true
is_log _ = false

-- The text of an event after its timestamp, and all of it.
unfoldable pub event_body : ModuleType → EventRecord → Str
event_body t r = (if is_log t then log_details r else []) ++ (bytes " " ++ description_of r)

abbrev pub event_text : ModuleType → EventRecord → Str
event_text t r = strftime r.time ++ event_body t r

abbrev compiled {ℓ} : {R : Type ℓ} → R → Option R → R
compiled unset none = unset
compiled unset (some r) = r

abbrev in_front : List Str → Option (List Str × LogEnd) → Option (List Str × LogEnd)
in_front texts none = none
in_front texts (some (rest, end)) = some (texts ++ rest, end)

module _ {P : Platform} where
  -- The constructor, with the value of `strtoul (id)`. `unset` is the `regexp` that is not set.
  unfoldable pub new_logevent :
      (unset : P.Regex)
      → Module P
      → (source type : Str) (id : ℕ) (pattern application : Str) → LogeventModule P
  new_logevent unset named source type id pattern application = record {
    base = set_kind named (bytes "module_logevent");
    id = id;
    type = type_filter type;
    source = source;
    application = application;
    pattern = pattern;
    regexp = if is_empty pattern then unset else compiled unset (P.regcomp pattern);
    first_run = true;
    log_event = false;
  }

  -- `filterEvent`: true where it returns 0.
  unfoldable pub filter_event : LogeventModule P → EventRecord → (description : Str) → Bool
  filter_event m r description =
      if ltb 0 m.id && not (m.id == r.event_id % 2 ^ 16)
      then false
      else if not (eqb_ℤ m.type (negsuc 0)) && not (eqb_ℤ m.type (pos r.event_type))
      then false
      else if not (is_empty m.application) && not (eq_str m.application r.source_name)
      then false
      else is_empty m.pattern || P.regexec m.regexp description

  -- The events that were read, as texts.
  unfoldable pub process_events : LogeventModule P → List EventRecord → List Str
  process_events m [] = []
  process_events m (r ∷ rs) =
      let rest = process_events m rs in
      if filter_event m r (description_of r) then event_text m.base.module_type r ∷ rest else rest

  -- The loop of `getLogEvents`. `none`: Windows has not given its last answer.
  unfoldable pub read_loop :
      LogeventModule P → (discard : Bool) → List LogRead → Option (List Str × LogEnd)
  read_loop m discard [] = none
  read_loop m discard (events rs ∷ reads) =
      in_front (if discard then [] else process_events m rs) (read_loop m discard reads)
  read_loop m discard (insufficient_buffer grown ∷ reads) =
      let rest = read_loop m discard reads in if grown then rest else some ([], with_error)
  read_loop m discard (corrupt_or_changed ∷ reads) = some ([], closed)
  read_loop m discard (failed ∷ reads) = some ([], with_error)
  read_loop m discard (no_more ∷ reads) = some ([], at_end)

  abbrev pub closed_if : LogEnd → LogeventModule P → LogeventModule P
  closed_if closed m = record m { log_event = false }
  closed_if _ m = m

  abbrev left_by :
      LogeventModule P → Option (List Str × LogEnd) → Option (List Str × LogeventModule P)
  left_by m none = none
  left_by m (some (texts, end)) = some (texts, closed_if end m)

  -- `getLogEvents`, with the answer of `malloc`.
  unfoldable pub get_log_events :
      (allocated discard : Bool)
      → List LogRead
      → LogeventModule P
      → Option (List Str × LogeventModule P)
  get_log_events allocated discard reads m =
      let read = left_by m (read_loop m discard reads) in
      if m.log_event && allocated then read else some ([], m)

  abbrev without_texts : Option (List Str × LogeventModule P) → Option (LogeventModule P)
  without_texts none = none
  without_texts (some (texts, m)) = some m

  -- `openLogEvent`, with the answer of `OpenEventLog`; the first time the events are discarded.
  unfoldable pub open_log_event :
      (opened debug allocated : Bool) → List LogRead → LogeventModule P → Option (LogeventModule P)
  open_log_event opened debug allocated reads m =
      if m.log_event
      then some m
      else if not opened
      then some m
      else if m.first_run
      then (let m' : LogeventModule P = record m { log_event = true; first_run = false } in
          if debug then some m' else without_texts (get_log_events allocated true reads m'))
      else some (record m { log_event = true })

  -- The loop over the texts.
  unfoldable pub store_events : List Str → Module P → Module P
  store_events [] m = m
  store_events (event ∷ rest) m =
      if ltb (length event) 19
      then store_events rest m
      else store_events rest
          (set_output_at m (drop 19 event) (timestamp_to_systemtime (take 19 event)))

  abbrev stored : Option (List Str × LogeventModule P) → Option (LogeventModule P)
  stored none = none
  stored (some (texts, m)) = some (record m { base = store_events texts m.base })

  abbrev pub read_and_store :
      (allocated : Bool) → List LogRead → Option (LogeventModule P) → Option (LogeventModule P)
  read_and_store allocated reads none = none
  read_and_store allocated reads (some m) = stored (get_log_events allocated false reads m)

  abbrev in_turn :
      (opened debug allocated : Bool) (old new : List LogRead)
      → LogeventModule P
      → RunOutcome × Module P
      → Result (Option (LogeventModule P))
  in_turn opened debug allocated old new m (fulfilled, base) = ok (
      read_and_store allocated new
        (open_log_event opened debug allocated old (record m { base = base })))
  in_turn opened debug allocated old new m (interval_not_fulfilled, base) =
      ok (some (record m { base = base }))
  in_turn opened debug allocated old new m (division_by_zero, base) = err undefined_behaviour

  -- `run`, with the answers to the reading that discards and to the other.
  unfoldable pub run_logevent :
      (opened debug allocated : Bool) (old new : List LogRead)
      → LogeventModule P
      → Result (Option (LogeventModule P))
  run_logevent opened debug allocated old new m =
      in_turn opened debug allocated old new m (run m.base)

  -- `closeLogEvent`.
  abbrev pub close_log_event : LogeventModule P → LogeventModule P
  close_log_event m = record m { log_event = false }
