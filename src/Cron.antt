-- ===== src/Cron.antt =====
-- The cron of a module (pandora_module.cc, `checkCron`, `setCron`, `setCronInterval`).
pub mod Due
pub mod Parse
use pandora_agent_win.Base.Int.{ℤ, pos, negsuc, ◌+ℤ◌, ltb_ℤ, leb_ℤ}
use pandora_agent_win.Base.{
  ℕ, zero, suc, ◌+◌, List, [], ◌∷◌, ◌==◌, Bool, true, false, ◌&&◌, ◌||◌, Option, none, some,
  if◌then◌else◌,
}
use pandora_agent_win.Strutils.{is_space, skip_space, atoi}
use pandora_agent_win.Text.{Str, is_empty, char_at}

-- One row of `params`: its bottom and its top.
pub record Range : Type 0 where
  pub bottom : ℤ
  pub top : ℤ

-- `params[5][2]`: minute, hour, day of the month, month and day of the week.
pub record Cron : Type 0 where
  pub utimestamp : ℤ
  pub interval : ℤ
  pub minute : Range
  pub hour : Range
  pub mday : Range
  pub month : Range
  pub wday : Range

-- `struct tm`, as `localtime` fills it: `tm_mon` counts from 0.
pub record Tm : Type 0 where
  pub tm_min : ℤ
  pub tm_hour : ℤ
  pub tm_mday : ℤ
  pub tm_mon : ℤ
  pub tm_wday : ℤ

-- The test of one field: `true` if the loop goes on to the next one.
unfoldable pub check_field : Range → ℤ → Bool
check_field r t =
    if ltb_ℤ r.bottom (pos 0)
    then true
    else if leb_ℤ r.bottom r.top
    then (if ltb_ℤ t r.bottom || ltb_ℤ r.top t then false else true)
    else if ltb_ℤ t r.bottom && ltb_ℤ r.top t
    then false
    else true

-- The loop over the five fields.
unfoldable pub check_fields : Cron → Tm → Bool
check_fields cron tm =
    if check_field cron.minute tm.tm_min
    then if check_field cron.hour tm.tm_hour
      then if check_field cron.mday tm.tm_mday
        then if check_field cron.month (tm.tm_mon +ℤ pos 1)
          then check_field cron.wday tm.tm_wday
          else false
        else false
      else false
    else false

-- How long the module is not checked again.
unfoldable pub cron_offset : Cron → ℤ
cron_offset cron =
    if leb_ℤ (pos 0) cron.interval
    then cron.interval
    else if leb_ℤ (pos 0) cron.minute.bottom
    then pos 60
    else if leb_ℤ (pos 0) cron.hour.bottom
    then pos 3600
    else if leb_ℤ (pos 0) cron.mday.bottom || leb_ℤ (pos 0) cron.wday.bottom
    then pos 86400
    else if leb_ℤ (pos 0) cron.month.bottom
    then pos 2678400
    else pos 0

-- The check once `localtime` has answered.
check_time : Cron → ℤ → Option Tm → Bool × Cron
check_time cron current_time none = (true, cron)
check_time cron current_time (some tm) =
    if check_fields cron tm
    then (true, record cron { utimestamp = current_time +ℤ cron_offset cron })
    else (false, cron)

-- `checkCron` of a module that has a cron, at the time `current_time`.
unfoldable pub check_some : (ℤ → Option Tm) → Cron → ℤ → Bool × Cron
unfolding check_time
check_some localtime cron current_time =
    if leb_ℤ current_time cron.utimestamp
    then (false, cron)
    else check_time cron current_time (localtime current_time)

-- `checkCron`.
unfoldable pub check_cron : (ℤ → Option Tm) → Option Cron → ℤ → Bool × Option Cron
unfolding check_some
check_cron localtime none current_time = (true, none)
check_cron localtime (some cron) current_time =
    let (run, cron') = check_some localtime cron current_time in (run, some cron')

-- `new Cron ()`: every member is zero.
abbrev pub zero_range : Range
zero_range = record { bottom = pos 0; top = pos 0 }

abbrev pub new_cron : Cron
new_cron = record {
  utimestamp = pos 0;
  interval = pos 0;
  minute = zero_range;
  hour = zero_range;
  mday = zero_range;
  month = zero_range;
  wday = zero_range;
}

abbrev pub or_new : Option Cron → Cron
or_new none = new_cron
or_new (some cron) = cron

unfoldable pub set_cron_interval : Option Cron → ℤ → Cron
set_cron_interval cron interval = record (or_new cron) { interval = interval }

-- The conversion `%<width>s`: the word, and what follows it.
word_of : ℕ → Str → Str
word_of zero s = []
word_of (suc n) [] = []
word_of (suc n) (c ∷ s) = if is_space c then [] else c ∷ word_of n s

after_word : ℕ → Str → Str
after_word zero s = s
after_word (suc n) [] = []
after_word (suc n) (c ∷ s) = if is_space c then c ∷ s else after_word n s

scan_word_at : ℕ → Str → Option (Str × Str)
scan_word_at width [] = none
scan_word_at width (c ∷ s) = some (word_of width (c ∷ s), after_word width (c ∷ s))

unfoldable pub scan_word : ℕ → Str → Option (Str × Str)
unfolding word_of after_word scan_word_at
scan_word width s = scan_word_at width (skip_space s)

-- `sscanf` with `count` times `%255s`: the words, if there are so many.
unfoldable pub scan_words : ℕ → Str → Option (List Str)
unfolding scan_word
scan_words zero s = some []
scan_words (suc count) s = elim (scan_word 255 s) [
  | none ↦ none
  | some (word, rest) ↦ elim (scan_words count rest) [
    | none ↦ none
    | some words ↦ some (word ∷ words)
  ]
]

-- The conversion `%255[^-]`, and what follows it.
before_dash : ℕ → Str → Str
before_dash zero s = []
before_dash (suc n) [] = []
before_dash (suc n) (c ∷ s) = if c == b'-' then [] else c ∷ before_dash n s

after_dash : ℕ → Str → Str
after_dash zero s = s
after_dash (suc n) [] = []
after_dash (suc n) (c ∷ s) = if c == b'-' then c ∷ s else after_dash n s

-- The literal `-` and the conversion `%255s` behind it.
scan_top : Str → Option Str
scan_top [] = none
scan_top (c ∷ s) =
    if c == b'-' then elim (scan_word 255 s) [ none ↦ none | some (top, rest) ↦ some top ] else none

-- `sscanf (param, "%255[^-]-%255s", bottom, top) == 2`; the first conversion wants a byte.
unfoldable pub scan_range : Str → Option (Str × Str)
unfolding before_dash after_dash scan_top
scan_range param =
    if is_empty (before_dash 255 param) then none else elim (scan_top (after_dash 255 param)) [
      | none ↦ none
      | some top ↦ some (before_dash 255 param, top)
    ]

-- What one parameter makes of its row of `params`. A wildcard leaves the top as it was.
unfoldable pub set_param : Range → Str → Range
unfolding scan_range
set_param r param =
    if char_at param 0 == b'*' then record r { bottom = negsuc 0 } else elim (scan_range param) [
      | some (bottom, top) ↦ record { bottom = atoi bottom; top = atoi top }
      | none ↦ record { bottom = atoi param; top = atoi param }
    ]

-- The loop over the five parameters.
set_params : Cron → List Str → Cron
unfolding set_param
set_params cron (a ∷ b ∷ c ∷ d ∷ e ∷ rest) = record {
  utimestamp = pos 0;
  interval = negsuc 0;
  minute = set_param cron.minute a;
  hour = set_param cron.hour b;
  mday = set_param cron.mday c;
  month = set_param cron.month d;
  wday = set_param cron.wday e;
}
set_params cron _ = cron

set_scanned : Cron → Option (List Str) → Cron
set_scanned cron none = cron
set_scanned cron (some cron_params) = set_params cron cron_params

-- `setCron`: the cron that the module has afterwards. Where the string has no five words the cron
-- stays as it was, and a module without one gets a new one all the same.
unfoldable pub set_cron : Option Cron → Str → Cron
unfolding set_scanned set_params
set_cron cron cron_string = set_scanned (or_new cron) (scan_words 5 cron_string)
