-- ===== src/Cron/Due.antt =====
-- When a module with a cron runs, and how long it then stays quiet.
use mathlib.Core.Path.{subst}
use pandora_agent_win.Base.Int.{ℤ, pos, ◌+ℤ◌, ◌≤ℤ◌, ◌<ℤ◌, leb_ℤ}
use pandora_agent_win.Base.{
  ◌≡◌, ◌≢◌, ◌↔◌, refl, sym, Bool, true, false, List, [], ◌∷◌, Option, none, some, ◌⊎◌, inl, inr,
  arith, Bool-cases, Option-cases, if◌then◌else◌,
}
use pandora_agent_win.Cron.{
  Range, Cron, Tm, check_field, check_fields, check_time, cron_offset, check_some,
}

-- A value fits a range: the range is a wildcard, or it holds the value, the end of a range that
-- ends before it begins being the next time round.
abbrev pub Fits : Range → ℤ → Type 0
Fits r t =
    (r.bottom <ℤ pos 0)
    ⊎ ((r.bottom ≤ℤ r.top) × (r.bottom ≤ℤ t) × (t ≤ℤ r.top)
        ⊎ (r.top <ℤ r.bottom) × ((r.bottom ≤ℤ t) ⊎ (t ≤ℤ r.top)))

check_field-Fits : (r : Range) (t : ℤ) → check_field r t ≡ true → Fits r t
unfolding check_field
check_field-Fits r t h = ground arith

Fits-check_field : (r : Range) (t : ℤ) → Fits r t → check_field r t ≡ true
unfolding check_field
Fits-check_field r t h = ground arith

pub record FitsAll (cron : Cron) (tm : Tm) : Type 0 where
  pub minute : Fits cron.minute tm.tm_min
  pub hour : Fits cron.hour tm.tm_hour
  pub mday : Fits cron.mday tm.tm_mday
  pub month : Fits cron.month (tm.tm_mon +ℤ pos 1)
  pub wday : Fits cron.wday tm.tm_wday

check_fields-FitsAll : (cron : Cron) (tm : Tm) → check_fields cron tm ≡ true → FitsAll cron tm
unfolding check_fields
check_fields-FitsAll cron tm h = record {
  minute = check_field-Fits cron.minute tm.tm_min (ground arith);
  hour = check_field-Fits cron.hour tm.tm_hour (ground arith);
  mday = check_field-Fits cron.mday tm.tm_mday (ground arith);
  month = check_field-Fits cron.month (tm.tm_mon +ℤ pos 1) (ground arith);
  wday = check_field-Fits cron.wday tm.tm_wday (ground arith);
}

FitsAll-check_fields : (cron : Cron) (tm : Tm) → FitsAll cron tm → check_fields cron tm ≡ true
unfolding check_fields
FitsAll-check_fields cron tm f = rw (
  Fits-check_field cron.minute tm.tm_min f.minute,
  Fits-check_field cron.hour tm.tm_hour f.hour,
  Fits-check_field cron.mday tm.tm_mday f.mday,
  Fits-check_field cron.month (tm.tm_mon +ℤ pos 1) f.month,
  Fits-check_field cron.wday tm.tm_wday f.wday,
)

-- The module was not run for this time yet, and the time fits every field of the cron.
pub record IsDue (cron : Cron) (now : ℤ) (tm : Tm) : Type 0 where
  pub later : cron.utimestamp <ℤ now
  pub fits : FitsAll cron tm

abbrev moved : Cron → ℤ → Cron
moved cron now = record cron { utimestamp = now +ℤ cron_offset cron }

-- What a check answers, as it is stated of every check.
abbrev pub Answers : Cron → ℤ → Tm → Bool × Cron → Type 0
Answers cron now tm (run, cron') =
    ((run ≡ true) ↔ IsDue cron now tm)
    × (cron' ≡ (if run then record cron { utimestamp = now +ℤ cron_offset cron } else cron))

lt_of_leb : (a b : ℤ) → leb_ℤ a b ≡ false → b <ℤ a
lt_of_leb a b h = ground arith

not_lt_of_leb : (a b : ℤ) → leb_ℤ a b ≡ true → ¬ (b <ℤ a)
not_lt_of_leb a b h l = ground arith

module _ (localtime : ℤ → Option Tm) (cron : Cron) (now : ℤ) where
  check_some_early :
      leb_ℤ now cron.utimestamp ≡ true → check_some localtime cron now ≡ (false, cron)
  unfolding check_some
  check_some_early h = rw h

  check_some_misfit :
      (tm : Tm)
      → localtime now ≡ some tm
      → leb_ℤ now cron.utimestamp ≡ false
      → check_fields cron tm ≡ false
      → check_some localtime cron now ≡ (false, cron)
  unfolding check_some
  check_some_misfit tm e h c = rw (h, e, check_time, c)

  check_some_due :
      (tm : Tm)
      → localtime now ≡ some tm
      → leb_ℤ now cron.utimestamp ≡ false
      → check_fields cron tm ≡ true
      → check_some localtime cron now ≡ (true, record cron { utimestamp = now +ℤ cron_offset cron })
  unfolding check_some
  check_some_due tm e h c = rw (h, e, check_time, c)

  -- At a time for which `localtime` answers, a module with a cron runs exactly when the time is later
  -- than its timestamp and fits every field. Where it runs, the timestamp becomes the time plus the
  -- offset; where not, nothing changes.
  pub check_some-Answers :
      (tm : Tm) → localtime now ≡ some tm → Answers cron now tm (check_some localtime cron now)
  check_some-Answers tm e = elim (Bool-cases (leb_ℤ now cron.utimestamp)) [
    | inl early ↦
        subst (Answers cron now tm) (sym (check_some_early early))
          ((λ h. cc h, λ d. absurd (not_lt_of_leb now cron.utimestamp early d.later)), refl)
    | inr late ↦ elim (Bool-cases (check_fields cron tm)) [
      | inr c ↦
          subst (Answers cron now tm) (sym (check_some_misfit tm e late c))
            ((λ h. cc h, λ d. cc (FitsAll-check_fields cron tm d.fits, c)), refl)
      | inl c ↦ subst (Answers cron now tm) (sym (check_some_due tm e late c)) (
        (
          λ h. record {
            later = lt_of_leb now cron.utimestamp late;
            fits = check_fields-FitsAll cron tm c;
          },
          λ d. refl,
        ),
        refl,
      )
    ]
  ]

  check_some_cases :
      (tm : Tm)
      → localtime now ≡ some tm
      → (check_some localtime cron now ≡ (false, cron))
        ⊎ ((cron.utimestamp <ℤ now) × (check_some localtime cron now ≡ (true, moved cron now)))
  check_some_cases tm e = elim (Bool-cases (leb_ℤ now cron.utimestamp)) [
    | inl early ↦ inl (check_some_early early)
    | inr late ↦ elim (Bool-cases (check_fields cron tm)) [
      | inr c ↦ inl (check_some_misfit tm e late c)
      | inl c ↦ inr (lt_of_leb now cron.utimestamp late, check_some_due tm e late c)
    ]
  ]

cron_offset-moved : (cron : Cron) (now : ℤ) → cron_offset (moved cron now) ≡ cron_offset cron
unfolding cron_offset
cron_offset-moved cron now = refl

-- The times of a list of checks at which the module runs.
pub run_times : (ℤ → Option Tm) → Cron → List ℤ → List ℤ
run_times localtime cron [] = []
run_times localtime cron (now ∷ nows) =
    let (run, cron') = check_some localtime cron now in
    let rest = run_times localtime cron' nows in if run then now ∷ rest else rest

-- Each time is more than `offset` behind the one before it, the first behind `last`.
abbrev pub Spaced : ℤ → ℤ → List ℤ → Type 0
Spaced offset last [] = Unit
Spaced offset last (t ∷ ts) = (last <ℤ t) × Spaced offset (t +ℤ offset) ts

module _ (localtime : ℤ → Option Tm) where
  run_times_still :
      (cron : Cron) (now : ℤ) (nows : List ℤ)
      → check_some localtime cron now ≡ (false, cron)
      → run_times localtime cron (now ∷ nows) ≡ run_times localtime cron nows
  unfolding run_times
  run_times_still cron now nows e = rw e

  run_times_run :
      (cron : Cron) (now : ℤ) (nows : List ℤ)
      → check_some localtime cron now ≡ (true, moved cron now)
      → run_times localtime cron (now ∷ nows) ≡ now ∷ run_times localtime (moved cron now) nows
  unfolding run_times
  run_times_run cron now nows e = rw e

  -- If `localtime` answers for every time: whatever the times at which a module with a cron is checked,
  -- it runs only later than its timestamp, and between two runs passes more than the offset of the cron.
  pub run_times-Spaced :
      ((t : ℤ) → localtime t ≢ none)
      → (nows : List ℤ) (cron : Cron)
      → Spaced (cron_offset cron) cron.utimestamp (run_times localtime cron nows)
  run_times-Spaced total [] cron = unfold run_times in tt
  run_times-Spaced total (now ∷ nows) cron = elim (Option-cases (localtime now)) [
    | inl n ↦ absurd (total now n)
    | inr (tm, e) ↦ elim (check_some_cases localtime cron now tm e) [
      | inl still ↦
          subst (Spaced (cron_offset cron) cron.utimestamp)
            (sym (run_times_still cron now nows still)) (run_times-Spaced total nows cron)
      | inr (later, run) ↦
          subst (Spaced (cron_offset cron) cron.utimestamp) (sym (run_times_run cron now nows run))
            (
              later,
              subst
                  (λ o.
                    Spaced o (now +ℤ cron_offset cron) (run_times localtime (moved cron now) nows))
                  (cron_offset-moved cron now) (run_times-Spaced total nows (moved cron now)),
            )
    ]
  ]
