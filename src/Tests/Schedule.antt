-- ===== src/Tests/Schedule.antt =====
-- The cron of a module (modules/pandora_module.cc) at concrete inputs.
use pandora_agent_win.Base.Int.{ℤ, pos, negsuc, ◌+ℤ◌}
use pandora_agent_win.Base.{◌≡◌, refl, true, false, [], ◌∷◌, Option, none, some, arith}
use pandora_agent_win.Cron.Due.{Answers, Spaced, check_some-Answers, run_times, run_times-Spaced}
use pandora_agent_win.Cron.Parse.{
  any, single, between, row_of, text_of, line_of, set_cron_lem, set_cron_invalid,
}
use pandora_agent_win.Cron.{
  Cron, Tm, check_field, check_fields, scan_word, set_param, check_some, cron_offset, or_new,
  scan_words, set_cron,
}
use pandora_agent_win.Strutils.{skip_space, atoi}
use pandora_agent_win.Text.{bytes}

-- At ten past three on Monday, 5 January.
abbrev monday : Tm
monday = record {
  tm_min = pos 10;
  tm_hour = pos 3;
  tm_mday = pos 5;
  tm_mon = pos 0;
  tm_wday = pos 1;
}

abbrev always_monday : ℤ → Option Tm
always_monday t = some monday

-- `* 2-4 * * 1`, as it is read.
abbrev morning : Cron
morning = record {
  utimestamp = pos 0;
  interval = negsuc 0;
  minute = record { bottom = negsuc 0; top = pos 0 };
  hour = record { bottom = pos 2; top = pos 4 };
  mday = record { bottom = negsuc 0; top = pos 0 };
  month = record { bottom = negsuc 0; top = pos 0 };
  wday = record { bottom = pos 1; top = pos 1 };
}

morning_text : set_cron none (bytes "* 2-4 * * 1") ≡ morning
unfolding set_cron scan_words scan_word skip_space set_param atoi
morning_text = refl

morning_runs :
    check_some always_monday morning (pos 900) ≡ (true, record morning { utimestamp = pos 4500 })
unfolding check_some check_fields check_field ◌+ℤ◌ cron_offset
morning_runs = refl

check_some-Answers_example :
    Answers morning (pos 900) monday (check_some always_monday morning (pos 900))
check_some-Answers_example = check_some-Answers always_monday morning (pos 900) monday refl

run_times-Spaced_example :
    Spaced
      (cron_offset morning)
      morning.utimestamp
      (run_times always_monday morning (pos 900 ∷ pos 901 ∷ pos 4501 ∷ []))
run_times-Spaced_example =
    run_times-Spaced always_monday (λ t e. cc e) (pos 900 ∷ pos 901 ∷ pos 4501 ∷ []) morning

set_cron_lem_example :
    set_cron none (
      line_of
        (text_of any)
        (text_of (between 2 4) ∷ text_of any ∷ text_of any ∷ text_of (single 1) ∷ []))
    ≡ record {
      utimestamp = pos 0;
      interval = negsuc 0;
      minute = row_of (or_new none).minute any;
      hour = row_of (or_new none).hour (between 2 4);
      mday = row_of (or_new none).mday any;
      month = row_of (or_new none).month any;
      wday = row_of (or_new none).wday (single 1);
    }
set_cron_lem_example =
    set_cron_lem none any (between 2 4) any any (single 1)
      (tt, ((omega arith, omega arith), (tt, (tt, (omega arith, tt)))))

short_line : scan_words 5 (bytes "1 2 3") ≡ none
unfolding scan_words skip_space
short_line = refl

set_cron_invalid_example :
    (check_some always_monday (set_cron none (bytes "1 2 3")) (pos 900)).0 ≡ false
set_cron_invalid_example =
    set_cron_invalid always_monday (bytes "1 2 3") (pos 900) monday short_line refl (ground arith)
