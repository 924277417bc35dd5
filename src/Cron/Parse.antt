-- ===== src/Cron/Parse.antt =====
-- `setCron` reads the five fields of a crontab line.
use pandora_agent_win.Base.Int.{ℤ, pos, negsuc, ◌≤ℤ◌}
use pandora_agent_win.Base.{
  ℕ, zero, suc, ◌≤◌, ◌<◌, ◌≡◌, ◌≢◌, refl, ap, ◌∙◌, true, false, List, [], ◌∷◌, ◌++◌, Option, none,
  some, inl, inr, arith, append-nil, All, All-append, length, length-append, ◌==◌, Bool-cases,
}
use pandora_agent_win.Cron.Due.{Fits, FitsAll, check_some-Answers}
use pandora_agent_win.Cron.{
  Range, Cron, Tm, check_some, new_cron, or_new, word_of, after_word, scan_word_at, scan_word,
  scan_words, before_dash, after_dash, scan_top, scan_range, set_param, set_scanned, set_cron,
}
use pandora_agent_win.Strutils.Numbers.{
  print_ℕ_digits, length-print_ℕ, print_ℕ-ne-nil, atoi-print_ℕ,
}
use pandora_agent_win.Strutils.{is_space, is_digit, skip_space, print_ℕ}
use pandora_agent_win.Text.{Str, is_empty, char_at}

-- A word that one `%255s` reads whole.
pub record IsWord (w : Str) : Type 0 where
  pub no_space : All (λ c. is_space c ≡ false) w
  pub ne_nil : w ≢ []
  pub fits : length w ≤ 255

-- What may follow a word: nothing, or white space.
abbrev Ends : Str → Type 0
Ends [] = Unit
Ends (c ∷ s) = is_space c ≡ true

word_of_lem :
    (n : ℕ) (w s : Str)
    → All (λ c. is_space c ≡ false) w
    → length w ≤ n
    → Ends s
    → (word_of n (w ++ s) ≡ w) × (after_word n (w ++ s) ≡ s)
unfolding word_of after_word
word_of_lem zero [] s h l e = (refl, refl)
word_of_lem zero (x ∷ w) s h l e = absurd (omega arith)
word_of_lem (suc n) [] [] h l e = (refl, refl)
word_of_lem (suc n) [] (c ∷ s) h l e = (rw e, rw e)
word_of_lem (suc n) (x ∷ w) s h l e =
    let (p, q) = word_of_lem n w s h.1 (omega arith) e in (rw (h.0, p), rw (h.0, q))

scan_word_lem : (w s : Str) → IsWord w → Ends s → scan_word 255 (w ++ s) ≡ some (w, s)
unfolding scan_word scan_word_at skip_space
scan_word_lem [] s h e = absurd (h.ne_nil refl)
scan_word_lem (c ∷ w) s h e =
    let (p, q) = word_of_lem 255 (c ∷ w) s h.no_space h.fits e in rw (h.no_space.0, p, q)

-- Leading blanks are skipped.
scan_word_space : (s : Str) → scan_word 255 (b' ' ∷ s) ≡ scan_word 255 s
unfolding scan_word skip_space
scan_word_space s = refl

-- The words of a line, one blank between two of them.
abbrev pub line_of : Str → List Str → Str
line_of w [] = w
line_of w (v ∷ vs) = w ++ b' ' ∷ line_of v vs

scan_words_space : (n : ℕ) (s : Str) → scan_words (suc n) (b' ' ∷ s) ≡ scan_words (suc n) s
unfolding scan_words
scan_words_space n s = rw (scan_word_space s, scan_words)

scan_words_lem :
    (w : Str) (vs : List Str)
    → IsWord w
    → All IsWord vs
    → scan_words (suc (length vs)) (line_of w vs) ≡ some (w ∷ vs)
unfolding scan_words
scan_words_lem w [] h hs = rw (rw append-nil at (scan_word_lem w [] h tt), scan_words)
scan_words_lem w (v ∷ vs) h hs =
    rw (scan_word_lem w (b' ' ∷ line_of v vs) h refl, scan_words)
      (rw (scan_words_space (length vs) (line_of v vs) ∙ scan_words_lem v vs hs.0 hs.1, scan_words))

-- The text of one parameter of a crontab line, in the three forms that `setCron` tells apart.
pub data Param : Type 0 where
  any : Param
  single : ℕ → Param
  between : ℕ → ℕ → Param

abbrev pub text_of : Param → Str
text_of any = b'*' ∷ []
text_of (single n) = print_ℕ n
text_of (between a b) = print_ℕ a ++ b'-' ∷ print_ℕ b

-- The row of `params` that a parameter stands for; a wildcard keeps the top.
abbrev pub row_of : Range → Param → Range
row_of r any = record r { bottom = negsuc 0 }
row_of r (single n) = record { bottom = pos n; top = pos n }
row_of r (between a b) = record { bottom = pos a; top = pos b }

-- The numbers of a crontab line have two digits at most.
abbrev pub IsSmall : Param → Type 0
IsSmall any = Unit
IsSmall (single n) = n < 100
IsSmall (between a b) = (a < 100) × (b < 100)

digit_space : (c : ℕ) → is_digit c ≡ true → is_space c ≡ false
digit_space c h = ground arith

digit_dash : (c : ℕ) → is_digit c ≡ true → (c == b'-') ≡ false
digit_dash c h = ground arith

All-map : (P Q : ℕ → Type 0) (xs : Str) → ((x : ℕ) → P x → Q x) → All P xs → All Q xs
All-map P Q [] f h = tt
All-map P Q (x ∷ xs) f h = (f x h.0, All-map P Q xs f h.1)

NoSpace-print_ℕ : (n : ℕ) → All (λ c. is_space c ≡ false) (print_ℕ n)
NoSpace-print_ℕ n =
    All-map (λ c. is_digit c ≡ true) (λ c. is_space c ≡ false) (print_ℕ n) digit_space
      (print_ℕ_digits n)

append-ne-nil : (a b : Str) → a ≢ [] → a ++ b ≢ []
append-ne-nil [] b h = absurd (h refl)
append-ne-nil (x ∷ a) b h = λ e. cc e

text_of-IsWord : (p : Param) → IsSmall p → IsWord (text_of p)
text_of-IsWord any h = record { no_space = (refl, tt); ne_nil = λ e. cc e; fits = omega arith }
text_of-IsWord (single n) h = record {
  no_space = NoSpace-print_ℕ n;
  ne_nil = print_ℕ-ne-nil n;
  fits = omega (arith, length-print_ℕ n);
}
text_of-IsWord (between a b) h = record {
  no_space =
      All-append (λ c. is_space c ≡ false) (print_ℕ a) (b'-' ∷ print_ℕ b) (NoSpace-print_ℕ a)
        (refl, NoSpace-print_ℕ b);
  ne_nil = append-ne-nil (print_ℕ a) (b'-' ∷ print_ℕ b) (print_ℕ-ne-nil a);
  fits =
      omega
        (arith, length-append (print_ℕ a) (b'-' ∷ print_ℕ b), length-print_ℕ a, length-print_ℕ b);
}

before_dash_lem :
    (n : ℕ) (w s : Str)
    → All (λ c. is_digit c ≡ true) w
    → length w ≤ n
    → (before_dash n (w ++ b'-' ∷ s) ≡ w) × (after_dash n (w ++ b'-' ∷ s) ≡ b'-' ∷ s)
unfolding before_dash after_dash
before_dash_lem zero [] s h l = (refl, refl)
before_dash_lem zero (x ∷ w) s h l = absurd (omega arith)
before_dash_lem (suc n) [] s h l = (refl, refl)
before_dash_lem (suc n) (x ∷ w) s h l =
    let (p, q) = before_dash_lem n w s h.1 (omega arith) in
    (rw (digit_dash x h.0, p), rw (digit_dash x h.0, q))

no_dash : (n : ℕ) (w : Str) → All (λ c. is_digit c ≡ true) w → length w ≤ n → after_dash n w ≡ []
unfolding after_dash
no_dash zero [] h l = refl
no_dash zero (x ∷ w) h l = absurd (omega arith)
no_dash (suc n) [] h l = refl
no_dash (suc n) (x ∷ w) h l = rw (digit_dash x h.0) (no_dash n w h.1 (omega arith))

scan_range_single :
    (w : Str) → All (λ c. is_digit c ≡ true) w → length w ≤ 255 → scan_range w ≡ none
unfolding scan_range scan_top
scan_range_single w h l = ground (arith, no_dash 255 w h l)

is_empty_ne : (w : Str) → w ≢ [] → is_empty w ≡ false
is_empty_ne [] h = absurd (h refl)
is_empty_ne (x ∷ w) h = refl

scan_range-between :
    (a b : ℕ) → a < 100 → b < 100 → scan_range (text_of (between a b)) ≡ some (print_ℕ a, print_ℕ b)
unfolding scan_range scan_top
scan_range-between a b ha hb =
    let (p, q) =
      before_dash_lem 255 (print_ℕ a) (print_ℕ b) (print_ℕ_digits a)
        (omega (arith, length-print_ℕ a)) in
    let t = scan_word_lem (print_ℕ b) [] (text_of-IsWord (single b) hb) tt in
    rw (p, is_empty_ne (print_ℕ a) (print_ℕ-ne-nil a), q, rw append-nil at t) (rw p)

not_star :
    (w s : Str) → All (λ c. is_digit c ≡ true) w → w ≢ [] → (char_at (w ++ s) 0 == b'*') ≡ false
not_star [] s h ne = absurd (ne refl)
not_star (x ∷ w) s h ne = ground (arith, h.0)

set_param-text_of : (r : Range) (p : Param) → IsSmall p → set_param r (text_of p) ≡ row_of r p
unfolding set_param
set_param-text_of r any h = refl
set_param-text_of r (single n) h =
    let star = rw append-nil at (not_star (print_ℕ n) [] (print_ℕ_digits n) (print_ℕ-ne-nil n)) in
    let one = scan_range_single (print_ℕ n) (print_ℕ_digits n) (omega (arith, length-print_ℕ n)) in
    rw (star, one, atoi-print_ℕ n)
set_param-text_of r (between a b) h =
    let star = not_star (print_ℕ a) (b'-' ∷ print_ℕ b) (print_ℕ_digits a) (print_ℕ-ne-nil a) in
    rw (star, scan_range-between a b h.0 h.1, atoi-print_ℕ a, atoi-print_ℕ b)

-- A crontab line of five parameters with small numbers sets the five rows to what they stand for,
-- with no timestamp and no interval, whether the module had a cron or not.
pub set_cron_lem :
    (cron : Option Cron) (minute hour mday month wday : Param)
    → All IsSmall (minute ∷ hour ∷ mday ∷ month ∷ wday ∷ [])
    → set_cron cron
        (line_of (text_of minute) (text_of hour ∷ text_of mday ∷ text_of month ∷ text_of wday ∷ []))
      ≡ record {
        utimestamp = pos 0;
        interval = negsuc 0;
        minute = row_of (or_new cron).minute minute;
        hour = row_of (or_new cron).hour hour;
        mday = row_of (or_new cron).mday mday;
        month = row_of (or_new cron).month month;
        wday = row_of (or_new cron).wday wday;
      }
unfolding set_cron
set_cron_lem cron a b c d e (ha, (hb, (hc, (hd, (he, _))))) =
    let words =
      scan_words_lem (text_of a) (text_of b ∷ text_of c ∷ text_of d ∷ text_of e ∷ [])
        (text_of-IsWord a ha)
        (
          text_of-IsWord b hb,
          (text_of-IsWord c hc, (text_of-IsWord d hd, (text_of-IsWord e he, tt))),
        ) in
    let old = or_new cron in
    ap (set_scanned old) words ∙ λ i. record {
      utimestamp = pos 0;
      interval = negsuc 0;
      minute = set_param-text_of old.minute a ha i;
      hour = set_param-text_of old.hour b hb i;
      mday = set_param-text_of old.mday c hc i;
      month = set_param-text_of old.month d hd i;
      wday = set_param-text_of old.wday e he i;
    }

never_due : (tm : Tm) → pos 1 ≤ℤ tm.tm_mday → ¬ (FitsAll new_cron tm)
never_due tm day f = outside f.mday
  where
    outside : Fits new_cron.mday tm.tm_mday → ⊥
    outside h = ground arith

-- A crontab line of less than five words, on a module that has no cron, keeps the module from
-- running at every time that has a date: the new cron is all zeros, and no month has a day 0.
pub set_cron_invalid :
    (localtime : ℤ → Option Tm) (cron_string : Str) (now : ℤ) (tm : Tm)
    → scan_words 5 cron_string ≡ none
    → localtime now ≡ some tm
    → pos 1 ≤ℤ tm.tm_mday
    → (check_some localtime (set_cron none cron_string) now).0 ≡ false
unfolding set_cron
set_cron_invalid localtime cron_string now tm short e day =
    ap (λ o. (check_some localtime (set_scanned new_cron o) now).0) short
    ∙ elim (Bool-cases (check_some localtime new_cron now).0) [
      | inr stopped ↦ stopped
      | inl runs ↦
          absurd (never_due tm day ((check_some-Answers localtime new_cron now tm e).0.0 runs).fits)
    ]
