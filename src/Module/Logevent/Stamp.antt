-- ===== src/Module/Logevent/Stamp.antt =====
-- The timestamp in front of the text of an event, and its way back (`getLogEvents` and
-- `timestampToSystemtime` of modules/pandora_module_logevent.cc).
use pandora_agent_win.Base.Int.{ℤ, pos, negsuc}
use pandora_agent_win.Base.{
  ℕ, ◌+◌, ◌*◌, ap, ◌∙◌, ◌-◌, ◌/◌, ◌%◌, ◌<◌, ◌≡◌, arith, true, [], ◌∷◌, take, drop,
}
use pandora_agent_win.Data.{SystemTime}
use pandora_agent_win.Strutils.{atoi, read_digits, is_digit}
use pandora_agent_win.Strutils.Numbers.{scan_digits}
use pandora_agent_win.Text.{Str}

-- `%m` and its like, for a number below 100, and `%Y`, for a year of four digits, as each year is that a
-- time of 32 bits can have.
abbrev two : ℕ → (behind : Str) → Str
two n behind = (b'0' + n / 10) ∷ (b'0' + n % 10) ∷ behind

-- `strftime (…, "%Y-%m-%d %H:%M:%S", …)`.
unfoldable pub strftime : SystemTime → Str
strftime t = two (t.year / 100) (
    two (t.year % 100) (
      b'-'
      ∷ two t.month
          (b'-' ∷ two t.day (b' ' ∷ two t.hour (b':' ∷ two t.minute (b':' ∷ two t.second []))))))

-- The conversion of `int` to `WORD`.
abbrev pub to_word : ℤ → ℕ
to_word (pos n) = n % 65536
to_word (negsuc n) = 65535 - n % 65536

abbrev substr : Str → ℕ → ℕ → Str
substr s i n = take n (drop i s)

-- `timestampToSystemtime`, for the members that it sets.
unfoldable pub timestamp_to_systemtime : Str → SystemTime
timestamp_to_systemtime timestamp = record {
  year = to_word (atoi (substr timestamp 0 4));
  month = to_word (atoi (substr timestamp 5 2));
  day = to_word (atoi (substr timestamp 8 2));
  hour = to_word (atoi (substr timestamp 11 2));
  minute = to_word (atoi (substr timestamp 14 2));
  second = to_word (atoi (substr timestamp 17 2));
}

-- A time whose numbers have the width of their fields.
abbrev pub IsPrintable : SystemTime → Type 0
IsPrintable t =
    t.year < 10000 × t.month < 100 × t.day < 100 × t.hour < 100 × t.minute < 100 × t.second < 100

digit : (n : ℕ) → n < 10 → is_digit (b'0' + n) ≡ true
digit n h = ground arith

read_digits-two :
    (acc n : ℕ) (behind : Str)
    → n < 100
    → read_digits acc (two n behind) ≡ read_digits (acc * 100 + n) behind
unfolding read_digits
read_digits-two acc n behind h =
    let value : (acc * 10 + (b'0' + n / 10 - b'0')) * 10 + (b'0' + n % 10 - b'0') ≡ acc * 100 + n =
      omega arith in
    rw (digit (n / 10) (omega arith), digit (n % 10) (omega arith), value)

atoi-digits : (n : ℕ) (s : Str) → n < 100 → atoi (two n s) ≡ pos (read_digits n s)
unfolding atoi
atoi-digits n s h =
    let first = digit (n / 10) (omega arith) in
    let none_read : 0 * 100 + n ≡ n = omega arith in
    rw (
      atoi,
      scan_digits (b'0' + n / 10) ((b'0' + n % 10) ∷ s) first,
      read_digits-two 0 n s h,
      none_read,
    )

atoi-two : (n : ℕ) → n < 100 → atoi (two n []) ≡ pos n
unfolding read_digits
atoi-two n h = atoi-digits n [] h

atoi-four : (n : ℕ) → n < 10000 → atoi (two (n / 100) (two (n % 100) [])) ≡ pos n
unfolding read_digits
atoi-four n h =
    let value : (n / 100) * 100 + n % 100 ≡ n = omega arith in
    atoi-digits (n / 100) (two (n % 100) []) (omega arith)
    ∙ ap pos (read_digits-two (n / 100) (n % 100) [] (omega arith) ∙ value)

small : (n : ℕ) → n < 10000 → n % 65536 ≡ n
small n h = omega arith

-- The timestamp of an event is read back as the time that it was printed from.
pub timestamp_to_systemtime-strftime :
    (t : SystemTime) → IsPrintable t → timestamp_to_systemtime (strftime t) ≡ t
unfolding timestamp_to_systemtime strftime
timestamp_to_systemtime-strftime t (y, mo, d, h, mi, s) =
    rw
      (
        atoi-four t.year y,
        atoi-two t.month mo,
        atoi-two t.day d,
        atoi-two t.hour h,
        atoi-two t.minute mi,
        atoi-two t.second s,
      )
      (rw (
        small t.year y,
        small t.month (omega arith),
        small t.day (omega arith),
        small t.hour (omega arith),
        small t.minute (omega arith),
        small t.second (omega arith),
      ))
