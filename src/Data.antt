-- ===== src/Data.antt =====
-- `Pandora_Data` (modules/pandora_data.cc): one value of a module, with its time and its origin.
use pandora_agent_win.Base.{ℕ, ◌∷◌, ◌++◌, ltb, if◌then◌else◌}
use pandora_agent_win.Strutils.{print_ℕ}
use pandora_agent_win.Text.{Str}

-- The members of `SYSTEMTIME` that are used.
pub record SystemTime : Type 0 where
  pub year : ℕ
  pub month : ℕ
  pub day : ℕ
  pub hour : ℕ
  pub minute : ℕ
  pub second : ℕ

pub record PandoraData : Type 0 where
  pub value : Str
  pub timestamp : SystemTime
  pub data_origin : Str

-- `Pandora_Data (value, data_origin)` at the system time `now`, and the constructor that is given a
-- time.
abbrev pub new_data : Str → SystemTime → Str → PandoraData
new_data value time data_origin = record {
  value = value;
  timestamp = time;
  data_origin = data_origin;
}

-- `%02d` of a number that is not negative.
pub two_digits : ℕ → Str
two_digits n = if ltb n 10 then b'0' ∷ print_ℕ n else print_ℕ n

-- `"%d-%02d-%02d %02d:%02d:%02d"`.
unfoldable pub get_timestamp : PandoraData → Str
unfolding two_digits
get_timestamp d =
    print_ℕ d.timestamp.year
    ++ (b'-' ∷ two_digits d.timestamp.month
        ++ (b'-' ∷ two_digits d.timestamp.day
            ++ (b' ' ∷ two_digits d.timestamp.hour
                ++ (b':' ∷ two_digits d.timestamp.minute
                    ++ (b':' ∷ two_digits d.timestamp.second)))))
