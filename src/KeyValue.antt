-- ===== src/KeyValue.antt =====
-- `Key_Value` and `is_enabled` (pandora.cc): one line of the configuration as a key and a value.
pub mod Lines
use pandora_agent_win.Base.{
  ℕ, ◌+◌, ◌-◌, Bool, true, false, ◌&&◌, List, [], ◌∷◌, leb, if◌then◌else◌, ◌||◌,
}
use pandora_agent_win.Base.Result.{Result, ok, err, undefined_behaviour}
use pandora_agent_win.Strutils.{trim, stringtok}
use pandora_agent_win.Text.{Str, bytes, eq_str, is_empty, find, has}

pub record KeyValue : Type 0 where
  pub key : Str
  pub value : Str

abbrev pub tolower : ℕ → ℕ
tolower c = if leb b'A' c && leb c b'Z' then c + 32 else c

-- `transform (key.begin (), key.end (), key.begin (), tolower)`.
abbrev pub lower : Str → Str
lower [] = []
lower (c ∷ s) = tolower c ∷ lower s

abbrev pub toupper : ℕ → ℕ
toupper c = if leb b'a' c && leb c b'z' then c - 32 else c

abbrev pub upper : Str → Str
upper [] = []
upper (c ∷ s) = toupper c ∷ upper s

-- The last element of a list that begins with `first`.
abbrev pub last_of : Str → List Str → Str
last_of first [] = first
last_of first (t ∷ ts) = last_of t ts

-- The key is the first token and the value the last, if there are two. With no token at all
-- `*tokens.begin ()` is read past the end.
abbrev pub from_tokens : List Str → Result KeyValue
from_tokens [] = err undefined_behaviour
from_tokens (first ∷ []) = ok (record { key = lower (trim first); value = [] })
from_tokens (first ∷ t ∷ ts) = ok (record { key = lower (trim first); value = trim (last_of t ts) })

unfoldable pub parse_line : Str → Result KeyValue
parse_line str =
    let trimmedstr = trim str in
    from_tokens
      (stringtok [] trimmedstr (if has trimmedstr (bytes "\"") then bytes "\"" else bytes " \t"))

-- `sí` in UTF-8, as the source file spells it.
abbrev enabled_values : List Str
enabled_values =
    bytes "enabled"
    ∷ bytes "1"
    ∷ bytes "on"
    ∷ bytes "yes"
    ∷ bytes "si"
    ∷ (b's' ∷ 0xc3 ∷ 0xad ∷ [])
    ∷ bytes "ok"
    ∷ bytes "true"
    ∷ []

abbrev any_eq : List Str → Str → Bool
any_eq [] value = false
any_eq (v ∷ vs) value = eq_str v value || any_eq vs value

unfoldable pub is_enabled : Str → Bool
is_enabled value = if is_empty value then false else any_eq enabled_values value
