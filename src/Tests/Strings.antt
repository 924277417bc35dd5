-- ===== src/Tests/Strings.antt =====
-- The string helpers (pandora_strutils.cc) at concrete inputs.
use pandora_agent_win.Base.{◌≡◌, refl, true, false, [], ◌∷◌, some}
use pandora_agent_win.Strutils.Tokens.{IsWord}
use pandora_agent_win.Strutils.{trim, strreplace, stringtok, isseparator}
use pandora_agent_win.Text.{Str, bytes, find, is_prefix, find_first_not_of, find_last_not_of}

abbrev blank_text : Str
blank_text = bytes " \t"

abbrev name_text : Str
name_text = bytes "a b"

trim_text : trim (bytes "  a b\r\n") ≡ name_text
unfolding trim find_first_not_of find_last_not_of
trim_text = refl

strreplace_text : strreplace 9 (bytes "a%b%") (bytes "%") (bytes "%%") ≡ some (bytes "a%%b%%")
unfolding strreplace find is_prefix
strreplace_text = refl

stringtok_text : stringtok [] (bytes " a  bc") (bytes " ") ≡ bytes "a" ∷ bytes "bc" ∷ []
unfolding stringtok isseparator
stringtok_text = refl

space_separates : isseparator b' ' (bytes " ") ≡ true
unfolding isseparator
space_separates = refl

letter_joins : isseparator b'a' (bytes " ") ≡ false
unfolding isseparator
letter_joins = refl

letter_IsWord : IsWord (bytes " ") (bytes "a")
letter_IsWord = record { clean = (letter_joins, tt); ne_nil = λ e. cc e }
