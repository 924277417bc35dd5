-- ===== src/Strutils.antt =====
-- `Pandora_Strutils` (pandora_strutils.cc): trimming, replacing, splitting, and numbers as text.
pub mod Trim
pub mod Replace
pub mod Tokens
pub mod Numbers
use pandora_agent_win.Base.{
  ℕ, zero, suc, ◌+◌, ◌-◌, ◌*◌, ◌/◌, ◌%◌, Bool, true, false, ◌||◌, ◌&&◌, List, [], ◌∷◌, ◌++◌, Option,
  none, some, ◌==◌, leb, if◌then◌else◌, length, take, drop, ◌^◌, ltb,
}
use pandora_agent_win.Base.Int.{ℤ, pos, negsuc}
use pandora_agent_win.Text.{
  Str, bytes, is_empty, contains, find, replace_at, find_first_not_of, find_last_not_of,
}

abbrev pub blanks : Str
blanks = b' ' ∷ b'\t' ∷ b'\r' ∷ b'\n' ∷ []

-- `result.erase (++index)`, if the index is not `npos`.
erase_tail : Str → Option ℕ → Str
erase_tail s none = s
erase_tail s (some i) = take (suc i) s

-- `result.erase (0, index)`, or `result.erase ()`.
erase_head : Str → Option ℕ → Str
erase_head s none = []
erase_head s (some i) = drop i s

unfoldable pub trim : Str → Str
unfolding erase_tail erase_head
trim str =
    let result = erase_tail str (find_last_not_of str blanks) in
    erase_head result (find_first_not_of result blanks)

-- The loop of `strreplace`, from an occurrence of the pattern at `i`. `none`: the fuel ran out.
replace_from : ℕ → Str → ℕ → Str → Str → Option Str
replace_from zero s i pattern rep = none
replace_from (suc fuel) s i pattern rep =
    let s' = replace_at s i (length pattern) rep in
    let i' = i + length rep in
    elim (find (drop i' s') pattern) [
      | none ↦ some s'
      | some j ↦ replace_from fuel s' (i' + j) pattern rep
    ]

-- `strreplace (in, pattern, rep)`.
unfoldable pub strreplace : ℕ → Str → Str → Str → Option Str
unfolding replace_from
strreplace fuel s pattern rep = elim (find s pattern) [
  | none ↦ some s
  | some i ↦ replace_from fuel s i pattern rep
]

-- `strchr (wstr, c) != NULL`: the terminator of `wstr` is found too.
unfoldable pub isseparator : ℕ → Str → Bool
isseparator c wstr = contains wstr c || c == 0

-- The loops of `stringtok` over the rest of the string. `none`: leading separators are skipped;
-- `some word`: the end of a word is looked for, `word` being read so far.
stringtok_from : Str → Option Str → Str → List Str
stringtok_from separators none [] = []
stringtok_from separators (some word) [] = word ∷ []
stringtok_from separators none (c ∷ s) = elim (isseparator c separators) [
  | true ↦ stringtok_from separators none s
  | false ↦ stringtok_from separators (some (c ∷ [])) s
]
stringtok_from separators (some word) (c ∷ s) = elim (isseparator c separators) [
  | true ↦ word ∷ stringtok_from separators none s
  | false ↦ stringtok_from separators (some (word ++ c ∷ [])) s
]

-- `stringtok (l, s, separators)`, which appends to `l`.
unfoldable pub stringtok : List Str → Str → Str → List Str
unfolding stringtok_from isseparator
stringtok l s separators = l ++ stringtok_from separators none s

-- The decimal digits of `n` in front of `acc`; each round takes one digit.
digits_onto : ℕ → ℕ → Str → Str
digits_onto zero n acc = acc
digits_onto (suc fuel) n acc =
    let rest = digits_onto fuel (n / 10) ((b'0' + n % 10) ∷ acc) in
    if leb 10 n then rest else (b'0' + n % 10) ∷ acc

-- `std::ostringstream << n`, for a number that is not negative; a number has at most as many
-- digits as its value, or one.
unfoldable pub print_ℕ : ℕ → Str
unfolding digits_onto
print_ℕ n = digits_onto (suc n) n []

unfoldable pub longtostr : ℤ → Str
longtostr (pos n) = print_ℕ n
longtostr (negsuc n) = b'-' ∷ print_ℕ (suc n)

unfoldable pub inttostr : ℤ → Str
unfolding longtostr
inttostr i = longtostr i

-- What `isspace` accepts.
abbrev pub is_space : ℕ → Bool
is_space c = c == b' ' || (leb 9 c && leb c 13)

abbrev pub is_digit : ℕ → Bool
is_digit c = leb b'0' c && leb c b'9'

unfoldable pub skip_space : Str → Str
skip_space [] = []
skip_space (c ∷ s) = let rest = skip_space s in if is_space c then rest else c ∷ s

-- The digits at the head of the string, after the value read so far.
unfoldable pub read_digits : ℕ → Str → ℕ
read_digits acc [] = acc
read_digits acc (c ∷ s) =
    let rest = read_digits (acc * 10 + (c - b'0')) s in if is_digit c then rest else acc

-- What one conversion of `sscanf` ends with: no input was left, the input did not match, a value.
pub data Scan {ℓ} (A : Type ℓ) : Type ℓ where
  eof mismatch : Scan A
  value : A → Scan A

abbrev pub signed : Bool → ℕ → ℤ
signed false n = pos n
signed true zero = pos zero
signed true (suc n) = negsuc n

abbrev scan_unsigned : Bool → Str → Scan ℤ
scan_unsigned minus [] = mismatch
scan_unsigned minus (c ∷ s) =
    if is_digit c then value (signed minus (read_digits 0 (c ∷ s))) else mismatch

abbrev scan_sign : Str → Scan ℤ
scan_sign [] = eof
scan_sign (c ∷ s) =
    if c == b'-'
    then scan_unsigned true s
    else if c == b'+'
    then scan_unsigned false s
    else scan_unsigned false (c ∷ s)

-- The conversion `%d`. A value out of the range of `int` is undefined in C, and is kept here.
unfoldable pub scan_int : Str → Scan ℤ
unfolding skip_space read_digits
scan_int s = scan_sign (skip_space s)

-- `atoi`: zero where there is no number.
unfoldable pub atoi : Str → ℤ
unfolding scan_int
atoi s = elim (scan_int s) [ value n ↦ n | _ ↦ pos 0 ]

pub data Conversion {ℓ} (A : Type ℓ) : Type ℓ where
  converted : A → Conversion A
  invalid_conversion : Conversion A

-- `if (! sscanf (…, &result)) throw Invalid_Conversion (); return result;`. At the end of the input
-- `sscanf` returns `EOF`, which is not zero: nothing is thrown, and `result`, here `unset`, was never
-- assigned.
abbrev pub unless_zero {ℓ} : {A : Type ℓ} → A → Scan A → Conversion A
unless_zero unset eof = converted unset
unless_zero unset mismatch = invalid_conversion
unless_zero unset (value n) = converted n

unfoldable pub strtoint : ℤ → Str → Conversion ℤ
unfolding scan_int
strtoint unset str = unless_zero unset (scan_int str)

-- `strtoulong`: the conversion `%I64d` to a number of 64 bits without sign.
unfoldable pub strtoulong : (unset : ℕ) → Str → Conversion ℕ
unfolding scan_int
strtoulong unset str = elim (scan_int str) [
  | eof ↦ converted unset
  | mismatch ↦ invalid_conversion
  | value (pos n) ↦ converted (n % 2 ^ 64)
  | value (negsuc n) ↦ converted ((2 ^ 64 - 1) - n % 2 ^ 64)
]

abbrev hex_digit_of : ℕ → ℕ
hex_digit_of n = if ltb n 10 then b'0' + n else b'a' + (n - 10)

-- The hexadecimal digits of `n` in front of `acc`; each round takes one digit.
unfoldable pub hex_onto : (fuel n : ℕ) (acc : Str) → Str
hex_onto zero n acc = acc
hex_onto (suc fuel) n acc =
    let acc' = hex_digit_of (n % 16) ∷ acc in
    let rest = hex_onto fuel (n / 16) acc' in if n / 16 == 0 then acc' else rest

-- `longtohex`, of a `long` of 32 bits, which has eight digits at most.
unfoldable pub longtohex : ℤ → Str
longtohex (pos n) = hex_onto 8 (n % 2 ^ 32) []
longtohex (negsuc n) = hex_onto 8 ((2 ^ 32 - 1) - n % 2 ^ 32) []

-- `strtodouble`, over the C library's conversion `%le`.
unfoldable pub strtodouble {ℓ} : {D : Type ℓ} → (Str → Scan D) → D → Str → Conversion D
strtodouble scan_double unset str = unless_zero unset (scan_double str)
