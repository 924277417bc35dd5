-- ===== src/Text.antt =====
-- The part of `std::string` that the program uses. A string is the list of its bytes.
pub mod Laws
use Prim.Native.Char.{code}
use Prim.Native.String.{String}
use pandora_agent_win.Base.{
  ℕ, zero, suc, ◌+◌, ◌-◌, Bool, true, false, ◌&&◌, ◌||◌, List, [], ◌∷◌, ◌++◌, Option, none, some,
  ◌==◌, if◌then◌else◌, length, take, drop,
}

abbrev pub Str : Type 0
Str = List ℕ

-- The bytes of a literal; every literal of the development is ASCII.
abbrev pub bytes : String → Str
bytes String.[] = []
bytes (String.◌∷◌ c s) = code c ∷ bytes s

-- `a == b` on strings.
unfoldable pub eq_str : Str → Str → Bool
eq_str [] [] = true
eq_str (a ∷ s) (b ∷ t) = a == b && eq_str s t
eq_str _ _ = false

-- `s == ""`.
abbrev pub is_empty : Str → Bool
is_empty [] = true
is_empty (c ∷ s) = false

-- A set of bytes, given as a string.
abbrev pub contains : Str → ℕ → Bool
contains [] c = false
contains (x ∷ xs) c = c == x || contains xs c

unfoldable pub is_prefix : Str → Str → Bool
is_prefix [] s = true
is_prefix (p ∷ ps) [] = false
is_prefix (p ∷ ps) (c ∷ s) = p == c && is_prefix ps s

-- `Option.map suc`, the answer seen from one byte further left.
abbrev pub later : Option ℕ → Option ℕ
later none = none
later (some i) = some (suc i)

-- `s.find (p)`; `none` is `string::npos`.
unfoldable pub find : Str → Str → Option ℕ
unfolding is_prefix
find [] p = if is_prefix p [] then some 0 else none
find (c ∷ s) p = let rest = later (find s p) in if is_prefix p (c ∷ s) then some 0 else rest

abbrev pub is_some {ℓ} : {A : Type ℓ} → Option A → Bool
is_some none = false
is_some (some _) = true

-- `s.find (p) != string::npos`.
abbrev pub has : Str → Str → Bool
has s p = is_some (find s p)

-- `s.replace (i, n, r)`.
abbrev pub replace_at : Str → ℕ → ℕ → Str → Str
replace_at s i n r = take i s ++ (r ++ drop (i + n) s)

-- `s.find_first_not_of (delims)`.
unfoldable pub find_first_not_of : Str → Str → Option ℕ
find_first_not_of [] delims = none
find_first_not_of (c ∷ s) delims =
    let rest = later (find_first_not_of s delims) in if contains delims c then rest else some 0

-- `s.find_last_not_of (delims)`.
unfoldable pub find_last_not_of : Str → Str → Option ℕ
find_last_not_of [] delims = none
find_last_not_of (c ∷ s) delims = elim (find_last_not_of s delims) [
  | some i ↦ some (suc i)
  | none ↦ if contains delims c then none else some 0
]

-- `s[i]` of a string that is not constant: the byte at the end is `\0`.
abbrev pub char_at : Str → ℕ → ℕ
char_at [] i = 0
char_at (c ∷ s) zero = c
char_at (c ∷ s) (suc i) = char_at s i

-- What `while (! file.eof ()) getline (file, buffer)` reads from a file that is open: the pieces
-- between newlines, the last one too if it is empty.
unfoldable pub lines : Str → List Str
lines [] = [] ∷ []
lines (c ∷ s) = elim (lines s) [
  | [] ↦ [] ∷ []
  | l ∷ ls ↦ if c == b'\n' then [] ∷ (l ∷ ls) else (c ∷ l) ∷ ls
]
