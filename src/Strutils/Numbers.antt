-- ===== src/Strutils/Numbers.antt =====
-- Numbers as text: what `inttostr` prints, `strtoint` and `atoi` read back.
use pandora_agent_win.Base.{
  ℕ, zero, suc, ◌+◌, ◌/◌, ◌%◌, ◌≤◌, ◌<◌, ◌≡◌, refl, sym, ap, ◌∙◌, true, [], ◌∷◌, inl, inr, arith,
  Bool-cases, All, length, ◌≢◌, leb,
}
use pandora_agent_win.Base.Int.{ℤ, pos, negsuc}
use pandora_agent_win.Text.{Str}
use pandora_agent_win.Strutils.{
  digits_onto, print_ℕ, longtostr, inttostr, is_digit, is_space, skip_space, read_digits, scan_int,
  atoi, value, converted, strtoint, signed,
}

read_digits-digits_onto :
    (fuel n : ℕ) (rest : Str)
    → n < fuel
    → read_digits 0 (digits_onto fuel n rest) ≡ read_digits n rest
unfolding read_digits digits_onto
read_digits-digits_onto zero n rest h = absurd (omega arith)
read_digits-digits_onto (suc fuel) n rest h =
    ground (arith, read_digits-digits_onto fuel (n / 10) ((b'0' + n % 10) ∷ rest))

digits_head :
    (fuel n : ℕ) (rest : Str)
    → (c : ℕ) × (s : Str) × (digits_onto (suc fuel) n rest ≡ c ∷ s) × (is_digit c ≡ true)
unfolding digits_onto
digits_head zero n rest = elim (Bool-cases (leb 10 n)) [
  | inl e ↦ (b'0' + n % 10, rest, rw e, ground arith)
  | inr e ↦ (b'0' + n % 10, rest, rw e, ground arith)
]
digits_head (suc fuel) n rest = elim (Bool-cases (leb 10 n)) [
  | inl e ↦ rw e (digits_head fuel (n / 10) ((b'0' + n % 10) ∷ rest))
  | inr e ↦ (b'0' + n % 10, rest, rw e, ground arith)
]

read_digits-print_ℕ : (n : ℕ) → read_digits 0 (print_ℕ n) ≡ n
unfolding print_ℕ read_digits
read_digits-print_ℕ n = read_digits-digits_onto (suc n) n [] (omega arith)

pub scan_digits :
    (c : ℕ) (s : Str) → is_digit c ≡ true → scan_int (c ∷ s) ≡ value (pos (read_digits 0 (c ∷ s)))
unfolding scan_int
scan_digits c s h = ground arith

scan_minus :
    (c : ℕ) (s : Str)
    → is_digit c ≡ true
    → scan_int (b'-' ∷ c ∷ s) ≡ value (signed true (read_digits 0 (c ∷ s)))
unfolding scan_int
scan_minus c s h = ground arith

print_head : (n : ℕ) → (c : ℕ) × (s : Str) × (print_ℕ n ≡ c ∷ s) × (is_digit c ≡ true)
unfolding print_ℕ
print_head n = digits_head n n []

scan_print : (n : ℕ) → scan_int (print_ℕ n) ≡ value (pos n)
scan_print n =
    let (c, s, e, d) = print_head n in
    rw e (scan_digits c s d)
    ∙ ap (λ t. value (pos (read_digits 0 t))) (sym e)
    ∙ ap (λ k. value (pos k)) (read_digits-print_ℕ n)

-- What is printed is read back, for every integer.
scan_int-inttostr : (i : ℤ) → scan_int (inttostr i) ≡ value i
unfolding inttostr longtostr
scan_int-inttostr (pos n) = scan_print n
scan_int-inttostr (negsuc n) =
    let (c, s, e, d) = print_head (suc n) in
    rw e (scan_minus c s d)
    ∙ ap (λ t. value (signed true (read_digits 0 t))) (sym e)
    ∙ ap (λ k. value (signed true k)) (read_digits-print_ℕ (suc n))

-- `strtoint` and `atoi` read back what `inttostr` prints, for every integer.
pub strtoint-inttostr :
    (unset i : ℤ) → (strtoint unset (inttostr i) ≡ converted i) × (atoi (inttostr i) ≡ i)
unfolding strtoint
strtoint-inttostr unset i =
    (rw (scan_int-inttostr i), unfold atoi in rw (scan_int-inttostr i, atoi))

digits_onto_digits :
    (fuel n : ℕ) (acc : Str)
    → All (λ c. is_digit c ≡ true) acc
    → All (λ c. is_digit c ≡ true) (digits_onto fuel n acc)
unfolding digits_onto
digits_onto_digits zero n acc h = h
digits_onto_digits (suc fuel) n acc h = elim (Bool-cases (leb 10 n)) [
  | inl e ↦ rw e (digits_onto_digits fuel (n / 10) ((b'0' + n % 10) ∷ acc) (digit_is_digit n, h))
  | inr e ↦ rw e (digit_is_digit n, h)
]
  where
    digit_is_digit : (n : ℕ) → is_digit (b'0' + n % 10) ≡ true
    digit_is_digit n = ground arith

length-digits_onto : (fuel n : ℕ) (acc : Str) → length (digits_onto fuel n acc) ≤ fuel + length acc
unfolding digits_onto
length-digits_onto zero n acc = omega arith
length-digits_onto (suc fuel) n acc =
    ground (arith, length-digits_onto fuel (n / 10) ((b'0' + n % 10) ∷ acc))

-- What is printed for a number is a sequence of digits that is not empty and not long.
pub print_ℕ_digits : (n : ℕ) → All (λ c. is_digit c ≡ true) (print_ℕ n)
unfolding print_ℕ
print_ℕ_digits n = digits_onto_digits (suc n) n [] tt

pub length-print_ℕ : (n : ℕ) → length (print_ℕ n) ≤ suc n
unfolding print_ℕ
length-print_ℕ n = omega (arith, length-digits_onto (suc n) n [])

pub print_ℕ-ne-nil : (n : ℕ) → print_ℕ n ≢ []
print_ℕ-ne-nil n h = let (c, s, e, d) = print_head n in cc (e, h)

pub atoi-print_ℕ : (n : ℕ) → atoi (print_ℕ n) ≡ pos n
atoi-print_ℕ n = unfold atoi in rw (scan_print n, atoi)

skip_space_nil : (s : Str) → All (λ c. is_space c ≡ true) s → skip_space s ≡ []
unfolding skip_space
skip_space_nil [] h = refl
skip_space_nil (c ∷ s) h = rw (h.0) (skip_space_nil s h.1)

-- Of a text of white space alone, or of no text, `strtoint` returns the value that `result` happened
-- to hold: nothing is converted, and nothing is thrown.
pub strtoint_space :
    (unset : ℤ) (s : Str) → All (λ c. is_space c ≡ true) s → strtoint unset s ≡ converted unset
unfolding strtoint
strtoint_space unset s h = unfold scan_int in rw (skip_space_nil s h, strtoint)

digits_onto_one :
    (fuel n : ℕ) (acc : Str) → n < 10 → digits_onto (suc fuel) n acc ≡ (b'0' + n % 10) ∷ acc
unfolding digits_onto
digits_onto_one fuel n acc h = elim (Bool-cases (leb 10 n)) [
  | inl e ↦ absurd (ground (arith, e))
  | inr e ↦ rw e
]

-- Numbers below a hundred have at most two digits.
pub length-print_ℕ_two : (n : ℕ) → n < 100 → length (print_ℕ n) ≤ 2
unfolding print_ℕ digits_onto
length-print_ℕ_two zero h = omega arith
length-print_ℕ_two (suc k) h = elim (Bool-cases (leb 10 (suc k))) [
  | inl e ↦
      rw (e, digits_onto_one k (suc k / 10) ((b'0' + suc k % 10) ∷ []) (omega arith)) (omega arith)
  | inr e ↦ rw e (omega arith)
]

pub print_ℕ_hundred : print_ℕ 100 ≡ b'1' ∷ b'0' ∷ b'0' ∷ []
unfolding print_ℕ digits_onto
print_ℕ_hundred = refl
