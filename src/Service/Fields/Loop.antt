-- ===== src/Service/Fields/Loop.antt =====
-- The loop over the custom fields ends, and writes the fields up to the first one that is missing.
use pandora_agent_win.Base.{
  ℕ, zero, suc, ◌+◌, ◌<◌, ◌≡◌, refl, true, false, ◌||◌, [], ◌++◌, some, arith, length-append,
  Bool-cases, inl, inr,
}
use pandora_agent_win.Base.Result.{Result, ok, err, undefined_behaviour, ◌>>=◌}
use pandora_agent_win.Conf.Defs.{Conf}
use pandora_agent_win.Service.Fields.{
  field_key, sprintf_21, field_name, field_value, read_field, field_text, field_loop, custom_fields,
  custom_fields_text, in_element,
}
use pandora_agent_win.Strutils.Numbers.{length-print_ℕ_two, print_ℕ_hundred}
use pandora_agent_win.Strutils.{print_ℕ}
use pandora_agent_win.Text.{Str, bytes, is_empty}

-- The settings of number 100 do not fit into the arrays.
pub read_field_hundred : (conf : Conf) → read_field conf 100 ≡ err undefined_behaviour
unfolding read_field sprintf_21 field_key
read_field_hundred conf = rw print_ℕ_hundred refl

field_loop-some :
    (f : Result (Str × Str)) (rest : Result Str)
    → (r : Result Str) × (field_loop f (some rest) ≡ some r)
field_loop-some (err way) rest = (err way, refl)
field_loop-some (ok (name, value)) rest = elim (Bool-cases (is_empty name || is_empty value)) [
  | inl e ↦ (ok [], rw e)
  | inr e ↦ (rest >>= λ text. ok (field_text name value ++ text), rw e)
]

some_result :
    (fuel c : ℕ) (conf : Conf)
    → c + fuel ≡ 100
    → (r : Result Str) × (custom_fields (suc fuel) conf c ≡ some r)
unfolding custom_fields
some_result zero c conf h =
    let e : c ≡ 100 = omega arith in (err undefined_behaviour, rw (e, read_field_hundred conf))
some_result (suc fuel) c conf h =
    let (rest, e) = some_result fuel (suc c) conf (omega arith) in
    let (r, d) = field_loop-some (read_field conf c) rest in (r, rw e d)

-- The loop ends within a hundred rounds, whatever the settings are.
pub custom_fields_end : (conf : Conf) → (r : Result Str) × (custom_fields 100 conf 1 ≡ some r)
custom_fields_end conf = some_result 99 1 conf (omega arith)

-- Below a hundred they fit.
read_field_fits :
    (conf : Conf) (c : ℕ) → c < 100 → read_field conf c ≡ ok (field_name conf c, field_value conf c)
unfolding read_field sprintf_21 field_key
read_field_fits conf c h = ground (
  arith,
  length-append {0} (print_ℕ c) (bytes "_name"),
  length-append {0} (print_ℕ c) (bytes "_value"),
  length-print_ℕ_two c h,
)

abbrev pub IsField : Conf → ℕ → Type 0
IsField conf c = (is_empty (field_name conf c) || is_empty (field_value conf c)) ≡ false

abbrev pub IsMissing : Conf → ℕ → Type 0
IsMissing conf c = (is_empty (field_name conf c) || is_empty (field_value conf c)) ≡ true

-- The text of `n` fields from number `c` on.
abbrev pub fields_from : Conf → ℕ → ℕ → Str
fields_from conf c zero = []
fields_from conf c (suc n) =
    field_text (field_name conf c) (field_value conf c) ++ fields_from conf (suc c) n

next-IsField :
    (conf : Conf) (c n : ℕ)
    → ((i : ℕ) → i < suc n → IsField conf (c + i))
    → IsField conf c × ((i : ℕ) → i < n → IsField conf (suc c + i))
next-IsField conf c n all =
    let e : c + 0 ≡ c = omega arith in
    (
      rw e at (all 0 (omega arith)),
      λ i h. let d : c + suc i ≡ suc c + i = omega arith in rw d at (all (suc i) (omega arith)),
    )

fields_written :
    (n c fuel : ℕ) (conf : Conf)
    → n < fuel
    → c + n < 100
    → ((i : ℕ) → i < n → IsField conf (c + i))
    → IsMissing conf (c + n)
    → custom_fields fuel conf c ≡ some (ok (fields_from conf c n))
unfolding custom_fields
fields_written n c zero conf f b all missing = absurd (omega arith)
fields_written zero c (suc fuel) conf f b all missing =
    let e : c + 0 ≡ c = omega arith in
    rw (read_field_fits conf c (omega arith), rw e at missing) refl
fields_written (suc n) c (suc fuel) conf f b all missing =
    let (here, rest) = next-IsField conf c n all in
    let d : c + suc n ≡ suc c + n = omega arith in
    let ih =
      fields_written n (suc c) fuel conf (omega arith) (omega arith) rest (rw d at missing) in
    rw (read_field_fits conf c (omega arith), here, ih) refl

fields_overflow :
    (n c fuel : ℕ) (conf : Conf)
    → n < fuel
    → c + n ≡ 100
    → ((i : ℕ) → i < n → IsField conf (c + i))
    → custom_fields fuel conf c ≡ some (err undefined_behaviour)
unfolding custom_fields
fields_overflow n c zero conf f b all = absurd (omega arith)
fields_overflow zero c (suc fuel) conf f b all =
    let e : c ≡ 100 = omega arith in rw (e, read_field_hundred conf) refl
fields_overflow (suc n) c (suc fuel) conf f b all =
    let (here, rest) = next-IsField conf c n all in
    let ih = fields_overflow n (suc c) fuel conf (omega arith) (omega arith) rest in
    rw (read_field_fits conf c (omega arith), here, ih) refl

-- Where the settings 1 to `n` are complete and number `n + 1` is not, for `n` at most 98, the report
-- has exactly the fields 1 to `n`, in their order.
pub custom_fields_text-fields_from :
    (conf : Conf) (n : ℕ)
    → n < 99
    → ((i : ℕ) → i < n → IsField conf (1 + i))
    → IsMissing conf (1 + n)
    → custom_fields_text conf ≡ ok (in_element (fields_from conf 1 n))
unfolding custom_fields_text
custom_fields_text-fields_from conf n b all missing =
    rw (fields_written n 1 100 conf (omega arith) (omega arith) all missing) refl

-- Where the settings 1 to 99 are all complete, the loop writes behind the end of its arrays.
pub custom_fields_text_overflow :
    (conf : Conf)
    → ((i : ℕ) → i < 99 → IsField conf (1 + i))
    → custom_fields_text conf ≡ err undefined_behaviour
unfolding custom_fields_text
custom_fields_text_overflow conf all =
    rw (fields_overflow 99 1 100 conf (omega arith) (omega arith) all) refl
