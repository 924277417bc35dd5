-- ===== src/Module/Conditions.antt =====
-- The conditions of a module: how they are read, and when they hold.
pub mod Laws
use pandora_agent_win.Base.Int.{ℤ, pos}
use pandora_agent_win.Base.Result.{Result, ok, err, undefined_behaviour, ◌>>=◌}
use pandora_agent_win.Base.{
  ℕ, zero, suc, Bool, true, false, not, ◌&&◌, ◌||◌, List, [], ◌∷◌, ◌++◌, Option, none, some, ◌==◌,
  if◌then◌else◌,
}
use pandora_agent_win.Cron.{scan_word}
use pandora_agent_win.Data.{PandoraData}
use pandora_agent_win.Module.Defs.{Condition, Module}
use pandora_agent_win.Platform.{Platform}
use pandora_agent_win.Strutils.{
  skip_space, Scan, eof, mismatch, value, Conversion, converted, invalid_conversion, strtodouble,
}
use pandora_agent_win.Text.{Str, bytes, eq_str, is_empty}

-- The conversion `%1023[^\n]`, which wants a byte: the text of the line.
line_of : ℕ → Str → Str
line_of zero s = []
line_of (suc n) [] = []
line_of (suc n) (c ∷ s) = if c == b'\n' then [] else c ∷ line_of n s

scan_line : Str → Option Str
scan_line s = if is_empty (line_of 1023 s) then none else some (line_of 1023 s)

-- White space, then a literal byte.
scan_byte : ℕ → Str → Option Str
scan_byte b [] = none
scan_byte b (c ∷ s) = if c == b then some s else none

-- `cond->command = "cmd.exe /c \"" + cond->command + "\""`.
pub command_of : Str → Str
command_of command = bytes "cmd.exe /c \"" ++ (command ++ bytes "\"")

infixl 5 ◌>>?◌
abbrev ◌>>?◌ {ℓ κ} : {A : Type ℓ} {B : Type κ} → Option A → (A → Option B) → Option B
none >>? f = none
some a >>? f = f a

module _ (P : Platform) where
  -- The first format, `%255s %lf`: the operation, the number and what follows them.
  unfoldable pub scan_numeric : Str → Option (Str × P.Double × Str)
  scan_numeric s = scan_word 255 s >>? λ w. P.scan_lf (skip_space w.1) >>? λ d. some (w.0, d.0, d.1)

  -- The second format, `=~ %1023s`.
  pub scan_regex : Str → Option (Str × Str)
  scan_regex s = scan_byte b'=' s >>? λ t. scan_byte b'~' t >>? λ u. scan_word 1023 u

  -- The third format, `(%lf , %lf`, and what follows it.
  pub scan_interval : Str → Option (P.Double × P.Double × Str)
  scan_interval s = scan_byte b'(' s >>? λ t. P.scan_lf (skip_space t) >>? λ a.
      scan_byte b',' (skip_space a.1) >>? λ u.
      P.scan_lf (skip_space u) >>? λ b. some (a.0, b.0, b.1)

  abbrev zero_double : P.Double
  zero_double = P.of_int (pos 0)

  -- `cond->value_1` when the first format has been tried: it is set as soon as a number is read.
  abbrev pub first_value : Str → P.Double
  first_value s = elim (scan_numeric s) [ none ↦ zero_double | some (op, d, rest) ↦ d ]

  -- A condition of one of the three forms. `none`: the format does not match; `some none`: it does,
  -- and the regular expression is not valid. `command` reads the command behind the condition.
  abbrev numeric_condition : (Str → Option Str) → Str → Option (Option (Condition P))
  numeric_condition command s = scan_numeric s >>? λ n. command n.2 >>? λ c. some (
      some (record {
        value_1 = n.1;
        value_2 = zero_double;
        string_value = [];
        operation = n.0;
        command = c;
        regex = none;
      }))

  abbrev regex_condition : (Str → Option Str) → Str → Option (Option (Condition P))
  regex_condition command s = scan_regex s >>? λ r. command r.1 >>? λ c. some (
      P.regcomp r.0 >>? λ compiled. some (record {
        value_1 = first_value s;
        value_2 = zero_double;
        string_value = r.0;
        operation = bytes "=~";
        command = c;
        regex = some compiled;
      }))

  abbrev interval_condition : (Str → Option Str) → Str → Option (Option (Condition P))
  interval_condition command s = scan_interval s >>? λ i. command i.2 >>? λ c. some (
      some (record {
        value_1 = i.0;
        value_2 = i.1;
        string_value = [];
        operation = bytes "()";
        command = c;
        regex = none;
      }))

  abbrev or_else :
      Option (Option (Condition P)) → Option (Option (Condition P)) → Option (Option (Condition P))
  or_else none next = next
  or_else (some found) next = some found

  -- The condition that a string stands for, if it is valid: the formats are tried in turn.
  -- `interval_command` reads what follows the second number of the third.
  pub condition_from : (Str → Option Str) → (Str → Option Str) → Str → Option (Condition P)
  condition_from command interval_command s =
      or_else (numeric_condition command s)
        (or_else (regex_condition command s) (interval_condition interval_command s))
      >>? λ found. found

  -- The command behind a condition.
  pub scan_command : Str → Option Str
  scan_command rest = scan_line (skip_space rest) >>? λ c. some (command_of c)

  -- The literal `)`, then the command.
  pub scan_closed_command : Str → Option Str
  unfolding scan_command
  scan_closed_command rest = scan_byte b')' rest >>? scan_command

  abbrev or_new_list : Option (List (Condition P)) → List (Condition P)
  or_new_list none = []
  or_new_list (some l) = l

  abbrev push_valid : List (Condition P) → Option (Condition P) → List (Condition P)
  push_valid l none = l
  push_valid l (some c) = l ++ c ∷ []

  -- `addGenericCondition`: the list is created even if the condition is not valid.
  pub add_generic_condition : Str → Option (List (Condition P)) → Option (List (Condition P))
  unfolding condition_from scan_command scan_closed_command
  add_generic_condition condition l =
      some (push_valid (or_new_list l) (condition_from scan_command scan_closed_command condition))

  unfoldable pub add_condition : Module P → Str → Module P
  add_condition m condition = record m {
    condition_list = add_generic_condition condition m.condition_list;
  }

  unfoldable pub add_pre_condition : Module P → Str → Module P
  add_pre_condition m condition = record m {
    precondition_list = add_generic_condition condition m.precondition_list;
  }

  -- An intensive condition has no command, and its `)` is not counted by `sscanf`.
  unfoldable pub add_intensive_condition : Module P → Str → Module P
  unfolding condition_from
  add_intensive_condition m condition = record m {
    intensive_condition_list = some (
        push_valid (or_new_list m.intensive_condition_list)
          (condition_from (λ rest. some []) (λ rest. some []) condition));
  }

  -- `regexec` on a regular expression that was never compiled is not defined.
  abbrev match_regex : Option P.Regex → Str → Result Bool
  match_regex none s = err undefined_behaviour
  match_regex (some r) s = ok (P.regexec r s)

  -- `evaluateCondition`.
  pub evaluate_condition : Str → P.Double → Condition P → Result Bool
  evaluate_condition string_value double_value c =
      if eq_str c.operation (bytes ">") && P.lt c.value_1 double_value
      then ok true
      else if eq_str c.operation (bytes "<") && P.lt double_value c.value_1
      then ok true
      else if eq_str c.operation (bytes "=") && P.eq double_value c.value_1
      then ok true
      else if eq_str c.operation (bytes "!=") && not (P.eq double_value c.value_1)
      then ok true
      else if eq_str c.operation (bytes "=~")
      then match_regex c.regex string_value
      else ok (
          eq_str c.operation (bytes "()")
          && (P.lt c.value_1 double_value && P.lt double_value c.value_2))

  -- The number that the conditions are tested on; `unset` is what `strtodouble` leaves unset.
  abbrev pub double_of : P.Double → Str → P.Double
  double_of unset s = elim (strtodouble P.scan_le unset s) [
    | converted d ↦ d
    | invalid_conversion ↦ zero_double
  ]

  -- The loop of `evaluateIntensiveConditions`: it stops at the first that does not hold.
  pub all_hold : Str → P.Double → List (Condition P) → Result Bool
  all_hold s d [] = ok true
  all_hold s d (c ∷ cs) = evaluate_condition s d c >>= λ holds.
      let rest = all_hold s d cs in if holds then rest else ok false

  abbrev pub on_first_data : {A : Type 0} → Module P → A → (PandoraData → Result A) → Result A
  on_first_data m absent f = if not m.has_output then ok absent else elim m.data_list [
    | none ↦ ok absent
    | some [] ↦ err undefined_behaviour
    | some (data_0 ∷ rest) ↦ f data_0
  ]

  -- `evaluateIntensiveConditions`.
  unfoldable pub evaluate_intensive_conditions : P.Double → Module P → Result Bool
  unfolding all_hold
  evaluate_intensive_conditions unset m = elim m.intensive_condition_list [
    | none ↦ ok true
    | some [] ↦ ok true
    | some (c ∷ cs) ↦ on_first_data m false λ d. all_hold d.value (double_of unset d.value) (c ∷ cs)
  ]

  -- The loop of `evaluateConditions`: the commands that are started. `starts` tells whether
  -- `CreateProcess` starts a command; where it does not, the loop is left.
  pub run_conditions : (Str → Bool) → Str → P.Double → List (Condition P) → Result (List Str)
  run_conditions starts s d [] = ok []
  run_conditions starts s d (c ∷ cs) = evaluate_condition s d c >>= λ holds.
      let rest = run_conditions starts s d cs in
      if holds
      then (if starts c.command then (rest >>= λ commands. ok (c.command ∷ commands)) else ok [])
      else rest

  unfoldable pub evaluate_conditions : (Str → Bool) → P.Double → Module P → Result (List Str)
  unfolding run_conditions
  evaluate_conditions starts unset m =
      on_first_data m []
        λ d. run_conditions starts d.value (double_of unset d.value) (or_new_list m.condition_list)
