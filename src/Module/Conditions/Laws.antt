-- ===== src/Module/Conditions/Laws.antt =====
-- When intensive conditions hold, which commands are started, and which conditions have no
-- defined meaning.
use pandora_agent_win.Base.Result.{ok, err, undefined_behaviour, >>=-eq-ok}
use pandora_agent_win.Base.Int.{pos}
use pandora_agent_win.Base.{
  ◌≡◌, ◌↔◌, refl, ap, ◌∙◌, true, List, [], ◌∷◌, Option, none, some, inl, inr, All, Bool-cases,
}
use pandora_agent_win.Module.Conditions.{scan_numeric, condition_from, evaluate_condition, all_hold}
use pandora_agent_win.Module.Defs.{Condition}
use pandora_agent_win.Platform.{Platform}
use pandora_agent_win.Text.{Str, bytes, eq_str}

module _ (P : Platform) (s : Str) (d : P.Double) where
  -- The condition is evaluated without a fault, and holds.
  abbrev pub Holds : Condition P → Type 0
  Holds c = evaluate_condition P s d c ≡ ok true

  -- The intensive conditions hold exactly if each of them does.
  pub all_hold_iff : (cs : List (Condition P)) → (all_hold P s d cs ≡ ok true) ↔ All Holds cs
  unfolding all_hold
  all_hold_iff [] = (λ h. tt, λ h. refl)
  all_hold_iff (c ∷ cs) =
      (split ((all_hold_iff cs).0), λ h. rw (h.0, all_hold) ((all_hold_iff cs).1 h.1))
    where
      split :
          (all_hold P s d cs ≡ ok true → All Holds cs)
          → all_hold P s d (c ∷ cs) ≡ ok true
          → All Holds (c ∷ cs)
      split later h =
          let (b, e, r) = >>=-eq-ok (evaluate_condition P s d c) _ h in
          elim (Bool-cases b) [ inl t ↦ (e ∙ ap ok t, later (rw t at r)) | inr f ↦ cc (rw f at r) ]

  uncompiled :
      (c : Condition P)
      → c.operation ≡ bytes "=~"
      → c.regex ≡ none
      → evaluate_condition P s d c ≡ err undefined_behaviour
  unfolding evaluate_condition eq_str
  uncompiled c o r = rw (o, r)

-- A condition `=~` whose pattern begins with a number is taken for a numeric one: its regular
-- expression is never compiled, and to evaluate it is undefined.
pub condition_from_uncompiled :
    (P : Platform) (command interval_command : Str → Option Str) (text rest cmd s : Str)
    (n d : P.Double)
    → scan_numeric P text ≡ some (bytes "=~", n, rest)
    → command rest ≡ some cmd
    → (c : Condition P) × (condition_from P command interval_command text ≡ some c)
      × (evaluate_condition P s d c ≡ err undefined_behaviour)
unfolding condition_from
condition_from_uncompiled P command interval_command text rest cmd s n d e k = (
  record {
    value_1 = n;
    value_2 = P.of_int (pos 0);
    string_value = [];
    operation = bytes "=~";
    command = cmd;
    regex = none;
  },
  rw (e, k),
  uncompiled P s d _ refl refl,
)
