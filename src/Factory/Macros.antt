-- ===== src/Factory/Macros.antt =====
-- The macros of a module definition (modules/pandora_module_factory.cc).
pub mod Laws
use pandora_agent_win.Base.{
  ℕ, ◌+◌, List, [], ◌∷◌, Option, none, some, if◌then◌else◌, length, take, drop,
}
use pandora_agent_win.Factory.Tokens.{Definition}
use pandora_agent_win.Text.{Str, bytes, is_empty, find, replace_at}

-- `s.replace (pos_macro, macro_name.size (), macro_value)` at the first occurrence, if there is one.
unfoldable pub replace_macro : Str → Str → Str → Str
replace_macro macro_name macro_value s = elim (find s macro_name) [
  | none ↦ s
  | some pos_macro ↦ replace_at s pos_macro (length macro_name) macro_value
]

-- A variable that is empty is passed over; an element of a queue is not.
abbrev pub replace_in_variable : Str → Str → Str → Str
replace_in_variable macro_name macro_value s =
    if is_empty s then s else replace_macro macro_name macro_value s

abbrev pub map : (Str → Str) → List Str → List Str
map f [] = []
map f (s ∷ ss) = f s ∷ map f ss

-- One macro: the body of the loop, once the name and the value are split.
unfoldable pub subst_macro : Str → Str → Definition → Definition
subst_macro macro_name macro_value d = record d {
  token_value = λ t. replace_in_variable macro_name macro_value (d.token_value t);
  precondition_list = map (replace_macro macro_name macro_value) d.precondition_list;
  condition_list = map (replace_macro macro_name macro_value) d.condition_list;
  intensive_condition_list = map (replace_macro macro_name macro_value) d.intensive_condition_list;
}

-- The name is what stands before the first blank, the value what stands behind it.
abbrev pub split_macro : Str → Option ℕ → Definition → Definition
split_macro macro none d = d
split_macro macro (some pos) d = subst_macro (take pos macro) (drop (pos + 1) macro) d

-- The loop over the macros.
unfoldable pub subst_macros : List Str → Definition → Definition
subst_macros [] d = d
subst_macros (macro ∷ macros) d = subst_macros macros (split_macro macro (find macro (bytes " ")) d)
