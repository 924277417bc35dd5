-- ===== src/Factory/Macros/Laws.antt =====
-- One macro is replaced at its first occurrence.
use pandora_agent_win.Base.{
  ℕ, ◌+◌, ◌<◌, ◌≡◌, false, ◌++◌, ◌⊎◌, inl, inr, Option-cases, length, take, drop,
}
use pandora_agent_win.Factory.Macros.{replace_macro}
use pandora_agent_win.Text.Laws.{find-split, find_leftmost, find-none}
use pandora_agent_win.Text.{Str, is_prefix, find}

-- A value either has the macro nowhere, and is kept, or is cut at the first occurrence of the macro,
-- which is replaced.
pub replace_macro_cases :
    (macro_name macro_value s : Str)
    → (((i : ℕ) → is_prefix macro_name (drop i s) ≡ false)
        × (replace_macro macro_name macro_value s ≡ s))
      ⊎ ((i : ℕ) × (s ≡ take i s ++ (macro_name ++ drop (i + length macro_name) s))
          × ((j : ℕ) → j < i → is_prefix macro_name (drop j s) ≡ false)
          × (replace_macro macro_name macro_value s
              ≡ take i s ++ (macro_value ++ drop (i + length macro_name) s)))
unfolding replace_macro
replace_macro_cases macro_name macro_value s = elim (Option-cases (find s macro_name)) [
  | inl e ↦ inl (λ i. find-none s macro_name i e, rw (e, replace_macro))
  | inr (i, e) ↦ inr (
    i,
    find-split s macro_name i e,
    λ j l. find_leftmost s macro_name i j e l,
    rw (e, replace_macro),
  )
]
