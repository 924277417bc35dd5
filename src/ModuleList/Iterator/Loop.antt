-- ===== src/ModuleList/Iterator/Loop.antt =====
-- The loops over the list of the modules read every module once.
use pandora_agent_win.Base.Result.{ok}
use pandora_agent_win.Base.{
  ℕ, zero, suc, ◌+◌, ◌<◌, ◌≡◌, refl, ap, ◌∙◌, arith, ==_iff, false, List, [], ◌∷◌, some, ◌==◌,
  length, get_elem?, drop,
}
use pandora_agent_win.ModuleList.Iterator.{
  ModuleList, is_last, get_current_value, go_first, go_next, loop_values,
}

module _ {ℓ} {A : Type ℓ} where
  -- The element at a place, and what follows it.
  at_place :
      (i : ℕ) (xs : List A)
      → i < length xs
      → (x : A) × (get_elem? xs i ≡ some x) × (drop i xs ≡ x ∷ drop (i + 1) xs)
  at_place i [] h = absurd (omega arith)
  at_place zero (x ∷ xs) h = (x, refl, refl)
  at_place (suc i) (x ∷ xs) h =
      let (y, e, d) = at_place i xs (omega arith) in
      let s : suc (i + 1) ≡ suc i + 1 = omega arith in
      (y, e, d ∙ ap (λ rest. y ∷ rest) (ap (λ k. drop k (x ∷ xs)) s))

  drop_all : (xs : List A) → drop (length xs) xs ≡ []
  drop_all [] = refl
  drop_all (x ∷ xs) = drop_all xs

  from_place :
      (n fuel : ℕ) (l : ModuleList A)
      → l.current + n ≡ length l.modules
      → n < fuel
      → loop_values fuel l ≡ some (ok (drop l.current l.modules))
  unfolding loop_values is_last go_next get_current_value
  from_place n zero l e h = absurd (omega arith)
  from_place zero (suc fuel) l e h =
      let at_end : l.current ≡ length l.modules = omega arith in
      let nothing : drop l.current l.modules ≡ [] =
        ap (λ k. drop k l.modules) at_end ∙ drop_all l.modules in
      rw ((==_iff l.current (length l.modules)).1 at_end, nothing) refl
  from_place (suc n) (suc fuel) l e h =
      let inside : l.current < length l.modules = omega arith in
      let (x, found, behind) = at_place l.current l.modules inside in
      let more : (l.current == length l.modules) ≡ false = ground (arith, inside) in
      let ih =
        from_place n fuel (record l { current = l.current + 1 }) (omega arith) (omega arith) in
      rw (more, ih, found, behind) refl

  -- The loop from the first element reads every module once, in the order of the list: as many rounds
  -- as there are modules, and one, are enough.
  pub loop_values-modules :
      (l : ModuleList A) (fuel : ℕ)
      → length l.modules < fuel
      → loop_values fuel (go_first l) ≡ some (ok l.modules)
  unfolding go_first
  loop_values-modules l fuel h = from_place (length l.modules) fuel (go_first l) (omega arith) h
