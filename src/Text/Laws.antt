-- ===== src/Text/Laws.antt =====
-- Laws of the string operations: equality decides, and `find` finds the leftmost occurrence.
use pandora_agent_win.Base.{
  ℕ, zero, suc, ◌+◌, ◌≤◌, ◌<◌, ◌≡◌, refl, sym, ap, ◌∙◌, ◌↔◌, inl, inr, true, false, [], ◌∷◌, ◌++◌,
  none, some, arith, Bool-cases, length, take, drop, take-append-drop, drop-drop,
}
use pandora_agent_win.Text.{Str, eq_str, is_prefix, find}

pub eq_str_iff : (a b : Str) → (eq_str a b ≡ true) ↔ (a ≡ b)
unfolding eq_str
eq_str_iff (x ∷ a) (y ∷ b) = ground (arith, eq_str_iff a b)
eq_str_iff _ _ = ground arith

pub is_prefix-split : (p s : Str) → is_prefix p s ≡ true → s ≡ p ++ drop (length p) s
unfolding is_prefix
is_prefix-split [] s h = refl
is_prefix-split (x ∷ p) [] h = cc
is_prefix-split (x ∷ p) (c ∷ s) h = ground (arith, is_prefix-split p s)

pub is_prefix-append : (p s : Str) → is_prefix p (p ++ s) ≡ true
unfolding is_prefix
is_prefix-append [] s = refl
is_prefix-append (x ∷ p) s = ground (arith, is_prefix-append p s)

pub find-is_prefix : (s p : Str) (k : ℕ) → find s p ≡ some k → is_prefix p (drop k s) ≡ true
unfolding find
find-is_prefix [] p zero h = ground arith
find-is_prefix [] p (suc k) h = ground arith
find-is_prefix (c ∷ s) p zero h = ground arith
find-is_prefix (c ∷ s) p (suc k) h = ground (arith, find-is_prefix s p k)

-- No occurrence begins before the one that is found.
pub find_leftmost :
    (s p : Str) (k i : ℕ) → find s p ≡ some k → i < k → is_prefix p (drop i s) ≡ false
unfolding find
find_leftmost [] p k i h l = ground arith
find_leftmost (c ∷ s) p zero i h l = absurd (omega arith)
find_leftmost (c ∷ s) p (suc k) zero h l = ground arith
find_leftmost (c ∷ s) p (suc k) (suc i) h l = ground (arith, find_leftmost s p k i)

-- Where nothing is found, no occurrence begins anywhere, the end included.
pub find-none : (s p : Str) (i : ℕ) → find s p ≡ none → is_prefix p (drop i s) ≡ false
unfolding find
find-none [] p zero h = ground arith
find-none [] p (suc i) h = ground arith
find-none (c ∷ s) p zero h = ground arith
find-none (c ∷ s) p (suc i) h = ground (arith, find-none s p i)

-- The text in front of the occurrence, the occurrence, and the rest.
pub find-split :
    (s p : Str) (k : ℕ) → find s p ≡ some k → s ≡ take k s ++ (p ++ drop (k + length p) s)
find-split s p k h =
    sym (take-append-drop k s)
    ∙ ap (λ t. take k s ++ t)
        (is_prefix-split p (drop k s) (find-is_prefix s p k h)
          ∙ ap (λ t. p ++ t) (drop-drop k (length p) s))

pub find-lt : (s p : Str) (k : ℕ) → find s p ≡ some k → k ≤ length s
unfolding find
find-lt [] p k h = ground arith
find-lt (c ∷ s) p zero h = omega arith
find-lt (c ∷ s) p (suc k) h = ground (arith, find-lt s p k)

is_prefix_longer : (p s r : Str) → is_prefix p s ≡ true → is_prefix p (s ++ r) ≡ true
unfolding is_prefix
is_prefix_longer [] s r h = refl
is_prefix_longer (x ∷ p) [] r h = cc
is_prefix_longer (x ∷ p) (c ∷ s) r h = ground (arith, is_prefix_longer p s r)

find_longer : (s p r : Str) → find (s ++ r) p ≡ none → find s p ≡ none
unfolding find
find_longer [] p r h = elim (Bool-cases (is_prefix p [])) [
  | inr e ↦ rw e
  | inl e ↦ absurd (found_at_head r (is_prefix_longer p [] r e) h)
]
  where
    found_at_head : (r : Str) → is_prefix p r ≡ true → find r p ≡ none → ⊥
    found_at_head [] e h = ground arith
    found_at_head (c ∷ r) e h = ground arith
find_longer (c ∷ s) p r h = ground (arith, find_longer s p r, is_prefix_longer p (c ∷ s) r)

find_later : (l s p : Str) → find (l ++ s) p ≡ none → find s p ≡ none
unfolding find
find_later [] s p h = h
find_later (c ∷ l) s p h = ground (arith, find_later l s p)

-- What does not occur in a text occurs in no part of it.
pub find_infix : (l m r p : Str) → find (l ++ (m ++ r)) p ≡ none → find m p ≡ none
find_infix l m r p h = find_longer m p r (find_later l (m ++ r) p h)
