-- ===== src/Strutils/Replace.antt =====
-- `strreplace` replaces the leftmost occurrences one after the other, and stops.
use pandora_agent_win.Base.{
  ℕ, zero, suc, ◌+◌, ◌≤◌, ◌<◌, ◌≡◌, ◌≢◌, refl, sym, ap, ◌∙◌, false, [], ◌∷◌, ◌++◌, none, some, inl,
  inr, arith, append_assoc, Option-cases, length, take, drop, drop_append, length-append, ◌==◌,
  if◌then◌else◌,
}
use pandora_agent_win.Text.{Str, is_prefix, find, replace_at}
use pandora_agent_win.Text.Laws.{find-split, find_leftmost, find-none, find-lt}
use pandora_agent_win.Strutils.{replace_from, strreplace}

-- No occurrence of the pattern begins in `s` before `k`.
abbrev pub NoneBefore : Str → Str → ℕ → Type 0
NoneBefore pattern s k = (i : ℕ) → i < k → is_prefix pattern (drop i s) ≡ false

-- `t` is `s` with every occurrence of the pattern replaced, from the left and without overlap.
pub data Replaced (pattern rep : Str) : Str → Str → Type 0 where
  absent : {s : Str} → ((i : ℕ) → is_prefix pattern (drop i s) ≡ false) → Replaced pattern rep s s
  present :
      {s t : Str} (pre post t' : Str)
      → s ≡ pre ++ (pattern ++ post)
      → NoneBefore pattern s (length pre)
      → Replaced pattern rep post t'
      → t ≡ pre ++ (rep ++ t')
      → Replaced pattern rep s t

length_prefix : (pre s : Str) (k : ℕ) → k ≤ length s → length (take k s) ≡ k
length_prefix pre s zero h = refl
length_prefix pre [] (suc k) h = absurd (omega arith)
length_prefix pre (x ∷ s) (suc k) h = ap suc (length_prefix pre s k (omega arith))

-- One replacement at `length pre + k` in `pre ++ s`, where the pattern begins at `k` in `s`.
replace_at_append :
    (pre s rep : Str) (k n : ℕ)
    → replace_at (pre ++ s) (length pre + k) n rep ≡ pre ++ (take k s ++ (rep ++ drop (k + n) s))
replace_at_append [] s rep k n = let e : 0 + k ≡ k = omega arith in rw e
replace_at_append (x ∷ pre) s rep k n =
    let e : suc (length pre) + k ≡ suc (length pre + k) = omega arith in
    let e' : suc (length pre) + k + n ≡ suc (length pre + k + n) = omega arith in
    rw (e', e) (ap (◌∷◌ x) (replace_at_append pre s rep k n))

replace_from_stop :
    (fuel i : ℕ) (s p rep : Str)
    → find (drop (i + length rep) (replace_at s i (length p) rep)) p ≡ none
    → replace_from (suc fuel) s i p rep ≡ some (replace_at s i (length p) rep)
unfolding replace_from
replace_from_stop fuel i s p rep h = rw (h, replace_from)

replace_from_next :
    (fuel i j : ℕ) (s p rep : Str)
    → find (drop (i + length rep) (replace_at s i (length p) rep)) p ≡ some j
    → replace_from (suc fuel) s i p rep
      ≡ replace_from fuel (replace_at s i (length p) rep) (i + length rep + j) p rep
unfolding replace_from
replace_from_next fuel i j s p rep h = rw (h, replace_from)

length_rest :
    (s p : Str) (k : ℕ)
    → find s p ≡ some k
    → length (take k s) + length p + length (drop (k + length p) s) ≡ length s
length_rest s p k h =
    let pieces = length-append (take k s) (p ++ drop (k + length p) s) in
    let inner = length-append p (drop (k + length p) s) in
    omega (arith, ap length (find-split s p k h), pieces, inner)

0-lt-length : (p : Str) → p ≢ [] → 0 < length p
0-lt-length [] h = absurd (h refl)
0-lt-length (x ∷ p) h = omega arith

module _ (p rep : Str) (ne : p ≢ []) where
  abbrev Result : ℕ → Str → Str → ℕ → Type 0
  Result fuel pre s k =
      (t : Str) × (replace_from fuel (pre ++ s) (length pre + k) p rep ≡ some (pre ++ t))
      × Replaced p rep s t

  -- The text in front of the place where the search goes on.
  abbrev done : Str → Str → ℕ → Str
  done pre s k = pre ++ (take k s ++ rep)

  after : Str → ℕ → Str
  after s k = drop (k + length p) s

  regroup :
      (pre s : Str) (k : ℕ)
      → replace_at (pre ++ s) (length pre + k) (length p) rep ≡ done pre s k ++ after s k
  unfolding after
  regroup pre s k = replace_at_append pre s rep k (length p) ∙ simp append_assoc

  length-done :
      (pre s : Str) (k : ℕ) → k ≤ length s → length pre + k + length rep ≡ length (done pre s k)
  length-done pre s k h = omega (
    arith,
    length-append pre (take k s ++ rep),
    length-append (take k s) rep,
    length_prefix pre s k h,
  )

  rest_of :
      (pre s : Str) (k : ℕ)
      → k ≤ length s
      → drop (length pre + k + length rep) (replace_at (pre ++ s) (length pre + k) (length p) rep)
        ≡ after s k
  rest_of pre s k h =
      rw (length-done pre s k h, regroup pre s k) (drop_append (done pre s k) (after s k))

  shorter : (s : Str) (k : ℕ) → find s p ≡ some k → length (after s k) < length s
  unfolding after
  shorter s k h = omega (arith, length_rest s p k h, 0-lt-length p ne)

  replace_once :
      (s t : Str) (k : ℕ)
      → find s p ≡ some k
      → Replaced p rep (after s k) t
      → Replaced p rep s ((take k s ++ rep) ++ t)
  unfolding after
  replace_once s t k h r =
      present (take k s) (drop (k + length p) s) t (find-split s p k h)
        (λ i l. find_leftmost s p k i h (omega (arith, length_prefix s s k (find-lt s p k h)))) r
        (append_assoc (take k s) rep t)

  find_rest :
      (pre s : Str) (k : ℕ)
      → find s p ≡ some k
      → find
          (drop
            (length pre + k + length rep)
            (replace_at (pre ++ s) (length pre + k) (length p) rep))
          p
        ≡ find (after s k) p
  find_rest pre s k h = ap (λ t. find t p) (rest_of pre s k (find-lt s p k h))

  replace_from_lem :
      (fuel : ℕ) (pre s : Str) (k : ℕ) → length s < fuel → find s p ≡ some k → Result fuel pre s k
  replace_from_lem zero pre s k l h = absurd (omega arith)
  replace_from_lem (suc fuel) pre s k l h = elim (Option-cases (find (after s k) p)) [
    | inl e ↦ (
      (take k s ++ rep) ++ after s k,
      replace_from_stop fuel (length pre + k) (pre ++ s) p rep (find_rest pre s k h ∙ e)
          ∙ ap some (regroup pre s k ∙ append_assoc pre (take k s ++ rep) (after s k)),
      replace_once s (after s k) k h (absent (λ i. find-none (after s k) p i e)),
    )
    | inr (j, e) ↦
        let (t, run, r) =
          replace_from_lem fuel (done pre s k) (after s k) j (omega (arith, shorter s k h)) e in
        (
          (take k s ++ rep) ++ t,
          replace_from_next fuel (length pre + k) j (pre ++ s) p rep (find_rest pre s k h ∙ e)
              ∙ rw (length-done pre s k (find-lt s p k h), regroup pre s k)
                  (run ∙ ap some (append_assoc pre (take k s ++ rep) t)),
          replace_once s t k h r,
        )
  ]

  -- For a pattern that is not empty the loop ends within as many rounds as the text has bytes, and
  -- one; the result is the text with every occurrence replaced, from the left and without overlap.
  pub strreplace-Replaced :
      (s : Str) (fuel : ℕ)
      → length s < fuel
      → (t : Str) × (strreplace fuel s p rep ≡ some t) × Replaced p rep s t
  unfolding strreplace
  strreplace-Replaced s fuel l = elim (Option-cases (find s p)) [
    | inl e ↦ (s, rw (e, strreplace), absent (λ i. find-none s p i e))
    | inr (k, e) ↦
        let (t, run, r) = replace_from_lem fuel [] s k l e in
        let z : 0 + k ≡ k = omega arith in (t, rw (e, strreplace) (rw z at run), r)
  ]

find_empty : (s : Str) → find s [] ≡ some 0
unfolding find
find_empty [] = refl
find_empty (c ∷ s) = refl

replace_from_empty : (fuel : ℕ) (s : Str) (i : ℕ) (rep : Str) → replace_from fuel s i [] rep ≡ none
unfolding replace_from
replace_from_empty zero s i rep = refl
replace_from_empty (suc fuel) s i rep =
    rw (find_empty _, replace_from) (replace_from_empty fuel _ _ rep)

-- With an empty pattern the loop of `strreplace` never ends.
pub strreplace_empty : (fuel : ℕ) (s rep : Str) → strreplace fuel s [] rep ≡ none
unfolding strreplace
strreplace_empty fuel s rep = rw (find_empty s, strreplace) (replace_from_empty fuel s 0 rep)

-- Every `%` doubled.
abbrev pub doubled : Str → Str
doubled [] = []
doubled (c ∷ s) = if c == b'%' then b'%' ∷ b'%' ∷ doubled s else c ∷ doubled s

abbrev percent : Str
percent = b'%' ∷ []

doubled_absent : (s : Str) → ((i : ℕ) → is_prefix percent (drop i s) ≡ false) → doubled s ≡ s
unfolding is_prefix
doubled_absent [] h = refl
doubled_absent (c ∷ s) h = ground (arith, h 0, doubled_absent s (λ i. h (suc i)))

doubled_present :
    (pre post : Str)
    → NoneBefore percent (pre ++ (percent ++ post)) (length pre)
    → doubled (pre ++ (percent ++ post)) ≡ pre ++ (b'%' ∷ b'%' ∷ doubled post)
unfolding is_prefix
doubled_present [] post h = refl
doubled_present (c ∷ pre) post h =
    ground (arith, h 0 (omega arith), doubled_present pre post (λ i l. h (suc i) (omega arith)))

Replaced-doubled : {s t : Str} → Replaced percent (b'%' ∷ b'%' ∷ []) s t → t ≡ doubled s
Replaced-doubled (absent {s} h) = sym (doubled_absent s h)
Replaced-doubled (present {s} {t} pre post t' e n r e') =
    e'
    ∙ ap (λ x. pre ++ (b'%' ∷ b'%' ∷ x)) (Replaced-doubled r)
    ∙ sym (doubled_present pre post (rw e at n))
    ∙ ap doubled (sym e)

-- The escaping of `%` that the XML output uses: each one is doubled.
pub strreplace-percent :
    (s : Str) (fuel : ℕ)
    → length s < fuel
    → strreplace fuel s percent (b'%' ∷ b'%' ∷ []) ≡ some (doubled s)
strreplace-percent s fuel h =
    let (t, run, r) = strreplace-Replaced percent (b'%' ∷ b'%' ∷ []) (λ e. cc e) s fuel h in
    run ∙ ap some (Replaced-doubled r)
