-- ===== src/Strutils/Trim.antt =====
-- `trim` removes the blanks at both ends, and nothing else.
use pandora_agent_win.Base.{
  ℕ, suc, ◌≡◌, refl, sym, ap, ◌∙◌, ◌⊎◌, inl, inr, Bool-cases, Bool, true, false, [], ◌∷◌, ◌++◌,
  none, some, arith, append_assoc, length, take, All, All-append, drop_append,
}
use pandora_agent_win.Text.{Str, contains, find_first_not_of, find_last_not_of}
use pandora_agent_win.Strutils.{blanks, erase_tail, erase_head, trim}

abbrev pub is_blank : ℕ → Bool
is_blank = contains blanks

abbrev pub AllBlank : Str → Type 0
AllBlank = All (λ c. is_blank c ≡ true)

-- The text is empty, or its first and its last byte are not blank.
pub data IsTrimmed (t : Str) : Type 0 where
  empty : t ≡ [] → IsTrimmed t
  core :
      (c : ℕ) (r l : Str) (d : ℕ)
      → t ≡ c ∷ r
      → t ≡ l ++ d ∷ []
      → is_blank c ≡ false
      → is_blank d ≡ false
      → IsTrimmed t

find_first-blank :
    (l : Str) (c : ℕ) (s : Str)
    → AllBlank l
    → is_blank c ≡ false
    → find_first_not_of (l ++ c ∷ s) blanks ≡ some (length l)
unfolding find_first_not_of
find_first-blank [] c s h n = ground arith
find_first-blank (x ∷ l) c s h n = ground (arith, find_first-blank l c s h.1 n)

find_first_none : (l : Str) → AllBlank l → find_first_not_of l blanks ≡ none
unfolding find_first_not_of
find_first_none [] h = refl
find_first_none (x ∷ l) h = ground (arith, find_first_none l h.1)

find_last_none : (l : Str) → AllBlank l → find_last_not_of l blanks ≡ none
unfolding find_last_not_of
find_last_none [] h = refl
find_last_none (x ∷ l) h = ground (arith, find_last_none l h.1)

find_last-blank :
    (l : Str) (d : ℕ) (r : Str)
    → is_blank d ≡ false
    → AllBlank r
    → find_last_not_of (l ++ d ∷ r) blanks ≡ some (length l)
unfolding find_last_not_of
find_last-blank [] d r n h = ground (arith, find_last_none r h)
find_last-blank (x ∷ l) d r n h = ground (arith, find_last-blank l d r n h)

take_through : (l : Str) (d : ℕ) (r : Str) → take (suc (length l)) (l ++ d ∷ r) ≡ l ++ d ∷ []
take_through [] d r = refl
take_through (x ∷ l) d r = ap (◌∷◌ x) (take_through l d r)

erase_tail-blank :
    (l : Str) (d : ℕ) (r : Str)
    → is_blank d ≡ false
    → AllBlank r
    → erase_tail (l ++ d ∷ r) (find_last_not_of (l ++ d ∷ r) blanks) ≡ l ++ d ∷ []
unfolding erase_tail
erase_tail-blank l d r n h = rw (find_last-blank l d r n h) (take_through l d r)

erase_head-blank :
    (l : Str) (c : ℕ) (s : Str)
    → AllBlank l
    → is_blank c ≡ false
    → erase_head (l ++ c ∷ s) (find_first_not_of (l ++ c ∷ s) blanks) ≡ c ∷ s
unfolding erase_head
erase_head-blank l c s h n = rw (find_first-blank l c s h n) (drop_append l (c ∷ s))

pub trim_blank : (s : Str) → AllBlank s → trim s ≡ []
unfolding trim
trim_blank s h = rw (find_last_none s h, erase_tail, find_first_none s h, erase_head)

-- Blanks around a text that neither begins nor ends with one are removed, and nothing else is.
pub trim_lem : (l t r : Str) → AllBlank l → IsTrimmed t → AllBlank r → trim (l ++ (t ++ r)) ≡ t
trim_lem l t r hl (empty e) hr =
    rw e (trim_blank (l ++ r) (All-append (λ c. is_blank c ≡ true) l r hl hr))
trim_lem l t r hl (core c s k d ec ed nc nd) hr =
    let whole : l ++ (t ++ r) ≡ (l ++ k) ++ d ∷ r = rw ed (simp append_assoc) in
    let cut : (l ++ k) ++ d ∷ [] ≡ l ++ c ∷ s =
      append_assoc l k (d ∷ []) ∙ ap (λ x. l ++ x) (sym ed ∙ ec) in
    rw whole (trimmed cut) ∙ sym ec
  where
    trimmed : (l ++ k) ++ d ∷ [] ≡ l ++ c ∷ s → trim ((l ++ k) ++ d ∷ r) ≡ c ∷ s
    trimmed cut =
        unfold trim in
        rw (erase_tail-blank (l ++ k) d r nd hr) (rw cut (erase_head-blank l c s hl nc))

-- A text `s` with `mid` cut out of it between blanks.
pub record Cut (s mid : Str) : Type 0 where
  pub left : Str
  pub right : Str
  pub splits : s ≡ left ++ (mid ++ right)
  pub left_blank : AllBlank left
  pub right_blank : AllBlank right
  pub trimmed : IsTrimmed mid

LastOf : Str → Type 0
LastOf s =
    AllBlank s
    ⊎ ((l : Str) × (d : ℕ) × (r : Str) × (s ≡ l ++ d ∷ r) × (is_blank d ≡ false) × AllBlank r)

last_of : (s : Str) → LastOf s
unfolding LastOf
last_of [] = inl tt
last_of (c ∷ s) = elim (last_of s) [
  | inr (l, d, r, e, n, b) ↦ inr (c ∷ l, d, r, ap (◌∷◌ c) e, n, b)
  | inl b ↦ elim (Bool-cases (is_blank c)) [
    | inl y ↦ inl (y, b)
    | inr n ↦ inr ([], c, s, refl, n, b)
  ]
]

without_leading : (c : ℕ) (s : Str) → is_blank c ≡ false → (mid : Str) × Cut (c ∷ s) mid
unfolding LastOf
without_leading c s n = elim (last_of s) [
  | inl b ↦ (
    c ∷ [],
    record {
      left = [];
      right = s;
      splits = refl;
      left_blank = tt;
      right_blank = b;
      trimmed = core c [] [] c refl refl n n;
    },
  )
  | inr (l, d, r, e, m, b) ↦ (
    c ∷ (l ++ d ∷ []),
    record {
      left = [];
      right = r;
      splits = ap (◌∷◌ c) (e ∙ sym (append_assoc l (d ∷ []) r));
      left_blank = tt;
      right_blank = b;
      trimmed = core c (l ++ d ∷ []) (c ∷ l) d refl refl n m;
    },
  )
]

cut : (s : Str) → (mid : Str) × Cut s mid
cut [] = (
  [],
  record {
    left = [];
    right = [];
    splits = refl;
    left_blank = tt;
    right_blank = tt;
    trimmed = empty refl;
  },
)
cut (c ∷ s) = elim (Bool-cases (is_blank c)) [
  | inr n ↦ without_leading c s n
  | inl y ↦
      let (mid, k) = cut s in
      (
        mid,
        record {
          left = c ∷ k.left;
          right = k.right;
          splits = ap (◌∷◌ c) k.splits;
          left_blank = (y, k.left_blank);
          right_blank = k.right_blank;
          trimmed = k.trimmed;
        },
      )
]

-- Every text is its trimmed text between blanks, and the trimmed text neither begins nor ends
-- with a blank.
pub trim-Cut : (s : Str) → Cut s (trim s)
trim-Cut s =
    let (mid, k) = cut s in
    let e : trim s ≡ mid =
      ap trim k.splits ∙ trim_lem k.left mid k.right k.left_blank k.trimmed k.right_blank in
    rw e k
