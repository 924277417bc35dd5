-- ===== src/Strutils/Tokens.antt =====
-- `stringtok` returns the words between separators.
use pandora_agent_win.Base.{
  ℕ, ◌≡◌, refl, sym, ap, ◌∙◌, true, false, List, [], ◌∷◌, ◌++◌, Option, none, some, ◌≢◌, arith,
  append-nil, append_assoc, All, All-append,
}
use pandora_agent_win.Text.{Str}
use pandora_agent_win.Strutils.{isseparator, stringtok_from, stringtok}

-- A word has no separator in it, and is not empty.
pub record IsWord (separators word : Str) : Type 0 where
  pub clean : All (λ c. isseparator c separators ≡ false) word
  pub ne_nil : word ≢ []

-- What a word that is being read must satisfy.
abbrev Pending : Str → Option Str → Type 0
Pending separators none = Unit
Pending separators (some w) = IsWord separators w

IsWord-concat :
    (separators w : Str) (c : ℕ)
    → All (λ c. isseparator c separators ≡ false) w
    → isseparator c separators ≡ false
    → IsWord separators (w ++ c ∷ [])
IsWord-concat seps [] c h n = record { clean = (n, tt); ne_nil = λ e. cc e }
IsWord-concat seps (x ∷ w) c h n = record {
  clean = All-append (λ c. isseparator c seps ≡ false) (x ∷ w) (c ∷ []) h (n, tt);
  ne_nil = λ e. cc e;
}

words_from :
    (seps : Str) (o : Option Str) (s : Str)
    → Pending seps o
    → All (IsWord seps) (stringtok_from seps o s)
unfolding stringtok_from
words_from seps none [] h = tt
words_from seps (some w) [] h = (h, tt)
words_from seps none (c ∷ s) h = ground (
  arith,
  words_from seps none s tt,
  words_from seps (some (c ∷ [])) s,
  IsWord-concat seps [] c tt,
)
words_from seps (some w) (c ∷ s) h = ground (
  arith,
  words_from seps none s tt,
  words_from seps (some (w ++ c ∷ [])) s,
  IsWord-concat seps w c h.clean,
)

-- Splitting stops at every separator: the words of two texts that a separator joins are the words
-- of the one, then those of the other.
stringtok_from-append :
    (seps : Str) (o : Option Str) (a : Str) (c : ℕ) (b : Str)
    → isseparator c seps ≡ true
    → stringtok_from seps o (a ++ c ∷ b) ≡ stringtok_from seps o a ++ stringtok_from seps none b
unfolding stringtok_from
stringtok_from-append seps none [] c b h = ground arith
stringtok_from-append seps (some w) [] c b h = ground arith
stringtok_from-append seps none (x ∷ a) c b h =
    ground (
      arith,
      stringtok_from-append seps none a c b,
      stringtok_from-append seps (some (x ∷ [])) a c b,
    )
stringtok_from-append seps (some w) (x ∷ a) c b h = ground (
  arith,
  stringtok_from-append seps none a c b,
  stringtok_from-append seps (some (w ++ x ∷ [])) a c b,
)

stringtok_from_clean :
    (seps w a : Str)
    → All (λ c. isseparator c seps ≡ false) a
    → stringtok_from seps (some w) a ≡ (w ++ a) ∷ []
unfolding stringtok_from
stringtok_from_clean seps w [] h = rw append-nil
stringtok_from_clean seps w (x ∷ a) h =
    rw (h.0, stringtok_from) (stringtok_from_clean seps (w ++ x ∷ []) a h.1 ∙ rw append_assoc)

-- Every token is a word.
pub stringtok-IsWord : (s seps : Str) → All (IsWord seps) (stringtok [] s seps)
unfolding stringtok
stringtok-IsWord s seps = words_from seps none s tt

-- Splitting stops at every separator: the words of two texts that a separator joins are the words
-- of the one, then those of the other, all behind what the list held.
pub stringtok-append :
    (l : List Str) (a b seps : Str) (c : ℕ)
    → isseparator c seps ≡ true
    → stringtok l (a ++ c ∷ b) seps ≡ stringtok (stringtok l a seps) b seps
unfolding stringtok
stringtok-append l a b seps c h =
    rw (stringtok_from-append seps none a c b h) (sym (append_assoc l _ _))

-- A word is its own only token.
pub stringtok_word :
    (l : List Str) (w seps : Str) → IsWord seps w → stringtok l w seps ≡ l ++ w ∷ []
unfolding stringtok
stringtok_word l [] seps h = absurd (h.ne_nil refl)
stringtok_word l (c ∷ w) seps h =
    rw (h.clean.0, stringtok_from) (rw (stringtok_from_clean seps (c ∷ []) w h.clean.1))

-- The words, each with the separator `c` behind it.
abbrev pub unwords : ℕ → List Str → Str
unwords c [] = []
unwords c (w ∷ ws) = w ++ c ∷ unwords c ws

-- The words of which the head of a text was made are split off, in order.
pub stringtok-unwords :
    (l ws : List Str) (s seps : Str) (c : ℕ)
    → isseparator c seps ≡ true
    → All (IsWord seps) ws
    → stringtok l (unwords c ws ++ s) seps ≡ stringtok (l ++ ws) s seps
stringtok-unwords l [] s seps c h k = rw append-nil
stringtok-unwords l (w ∷ ws) s seps c h k =
    ap (λ t. stringtok l t seps) (append_assoc w (c ∷ unwords c ws) s)
    ∙ stringtok-append l w (unwords c ws ++ s) seps c h
    ∙ ap (λ t. stringtok t (unwords c ws ++ s) seps) (stringtok_word l w seps k.0)
    ∙ stringtok-unwords (l ++ w ∷ []) ws s seps c h k.1
    ∙ ap (λ t. stringtok t s seps) (append_assoc l (w ∷ []) ws)
