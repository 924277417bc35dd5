-- ===== src/KeyValue/Lines.antt =====
-- The two forms of a line that `Key_Value::parseLine` documents, and the line that it cannot take.
use pandora_agent_win.Base.{
  ℕ, ◌≡◌, ◌≢◌, refl, sym, ap, ◌∙◌, true, false, List, [], ◌∷◌, ◌++◌, none, Option-cases, arith,
  append-nil, append_assoc, All, All-append, ◌==◌, ◌⊎◌, inl, inr,
}
use mathlib.Core.Path.{ap₂, subst}
use pandora_agent_win.Base.Result.{ok, err, undefined_behaviour}
use pandora_agent_win.KeyValue.{lower, last_of, from_tokens, parse_line}
use pandora_agent_win.Strutils.Tokens.{IsWord, unwords, stringtok-unwords, stringtok_word}
use pandora_agent_win.Strutils.Trim.{is_blank, AllBlank, IsTrimmed, core, trim_lem, trim_blank}
use pandora_agent_win.Strutils.{trim, isseparator, stringtok}
use pandora_agent_win.Text.{Str, bytes, find, is_prefix}

abbrev NoQuote : ℕ → Type 0
NoQuote c = (c == b'"') ≡ false

-- A byte of a token: no blank, no quotation mark, no terminator.
abbrev pub IsPlain : ℕ → Type 0
IsPlain c = (is_blank c ≡ false) × ((c == b'"') ≡ false) × ((c == 0) ≡ false)

pub record IsToken (w : Str) : Type 0 where
  pub plain : All IsPlain w
  pub ne_nil : w ≢ []

find_quote_none : (s : Str) → All (λ c. (c == b'"') ≡ false) s → find s (bytes "\"") ≡ none
unfolding find is_prefix
find_quote_none [] h = refl
find_quote_none (c ∷ s) h = ground (arith, find_quote_none s h.1)

find_quote_some : (a b : Str) → (find (a ++ b'"' ∷ b) (bytes "\"")) ≢ none
unfolding find is_prefix
find_quote_some [] b = ground arith
find_quote_some (c ∷ a) b = ground (arith, find_quote_some a b)

All-map {ℓ} :
    {A : Type ℓ} (P Q : A → Type 0) (xs : List A) → ((x : A) → P x → Q x) → All P xs → All Q xs
All-map P Q [] f h = tt
All-map P Q (x ∷ xs) f h = (f x h.0, All-map P Q xs f h.1)

-- A list that is not empty, cut before its last element.
last_split :
    (P : ℕ → Type 0) (w : Str) → w ≢ [] → All P w → (l : Str) × (d : ℕ) × (w ≡ l ++ d ∷ []) × P d
last_split P [] ne h = absurd (ne refl)
last_split P (x ∷ []) ne h = ([], x, refl, h.0)
last_split P (x ∷ y ∷ w) ne h =
    let (l, d, e, p) = last_split P (y ∷ w) (λ z. cc z) h.1 in (x ∷ l, d, ap (◌∷◌ x) e, p)

-- A text is trimmed if it begins with a token and ends with a byte that is not blank.
between : (k s : Str) (d : ℕ) → IsToken k → is_blank d ≡ false → IsTrimmed (k ++ (s ++ d ∷ []))
between [] s d t n = absurd (t.ne_nil refl)
between (c ∷ k) s d t n =
    core c (k ++ (s ++ d ∷ [])) ((c ∷ k) ++ s) d refl (sym (append_assoc (c ∷ k) s (d ∷ [])))
      t.plain.0.0 n

token-IsTrimmed : (w : Str) → IsToken w → IsTrimmed w
token-IsTrimmed [] t = absurd (t.ne_nil refl)
token-IsTrimmed (c ∷ w) t =
    let (l, d, e, p) = last_split IsPlain (c ∷ w) t.ne_nil t.plain in
    core c w l d refl e t.plain.0.0 p.0

trim_token : (w r : Str) → IsToken w → AllBlank r → trim (w ++ r) ≡ w
trim_token w r t b = trim_lem [] w r tt (token-IsTrimmed w t) b

is_blank-NoQuote : (c : ℕ) → is_blank c ≡ true → (c == b'"') ≡ false
is_blank-NoQuote c h = ground arith

is_blank_nonzero : (c : ℕ) → is_blank c ≡ true → (c == 0) ≡ false
is_blank_nonzero c h = ground arith

-- The separators of a line without quotation marks, and of one with them.
plain_separator : (c : ℕ) → IsPlain c → isseparator c (bytes " \t") ≡ false
unfolding isseparator
plain_separator c h = ground arith

quote_separator :
    (c : ℕ) → (c == b'"') ≡ false → (c == 0) ≡ false → isseparator c (bytes "\"") ≡ false
unfolding isseparator
quote_separator c h k = ground arith

token-IsWord : (w : Str) → IsToken w → IsWord (bytes " \t") w
token-IsWord w t = record {
  clean = All-map IsPlain (λ c. isseparator c (bytes " \t") ≡ false) w plain_separator t.plain;
  ne_nil = t.ne_nil;
}

tokens_NoQuote :
    (c : ℕ) (ms : List Str) → (c == b'"') ≡ false → All IsToken ms → All NoQuote (unwords c ms)
tokens_NoQuote c [] h t = tt
tokens_NoQuote c (m ∷ ms) h t =
    All-append NoQuote m (c ∷ unwords c ms) (All-map IsPlain NoQuote m (λ x p. p.1) t.0.plain)
      (h, tokens_NoQuote c ms h t.1)

last_of-append : (first : Str) (ms : List Str) (v : Str) → last_of first (ms ++ v ∷ []) ≡ v
last_of-append first [] v = refl
last_of-append first (m ∷ ms) v = last_of-append m ms v

from_tokens-append :
    (k v : Str) (ms : List Str)
    → from_tokens (k ∷ (ms ++ v ∷ [])) ≡ ok (record { key = lower (trim k); value = trim v })
from_tokens-append k v [] = refl
from_tokens-append k v (m ∷ ms) = rw (last_of-append m ms v)

module _ (k v : Str) (ms : List Str) (c : ℕ) (key : IsToken k) (last : IsToken v)
    (mid : All IsToken ms) (gap : (c ≡ b' ') ⊎ (c ≡ b'\t')) where
  abbrev plain_body : Str
  plain_body = unwords c (k ∷ ms) ++ v

  plain_body-IsTrimmed : IsTrimmed plain_body
  plain_body-IsTrimmed =
      let (l, d, e, p) = last_split IsPlain v last.ne_nil last.plain in
      let shape : plain_body ≡ k ++ ((c ∷ (unwords c ms ++ l)) ++ d ∷ []) =
        ap (λ t. unwords c (k ∷ ms) ++ t) e ∙ simp append_assoc in
      subst IsTrimmed (sym shape) (between k (c ∷ (unwords c ms ++ l)) d key p.0)

  find-plain_body : find plain_body (bytes "\"") ≡ none
  find-plain_body = find_quote_none plain_body (
      All-append NoQuote (unwords c (k ∷ ms)) v
        (tokens_NoQuote c (k ∷ ms) (ground arith) (key, mid))
        (All-map IsPlain NoQuote v (λ x p. p.1) last.plain))

  tokens_words : (ws : List Str) → All IsToken ws → All (IsWord (bytes " \t")) ws
  tokens_words [] t = tt
  tokens_words (w ∷ ws) t = (token-IsWord w t.0, tokens_words ws t.1)

  plain_tokens : stringtok [] plain_body (bytes " \t") ≡ k ∷ (ms ++ v ∷ [])
  plain_tokens =
      stringtok-unwords [] (k ∷ ms) v (bytes " \t") c (unfold isseparator in ground arith)
        (tokens_words (k ∷ ms) (key, mid))
      ∙ stringtok_word (k ∷ ms) v (bytes " \t") (token-IsWord v last)

  -- A line of two or more tokens, between each two a single blank, or a single tab, with blanks around
  -- the whole and no quotation mark: the key is the first token in lower case, and the value is the
  -- last token.
  pub parse_line_plain :
      (l r : Str)
      → AllBlank l
      → AllBlank r
      → parse_line (l ++ (plain_body ++ r)) ≡ ok (record { key = lower k; value = v })
  unfolding parse_line
  parse_line_plain l r hl hr = rw (trim_lem l plain_body r hl plain_body-IsTrimmed hr) (
      rw find-plain_body (
        ap from_tokens plain_tokens
        ∙ from_tokens-append k v ms
        ∙ ap₂ (λ a b. ok (record { key = lower a; value = b }))
            (rw append-nil at (trim_token k [] key tt))
            (rw append-nil at (trim_token v [] last tt))))

AllBlank-quote_clean : (g : Str) → AllBlank g → All (λ c. isseparator c (bytes "\"") ≡ false) g
AllBlank-quote_clean g h =
    All-map (λ c. is_blank c ≡ true) (λ c. isseparator c (bytes "\"") ≡ false) g
      (λ c b. quote_separator c (is_blank-NoQuote c b) (is_blank_nonzero c b)) h

-- What may stand between quotation marks: no quotation mark, and no terminator.
abbrev pub IsQuotable : ℕ → Type 0
IsQuotable c = ((c == b'"') ≡ false) × ((c == 0) ≡ false)

module _ (k g v : Str) (key : IsToken k) (gap : AllBlank g) (quotable : All IsQuotable v)
    (ne : v ≢ []) where
  abbrev quoted_body : Str
  quoted_body = k ++ ((g ++ b'"' ∷ v) ++ b'"' ∷ [])

  regroup_quoted : quoted_body ≡ unwords b'"' ((k ++ g) ∷ v ∷ []) ++ []
  regroup_quoted = simp (append_assoc, append-nil)

  quoted_find : find quoted_body (bytes "\"") ≢ none
  quoted_find =
      let e : quoted_body ≡ (k ++ g) ++ b'"' ∷ (v ++ b'"' ∷ []) = simp append_assoc in
      rw e (find_quote_some (k ++ g) (v ++ b'"' ∷ []))

  key_IsWord : IsWord (bytes "\"") (k ++ g)
  key_IsWord = record {
    clean =
        All-append (λ c. isseparator c (bytes "\"") ≡ false) k g
          (All-map IsPlain (λ c. isseparator c (bytes "\"") ≡ false) k
            (λ c p. quote_separator c p.1 p.2) key.plain)
          (AllBlank-quote_clean g gap);
    ne_nil = nonempty k key;
  }
    where
      nonempty : (w : Str) → IsToken w → w ++ g ≢ []
      nonempty [] t = absurd (t.ne_nil refl)
      nonempty (x ∷ w) t = λ e. cc e

  value_IsWord : IsWord (bytes "\"") v
  value_IsWord = record {
    clean =
        All-map IsQuotable (λ c. isseparator c (bytes "\"") ≡ false) v
          (λ c p. quote_separator c p.0 p.1) quotable;
    ne_nil = ne;
  }

  quoted_tokens : stringtok [] quoted_body (bytes "\"") ≡ (k ++ g) ∷ v ∷ []
  quoted_tokens =
      ap (λ t. stringtok [] t (bytes "\"")) regroup_quoted
      ∙ stringtok-unwords [] ((k ++ g) ∷ v ∷ []) [] (bytes "\"") b'"' (unfold isseparator in refl)
          (key_IsWord, (value_IsWord, tt))
      ∙ unfold stringtok in append-nil _

  -- A line with a key and a value that is not empty between quotation marks, with blanks around the
  -- whole: the key is the token in lower case, and the value is the quoted text, with the blanks in it
  -- but not those at its ends.
  pub parse_line_quoted :
      (l r : Str)
      → AllBlank l
      → AllBlank r
      → parse_line (l ++ (quoted_body ++ r)) ≡ ok (record { key = lower k; value = trim v })
  unfolding parse_line
  parse_line_quoted l r hl hr = elim (Option-cases (find quoted_body (bytes "\""))) [
    | inl e ↦ absurd (quoted_find e)
    | inr (i, e) ↦ rw (trim_lem l quoted_body r hl (between k (g ++ b'"' ∷ v) b'"' key refl) hr) (
        rw e (
          ap from_tokens quoted_tokens
          ∙ ap (λ a. ok (record { key = lower a; value = trim v })) (trim_token k g key gap)))
  ]

-- On a line of blanks alone the token list is empty, and its first element is read all the same.
pub parse_line_blank : (s : Str) → AllBlank s → parse_line s ≡ err undefined_behaviour
unfolding parse_line
parse_line_blank s h = rw (trim_blank s h) (unfold find is_prefix stringtok in refl)
