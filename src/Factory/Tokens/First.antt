-- ===== src/Factory/Tokens/First.antt =====
-- What the loop over the lines leaves in the variables.
use pandora_agent_win.Base.{
  ◌≡◌, ◌≢◌, ◌↔◌, refl, sym, ap, ◌∙◌, List, [], ◌∷◌, ◌++◌, ◌⊎◌, inl, inr, arith, append-nil,
  append_assoc, if◌then◌else◌, length, drop, drop_append, Bool-cases,
}
use pandora_agent_win.Factory.Tokens.{
  Token, token_text, Definition, parse_line_token, read_line, read_lines, read_definition,
  push_parsed, or_space, empty_definition, precondition_text, condition_text,
  intensive_condition_text, macro_text,
}
use pandora_agent_win.Strutils.{trim, stringtok}
use pandora_agent_win.Text.Laws.{is_prefix-split, is_prefix-append}
use pandora_agent_win.Text.{Str, is_empty, is_prefix}

-- The first line that gives a value for the token gives its value.
abbrev pub first_value : Str → List Str → Str
first_value token [] = []
first_value token (l ∷ ls) =
    let rest = first_value token ls in
    let value = parse_line_token (trim l) token in if is_empty value then rest else value

-- All values that the lines give for the token, in order.
abbrev pub all_values : Str → List Str → List Str
all_values token [] = []
all_values token (l ∷ ls) =
    let rest = all_values token ls in
    let value = parse_line_token (trim l) token in if is_empty value then rest else value ∷ rest

is_empty_nil : (s : Str) → s ≡ (if is_empty s then [] else s)
is_empty_nil [] = refl
is_empty_nil (c ∷ s) = refl

read_lines-token_value :
    (ls : List Str) (d : Definition) (t : Token)
    → (read_lines d ls).token_value t
      ≡ (if is_empty (d.token_value t) then first_value (token_text t) ls else d.token_value t)
unfolding read_lines read_line
read_lines-token_value [] d t = is_empty_nil (d.token_value t)
read_lines-token_value (l ∷ ls) d t =
    ground (arith, read_lines-token_value ls (read_line d (trim l)) t)

-- The queues of a definition that lines were added to, from what they held before.
abbrev Queued : Definition → Definition → List Str → Type 0
Queued d d' ls =
    (d'.precondition_list ≡ d.precondition_list ++ all_values precondition_text ls)
    × (d'.condition_list ≡ d.condition_list ++ all_values condition_text ls)
    × (d'.intensive_condition_list
        ≡ d.intensive_condition_list ++ all_values intensive_condition_text ls)
    × (d'.macro_list ≡ d.macro_list ++ all_values macro_text ls)

push_all :
    (l : List Str) (value : Str) (rest : List Str)
    → push_parsed l value ++ rest ≡ l ++ (if is_empty value then rest else value ∷ rest)
push_all l [] rest = refl
push_all l (c ∷ value) rest = append_assoc l ((c ∷ value) ∷ []) rest

read_lines-Queued : (ls : List Str) (d : Definition) → Queued d (read_lines d ls) ls
unfolding read_lines read_line
read_lines-Queued [] d =
    (sym (append-nil _), sym (append-nil _), sym (append-nil _), sym (append-nil _))
read_lines-Queued (l ∷ ls) d =
    let (a, b, c, e) = read_lines-Queued ls (read_line d (trim l)) in
    (
      a ∙ push_all d.precondition_list _ _,
      b ∙ push_all d.condition_list _ _,
      c ∙ push_all d.intensive_condition_list _ _,
      e ∙ push_all d.macro_list _ _,
    )

abbrev pub lines_of : Str → List Str
lines_of definition = stringtok [] definition (b'\n' ∷ [])

-- The value of a token is what the first of the trimmed lines that gives one gives; each of the four
-- queues holds what all of the lines give, in order.
pub read_definition_lem :
    (definition : Str) (t : Token)
    → ((read_definition definition).token_value t
        ≡ first_value (token_text t) (lines_of definition))
      × ((read_definition definition).precondition_list
          ≡ all_values precondition_text (lines_of definition))
      × ((read_definition definition).condition_list
          ≡ all_values condition_text (lines_of definition))
      × ((read_definition definition).intensive_condition_list
          ≡ all_values intensive_condition_text (lines_of definition))
      × ((read_definition definition).macro_list ≡ all_values macro_text (lines_of definition))
unfolding read_definition
read_definition_lem definition t =
    let (a, b, c, e) = read_lines-Queued (lines_of definition) empty_definition in
    (read_lines-token_value (lines_of definition) empty_definition t, a, b, c, e)

-- A line gives the value `v`, which is not empty, for a token exactly if it is the token followed by
-- `v`, or is the token alone and `v` is one blank.
pub parse_line_token_iff :
    (line token v : Str)
    → v ≢ []
    → (parse_line_token line token ≡ v) ↔ ((line ≡ token ++ v) ⊎ ((line ≡ token) × (v ≡ b' ' ∷ [])))
unfolding parse_line_token
parse_line_token_iff line token v ne = (reads, λ h. written h)
  where
    rest :
        (r : Str)
        → line ≡ token ++ r
        → or_space r ≡ v
        → (line ≡ token ++ v) ⊎ ((line ≡ token) × (v ≡ b' ' ∷ []))
    rest [] e h = inr (e ∙ append-nil token, sym h)
    rest (c ∷ r) e h = inl (e ∙ ap (λ x. token ++ x) h)

    reads :
        parse_line_token line token ≡ v → (line ≡ token ++ v) ⊎ ((line ≡ token) × (v ≡ b' ' ∷ []))
    reads h = elim (Bool-cases (is_prefix token line)) [
      | inl p ↦ rest (drop (length token) line) (is_prefix-split token line p) (rw p at h)
      | inr n ↦ absurd (ne (sym (rw n at h)))
    ]

    spaced : (r : Str) → r ≢ [] → or_space r ≡ r
    spaced [] n = absurd (n refl)
    spaced (c ∷ r) n = refl

    written :
        (line ≡ token ++ v) ⊎ ((line ≡ token) × (v ≡ b' ' ∷ [])) → parse_line_token line token ≡ v
    written (inl e) = rw (e, is_prefix-append token v, drop_append token v) (spaced v ne)
    written (inr (e, b)) =
        rw (e ∙ sym (append-nil token), is_prefix-append token [], drop_append token []) (sym b)
