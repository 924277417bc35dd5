-- ===== src/Conf/File/Values.antt =====
-- The values that a configuration file sets: what an earlier line has set, no later line changes.
use pandora_agent_win.Base.{
  ◌≡◌, ◌≢◌, refl, sym, ap, ◌∙◌, List, [], ◌∷◌, ◌++◌, arith, append-nil, append_assoc, Bool-cases,
  inl, inr,
}
use pandora_agent_win.Base.Result.{ok, >>=-eq-ok, ok-injective}
use pandora_agent_win.Conf.Defs.{Conf, Files, get_value, get_value_in}
use pandora_agent_win.Conf.File.{
  set_file_line, set_file_lines, include_line, value_line, is_significant,
}
use pandora_agent_win.KeyValue.{KeyValue}
use pandora_agent_win.Text.{Str}

-- A line adds entries behind those that are there.
set_file_line_extends :
    (files : Files) (buffer : Str) (conf conf' : Conf)
    → set_file_line files buffer conf ≡ ok conf'
    → (kvs : List KeyValue) × (conf'.key_values ≡ conf.key_values ++ kvs)
unfolding set_file_line
set_file_line_extends files buffer conf conf' h = elim (Bool-cases (is_significant buffer)) [
  | inr e ↦ ([], ap (λ c. c.key_values) (sym (ok-injective (rw e at h))) ∙ sym (append-nil _))
  | inl e ↦
      let (included, p, h') = >>=-eq-ok (include_line files buffer) _ (rw e at h) in
      let (found, q, r) = >>=-eq-ok (value_line buffer) _ h' in
      (found.1, ap (λ c. c.key_values) (sym (ok-injective r)))
]

set_file_lines_extends :
    (files : Files) (ls : List Str) (conf conf' : Conf)
    → set_file_lines files ls conf ≡ ok conf'
    → (kvs : List KeyValue) × (conf'.key_values ≡ conf.key_values ++ kvs)
unfolding set_file_lines
set_file_lines_extends files [] conf conf' h =
    ([], ap (λ c. c.key_values) (sym (ok-injective h)) ∙ sym (append-nil _))
set_file_lines_extends files (l ∷ ls) conf conf' h =
    let (mid, p, r) = >>=-eq-ok (set_file_line files l conf) _ h in
    let (a, e) = set_file_line_extends files l conf mid p in
    let (b, e') = set_file_lines_extends files ls mid conf' r in
    (a ++ b, e' ∙ ap (λ t. t ++ b) e ∙ append_assoc conf.key_values a b)

get_value_in-append :
    (a b : List KeyValue) (key : Str)
    → get_value_in a key ≢ []
    → get_value_in (a ++ b) key ≡ get_value_in a key
unfolding get_value_in
get_value_in-append [] b key h = absurd (h refl)
get_value_in-append (kv ∷ a) b key h = ground (arith, get_value_in-append a b key)

-- A value that is set, and not empty, after some lines of the file is the same after all the lines
-- that follow, if these are read without a fault.
pub set_file_lines-get_value :
    (files : Files) (ls : List Str) (conf conf' : Conf) (key : Str)
    → set_file_lines files ls conf ≡ ok conf'
    → get_value conf key ≢ []
    → get_value conf' key ≡ get_value conf key
set_file_lines-get_value files ls conf conf' key h ne =
    let (kvs, e) = set_file_lines_extends files ls conf conf' h in
    ap (λ k. get_value_in k key) e ∙ get_value_in-append conf.key_values kvs key ne
