-- ===== src/Conf/File/Safe.antt =====
-- No collection that is read from a configuration file has `..` in its name, and none has been
-- verified yet.
use pandora_agent_win.Base.{
  ℕ, ◌+◌, ◌≡◌, refl, sym, ap, List, [], ◌∷◌, ◌++◌, Option, none, some, inl, inr, arith, All,
  All-append, Bool-cases, Option-cases, drop,
}
use mathlib.Core.Path.{subst}
use pandora_agent_win.Base.Result.{ok, >>=-eq-ok, ok-injective}
use pandora_agent_win.Conf.Defs.{Collection, Conf, Files}
use pandora_agent_win.Conf.File.{
  collection_at, collection_found, parse_text, include_at, value_at, set_text, parse_file_line,
  parse_file_lines, parse_file, include_line, value_line, remove_quotes, substr, set_file_line,
  set_file_lines, set_file, cleared, is_significant,
}
use pandora_agent_win.KeyValue.{KeyValue}
use pandora_agent_win.Strutils.Trim.{trim-Cut}
use pandora_agent_win.Strutils.{trim}
use pandora_agent_win.Text.Laws.{find_infix}
use pandora_agent_win.Text.{Str, bytes, find, lines}

-- The name cannot lead out of the directory of the collections.
pub record IsSafe (c : Collection) : Type 0 where
  pub no_dots : find c.name (bytes "..") ≡ none
  pub unverified : c.verify ≡ 0

trim-find : (s p : Str) → find s p ≡ none → find (trim s) p ≡ none
trim-find s p h = let k = trim-Cut s in find_infix k.left (trim s) k.right p (rw k.splits at h)

collection_at-IsSafe : (buffer : Str) (pos : ℕ) → All IsSafe (collection_at buffer pos)
unfolding collection_at
collection_at-IsSafe buffer pos = elim (Option-cases (find (drop (pos + 15) buffer) (bytes ".."))) [
  | inl e ↦ rw e (
    record { no_dots = trim-find (drop (pos + 15) buffer) (bytes "..") e; unverified = refl },
    tt,
  )
  | inr (i, e) ↦ rw e tt
]

collection_found-IsSafe : (buffer : Str) (o : Option ℕ) → All IsSafe (collection_found buffer o)
unfolding collection_found
collection_found-IsSafe buffer none = tt
collection_found-IsSafe buffer (some pos) = collection_at-IsSafe buffer pos

parse_file_line-IsSafe : (buffer : Str) → All IsSafe (parse_file_line buffer)
unfolding parse_file_line
parse_file_line-IsSafe buffer = elim (Bool-cases (is_significant buffer)) [
  | inr e ↦ rw e tt
  | inl e ↦ rw e (collection_found-IsSafe buffer (find buffer (bytes "file_collection")))
]

parse_file_lines-IsSafe : (ls : List Str) → All IsSafe (parse_file_lines ls)
unfolding parse_file_lines
parse_file_lines-IsSafe [] = tt
parse_file_lines-IsSafe (l ∷ ls) =
    All-append IsSafe (parse_file_line l) (parse_file_lines ls) (parse_file_line-IsSafe l)
      (parse_file_lines-IsSafe ls)

parse_text-IsSafe : (o : Option Str) → All IsSafe (parse_text o)
unfolding parse_text
parse_text-IsSafe none = tt
parse_text-IsSafe (some text) = parse_file_lines-IsSafe (lines text)

include_at-IsSafe :
    (files : Files) (buffer : Str) (o : Option ℕ) (cs : List Collection)
    → include_at files buffer o ≡ ok cs
    → All IsSafe cs
unfolding include_at parse_file
include_at-IsSafe files buffer none [] h = tt
include_at-IsSafe files buffer none (c ∷ cs) h = cc
include_at-IsSafe files buffer (some pos) cs h =
    let (path, e, r) = >>=-eq-ok (substr buffer (pos + 8)) _ h in
    subst (All IsSafe) (ok-injective r) (parse_text-IsSafe (files (remove_quotes path)))

value_at-IsSafe :
    (buffer : Str) (o : Option ℕ) (found : List Collection × List KeyValue)
    → value_at buffer o ≡ ok found
    → All IsSafe found.0
unfolding value_at
value_at-IsSafe buffer (some pos) found h =
    rw (ap (λ p. p.0) (sym (ok-injective h))) (collection_at-IsSafe buffer pos)
value_at-IsSafe buffer none found h =
    let e : found.0 ≡ [] = ground arith in subst (All IsSafe) (sym e) tt

set_file_line-IsSafe :
    (files : Files) (buffer : Str) (conf conf' : Conf)
    → All IsSafe conf.collection_list
    → set_file_line files buffer conf ≡ ok conf'
    → All IsSafe conf'.collection_list
unfolding set_file_line include_line value_line
set_file_line-IsSafe files buffer conf conf' safe h = elim (Bool-cases (is_significant buffer)) [
  | inr e ↦ subst (λ c. All IsSafe c.collection_list) (ok-injective (rw e at h)) safe
  | inl e ↦
      let (included, p, h') = >>=-eq-ok (include_line files buffer) _ (rw e at h) in
      let (found, q, r) = >>=-eq-ok (value_line buffer) _ h' in
      subst (λ c. All IsSafe c.collection_list) (ok-injective r)
        (All-append IsSafe (conf.collection_list ++ included) found.0
          (All-append IsSafe conf.collection_list included safe
            (include_at-IsSafe files buffer (find buffer (bytes "include")) included p))
          (value_at-IsSafe buffer (find buffer (bytes "file_collection")) found q))
]

set_file_lines-IsSafe :
    (files : Files) (ls : List Str) (conf conf' : Conf)
    → All IsSafe conf.collection_list
    → set_file_lines files ls conf ≡ ok conf'
    → All IsSafe conf'.collection_list
unfolding set_file_lines
set_file_lines-IsSafe files [] conf conf' safe h =
    subst (λ c. All IsSafe c.collection_list) (ok-injective h) safe
set_file_lines-IsSafe files (l ∷ ls) conf conf' safe h =
    let (mid, p, r) = >>=-eq-ok (set_file_line files l conf) _ h in
    set_file_lines-IsSafe files ls mid conf' (set_file_line-IsSafe files l conf mid safe p) r

set_text-IsSafe :
    (files : Files) (conf conf' : Conf) (o : Option Str)
    → All IsSafe conf.collection_list
    → set_text files conf o ≡ ok conf'
    → All IsSafe conf'.collection_list
unfolding set_text
set_text-IsSafe files conf conf' none safe h =
    subst (λ c. All IsSafe c.collection_list) (ok-injective h) safe
set_text-IsSafe files conf conf' (some text) safe h =
    set_file_lines-IsSafe files (lines text) conf conf' safe h

-- Whatever the configuration file and the files that it includes hold, if they are read without a
-- fault, no collection that is read has `..` in its name, and each is still to be verified.
pub set_file-IsSafe :
    (files : Files) (filename : Str) (conf conf' : Conf)
    → set_file files filename conf ≡ ok conf'
    → All IsSafe conf'.collection_list
unfolding set_file
set_file-IsSafe files filename conf conf' h =
    set_text-IsSafe files (cleared conf) conf' (files filename) tt h
