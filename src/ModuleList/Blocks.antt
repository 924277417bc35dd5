-- ===== src/ModuleList/Blocks.antt =====
-- The definitions in a file are found, each as it was written.
use pandora_agent_win.Base.Result.{ok, ◌>>=◌}
use pandora_agent_win.Base.{
  ◌≡◌, refl, sym, ap, ◌∙◌, true, false, List, [], ◌∷◌, ◌++◌, none, some, All, append_assoc,
}
use pandora_agent_win.Conf.Defs.{Files}
use pandora_agent_win.Conf.File.{is_significant}
use pandora_agent_win.ModuleList.{put_before, parse_module_lines, load_lines, with_newline}
use pandora_agent_win.Text.{Str, bytes, find, has}

-- The lines of one definition, one after the other.
abbrev pub text_of : List Str → Str
text_of [] = []
text_of (l ∷ ls) = with_newline l ++ text_of ls

abbrev pub NoEnd : Str → Type 0
NoEnd l = has l (bytes "module_end") ≡ false

inside :
    (body : List Str) (str_module last : Str) (rest : List Str)
    → All NoEnd body
    → has last (bytes "module_end") ≡ true
    → parse_module_lines (some str_module) (body ++ last ∷ rest)
      ≡ (str_module ++ (text_of body ++ with_newline last)) ∷ parse_module_lines none rest
unfolding parse_module_lines
inside [] str_module last rest h e = rw (e, parse_module_lines)
inside (l ∷ body) str_module last rest h e =
    rw (h.0, parse_module_lines)
      (inside body (str_module ++ with_newline l) last rest h.1 e
        ∙ ap (λ t. t ∷ parse_module_lines none rest)
            (append_assoc str_module (with_newline l) (text_of body ++ with_newline last)
              ∙ ap (λ t. str_module ++ t)
                  (sym (append_assoc (with_newline l) (text_of body) (with_newline last)))))

-- A block of lines, from one with `module_begin` that is no comment to the first one with `module_end`,
-- is handed on as one definition, line by line as it stands in the file, and the reading goes on behind
-- it.
pub parse_module_lines_block :
    (first : Str) (body : List Str) (last : Str) (rest : List Str)
    → is_significant first ≡ true
    → has first (bytes "module_begin") ≡ true
    → All NoEnd body
    → has last (bytes "module_end") ≡ true
    → parse_module_lines none (first ∷ (body ++ last ∷ rest))
      ≡ (with_newline first ++ (text_of body ++ with_newline last)) ∷ parse_module_lines none rest
unfolding parse_module_lines
parse_module_lines_block first body last rest s b h e =
    rw (s, b, parse_module_lines) (inside body (with_newline first) last rest h e)

inside_load :
    (files : Files) (body : List Str) (str_module last : Str) (rest ds : List Str)
    → All NoEnd body
    → has last (bytes "module_end") ≡ true
    → load_lines files none rest ≡ ok ds
    → load_lines files (some str_module) (body ++ last ∷ rest)
      ≡ ok ((str_module ++ (text_of body ++ with_newline last)) ∷ ds)
unfolding load_lines
inside_load files [] str_module last rest ds h e d = rw (e, load_lines) (rw d refl)
inside_load files (l ∷ body) str_module last rest ds h e d =
    rw (h.0, load_lines)
      (inside_load files body (str_module ++ with_newline l) last rest ds h.1 e d
        ∙ ap (λ t. ok (t ∷ ds))
            (append_assoc str_module (with_newline l) (text_of body ++ with_newline last)
              ∙ ap (λ t. str_module ++ t)
                  (sym (append_assoc (with_newline l) (text_of body) (with_newline last)))))

-- The constructor hands a block of lines, from one with `module_begin` that is no comment and includes
-- no file to the first one with `module_end`, on as one definition, line by line as it stands in the
-- file, in front of the definitions that it reads from the lines behind the block.
pub load_lines_block :
    (files : Files) (first : Str) (body : List Str) (last : Str) (rest ds : List Str)
    → is_significant first ≡ true
    → find first (bytes "include") ≡ none
    → has first (bytes "module_begin") ≡ true
    → All NoEnd body
    → has last (bytes "module_end") ≡ true
    → load_lines files none rest ≡ ok ds
    → load_lines files none (first ∷ (body ++ last ∷ rest))
      ≡ ok ((with_newline first ++ (text_of body ++ with_newline last)) ∷ ds)
unfolding load_lines
load_lines_block files first body last rest ds s i b h e d =
    rw (s, i, b, load_lines)
      (ap (λ r. r >>= put_before [])
        (inside_load files body (with_newline first) last rest ds h e d))
