-- ===== src/Module/Regexp/Reads.antt =====
-- What the regular expression of a module is looked for in.
use pandora_agent_win.Base.{
  ◌+◌, ◌<◌, ◌≡◌, refl, ◌∙◌, ap, arith, Bool, true, false, List, [], ◌∷◌, ◌++◌, some, ltb, length,
  length-append, drop_append,
}
use pandora_agent_win.Module.Kinds.{ModuleType}
use pandora_agent_win.Module.Regexp.{
  RegexpModule, matching, restart, check_size, outputs, run_regexp,
}
use pandora_agent_win.Platform.{Platform}
use pandora_agent_win.Text.{Str, lines}

-- What happens to the file between two rounds: a text is appended, or it becomes a shorter text.
pub data Change : Type 0 where
  appended : (text : Str) → Change
  replaced : (text : Str) → Change

abbrev pub text_after : Str → Change → Str
text_after text (appended new) = text ++ new
text_after text (replaced new) = new

abbrev pub new_text : Change → Str
new_text (appended new) = new
new_text (replaced new) = new

-- A text that replaces another is shorter.
abbrev pub AreShorter : Str → List Change → Type 0
AreShorter text [] = Unit
AreShorter text (appended new ∷ changes) = AreShorter (text ++ new) changes
AreShorter text (replaced new ∷ changes) = (length new < length text) × AreShorter new changes

-- What each change brings.
abbrev pub of_changes : ModuleType → (regexec : Str → Bool) → List Change → List (List Str)
of_changes t regexec [] = []
of_changes t regexec (change ∷ changes) =
    outputs t (matching regexec (lines (new_text change))) ∷ of_changes t regexec changes

module _ {P : Platform} (t : ModuleType) where
  -- A round after each change: what is handed to `setOutput` in each.
  abbrev pub rounds : Str → List Change → RegexpModule P → List (List Str)
  rounds text [] m = []
  rounds text (change ∷ changes) m =
      let now = text_after text change in
      let ran = run_regexp (λ path. some now) t m in ran.1 ∷ rounds now changes ran.0

  abbrev at_end : Str → RegexpModule P → RegexpModule P
  at_end text m = record m { file = some (length text); size = length text }

  run_appended :
      (text new : Str) (m : RegexpModule P)
      → m.no_seek_eof ≡ false
      → run_regexp (λ path. some (text ++ new)) t (at_end text m)
        ≡ (at_end (text ++ new) m, outputs t (matching (P.regexec m.regexp) (lines new)))
  unfolding run_regexp check_size
  run_appended text new m e =
      let same : ltb (length (text ++ new)) (length text) ≡ false =
        ground (arith, length-append text new) in
      rw (e, same, drop_append text new, length-append text new) refl

  run_replaced :
      (text new : Str) (m : RegexpModule P)
      → m.no_seek_eof ≡ false
      → length new < length text
      → run_regexp (λ path. some new) t (at_end text m)
        ≡ (at_end new m, outputs t (matching (P.regexec m.regexp) (lines new)))
  unfolding run_regexp check_size restart
  run_replaced text new m e h =
      let shorter : ltb (length new) (length text) ≡ true = ground arith in
      let whole : 0 + length new ≡ length new = omega arith in rw (e, shorter, whole) refl

  rounds-at_end :
      (text : Str) (changes : List Change) (m : RegexpModule P)
      → m.no_seek_eof ≡ false
      → AreShorter text changes
      → rounds text changes (at_end text m) ≡ of_changes t (P.regexec m.regexp) changes
  rounds-at_end text [] m e h = refl
  rounds-at_end text (appended new ∷ changes) m e h =
      rw (run_appended text new m e, rounds-at_end (text ++ new) changes m e h) refl
  rounds-at_end text (replaced new ∷ changes) m e (shorter, h) =
      rw (run_replaced text new m e shorter, rounds-at_end new changes m e h) refl

  -- A module that has its file open, has read it to the end, and is not told to begin anew in every round,
  -- looks in each later round only at what is new: at the text that was appended, or at the whole file if
  -- that was replaced by a shorter one. What it hands to `setOutput` comes from the lines there that match
  -- and are not empty, in their order.
  pub rounds-of_changes :
      (text : Str) (changes : List Change) (m : RegexpModule P)
      → m.no_seek_eof ≡ false
      → m.file ≡ some (length text)
      → m.size ≡ length text
      → AreShorter text changes
      → rounds text changes m ≡ of_changes t (P.regexec m.regexp) changes
  rounds-of_changes text changes m e f g h =
      ap (λ file. rounds text changes (record m { file = file })) f
      ∙ ap (λ size. rounds text changes (record m { file = some (length text); size = size })) g
      ∙ rounds-at_end text changes m e h
