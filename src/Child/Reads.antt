-- ===== src/Child/Reads.antt =====
-- What the loop over the pipe reads.
use pandora_agent_win.Base.Int.{ℤ}
use pandora_agent_win.Base.{
  ℕ, zero, suc, ◌*◌, ◌≤◌, ◌<◌, ◌⊎◌, ◌≡◌, ◌≢◌, refl, sym, ap, ◌∙◌, arith, true, Bool-cases, inl, inr,
  List, [], ◌∷◌, ◌++◌, append-nil, append_assoc, Option, none, some, ==_iff, ◌==◌, length,
  length-append, take, drop, All, All-append, take-append-drop, if◌then◌else◌,
}
use pandora_agent_win.Child.{Poll, buffer_size, leaves_loop, chunk, after, poll_loop}
use pandora_agent_win.Conf.Defs.{c_str}
use pandora_agent_win.Text.{Str}
use pandora_agent_win.WindowsService.{to_dword}

-- What the process has written when the loop is left.
abbrev pub written_until : (timeout : ℤ) → List Poll → Str
written_until timeout [] = []
written_until timeout (p ∷ ps) =
    p.written ++ (if leaves_loop timeout p then [] else written_until timeout ps)

-- The process writes text: no zero byte.
abbrev pub IsText : Str → Type 0
IsText = All (λ c. c ≢ 0)

abbrev pub AreText : List Poll → Type 0
AreText = All (λ p. IsText p.written)

c_str-IsText : (s : Str) → IsText s → c_str s ≡ s
c_str-IsText [] h = refl
c_str-IsText (c ∷ s) (h, t) = elim (Bool-cases (c == 0)) [
  | inl e ↦ absurd (h ((==_iff c 0).0 e))
  | inr e ↦ rw (e, c_str-IsText s t) refl
]

take-All {ℓ κ} :
    {A : Type ℓ} (P : A → Type κ) (n : ℕ) (xs : List A)
    → All P xs
    → All P (take n xs) × All P (drop n xs)
take-All P zero xs h = (tt, h)
take-All P (suc n) [] h = (tt, tt)
take-All P (suc n) (x ∷ xs) (h, t) = let r = take-All P n xs t in ((h, r.0), r.1)

chunk-append-drop : (pipe : Str) → IsText pipe → chunk pipe ++ drop buffer_size pipe ≡ pipe
unfolding chunk
chunk-append-drop pipe h =
    ap (λ s. s ++ drop buffer_size pipe)
      (c_str-IsText (take buffer_size pipe) (take-All (λ c. c ≢ 0) buffer_size pipe h).0)
    ∙ take-append-drop buffer_size pipe

after-eq-some :
    (front : Str) (r : Option (Str × Str)) (output left : Str)
    → after front r ≡ some (output, left)
    → (later : Str) × (r ≡ some (later, left)) × (output ≡ front ++ later)
after-eq-some front none output left e = cc
after-eq-some front (some (later, l)) output left e = (later, cc, cc)

pair_of :
    {a b c d : Str} → ◌≡◌ {A = Option (Str × Str)} (some (a, b)) (some (c, d)) → (a ≡ c) × (b ≡ d)
pair_of e = (cc, cc)

-- Where the loop is left, nothing that the process has written is lost or comes twice: what was read,
-- then what is left in the pipe, is all that it wrote until then. The process writes no zero bytes.
pub poll_loop-written_until :
    (timeout : ℤ) (pipe : Str) (polls : List Poll) (output left : Str)
    → IsText pipe
    → AreText polls
    → poll_loop timeout pipe polls ≡ some (output, left)
    → output ++ left ≡ pipe ++ written_until timeout polls
unfolding poll_loop
poll_loop-written_until timeout pipe [] output left t ts e = cc
poll_loop-written_until timeout pipe (p ∷ ps) output left t (h, ts) e =
    let full = pipe ++ p.written in
    let is_text = All-append (λ c. c ≢ 0) pipe p.written t h in
    elim (Bool-cases (leaves_loop timeout p)) [
      | inl last ↦
          let same : ◌≡◌ {A = Option (Str × Str)} (some (chunk full, drop buffer_size full))
              (some (output, left)) =
            rw last at e in
          let (o, l) = pair_of same in
          rw (last, ← o, ← l)
            (chunk-append-drop full is_text ∙ ap (λ s. pipe ++ s) (sym (append-nil p.written)))
      | inr more ↦
          let (later, e', f) =
            after-eq-some (chunk full) (poll_loop timeout (drop buffer_size full) ps) output left
              (rw more at e) in
          let ih =
            poll_loop-written_until timeout (drop buffer_size full) ps later left
              (take-All (λ c. c ≢ 0) buffer_size full is_text).1 ts e' in
          rw (more, f)
            (append_assoc (chunk full) later left
              ∙ ap (λ s. chunk full ++ s) ih
              ∙ sym (append_assoc (chunk full) (drop buffer_size full) (written_until timeout ps))
              ∙ ap (λ s. s ++ written_until timeout ps) (chunk-append-drop full is_text)
              ∙ append_assoc pipe p.written (written_until timeout ps))
    ]

has_to_leave :
    (timeout : ℤ) (p : Poll)
    → (p.has_ended ≡ true) ⊎ (to_dword timeout < p.elapsed)
    → leaves_loop timeout p ≡ true
unfolding leaves_loop
has_to_leave timeout p (inl e) = rw e refl
has_to_leave timeout p (inr l) = elim (Bool-cases p.has_ended) [
  | inl e ↦ rw e refl
  | inr e ↦ rw e (ground arith)
]

-- The loop is left at the latest in the round `p` which finds that the process has ended, or that more
-- milliseconds have gone by than its timeout, as a number of 32 bits without a sign.
pub poll_loop_left :
    (timeout : ℤ) (pipe : Str) (before : List Poll) (p : Poll) (rest : List Poll)
    → (p.has_ended ≡ true) ⊎ (to_dword timeout < p.elapsed)
    → (r : Str × Str) × (poll_loop timeout pipe (before ++ p ∷ rest) ≡ some r)
unfolding poll_loop
poll_loop_left timeout pipe [] p rest e = (
  (chunk (pipe ++ p.written), drop buffer_size (pipe ++ p.written)),
  rw (has_to_leave timeout p e) refl,
)
poll_loop_left timeout pipe (q ∷ before) p rest e =
    let full = pipe ++ q.written in
    elim (Bool-cases (leaves_loop timeout q)) [
      | inl last ↦ ((chunk full, drop buffer_size full), rw last refl)
      | inr more ↦
          let (r, f) = poll_loop_left timeout (drop buffer_size full) before p rest e in
          ((chunk full ++ r.0, r.1), rw (more, f) refl)
    ]

drop_all {ℓ} : {A : Type ℓ} (n : ℕ) (xs : List A) → length xs ≤ n → drop n xs ≡ []
drop_all zero [] h = refl
drop_all zero (x ∷ xs) h = absurd (omega arith)
drop_all (suc n) [] h = refl
drop_all (suc n) (x ∷ xs) h = drop_all n xs (omega arith)

-- Nothing is left where no round finds more than the buffer holds.
nothing_left :
    (timeout : ℤ) (polls : List Poll) (output left : Str)
    → All (λ p. length p.written ≤ buffer_size) polls
    → poll_loop timeout [] polls ≡ some (output, left)
    → left ≡ []
unfolding poll_loop
nothing_left timeout [] output left h e = cc
nothing_left timeout (p ∷ ps) output left (h, hs) e =
    let empty : drop buffer_size p.written ≡ [] = drop_all buffer_size p.written h in
    elim (Bool-cases (leaves_loop timeout p)) [
      | inl last ↦
          let same : ◌≡◌ {A = Option (Str × Str)}
              (some (chunk p.written, drop buffer_size p.written)) (some (output, left)) =
            rw last at e in
          sym (pair_of same).1 ∙ empty
      | inr more ↦
          let (later, e', f) =
            after-eq-some (chunk p.written) (poll_loop timeout (drop buffer_size p.written) ps)
              output left (rw more at e) in
          nothing_left timeout ps later left hs (rw empty at e')
    ]

-- A process that writes text, and never more than 4096 bytes between two rounds, is read completely.
pub poll_loop_complete :
    (timeout : ℤ) (polls : List Poll) (output left : Str)
    → AreText polls
    → All (λ p. length p.written ≤ buffer_size) polls
    → poll_loop timeout [] polls ≡ some (output, left)
    → output ≡ written_until timeout polls
poll_loop_complete timeout polls output left t h e =
    sym (append-nil output)
    ∙ ap (λ l. output ++ l) (sym (nothing_left timeout polls output left h e))
    ∙ poll_loop-written_until timeout [] polls output left tt t e

c_str_bounded : (s : Str) → length (c_str s) ≤ length s
c_str_bounded [] = omega arith
c_str_bounded (c ∷ s) = ground (arith, c_str_bounded s)

take_bounded {ℓ} : {A : Type ℓ} (n : ℕ) (xs : List A) → length (take n xs) ≤ n
take_bounded zero xs = omega arith
take_bounded (suc n) [] = omega arith
take_bounded (suc n) (x ∷ xs) = omega (arith, take_bounded n xs)

chunk_bounded : (pipe : Str) → length (chunk pipe) ≤ buffer_size
unfolding chunk
chunk_bounded pipe =
    omega (arith, c_str_bounded (take buffer_size pipe), take_bounded buffer_size pipe)

-- A round reads at most 4096 bytes: of a process that writes faster the end is lost, whatever its length.
pub poll_loop_bounded :
    (timeout : ℤ) (pipe : Str) (polls : List Poll) (output left : Str)
    → poll_loop timeout pipe polls ≡ some (output, left)
    → length output ≤ buffer_size * length polls
unfolding poll_loop
poll_loop_bounded timeout pipe [] output left e = cc
poll_loop_bounded timeout pipe (p ∷ ps) output left e =
    let full = pipe ++ p.written in
    elim (Bool-cases (leaves_loop timeout p)) [
      | inl last ↦
          let same : ◌≡◌ {A = Option (Str × Str)} (some (chunk full, drop buffer_size full))
              (some (output, left)) =
            rw last at e in
          rw (← (pair_of same).0) (omega (arith, chunk_bounded full))
      | inr more ↦
          let (later, e', f) =
            after-eq-some (chunk full) (poll_loop timeout (drop buffer_size full) ps) output left
              (rw more at e) in
          let ih = poll_loop_bounded timeout (drop buffer_size full) ps later left e' in
          rw (f, length-append (chunk full) later) (omega (arith, chunk_bounded full))
    ]
