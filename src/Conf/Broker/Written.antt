-- ===== src/Conf/Broker/Written.antt =====
-- What `writeBrokerConf` writes.
use pandora_agent_win.Base.{
  ℕ, ◌≡◌, refl, ap, false, List, [], ◌∷◌, ◌++◌, Option, none, some, inl, inr, arith, All,
  All-append, Bool-cases, append_assoc, ◌==◌, take,
}
use pandora_agent_win.Conf.Broker.{broker_line, broker_text, named_at, is_margin, count_brokers}
use pandora_agent_win.Text.Laws.{find_infix}
use pandora_agent_win.Text.{Str, bytes, find, has, is_prefix, is_some, lines}

abbrev pub OneLine : Str → Type 0
OneLine = All (λ c. (c == b'\n') ≡ false)

-- The line does not name a drone.
abbrev pub NoBroker : Str → Type 0
NoBroker l = has l (bytes "broker_agent") ≡ false

lines_cons : (s : Str) → (l : Str) × (ls : List Str) × (lines s ≡ l ∷ ls)
unfolding lines
lines_cons [] = ([], [], refl)
lines_cons (c ∷ s) =
    let (l, ls, e) = lines_cons s in
    elim (Bool-cases (c == b'\n')) [
      | inl b ↦ ([], l ∷ ls, rw (e, b) refl)
      | inr b ↦ (c ∷ l, ls, rw (e, b) refl)
    ]

lines-newline : (a b : Str) → OneLine a → lines (a ++ b'\n' ∷ b) ≡ a ∷ lines b
unfolding lines
lines-newline [] b h = let (l, ls, e) = lines_cons b in rw e refl
lines-newline (c ∷ a) b h = rw (lines-newline a b h.1, h.0) refl

-- No piece has a newline in it.
pub lines-OneLine : (s : Str) → All OneLine (lines s)
unfolding lines
lines-OneLine [] = (tt, tt)
lines-OneLine (c ∷ s) =
    let (l, ls, e) = lines_cons s in
    let later = rw e at (lines-OneLine s) in
    elim (Bool-cases (c == b'\n')) [
      | inl b ↦ rw (e, b) (tt, later)
      | inr b ↦ rw (e, b) ((b, later.0), later.1)
    ]

find_of_has : (s p : Str) → has s p ≡ false → find s p ≡ none
find_of_has s p h = from (find s p) h
  where
    from : (o : Option ℕ) → is_some o ≡ false → o ≡ none
    from none h = refl
    from (some i) h = cc

front-NoBroker : (m r : Str) → NoBroker (m ++ r) → NoBroker m
front-NoBroker m r h =
    ap is_some
      (find_infix [] m r (bytes "broker_agent") (find_of_has (m ++ r) (bytes "broker_agent") h))

module _ (rest : Str) (later : All NoBroker (lines rest)) where
  kept_lines : (x : Str) → OneLine x → NoBroker x → All NoBroker (lines ((x ++ b'\n' ∷ []) ++ rest))
  kept_lines x o n = rw (append_assoc x (b'\n' ∷ []) rest, lines-newline x rest o) (n, later)

  named_lines :
      (x : Str)
      → OneLine x
      → NoBroker (x ++ b'\n' ∷ [])
      → All NoBroker (lines (((x ++ b'\n' ∷ []) ++ b'\n' ∷ []) ++ rest))
  named_lines x o n =
      rw
        (
          append_assoc (x ++ b'\n' ∷ []) (b'\n' ∷ []) rest,
          append_assoc x (b'\n' ∷ []) (b'\n' ∷ rest),
          lines-newline x (b'\n' ∷ rest) o,
          lines-newline [] rest tt,
        )
        (front-NoBroker x (b'\n' ∷ []) n, (unfold find is_prefix in refl, later))

name_line : (name : Str) → OneLine name → OneLine (bytes "agent_name " ++ name)
name_line name h =
    All-append (λ c. (c == b'\n') ≡ false) (bytes "agent_name ") name
      (refl, (refl, (refl, (refl, (refl, (refl, (refl, (refl, (refl, (refl, (refl, tt))))))))))) h

line_named :
    (name buffer rest : Str) (o : Option ℕ)
    → OneLine name
    → OneLine buffer
    → NoBroker (named_at name buffer o)
    → All NoBroker (lines rest)
    → All NoBroker (lines ((named_at name buffer o ++ b'\n' ∷ []) ++ rest))
line_named name buffer rest none hn hb n later = kept_lines rest later buffer hb n
line_named name buffer rest (some pos) hn hb n later =
    elim (Bool-cases (is_margin (take pos buffer))) [
      | inr e ↦ rw e (kept_lines rest later buffer hb (rw e at n))
      | inl e ↦
          rw e
            (named_lines rest later (bytes "agent_name " ++ name) (name_line name hn) (rw e at n))
    ]

broker_text-NoBroker :
    (name : Str) (ls : List Str)
    → OneLine name
    → All OneLine ls
    → All NoBroker (lines (broker_text name ls))
unfolding broker_text broker_line lines
broker_text-NoBroker name [] hn h = (unfold find is_prefix in refl, tt)
broker_text-NoBroker name (l ∷ ls) hn h =
    let x = named_at name l (find l (bytes "agent_name")) in
    elim (Bool-cases (has x (bytes "broker_agent"))) [
      | inl b ↦ rw b (broker_text-NoBroker name ls hn h.1)
      | inr b ↦ rw b (
          line_named name l (broker_text name ls) (find l (bytes "agent_name")) hn h.0 b
            (broker_text-NoBroker name ls hn h.1))
    ]

count_brokers_none : (ls : List Str) → All NoBroker ls → count_brokers ls ≡ 0
unfolding count_brokers
count_brokers_none [] h = refl
count_brokers_none (l ∷ ls) h = ground (arith, h.0, count_brokers_none ls h.1)

-- The file that is written for a drone, whose name is one line, names no drone itself, whatever the
-- file of the agent holds: no line of it has `broker_agent` in it, and none is counted.
pub broker_text-count_brokers :
    (name text : Str)
    → OneLine name
    → All NoBroker (lines (broker_text name (lines text)))
      × (count_brokers (lines (broker_text name (lines text))) ≡ 0)
broker_text-count_brokers name text h =
    let none_named = broker_text-NoBroker name (lines text) h (lines-OneLine text) in
    (none_named, count_brokers_none (lines (broker_text name (lines text))) none_named)
