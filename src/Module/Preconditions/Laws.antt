-- ===== src/Module/Preconditions/Laws.antt =====
-- When the preconditions of a module hold.
use pandora_agent_win.Base.Int.{ℤ}
use pandora_agent_win.Base.Result.{Result, ok, err}
use pandora_agent_win.Base.{
  ℕ, suc, ◌≡◌, ◌↔◌, refl, ap, ◌∙◌, Bool, true, false, Bool-cases, inl, inr, List, [], ◌∷◌, Option,
  none, some, ◌==◌, ==_iff,
}
use pandora_agent_win.Child.{Launch, Poll, created, poll_loop}
use pandora_agent_win.Module.Conditions.{evaluate_condition, double_of}
use pandora_agent_win.Module.Defs.{Condition, Module}
use pandora_agent_win.Module.Preconditions.{
  and_then, process_read, with_launch, precondition_loop, evaluate_preconditions,
}
use pandora_agent_win.Platform.{Platform}
use pandora_agent_win.Text.{Str}

and_then-true :
    (r : Result Bool) (later : Option (Result Bool))
    → and_then r later ≡ some (ok true)
    → (r ≡ ok true) × (later ≡ some (ok true))
and_then-true (err way) later e = cc
and_then-true (ok false) later e = cc
and_then-true (ok true) later e = (refl, e)

-- Every process is created.
abbrev pub IsCreating : (launch : ℕ → Launch) → Type 0
IsCreating launch = (k : ℕ) → (polls : List Poll) × (retval : ℕ) × (launch k ≡ created polls retval)

module _ (P : Platform) (unset : P.Double) where
  read_true :
      (retval : ℕ) (next : Str → P.Double → Option (Result Bool)) (r : Option (Str × Str))
      → process_read P unset retval r next ≡ some (ok true)
      → (output : Str) × (left : Str) × (r ≡ some (output, left))
        × (retval ≡ 0)
        × (next output (double_of P unset output) ≡ some (ok true))
  read_true retval next none e = cc
  read_true retval next (some (output, left)) e = elim (Bool-cases (retval == 0)) [
    | inl z ↦ (output, left, refl, (==_iff retval 0).0 z, rw z at e)
    | inr z ↦ absurd (never (rw z at e))
  ]
    where
      never : ◌≡◌ {A = Option (Result Bool)} (some (ok false)) (some (ok true)) → ⊥
      never h = cc

module _ {P : Platform} (unset : P.Double) (launch : ℕ → Launch) (timeout : ℤ) where
  -- The process at the place `k` is created, it comes to an end in its time and leaves with zero, and the
  -- condition holds of its output and of the number that stands there.
  pub record IsMet (k : ℕ) (c : Condition P) : Type 0 where
    pub polls : List Poll
    pub output : Str
    pub left : Str
    pub is_created : launch k ≡ created polls 0
    pub is_read : poll_loop timeout [] polls ≡ some (output, left)
    pub holds : evaluate_condition P output (double_of P unset output) c ≡ ok true

  abbrev pub AreMet : (k : ℕ) → List (Condition P) → Type 0
  AreMet k [] = Unit
  AreMet k (c ∷ cs) = IsMet k c × AreMet (suc k) cs

  loop-AreMet :
      (k : ℕ) (output : Str) (d : P.Double) (cs : List (Condition P))
      → IsCreating launch
      → precondition_loop P unset launch timeout k output d cs ≡ some (ok true)
      → AreMet k cs
  unfolding precondition_loop
  loop-AreMet k output d [] creates e = tt
  loop-AreMet k output d (c ∷ cs) creates e =
      let (polls, retval, made) = creates k in
      let (o, left, is_read, zero_code, more) =
        read_true P unset retval
          (λ o d.
            and_then (evaluate_condition P o d c)
              (precondition_loop P unset launch timeout (suc k) o d cs))
          (poll_loop timeout [] polls) (rw made at e) in
      let (holds, later) =
        and_then-true (evaluate_condition P o (double_of P unset o) c)
          (precondition_loop P unset launch timeout (suc k) o (double_of P unset o) cs) more in
      (
        record {
          polls = polls;
          output = o;
          left = left;
          is_created = made ∙ ap (created polls) zero_code;
          is_read = is_read;
          holds = holds;
        },
        loop-AreMet (suc k) o (double_of P unset o) cs creates later,
      )

  met-loop :
      (k : ℕ) (output : Str) (d : P.Double) (cs : List (Condition P))
      → AreMet k cs
      → precondition_loop P unset launch timeout k output d cs ≡ some (ok true)
  unfolding precondition_loop
  met-loop k output d [] h = refl
  met-loop k output d (c ∷ cs) (h, hs) =
      rw
        (
          h.is_created,
          with_launch,
          h.is_read,
          process_read,
          h.holds,
          met-loop (suc k) h.output (double_of P unset h.output) cs hs,
        )
        refl

module _ {P : Platform} where
  -- Where each command can be started, the preconditions of a module hold exactly if, for the command of
  -- each, the loop over its pipe is left, its code is zero, and the condition holds of the output that
  -- was read.
  pub evaluate_preconditions-AreMet :
      (unset : P.Double) (launch : ℕ → Launch) (m : Module P) (cs : List (Condition P))
      → IsCreating launch
      → m.precondition_list ≡ some cs
      → (evaluate_preconditions P unset launch m ≡ some (ok true))
        ↔ AreMet unset launch m.module_timeout 0 cs
  unfolding evaluate_preconditions
  evaluate_preconditions-AreMet unset launch m cs creates e = rw e (
    λ h. loop-AreMet unset launch m.module_timeout 0 [] unset cs creates h,
    λ h. met-loop unset launch m.module_timeout 0 [] unset cs h,
  )
