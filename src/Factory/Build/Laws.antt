-- ===== src/Factory/Build/Laws.antt =====
-- What a module that is built from a definition has.
use native.Mathlib.Nat.{div-eq_of_lt}
use pandora_agent_win.Base.Int.{ℤ, pos, negsuc, ◌*ℤ◌}
use pandora_agent_win.Base.{
  ℕ, ◌<◌, ◌/◌, ◌≡◌, refl, ap, ◌∙◌, true, false, List, [], ◌∷◌, Option, none, some, inl, inr, arith,
  Bool-cases,
}
use pandora_agent_win.Factory.Build.{
  Service, quotient, adjusted, Built, null_module, divides_by_zero, built, create, with_conditions,
  with_interval, with_intensive, with_cron, with_type, with_limits, with_texts, typed, scheduled,
  build, add_all, is_type_0,
}
use pandora_agent_win.Factory.Tokens.{Definition, token_name, token_type, token_plugin}
use pandora_agent_win.Factory.Work.{Work, kind_text}
use pandora_agent_win.Module.Conditions.{add_condition, add_pre_condition, add_intensive_condition}
use pandora_agent_win.Module.Defs.{Module, new_module}
use pandora_agent_win.Module.Kinds.{parse_module_type, is_text}
use pandora_agent_win.Module.Output.Limits.{run_zero_interval}
use pandora_agent_win.Module.Output.{run, division_by_zero}
use pandora_agent_win.Module.Setters.{
  set_max, set_min, set_timeout, set_interval, set_intensive_interval, set_type, set_kind,
  set_module_cron, set_module_cron_interval,
}
use pandora_agent_win.Platform.{Platform}
use pandora_agent_win.Text.{Str, eq_str, is_empty}

module _ {P : Platform} where
  -- A module that has not run, and has no limits.
  pub record IsFresh (name kind : Str) (m : Module P) : Type 0 where
    pub no_limits : m.has_limits ≡ false
    pub no_data : m.data_list ≡ none
    pub no_runs : m.executions ≡ 0
    pub is_named : m.module_name ≡ name
    pub is_kind : m.module_kind_str ≡ kind

  abbrev AllOf : (Module P → Type 0) → Option (Module P) → Type 0
  AllOf Q none = Unit
  AllOf Q (some m) = Q m

  create-IsFresh :
      (unset : Module P) (work : Work) (d : Definition)
      → IsFresh (d.token_value token_name) (kind_text work) (create unset work d)
  unfolding create set_kind new_module set_timeout
  create-IsFresh unset work d = record {
    no_limits = ground arith;
    no_data = ground arith;
    no_runs = ground arith;
    is_named = ground arith;
    is_kind = ground arith;
  }

  add_all-IsFresh :
      {n k : Str} (add : Module P → Str → Module P)
      → ((m : Module P) (c : Str) → IsFresh n k m → IsFresh n k (add m c))
      → (cs : List Str) (m : Module P) → IsFresh n k m
      → IsFresh n k (add_all add cs m)
  add_all-IsFresh add step [] m h = h
  add_all-IsFresh add step (c ∷ cs) m h = add_all-IsFresh add step cs (add m c) (step m c h)

  -- The same for a module that differs in no member that matters.
  same :
      {n k : Str} (m m' : Module P)
      → m'.has_limits ≡ m.has_limits
      → m'.data_list ≡ m.data_list
      → m'.executions ≡ m.executions
      → m'.module_name ≡ m.module_name
      → m'.module_kind_str ≡ m.module_kind_str
      → IsFresh n k m
      → IsFresh n k m'
  same m m' a b c d e h = record {
    no_limits = a ∙ h.no_limits;
    no_data = b ∙ h.no_data;
    no_runs = c ∙ h.no_runs;
    is_named = d ∙ h.is_named;
    is_kind = e ∙ h.is_kind;
  }

  with_conditions-IsFresh :
      {n k : Str} (d : Definition) (m : Module P)
      → IsFresh n k m
      → IsFresh n k (with_conditions d m)
  unfolding with_conditions add_condition add_pre_condition
  with_conditions-IsFresh d m h =
      add_all-IsFresh (add_condition P)
        (λ m c. same m (add_condition P m c) refl refl refl refl refl) d.condition_list _
        (add_all-IsFresh (add_pre_condition P)
          (λ m c. same m (add_pre_condition P m c) refl refl refl refl refl) d.precondition_list _
          (same m _ refl refl refl refl refl h))

  with_interval-IsFresh :
      {n k : Str} (unset : ℤ) (d : Definition) (m : Module P)
      → IsFresh n k m
      → IsFresh n k (with_interval unset d m)
  unfolding with_interval set_interval set_intensive_interval
  with_interval-IsFresh unset d m h =
      same m (with_interval unset d m) (ground arith) (ground arith) (ground arith) (ground arith)
        (ground arith) h

  with_intensive-IsFresh :
      {n k : Str} (service : Service) (cs : List Str) (m : Module P)
      → IsFresh n k m
      → AllOf (IsFresh n k) (with_intensive service cs m)
  unfolding with_intensive set_intensive_interval add_intensive_condition
  with_intensive-IsFresh service (c ∷ cs) m h =
      add_all-IsFresh (add_intensive_condition P)
        (λ m c. same m (add_intensive_condition P m c) refl refl refl refl refl) (c ∷ cs) m h
  with_intensive-IsFresh {n} {k} service [] m h =
      fresh (quotient service.interval service.intensive_interval)
    where
      fresh : (q : Option ℤ) → AllOf (IsFresh n k) (adjusted m q)
      fresh none = tt
      fresh (some ratio) = same m _ refl refl refl refl refl h

  with_cron-IsFresh :
      {n k : Str} (d : Definition) (m : Module P) → IsFresh n k m → IsFresh n k (with_cron d m)
  unfolding with_cron set_module_cron set_module_cron_interval
  with_cron-IsFresh d m h =
      same m (with_cron d m) (ground arith) (ground arith) (ground arith) (ground arith)
        (ground arith) h

  -- What a built module is asked to be: fresh but for its limits, of a valid type, and with limits only
  -- if its type is numeric.
  pub record IsBuilt (name kind : Str) (m : Module P) : Type 0 where
    pub no_data : m.data_list ≡ none
    pub no_runs : m.executions ≡ 0
    pub is_named : m.module_name ≡ name
    pub is_kind : m.module_kind_str ≡ kind
    pub valid_type : is_type_0 m.module_type ≡ false
    pub numeric_limits : m.has_limits ≡ true → is_text m.module_type ≡ false

  with_limits-IsBuilt :
      {n k : Str} (unset : ℤ) (d : Definition) (m : Module P)
      → IsFresh n k m
      → is_type_0 m.module_type ≡ false
      → IsBuilt n k (with_limits unset d m)
  unfolding with_limits set_max set_min
  with_limits-IsBuilt unset d m h t = record {
    no_data = ground (arith, h.no_data);
    no_runs = ground (arith, h.no_runs);
    is_named = ground (arith, h.is_named);
    is_kind = ground (arith, h.is_kind);
    valid_type = ground (arith, t);
    numeric_limits = λ l. ground (arith, h.no_limits);
  }

  with_texts-IsBuilt :
      {n k : Str} (d : Definition) (m : Module P) → IsBuilt n k m → IsBuilt n k (with_texts d m)
  unfolding with_texts
  with_texts-IsBuilt d m h = record {
    no_data = h.no_data;
    no_runs = h.no_runs;
    is_named = h.is_named;
    is_kind = h.is_kind;
    valid_type = h.valid_type;
    numeric_limits = h.numeric_limits;
  }

  with_type-IsFresh :
      {n k : Str} (d : Definition) (m : Module P)
      → IsFresh n k m
      → AllOf (λ m'. IsFresh n k m' × (is_type_0 m'.module_type ≡ false)) (with_type d m)
  unfolding with_type set_type parse_module_type eq_str
  with_type-IsFresh d m h = elim (Bool-cases (is_empty (d.token_value token_plugin))) [
    | inr e ↦ rw e (same m _ refl refl refl refl refl h, refl)
    | inl e ↦ elim (Bool-cases (is_type_0 (parse_module_type (d.token_value token_type)))) [
      | inl t ↦ rw (e, t) tt
      | inr t ↦ rw (e, t) (same m _ refl refl refl refl refl h, t)
    ]
  ]

  -- What `getModuleFromDefinition` may end with: no module, or one that is as it should be.
  abbrev pub IsSound : Str → Built P → Type 0
  IsSound name null_module = Unit
  IsSound name divides_by_zero = Unit
  IsSound name (built work m) = IsBuilt name (kind_text work) m

  typed-IsSound :
      (unset : ℤ) (work : Work) (d : Definition) (o : Option (Module P))
      → AllOf
          (λ m.
            IsFresh (d.token_value token_name) (kind_text work) m
            × (is_type_0 m.module_type ≡ false))
          o
      → IsSound (d.token_value token_name) (typed unset work d o)
  typed-IsSound unset work d none h = tt
  typed-IsSound unset work d (some m) h =
      with_texts-IsBuilt d (with_limits unset d m) (with_limits-IsBuilt unset d m h.0 h.1)

  scheduled-IsSound :
      (unset : ℤ) (work : Work) (d : Definition) (o : Option (Module P))
      → AllOf (IsFresh (d.token_value token_name) (kind_text work)) o
      → IsSound (d.token_value token_name) (scheduled unset work d o)
  scheduled-IsSound unset work d none h = tt
  scheduled-IsSound unset work d (some m) h =
      typed-IsSound unset work d (with_type d (with_cron d m))
        (with_type-IsFresh d (with_cron d m) (with_cron-IsFresh d m h))

  -- Whatever the definition says: a module that is built has the name of the definition and the kind of
  -- its class, has not run and holds no data, is of a valid type, and has limits only if that type is
  -- numeric.
  pub build-IsSound :
      (service : Service) (unset_int : ℤ) (unset : Module P) (d : Definition) (o : Option Work)
      → IsSound (d.token_value token_name) (build service unset_int unset d o)
  build-IsSound service unset_int unset d none = tt
  build-IsSound service unset_int unset d (some work) = scheduled-IsSound unset_int work d _ (
      with_intensive-IsFresh service d.intensive_condition_list _ (
        with_interval-IsFresh unset_int d _
          (with_conditions-IsFresh d (create unset work d) (create-IsFresh unset work d))))

times_zero : (n : ℤ) → n *ℤ pos 0 ≡ pos 0
unfolding ◌*ℤ◌
times_zero (pos n) = ground arith
times_zero (negsuc n) = ground arith

quotient_zero : (a b : ℕ) → a < b → quotient (pos a) (pos b) ≡ some (pos 0)
quotient_zero a b l = let e : a / b ≡ 0 = div-eq_of_lt l in ground (arith, e)

-- A module without intensive conditions, in a service whose interval is shorter than its intensive
-- interval, is given an intensive interval of zero: `run` divides by it.
pub with_intensive-run :
    {P : Platform} (service : Service) (a b : ℕ) (m : Module P)
    → service.interval ≡ pos a
    → service.intensive_interval ≡ pos b
    → a < b
    → (m' : Module P) × (with_intensive service [] m ≡ some m') × ((run m').0 ≡ division_by_zero)
unfolding with_intensive set_intensive_interval
with_intensive-run service a b m e e' l =
    let q : quotient service.interval service.intensive_interval ≡ some (pos 0) =
      rw (e, e') (quotient_zero a b l) in
    (
      record m { intensive_interval = m.module_interval *ℤ pos 0 },
      ap (adjusted m) q,
      ap (λ r. r.0)
          (run_zero_interval (record m { intensive_interval = m.module_interval *ℤ pos 0 })
            (times_zero m.module_interval)),
    )
