-- ===== src/Module/Output/Limits.antt =====
-- Which values a module refuses, and in which rounds it runs.
use native.Mathlib.Nat.{mod-add-mod, mod-eq_of_lt, mod-lt, mod_self}
use pandora_agent_win.Base.Int.{ℤ, pos}
use pandora_agent_win.Base.{
  ℕ, zero, suc, ◌+◌, ◌-◌, ◌%◌, ◌≤◌, ◌<◌, ◌≡◌, sym, ap, ◌∙◌, Bool, true, false, ◌||◌, inl, inr,
  arith, ◌==◌, ==_iff, ltb, Bool-cases, if◌then◌else◌,
}
use pandora_agent_win.Data.{PandoraData}
use pandora_agent_win.Module.Defs.{Module}
use pandora_agent_win.Module.Kinds.{is_text}
use pandora_agent_win.Module.Output.{
  value_error, RunOutcome, fulfilled, interval_not_fulfilled, division_by_zero, out_of_limits,
  get_data_output, run, interval_size,
}
use pandora_agent_win.Module.Setters.{set_min, set_max}
use pandora_agent_win.Platform.{Platform}
use pandora_agent_win.Strutils.{converted, strtodouble}

module _ {P : Platform} (unset : P.Double) (m : Module P) (d : PandoraData) (v : P.Double)
    (numeric : is_text m.module_type ≡ false)
    (reads : strtodouble P.scan_le unset d.value ≡ converted v) where
  -- Of a module with a numeric type, a value that is read as a number equal to the maximum that
  -- `setMax` sets is refused with `Value_Error`.
  pub set_max_excluded :
      (limit : ℤ)
      → P.eq v (P.of_int limit) ≡ true
      → get_data_output unset (set_max m limit) d ≡ value_error
  unfolding get_data_output out_of_limits set_max
  set_max_excluded limit h = ground (arith, numeric, reads)

  -- A module of a numeric type that is given a minimum, of zero or more, while its maximum is still
  -- the zero of a new module, refuses every value that is read as a number. That the numbers are
  -- ordered is asked of this number alone.
  pub set_min_refuses :
      (limit : ℤ)
      → m.max ≡ pos 0
      → (P.lt (P.of_int (pos 0)) v || P.eq v (P.of_int (pos 0)) || P.lt v (P.of_int (pos 0))) ≡ true
      → (P.lt v (P.of_int (pos 0)) ≡ true → P.lt v (P.of_int limit) ≡ true)
      → get_data_output unset (set_min m limit) d ≡ value_error
  unfolding get_data_output out_of_limits set_min
  set_min_refuses limit h t l = ground (arith, numeric, reads, ap P.of_int h)

is_fulfilled : RunOutcome → Bool
is_fulfilled fulfilled = true
is_fulfilled interval_not_fulfilled = false
is_fulfilled division_by_zero = false

-- How many of the next `n` calls of `run` are fulfilled.
pub fulfilled_rounds : {P : Platform} → ℕ → Module P → ℕ
unfolding is_fulfilled
fulfilled_rounds zero m = 0
fulfilled_rounds (suc n) m =
    let (o, m') = run m in (if is_fulfilled o then 1 else 0) + fulfilled_rounds n m'

suc_below : (r k : ℕ) → r < suc k → (r + 1) % suc k ≡ (if r + 1 == suc k then 0 else r + 1)
suc_below r k h = elim (Bool-cases (r + 1 == suc k)) [
  | inl e ↦
      let e' : r + 1 ≡ suc k = (==_iff (r + 1) (suc k)).0 e in
      rw e (ap (λ x. x % suc k) e' ∙ mod_self (suc k))
  | inr e ↦ rw e (mod-eq_of_lt (ground arith))
]

mod_suc : (e k : ℕ) → (e + 1) % suc k ≡ (if e % suc k + 1 == suc k then 0 else e % suc k + 1)
mod_suc e k = sym (mod-add-mod e (suc k) 1) ∙ suc_below (e % suc k) k (mod-lt e (omega arith))

-- The calls to make before the one that is fulfilled, at `executions` mod `k + 1`.
abbrev wait : ℕ → ℕ → ℕ
wait k p = if p == 0 then 0 else suc k - p

module _ {P : Platform} (k : ℕ) where
  -- One call of `run` with an intensive interval of `k + 1`.
  run_step :
      (m : Module P)
      → m.intensive_interval ≡ pos (suc k)
      → ((run m).0 ≡ (if m.executions % suc k == 0 then fulfilled else interval_not_fulfilled))
        × ((run m).1.executions ≡ m.executions + 1)
        × ((run m).1.intensive_interval ≡ pos (suc k))
  unfolding run
  run_step m h = ground (arith, ap interval_size h)

  rounds_from :
      (n : ℕ) (m : Module P)
      → m.intensive_interval ≡ pos (suc k)
      → n ≤ suc k
      → fulfilled_rounds n m ≡ (if ltb (wait k (m.executions % suc k)) n then 1 else 0)
  unfolding fulfilled_rounds
  rounds_from zero m h l = ground arith
  rounds_from (suc n) m h l =
      let (o, e, i) = run_step m h in
      let p = m.executions % suc k in
      ground (
        arith,
        o,
        rounds_from n (run m).1 i (omega arith),
        ap (λ x. x % suc k) e,
        mod_suc m.executions k,
      )

  -- With an intensive interval of `k + 1`, exactly one of every `k + 1` calls of `run` in a row is
  -- fulfilled, whatever the count of executions at which they begin.
  pub fulfilled_rounds_once :
      (m : Module P) → m.intensive_interval ≡ pos (suc k) → fulfilled_rounds (suc k) m ≡ 1
  fulfilled_rounds_once m h = ground (arith, rounds_from (suc k) m h (omega arith))

-- With an intensive interval of zero, which the configuration can give, `run` divides by zero.
pub run_zero_interval :
    {P : Platform} (m : Module P) → m.intensive_interval ≡ pos 0 → run m ≡ (division_by_zero, m)
unfolding run
run_zero_interval m h = ground (arith, ap interval_size h)
