-- ===== src/Service/Rounds/Laws.antt =====
-- What a round of the modules reports.
use pandora_agent_win.Base.Int.{ℤ}
use pandora_agent_win.Base.Result.{Result, ok, err, ◌>>=◌, Every, Every-bind, Every-value}
use pandora_agent_win.Base.{
  ◌≡◌, refl, sym, arith, Bool, true, false, ◌||◌, Bool-cases, inl, inr, List, [], ◌∷◌, Option, none,
}
use pandora_agent_win.Cron.{check_cron, Cron}
use pandora_agent_win.Module.Conditions.{evaluate_intensive_conditions, evaluate_conditions}
use pandora_agent_win.Module.Defs.{Module}
use pandora_agent_win.Module.Output.{set_no_output, clean_data_list}
use pandora_agent_win.Module.Xml.{get_xml}
use pandora_agent_win.Module.Exec.{plugin_text}
use pandora_agent_win.Module.Inventory.{inventory_xml}
use pandora_agent_win.Module.Kinds.{is_plugin, is_inventory}
use pandora_agent_win.Platform.{Platform}
use pandora_agent_win.Service.Rounds.{
  Around, Ran, silent, is_held_back, marked, exports, with_output, after_run, after_cron,
  run_module, run_modules,
}
use pandora_agent_win.Service.SendXml.{modules_xml, virtual_xml}
use pandora_agent_win.Service.World.{World, done}
use pandora_agent_win.Text.{Str}

false_ne_true : false ≡ true → ⊥
false_ne_true h = cc

module _ {P : Platform} (out : Around P) (forced : Bool) (interval_sec run_time : ℤ) where
  -- A module without data in this round has none of an earlier one.
  abbrev IsQuiet : Ran P → Type 0
  IsQuiet r = r.has_data ≡ false → (m : Module P) × (r.module' ≡ set_no_output m)

  silent-IsQuiet :
      (m : Module P) (e : Option Str) → IsQuiet (silent out forced interval_sec run_time m e)
  silent-IsQuiet m e h = (m, refl)

  with_output-IsQuiet :
      (m : Module P) → Every IsQuiet (with_output out forced interval_sec run_time m)
  unfolding with_output
  with_output-IsQuiet m = Every-bind IsQuiet (exports out forced interval_sec run_time m) _ (λ e.
      Every-bind IsQuiet (evaluate_intensive_conditions P out.unset m) _ (λ b.
        elim (Bool-cases (is_held_back out forced interval_sec run_time m b)) [
          | inl held ↦ rw held (silent-IsQuiet m e)
          | inr free ↦ rw free (
              Every-bind IsQuiet
                (evaluate_conditions P out.starts out.unset
                  (marked out forced interval_sec run_time m b))
                _ (λ commands h. absurd (false_ne_true (sym h))))
        ]))

  run_module-IsQuiet :
      (m : Module P) → Every IsQuiet (run_module out forced interval_sec run_time m)
  unfolding run_module
  run_module-IsQuiet m = elim (Bool-cases (out.preconditions m)) [
    | inl b ↦ rw b (
        cron_quiet (check_cron out.local_time m.cron out.time).0
          (check_cron out.local_time m.cron out.time).1)
    | inr b ↦ rw b (silent-IsQuiet m none)
  ]
    where
      run_quiet :
          (b : Bool) (m' : Module P)
          → Every IsQuiet (after_run out forced interval_sec run_time b m')
      run_quiet false m' = silent-IsQuiet m' none
      run_quiet true m' = with_output-IsQuiet m'

      cron_quiet :
          (b : Bool) (c : Option Cron)
          → Every IsQuiet (after_cron out forced interval_sec run_time b (record m { cron = c }))
      cron_quiet false c = silent-IsQuiet (record m { cron = c }) none
      cron_quiet true c =
          run_quiet (out.run_kind (record m { cron = c })).has_output
            (out.run_kind (record m { cron = c }))

  -- Whatever its kind, such a module has nothing to report.
  quiet_xml :
      (unset : P.Double) (m m' : Module P) (w : World)
      → m' ≡ set_no_output m
      → virtual_xml unset m' w ≡ done w ([], m')
  unfolding virtual_xml get_xml plugin_text inventory_xml set_no_output clean_data_list
  quiet_xml unset m m' w e = rw e (elim (Bool-cases (is_plugin m.module_kind)) [
    | inl b ↦ rw b refl
    | inr b ↦ elim (Bool-cases (is_inventory m.module_kind)) [
      | inl c ↦ rw (b, c) refl
      | inr c ↦ rw (b, c) refl
    ]
  ])

  -- Where no module has data in a round, the report that follows holds nothing of any module, and the
  -- modules stay as they are.
  abbrev IsSilent : List (Module P) × Bool → Type 0
  IsSilent (ms, data_flag) =
      data_flag ≡ false → (unset : P.Double) (w : World) → modules_xml unset ms w ≡ done w ([], ms)

  quiet_list :
      (m m' : Module P) (ms : List (Module P)) (unset : P.Double) (w : World)
      → m' ≡ set_no_output m
      → modules_xml unset ms w ≡ done w ([], ms)
      → modules_xml unset (m' ∷ ms) w ≡ done w ([], m' ∷ ms)
  unfolding modules_xml
  quiet_list m m' ms unset w h e = rw (quiet_xml unset m m' w h, e) refl

  both-IsSilent :
      (a : Result (Ran P)) (b : Result (List (Module P) × Bool))
      → Every IsQuiet a
      → Every IsSilent b
      → Every IsSilent
          (a >>= λ ran. b >>= λ rest. ok (ran.module' ∷ rest.0, ran.has_data || rest.1))
  both-IsSilent (err way) b h k = tt
  both-IsSilent (ok ran) (err way) h k = tt
  both-IsSilent (ok ran) (ok (ms, flagged)) h k = λ e unset w.
      let (m, same) = h (or_false ran.has_data flagged e).0 in
      quiet_list m ran.module' ms unset w same (k (or_false ran.has_data flagged e).1 unset w)
    where
      or_false : (x y : Bool) → (x || y) ≡ false → (x ≡ false) × (y ≡ false)
      or_false x y e = ground arith

  all-IsSilent :
      (ms : List (Module P)) → Every IsSilent (run_modules out forced interval_sec run_time ms)
  unfolding run_modules
  all-IsSilent [] = λ h unset w. unfold modules_xml in refl
  all-IsSilent (m ∷ ms) =
      both-IsSilent (run_module out forced interval_sec run_time m)
        (run_modules out forced interval_sec run_time ms) (run_module-IsQuiet m) (all-IsSilent ms)

  -- After a round in which no module has data, the report holds nothing of any module, whatever their
  -- kinds, and reporting leaves the modules as they are.
  pub run_modules-modules_xml :
      (ms ms' : List (Module P)) (unset : P.Double) (w : World)
      → run_modules out forced interval_sec run_time ms ≡ ok (ms', false)
      → modules_xml unset ms' w ≡ done w ([], ms')
  run_modules-modules_xml ms ms' unset w e = Every-value IsSilent (all-IsSilent ms) e refl unset w
