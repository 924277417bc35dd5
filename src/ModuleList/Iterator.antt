-- ===== src/ModuleList/Iterator.antt =====
-- The list of modules (modules/pandora_module_list.cc) and its iterator. A null pointer is left out: the
-- constructors set both members.
pub mod Loop
use pandora_agent_win.Base.Int.{ℤ}
use pandora_agent_win.Base.Result.{Result, ok, err, undefined_behaviour, ◌>>=◌}
use pandora_agent_win.Base.{
  ℕ, zero, suc, ◌+◌, ◌-◌, Bool, true, false, List, [], ◌∷◌, ◌++◌, Option, none, some, ◌==◌, length,
  get_elem?, if◌then◌else◌,
}
use pandora_agent_win.Conf.Defs.{Files}
use pandora_agent_win.Factory.Build.{
  Service, Built, null_module, divides_by_zero, built, get_module_from_definition,
}
use pandora_agent_win.Module.Defs.{Module}
use pandora_agent_win.Module.Kinds.{ModuleKind, module_0}
use pandora_agent_win.ModuleList.{load}
use pandora_agent_win.Platform.{Platform}
use pandora_agent_win.Text.{Str}

-- `current` is a place in the list; its length is `end ()`.
pub record ModuleList {ℓ} (A : Type ℓ) : Type ℓ where
  pub modules : List A
  pub current : ℕ

module _ {ℓ} {A : Type ℓ} where
  -- The constructor of an empty list.
  abbrev pub new_list : ModuleList A
  new_list = record { modules = []; current = 0 }

  unfoldable pub is_last : ModuleList A → Bool
  is_last l = l.current == length l.modules

  unfoldable pub is_first : ModuleList A → Bool
  is_first l = l.current == 0

  -- `addModule`. An iterator of `std::list` at the end stays at the end.
  unfoldable pub add_module : ModuleList A → A → ModuleList A
  unfolding is_last
  add_module l module' = record {
    modules = l.modules ++ (module' ∷ []);
    current = if is_last l then suc l.current else l.current;
  }

  -- At the end there is nothing to read.
  unfoldable pub get_current_value : ModuleList A → Option A
  get_current_value l = get_elem? l.modules l.current

  unfoldable pub go_first : ModuleList A → ModuleList A
  go_first l = record l { current = 0 }

  -- `goLast` goes behind the last element.
  unfoldable pub go_last : ModuleList A → ModuleList A
  go_last l = record l { current = length l.modules }

  unfoldable pub go_next : ModuleList A → ModuleList A
  unfolding is_last
  go_next l = if is_last l then l else record l { current = l.current + 1 }

  unfoldable pub go_prev : ModuleList A → ModuleList A
  unfolding is_first
  go_prev l = if is_first l then l else record l { current = l.current - 1 }

  abbrev read_value : Option A → Result A
  read_value none = err undefined_behaviour
  read_value (some a) = ok a

  -- The loops of the service, `while (! isLast ()) { … getCurrentValue () … goNext (); }`: the values that
  -- they read, in their order. `none`: the fuel ran out.
  unfoldable pub loop_values : (fuel : ℕ) → ModuleList A → Option (Result (List A))
  loop_values zero l = none
  loop_values (suc fuel) l =
      let rest = loop_values fuel (go_next l) in
      if is_last l then some (ok []) else (elim rest [
        | none ↦ none
        | some values ↦
            some (read_value (get_current_value l) >>= λ a. values >>= λ later. ok (a ∷ later))
      ])

-- The kinds of the `switch`: all but the default.
abbrev is_listed : ModuleKind → Bool
is_listed module_0 = false
is_listed _ = true

module _ {P : Platform} where
  abbrev push_built : ModuleList (Module P) → Built P → Result (ModuleList (Module P))
  push_built l null_module = ok l
  push_built l divides_by_zero = err undefined_behaviour
  push_built l (built work m) = ok (if is_listed m.module_kind then add_module l m else l)

  -- `parseModuleDefinition`, with the factory.
  unfoldable pub parse_module_definition :
      Service
      → ℤ
      → Module P
      → ModuleList (Module P)
      → (definition : Str) → Result (ModuleList (Module P))
  parse_module_definition service unset_int unset l definition =
      push_built l (get_module_from_definition service unset_int unset definition)

  unfoldable pub parse_definitions :
      Service → ℤ → Module P → ModuleList (Module P) → List Str → Result (ModuleList (Module P))
  parse_definitions service unset_int unset l [] = ok l
  parse_definitions service unset_int unset l (d ∷ ds) =
      parse_module_definition service unset_int unset l d >>= λ l'.
      parse_definitions service unset_int unset l' ds

  abbrev loaded : Service → ℤ → Module P → Files → Str → Option Str → Result (ModuleList (Module P))
  loaded service unset_int unset files filename none = err undefined_behaviour
  loaded service unset_int unset files filename (some text) =
      load files filename >>= parse_definitions service unset_int unset new_list >>= λ l.
      ok (go_first l)

  -- The constructor from a file, which sets `current` after the modules were read. Where the file cannot
  -- be opened it is never set, and every use of the list is undefined.
  unfoldable pub new_list_from :
      Service → ℤ → Module P → Files → (filename : Str) → Result (ModuleList (Module P))
  new_list_from service unset_int unset files filename =
      loaded service unset_int unset files filename (files filename)
