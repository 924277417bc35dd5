-- ===== src/Tests/ModuleList.antt =====
-- The lines of module definitions (modules/pandora_module_list.cc) at concrete inputs.
use pandora_agent_win.Base.Result.{ok}
use pandora_agent_win.Base.{ℕ, arith, some}
use pandora_agent_win.ModuleList.Iterator.{ModuleList, loop_values, go_first}
use pandora_agent_win.ModuleList.Iterator.Loop.{loop_values-modules}
use pandora_agent_win.Base.{◌≡◌, refl, List, [], ◌∷◌, none}
use pandora_agent_win.ModuleList.{load_lines}
use pandora_agent_win.Text.{Str, bytes, find}

abbrev first : Str
first = bytes "module_begin"

abbrev body : List Str
body = bytes "module_name a" ∷ bytes "module_exec b" ∷ []

abbrev last : Str
last = bytes "module_end"

abbrev rest : List Str
rest = bytes "# c" ∷ bytes "module_plugin d" ∷ []

load_rest : load_lines (λ path. none) none rest ≡ ok (bytes "module_plugin d" ∷ [])
unfolding load_lines find
load_rest = refl

abbrev two : ModuleList ℕ
two = record { modules = 3 ∷ 5 ∷ []; current = 1 }

loop_values-modules_example : loop_values 3 (go_first two) ≡ some (ok (3 ∷ 5 ∷ []))
loop_values-modules_example = loop_values-modules two 3 (omega arith)
