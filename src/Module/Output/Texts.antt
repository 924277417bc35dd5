-- ===== src/Module/Output/Texts.antt =====
-- The output of a module of a text type.
use pandora_agent_win.Base.{◌≡◌, true}
use pandora_agent_win.Data.{PandoraData}
use pandora_agent_win.Module.Defs.{Module}
use pandora_agent_win.Module.Kinds.{is_text}
use pandora_agent_win.Module.Output.{output, get_data_output}
use pandora_agent_win.Platform.{Platform}

pub get_data_output-is_text :
    {P : Platform} (unset : P.Double) (m : Module P) (d : PandoraData)
    → is_text m.module_type ≡ true
    → get_data_output unset m d ≡ output d.value
unfolding get_data_output
get_data_output-is_text unset m d t = rw (get_data_output, t)
