-- ===== src/Service/Buffer.antt =====
-- `sendBufferedXml`: the data files that are left in the directory are sent, up to the first error.
pub mod Laws
use pandora_agent_win.Base.Int.{ℤ, pos, eqb_ℤ}
use pandora_agent_win.Base.{ℕ, Bool, List, [], ◌∷◌, ◌++◌, if◌then◌else◌}
use pandora_agent_win.Service.Outside.{Outside}
use pandora_agent_win.Service.Transfer.{copy_data_file}
use pandora_agent_win.Service.World.{World, Run, done, ◌>>=◌, ◌>>◌, return, remove, ended_by}
use pandora_agent_win.Text.{Str, bytes}

module _ (env : Outside) where
  -- The first file and the loop over the others, which do the same.
  unfoldable pub send_files : (base_path : Str) → List Str → Run (Unit {0})
  send_files base_path [] = return tt
  send_files base_path (name ∷ names) = copy_data_file env name >>= λ rc.
      if eqb_ℤ rc (pos 0)
      then (remove (base_path ++ name) >> send_files base_path names)
      else return tt

  abbrev send_found : (base_path : Str) → Run (Unit {0})
  send_found base_path w =
      send_files base_path (env.found w.requests (base_path ++ bytes "*.data")) w

  unfoldable pub send_buffered_xml : (path : Str) → Run (Unit {0})
  send_buffered_xml path = ended_by b'\\' path >>= send_found
