-- ===== src/Service/Outside.antt =====
-- What the service relies on outside the repository: other programs, machines and libraries. An answer
-- may depend on all that was asked before.
use pandora_agent_win.Base.Int.{ℤ}
use pandora_agent_win.Base.{ℕ, Bool, List, Option}
use pandora_agent_win.Ftp.{CurlCode}
use pandora_agent_win.Service.World.{Request}
use pandora_agent_win.Ssh.{Opening}
use pandora_agent_win.Text.{Str}

-- A process that is waited for: it was not created, it has not ended after the time that it is given, which
-- is never where that time has no limit, or it left with a code.
pub data Process : Type 0 where
  not_created not_ended : Process
  exited : ℕ → Process

pub record Outside : Type 0 where
  -- what does not change while the agent runs
  pub install_dir : Str
  pub agent_version : Str
  pub system_name : Str
  pub system_address : Str
  pub os_name : Str
  pub os_version : Str
  -- the digest of MD5, 16 bytes
  pub digest : Str → List ℕ
  -- what a caller gets from a function that ends without a `return`, and a variable never assigned
  pub off_end : ℤ
  pub unset_int : ℤ
  -- whether a directory can be changed to
  pub chdir : Str → Bool
  -- processes that are waited for
  pub process : List Request → Process
  -- `system`: its code, unless the program never ends, and the file that the client leaves
  pub command : List Request → Option ℤ
  pub downloaded : List Request → Option Str
  -- whether a directory was made, and the entries of one that can be opened
  pub made : List Request → Bool
  pub entries : List Request → (path : Str) → Option (List Str)
  -- `CopyFile`
  pub copied : List Request → Bool
  -- libssh2: the connection to a server at a port, the key, the channel
  pub opening : List Request → (host : Str) (port : ℤ) → Opening
  pub accepted : List Request → (host : Str) (port : ℤ) → Bool
  pub channel : List Request → Option ℤ
  -- curl
  pub curl : List Request → CurlCode
  -- the files that a search finds, in order, and the space that is left on the disk
  pub found : List Request → (pattern : Str) → List Str
  pub free_bytes : List Request → Option ℕ
