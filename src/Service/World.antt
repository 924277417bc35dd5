-- ===== src/Service/World.antt =====
-- What the service reads and changes outside its own variables, and the ways in which a function of it
-- can end.
use pandora_agent_win.Base.Int.{ℤ}
use pandora_agent_win.Base.{
  ◌≡◌, refl, ℕ, List, [], ◌∷◌, ◌++◌, Option, none, some, ◌==◌, if◌then◌else◌,
}
use pandora_agent_win.Base.Result.{Result, ok, err, out_of_range, undefined_behaviour}
use pandora_agent_win.Conf.Defs.{Conf, get_value}
use pandora_agent_win.File.{Disk, read_bin_file, write_file, remove_file}
use pandora_agent_win.Text.{Str}

-- What the agent asks of other programs and machines.
pub data Request : Type 0 where
  -- a Tentacle client, and how many milliseconds it is given, unless without end
  run_client : (command : Str) (timeout : Option ℤ) → Request
  -- a file by scp: the server, the port, the remote path and the text
  scp_send : (host : Str) (port : ℤ) (remote text : Str) → Request
  -- a file by FTP: the address, the name to give it and the text
  ftp_send : (url rename : Str) (text : Option Str) → Request
  -- `CopyFile`
  copy_file : (local remote : Str) → Request
  -- a directory that is deleted with all that is in it, and one that is made
  remove_dir make_dir : (path : Str) → Request
  -- `system`
  run_command : (command : Str) → Request

-- The configuration, the files, the environment variable `PATH`, and the requests so far, the last one
-- first.
pub record World : Type 0 where
  pub conf : Conf
  pub disk : Disk
  pub path : Str
  pub requests : List Request

-- The end of a function: undefined behaviour, a wait for another program that never ends, no end of its
-- own loops, an exception, a value.
pub data Outcome {ℓ} (V : Type ℓ) : Type ℓ where
  undefined hung endless : Outcome V
  thrown : World → Outcome V
  done : World → V → Outcome V

abbrev pub Run {ℓ} : Type ℓ → Type ℓ
Run V = World → Outcome V

abbrev pub bound {ι κ} : {V : Type ι} {W : Type κ} → Outcome V → (V → Run W) → Outcome W
bound undefined next = undefined
bound hung next = hung
bound endless next = endless
bound (thrown w) next = thrown w
bound (done w v) next = next v w

infixl 5 ◌>>=◌ ◌>>◌
abbrev pub ◌>>=◌ {ι κ} : {V : Type ι} {W : Type κ} → Run V → (V → Run W) → Run W
(first >>= next) w = bound (first w) next

abbrev pub ◌>>◌ {κ} : {W : Type κ} → Run (Unit {0}) → Run W → Run W
first >> second = first >>= λ _. second

abbrev pub return {ℓ} : {V : Type ℓ} → V → Run V
return v w = done w v

abbrev pub throw {ℓ} : {V : Type ℓ} → Run V
throw w = thrown w

abbrev pub undefined_here {ℓ} : {V : Type ℓ} → Run V
undefined_here w = undefined

abbrev handled {ℓ} : {V : Type ℓ} → Outcome V → Run V → Outcome V
handled undefined handler = undefined
handled hung handler = hung
handled endless handler = endless
handled (thrown w) handler = handler w
handled (done w v) handler = done w v

-- `try { … } catch (...) { … }`.
abbrev pub try_catch {ℓ} : {V : Type ℓ} → Run V → Run V → Run V
try_catch body handler w = handled (body w) handler

-- The value, if nothing was thrown.
abbrev pub attempt {ℓ} : {V : Type ℓ} → Run V → Run (Option V)
attempt body = try_catch (body >>= λ v. return (some v)) (return none)

abbrev pub from_result {ℓ} : {V : Type ℓ} → Result V → Run V
from_result (ok v) = return v
from_result (err out_of_range) = throw
from_result (err undefined_behaviour) = undefined_here

abbrev pub get : (key : Str) → Run Str
get key w = done w (get_value w.conf key)

abbrev pub change_conf : (Conf → Conf) → Run (Unit {0})
change_conf f w = done (record w { conf = f w.conf }) tt

abbrev pub request : Request → Run (Unit {0})
request r w = done (record w { requests = r ∷ w.requests }) tt

abbrev pub or_thrown {ℓ} : {V : Type ℓ} → World → Option V → (V → Outcome V) → Outcome V
or_thrown w none next = thrown w
or_thrown w (some v) next = next v

-- `Pandora_File::readBinFile`, `writeBinFile` and `removeFile`. The last one tells of a file that it
-- could not remove, and every caller drops the answer.
abbrev pub read : (path : Str) → Run Str
read path w = or_thrown w (read_bin_file w.disk path) (done w)

abbrev pub written_to : World → Option Disk → Outcome (Unit {0})
written_to w none = thrown w
written_to w (some disk) = done (record w { disk = disk }) tt

abbrev pub write : (path text : Str) → Run (Unit {0})
write path text w = written_to w (write_file w.disk path text)

abbrev pub remove : (path : Str) → Run (Unit {0})
remove path w = done (record w { disk = remove_file w.disk path }) tt

abbrev pub last_byte : ℕ → Str → ℕ
last_byte c [] = c
last_byte c (d ∷ s) = last_byte d s

-- `if (path[path.length () - 1] != c) path += c`. An empty path has no last byte.
unfoldable pub ended_by : ℕ → Str → Run Str
ended_by c [] = undefined_here
ended_by c (d ∷ s) = return (if last_byte d s == c then d ∷ s else (d ∷ s) ++ (c ∷ []))

-- What a run of two steps ended with came from the ends of both.
pub bound-eq-done {ι κ} :
    {V : Type ι} {W : Type κ} (first : Outcome V) (next : V → Run W) {w' : World} {x : W}
    → bound first next ≡ done w' x
    → (w : World) × (v : V) × (first ≡ done w v) × (next v w ≡ done w' x)
bound-eq-done undefined next h = cc
bound-eq-done hung next h = cc
bound-eq-done endless next h = cc
bound-eq-done (thrown w) next h = cc
bound-eq-done (done w v) next h = (w, v, refl, h)
