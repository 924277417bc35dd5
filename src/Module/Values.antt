-- ===== src/Module/Values.antt =====
-- The modules that store one value at their turn: those that ask Windows for the processor, the disk and
-- the memory (modules/pandora_module_cpuusage.cc, pandora_module_freedisk.cc,
-- pandora_module_freedisk_percent.cc, pandora_module_freememory.cc,
-- pandora_module_freememory_percent.cc), for the rows of a query (pandora_module_wmiquery.cc) and for a
-- counter (pandora_module_perfcounter.cc), and the one that connects to a port
-- (pandora_module_tcpcheck.cc). What Windows answers is given.
use pandora_agent_win.Base.Int.{ℤ, pos, ltb_ℤ, eqb_ℤ}
use pandora_agent_win.Base.Result.{Result, ok, err, undefined_behaviour}
use pandora_agent_win.Base.{Bool, false, ◌||◌, List, [], ◌∷◌, Option, none, some, if◌then◌else◌}
use pandora_agent_win.Data.{SystemTime}
use pandora_agent_win.KeyValue.{upper}
use pandora_agent_win.Module.Defs.{Module}
use pandora_agent_win.Module.Output.{
  RunOutcome, fulfilled, interval_not_fulfilled, division_by_zero, run, set_output,
}
use pandora_agent_win.Module.Setters.{set_kind}
use pandora_agent_win.Platform.{Platform}
use pandora_agent_win.Strutils.{inttostr, longtostr, atoi}
use pandora_agent_win.Text.{Str, bytes, is_empty}
use pandora_agent_win.Wmi.{
  Answer, cpu_query, get_cpu_usage_percentage, disk_query, get_disk_free_space,
  get_disk_free_space_percent, get_freememory, get_freememory_percent, run_wmi_query,
}

pub record CpuModule (P : Platform) : Type 0 where
  pub base : Module P
  pub cpu_id : ℤ

pub record DiskModule (P : Platform) : Type 0 where
  pub base : Module P
  pub disk_id : Str

pub record QueryModule (P : Platform) : Type 0 where
  pub base : Module P
  pub query : Str
  pub column : Str

pub record TcpModule (P : Platform) : Type 0 where
  pub base : Module P
  pub address : Str
  pub port : ℤ
  pub timeout : ℤ

pub record CounterModule (P : Platform) : Type 0 where
  pub base : Module P
  pub source : Str
  pub cooked : Bool

-- How far the connection gets: no socket, no address, an error at once, or what `select` returns.
pub data Connection : Type 0 where
  no_socket unresolved connect_error : Connection
  selected : (rc : ℤ) → Connection

-- How far the counter gets: no library, no query, no counter, no data, or its two values, each after as
-- many collections as it takes.
pub data Counter : Type 0 where
  no_library no_query no_counter no_data : Counter
  collected : (raw : ℤ) (formatted : Option ℤ) → Counter

abbrev text_of {ℓ} : {A : Type ℓ} → (A → Str) → Option A → Option Str
text_of print none = none
text_of print (some a) = some (print a)

-- The value of a counter; a cooked one needs a second collection.
unfoldable pub counter_text : (cooked : Bool) → Counter → Option Str
counter_text cooked (collected raw formatted) =
    let text = text_of longtostr formatted in if cooked then text else some (longtostr raw)
counter_text cooked _ = none

-- What is stored of a connection, if anything: all but a time out counts as success.
unfoldable pub connection_text : Connection → Option Str
connection_text (selected rc) = some (if eqb_ℤ rc (pos 0) then bytes "0" else bytes "1")
connection_text _ = none

module _ {P : Platform} where
  -- What a module does at its turn, and only then.
  abbrev pub at_turn : (Module P → Module P) → RunOutcome × Module P → Result (Module P)
  at_turn turn (fulfilled, base) = ok (turn base)
  at_turn turn (interval_not_fulfilled, base) = ok base
  at_turn turn (division_by_zero, base) = err undefined_behaviour

  -- The value, or no output for a `Pandora_Wmi_Exception`.
  abbrev pub or_no_output : SystemTime → Option Str → Module P → Module P
  or_no_output now none base = record base { has_output = false }
  or_no_output now (some text) base = set_output now base text

  abbrev pub if_found : SystemTime → Option Str → Module P → Module P
  if_found now none base = base
  if_found now (some text) base = set_output now base text

  unfoldable pub new_cpuusage : Module P → (cpu_id : ℤ) → CpuModule P
  new_cpuusage named cpu_id = record {
    base = set_kind named (bytes "module_cpuusage");
    cpu_id = cpu_id;
  }

  unfoldable pub run_cpuusage : SystemTime → (Str → Answer) → CpuModule P → Result (Module P)
  run_cpuusage now answers m =
      let usage = get_cpu_usage_percentage (answers (cpu_query m.cpu_id)) in
      at_turn (or_no_output now (text_of (λ n. inttostr (pos n)) usage)) (run m.base)

  unfoldable pub new_freedisk : Module P → (disk_id : Str) → DiskModule P
  new_freedisk named disk_id = record {
    base = set_kind named (bytes "module_freedisk");
    disk_id = upper disk_id;
  }

  unfoldable pub run_freedisk : SystemTime → (Str → Answer) → DiskModule P → Result (Module P)
  run_freedisk now answers m =
      let free = get_disk_free_space (answers (disk_query m.disk_id)) in
      at_turn (or_no_output now (text_of (λ n. longtostr (pos n)) free)) (run m.base)

  unfoldable pub new_freedisk_percent : Module P → (disk_id : Str) → DiskModule P
  new_freedisk_percent named disk_id = record {
    base = set_kind named (bytes "module_freedisk_percent");
    disk_id = upper disk_id;
  }

  unfoldable pub run_freedisk_percent :
      SystemTime → (Str → Answer) → DiskModule P → Result (Module P)
  run_freedisk_percent now answers m =
      let free = get_disk_free_space_percent (answers (disk_query m.disk_id)) in
      at_turn (or_no_output now (text_of (λ n. longtostr (pos n)) free)) (run m.base)

  unfoldable pub run_freememory : SystemTime → Answer → Module P → Result (Module P)
  run_freememory now answer m =
      at_turn (or_no_output now (text_of longtostr (get_freememory answer))) (run m)

  unfoldable pub run_freememory_percent : SystemTime → Answer → Module P → Result (Module P)
  run_freememory_percent now answer m =
      at_turn (or_no_output now (text_of (λ n. longtostr (pos n)) (get_freememory_percent answer)))
        (run m)

  abbrev store_rows : SystemTime → List Str → Module P → Module P
  store_rows now [] base = base
  store_rows now (row ∷ rest) base = store_rows now rest (set_output now base row)

  abbrev store_query : SystemTime → List Str → Module P → Module P
  store_query now [] base = set_output now base []
  store_query now (row ∷ rest) base = store_rows now (row ∷ rest) base

  unfoldable pub run_wmiquery : SystemTime → (Str → Answer) → QueryModule P → Result (Module P)
  run_wmiquery now answers m =
      at_turn
        (λ base.
          if is_empty m.query || is_empty m.column
          then base
          else store_query now (run_wmi_query m.column (answers m.query)) base)
        (run m.base)

  -- The constructor, with `DEFAULT_TIMEOUT`.
  unfoldable pub new_tcpcheck : Module P → (address port timeout : Str) → TcpModule P
  new_tcpcheck named address port timeout = record {
    base = set_kind named (bytes "module_tcpcheck");
    address = address;
    port = atoi port;
    timeout = if ltb_ℤ (atoi timeout) (pos 1) then pos 3 else atoi timeout;
  }

  unfoldable pub run_tcpcheck : SystemTime → Connection → TcpModule P → Result (Module P)
  run_tcpcheck now c m =
      at_turn (λ base. if is_empty m.address then base else if_found now (connection_text c) base)
        (run m.base)

  unfoldable pub run_perfcounter : SystemTime → Counter → CounterModule P → Result (Module P)
  run_perfcounter now c m = at_turn (if_found now (counter_text m.cooked c)) (run m.base)
