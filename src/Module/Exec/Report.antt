-- ===== src/Module/Exec/Report.antt =====
-- What a module that runs a command reports.
use pandora_agent_win.Base.Result.{ok}
use pandora_agent_win.Base.{
  ◌≡◌, ◌≢◌, ◌≤◌, sym, ap, ◌∙◌, true, false, List, [], ◌∷◌, none, some, All, length,
}
use pandora_agent_win.Child.{Poll, created, poll_loop, buffer_size}
use pandora_agent_win.Child.Reads.{AreText, written_until, poll_loop_complete}
use pandora_agent_win.Data.{SystemTime, new_data}
use pandora_agent_win.Module.Defs.{Module}
use pandora_agent_win.Module.Exec.{
  ExecModule, exit_checked, in_turn, read_process, store_output, execute, run_exec,
}
use pandora_agent_win.Module.Kinds.{is_text}
use pandora_agent_win.Module.Output.Texts.{get_data_output-is_text}
use pandora_agent_win.Module.Output.{fulfilled, run, set_output, value_error, get_data_output}
use pandora_agent_win.Module.Xml.Laws.{expected_xml, get_xml-expected_xml}
use pandora_agent_win.Module.Xml.{xml, is_log, get_xml}
use pandora_agent_win.Platform.{Platform}
use pandora_agent_win.Text.{Str}

module _ {P : Platform} where
  -- The only value, in the report.
  reported :
      (unset : P.Double) (now : SystemTime) (base : Module P) (value : Str)
      → base.has_output ≡ true
      → base.data_list ≡ none
      → is_text base.module_type ≡ true
      → is_log base.module_type ≡ false
      → (get_xml unset (set_output now base value)).0
        ≡ xml (
            expected_xml unset
              (set_output now base value)
              (new_data value now base.module_name ∷ []))
  unfolding set_output
  reported unset now base value h d t l =
      let m = set_output now base value in
      let e = new_data value now base.module_name in
      let listed : m.data_list ≡ some (e ∷ []) = rw d in
      let plain : get_data_output unset m e ≢ value_error =
        λ q. cc (sym (get_data_output-is_text unset m e t) ∙ q) in
      ap (λ r. r.0) (get_xml-expected_xml unset m (e ∷ []) h listed (λ q. cc q) l (plain, tt))

  stored_text :
      (now : SystemTime) (m : ExecModule P) (output : Str)
      → m.proc ≡ false
      → store_output now 0 output (exit_checked 0 m)
        ≡ record m { base = set_output now m.base output }
  unfolding store_output
  stored_text now m output p = simp p

  -- What a command writes is what is reported: of a module in its turn, of a text type but no log, that
  -- has no data yet and is not in the mode `proc`. If the loop over the pipe of the command is left and
  -- the code of the command is zero, the report has all that it has written until then as its one value,
  -- with `%` doubled. The command writes no zero bytes, and never more than 4096 bytes between two rounds
  -- of the loop.
  pub run_exec-expected_xml :
      (unset : P.Double) (now : SystemTime) (m : ExecModule P) (base : Module P) (polls : List Poll)
      (output left : Str)
      → run m.base ≡ (fulfilled, base)
      → base.has_output ≡ true
      → base.data_list ≡ none
      → is_text base.module_type ≡ true
      → is_log base.module_type ≡ false
      → m.proc ≡ false
      → AreText polls
      → All (λ p. length p.written ≤ buffer_size) polls
      → poll_loop base.module_timeout [] polls ≡ some (output, left)
      → (m' : ExecModule P) × (run_exec now (created polls 0) m ≡ ok (some m'))
        × ((get_xml unset m'.base).0
            ≡ xml (
                expected_xml unset m'.base
                  (new_data (written_until base.module_timeout polls) now base.module_name ∷ [])))
  unfolding run_exec execute
  run_exec-expected_xml unset now m base polls output left r h d t l p texts short e =
      let same = poll_loop_complete base.module_timeout polls output left texts short e in
      (
        record m { base = set_output now base output },
        rw (r, in_turn, e, read_process, stored_text now (record m { base = base }) output p),
        reported unset now base output h d t l
            ∙ ap
                (λ w. xml (
                  expected_xml unset (set_output now base output)
                    (new_data w now base.module_name ∷ [])))
                same,
      )
