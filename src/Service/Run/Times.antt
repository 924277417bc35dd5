-- ===== src/Service/Run/Times.antt =====
-- The time reference of the service over a round.
use pandora_agent_win.Base.Int.{pos, eqb_ℤ, leb_ℤ, ◌+ℤ◌}
use pandora_agent_win.Base.{
  ℕ, ◌+◌, ◌==◌, ◌≡◌, refl, ◌∙◌, sym, ap, ◌⊎◌, inl, inr, Bool, true, false, List, [], ◌∷◌, Option,
  none, some, if◌then◌else◌,
}
use pandora_agent_win.Module.Defs.{Module}
use pandora_agent_win.Platform.{Platform}
use pandora_agent_win.Service.Outside.{Outside}
use pandora_agent_win.Service.Returns.{
  Returns, Returns-map, Returns-bind, Returns-after, Returns-return, Returns-if, Returns-value,
}
use pandora_agent_win.Service.Config.{agent_name_in, check_config}
use pandora_agent_win.Service.SendXml.{send_xml}
use pandora_agent_win.Service.Collections.{check_collections}
use pandora_agent_win.Service.Rounds.{run_modules, sends_report}
use pandora_agent_win.Service.Run.{
  Moment, loop_over, sent_state, send_due, run_and_send, checked, pandora_run_broker, run_brokers,
  with_timestamp, check_broker_agents, pandora_run,
}
use pandora_agent_win.Service.State.{
  State, conf_file, count_broker_agents, load_modules, set_all_conf, set_conf, pandora_init,
  pandora_init_broker, set_intervals,
}
use pandora_agent_win.Service.World.{World, Run, done, return, get, from_result, ◌>>=◌}
use pandora_agent_win.Text.{Str, bytes}

module _ {P : Platform} where
  -- The time of the round, the time reference and the count of rounds.
  pub record SameTimes (s s' : State P) : Type 0 where
    pub same_run : s'.run_time ≡ s.run_time
    pub same_timestamp : s'.timestamp ≡ s.timestamp
    pub same_number : s'.execution_number ≡ s.execution_number

  times_refl : (s : State P) → SameTimes s s
  times_refl s = record { same_run = refl; same_timestamp = refl; same_number = refl }

  times_trans : {a b c : State P} → SameTimes a b → SameTimes b c → SameTimes a c
  times_trans s t = record {
    same_run = t.same_run ∙ s.same_run;
    same_timestamp = t.same_timestamp ∙ s.same_timestamp;
    same_number = t.same_number ∙ s.same_number;
  }

  module _ (env : Outside) (unset : Module P) where
    init-SameTimes : (s : State P) → Returns (SameTimes s) (pandora_init env unset s)
    unfolding pandora_init
    init-SameTimes s = Returns-after (count_broker_agents (conf_file env unset)) (λ num.
        Returns-after (set_all_conf env unset) (λ _.
          Returns-after (get (bytes "interval")) (λ interval.
            Returns-after (get (bytes "intensive_interval")) (λ intensive.
              Returns-after
                (load_modules env unset (set_intervals env.unset_int interval intensive s.intervals)
                  (conf_file env unset))
                (λ modules. Returns-after (agent_name_in (conf_file env unset)) (λ name.
                  Returns-return
                    {v = record s {
                      intervals = set_intervals env.unset_int interval intensive s.intervals;
                      modules = some modules;
                    }}
                    (record { same_run = refl; same_timestamp = refl; same_number = refl })))))))

    init_broker-SameTimes :
        (file_conf : Str) (s : State P)
        → Returns (SameTimes s) (pandora_init_broker env unset file_conf s)
    unfolding pandora_init_broker
    init_broker-SameTimes file_conf s = Returns-after (agent_name_in file_conf) (λ name.
        Returns-after (set_conf env unset file_conf) (λ _.
          Returns-after (load_modules env unset s.intervals file_conf) (λ modules.
            Returns-return
              (record { same_run = refl; same_timestamp = refl; same_number = refl }))))

    module _ (m : Moment P) where
      loop-SameTimes :
          (forced : Bool) (s : State P) (ms : Option (List (Module P)))
          → Returns (λ r. SameTimes s r.0) (loop_over env unset m forced s ms)
      loop-SameTimes forced s none = Returns-return (times_refl s)
      loop-SameTimes forced s (some ms) =
          Returns-after
            (from_result (run_modules m.around forced s.intervals.interval_sec s.run_time ms))
            (λ r.
              Returns-return
                (record { same_run = refl; same_timestamp = refl; same_number = refl }))

      due-SameTimes :
          (forced : Bool) (s : State P) (server_addr : Str) (r : State P × Bool)
          → SameTimes s r.0
          → Returns (SameTimes s) (send_due env unset m forced server_addr r)
      due-SameTimes forced s server_addr (s', data_flag) t =
          Returns-if
            (sends_report forced data_flag s'.timestamp s'.intervals.interval_sec s'.run_time
              server_addr)
            (Returns-after (send_xml env m.around.unset m.debug m.now m.gis m.number s'.modules)
              (λ sent. Returns-return {v = sent_state env unset m s' sent} (record {
                same_run = t.same_run;
                same_timestamp = t.same_timestamp;
                same_number = t.same_number;
              })))
            (Returns-return t)

      send-SameTimes :
          (forced : Bool) (s : State P) → Returns (SameTimes s) (run_and_send env unset m forced s)
      unfolding run_and_send
      send-SameTimes forced s = Returns-after (get (bytes "server_ip")) (λ server_addr.
          Returns-bind (λ r. SameTimes s r.0) {next = send_due env unset m forced server_addr}
            (loop-SameTimes forced s s.modules) (due-SameTimes forced s server_addr))

      then_send-SameTimes :
          (forced : Bool) (s s' : State P)
          → SameTimes s s'
          → Returns (SameTimes s) (run_and_send env unset m forced s')
      then_send-SameTimes forced s s' t =
          Returns-map (SameTimes s') (λ s₃ u. times_trans t u) (send-SameTimes forced s')

      checked-SameTimes :
          (file : Str) (init : State P → Run (State P))
          → ((s : State P) → Returns (SameTimes s) (init s))
          → (s : State P) → Returns (SameTimes s) (checked env unset m file init s)
      checked-SameTimes file init i s = Returns-if m.debug (Returns-return (times_refl s)) (
          Returns-after (check_config env file) (λ rc.
            Returns-bind (SameTimes s)
              (Returns-if (eqb_ℤ rc (pos 1)) (i s) (Returns-return (times_refl s)))
              (λ s' t. Returns-after (check_collections env) (λ _. Returns-return t))))

      broker-SameTimes :
          (config : Str) (s : State P)
          → Returns (SameTimes s) (pandora_run_broker env unset m config s)
      unfolding pandora_run_broker
      broker-SameTimes config s =
          Returns-bind (SameTimes s)
            (checked-SameTimes config (pandora_init_broker env unset config)
              (init_broker-SameTimes config) s)
            (λ s' t. then_send-SameTimes false s s' t)

      brokers-SameTimes :
          (all_conf : List Str) (s : State P)
          → Returns (SameTimes s) (run_brokers env unset m all_conf s)
      unfolding run_brokers
      brokers-SameTimes [] s = Returns-return (times_refl s)
      brokers-SameTimes (config ∷ rest) s =
          Returns-bind (SameTimes s) (init_broker-SameTimes config s) (λ s' t.
            Returns-bind (SameTimes s') (broker-SameTimes config s') (λ s₃ u.
              Returns-map (SameTimes s₃) (λ s₄ v. times_trans (times_trans t u) v)
                (brokers-SameTimes rest s₃)))

      -- The state at the end of a round that began with `s`.
      pub record IsNextRound (s s' : State P) : Type 0 where
        pub runs_now : s'.run_time ≡ m.time
        pub counts_one : s'.execution_number ≡ s.execution_number + 1
        pub keeps_or_takes_time : (s'.timestamp ≡ s.timestamp) ⊎ (s'.timestamp ≡ m.time)
        pub not_overdue :
            (s'.timestamp ≡ m.time)
            ⊎ (leb_ℤ (s'.timestamp +ℤ s'.intervals.interval_sec) m.time ≡ false)

      taken-IsNextRound :
          (s s' : State P)
          → SameTimes (record s { run_time = m.time; execution_number = s.execution_number + 1 }) s'
          → (b : Bool) → leb_ℤ (s'.timestamp +ℤ s'.intervals.interval_sec) s'.run_time ≡ b
          → IsNextRound s (if b then record s' { timestamp = s'.run_time } else s')
      taken-IsNextRound s s' t true e = record {
        runs_now = t.same_run;
        counts_one = t.same_number;
        keeps_or_takes_time = inr t.same_run;
        not_overdue = inl t.same_run;
      }
      taken-IsNextRound s s' t false e = record {
        runs_now = t.same_run;
        counts_one = t.same_number;
        keeps_or_takes_time = inl t.same_timestamp;
        not_overdue = inr (
            sym (ap (λ now. leb_ℤ (s'.timestamp +ℤ s'.intervals.interval_sec) now) t.same_run) ∙ e);
      }

      timestamp-IsNextRound :
          (s s' : State P)
          → SameTimes (record s { run_time = m.time; execution_number = s.execution_number + 1 }) s'
          → IsNextRound s (with_timestamp env unset m s')
      timestamp-IsNextRound s s' t =
          taken-IsNextRound s s' t (leb_ℤ (s'.timestamp +ℤ s'.intervals.interval_sec) s'.run_time)
            refl

      end-IsNextRound :
          (s s₄ : State P) (num : ℕ)
          → SameTimes (record s { run_time = m.time; execution_number = s.execution_number + 1 }) s₄
          → Returns (IsNextRound s) (
              (if num == 0 then return s₄ else pandora_init env unset s₄) >>= λ s₅.
              return (with_timestamp env unset m s₅))
      end-IsNextRound s s₄ num t =
          Returns-bind (SameTimes s₄)
            (Returns-if (num == 0) (Returns-return (times_refl s₄)) (init-SameTimes s₄))
            (λ s₅ u. Returns-return (timestamp-IsNextRound s s₅ (times_trans t u)))

      run-IsNextRound :
          (forced : Bool) (s : State P) → Returns (IsNextRound s) (pandora_run env unset m forced s)
      unfolding pandora_run
      run-IsNextRound forced s =
          Returns-bind (SameTimes (record s { run_time = m.time }))
            (checked-SameTimes (conf_file env unset) (pandora_init env unset) init-SameTimes
              (record s { run_time = m.time }))
            (λ s₂ t.
              Returns-bind (SameTimes (record s₂ { execution_number = s₂.execution_number + 1 }))
                (send-SameTimes forced (record s₂ { execution_number = s₂.execution_number + 1 }))
                (λ s₃ u. Returns-after (count_broker_agents (conf_file env unset)) (λ num.
                  Returns-after (check_broker_agents env unset m) (λ all_conf.
                    Returns-bind (SameTimes s₃) (brokers-SameTimes all_conf s₃) (λ s₄ v.
                      end-IsNextRound s s₄ num (times_trans (times_trans (counted s s₂ t) u) v))))))
        where
          counted :
              (a b : State P)
              → SameTimes (record a { run_time = m.time }) b
              → SameTimes
                  (record a { run_time = m.time; execution_number = a.execution_number + 1 })
                  (record b { execution_number = b.execution_number + 1 })
          counted a b t = record {
            same_run = t.same_run;
            same_timestamp = t.same_timestamp;
            same_number = ap (λ n. n + 1) t.same_number;
          }

      -- A round from state `s` that ends in state `s'` leaves the time of the round in `run_time` and has
      -- counted one execution more, whatever was read again in between. Its time reference is the one of
      -- before or the time of the round, and where it is not the time of the round, the reference and the
      -- interval in seconds together lie past that time.
      pub pandora_run-IsNextRound :
          (forced : Bool) (w w' : World) (s s' : State P)
          → pandora_run env unset m forced s w ≡ done w' s'
          → IsNextRound s s'
      pandora_run-IsNextRound forced w w' s s' e =
          Returns-value w w' s' (run-IsNextRound forced s) e
