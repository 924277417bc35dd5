-- ===== src/Conf/Broker/Count.antt =====
-- `all_conf` is large enough, and whose name is read.
use pandora_agent_win.Base.Result.{ok, >>=-eq-ok, ok-injective}
use pandora_agent_win.Base.{
  ℕ, ◌+◌, ◌≡◌, refl, sym, ap, ◌∙◌, false, List, [], ◌∷◌, ◌++◌, Option, none, some, inl, inr, arith,
  Bool-cases, length, length-append, if◌then◌else◌,
}
use pandora_agent_win.Conf.Broker.{
  Brokers, broker_at, broker_path, check_agent_name, check_brokers, count_brokers, names_broker,
  set_all_line, set_all_lines,
}
use pandora_agent_win.Conf.File.{is_significant, substr, include_line, value_line}
use pandora_agent_win.Text.{Str, bytes, find, has}

path_length :
    (install_dir buffer : Str) (o : Option ℕ) (paths : List Str)
    → broker_path install_dir buffer o ≡ ok paths
    → find buffer (bytes "broker_agent") ≡ o
    → length paths ≡ (if has buffer (bytes "broker_agent") then 1 else 0)
path_length install_dir buffer none paths h e = rw e (ap length (sym (ok-injective h)))
path_length install_dir buffer (some pos) paths h e =
    let (name, p, r) = >>=-eq-ok (substr buffer (pos + 13)) _ h in
    rw e (ap length (sym (ok-injective r)))

-- The array that `count_broker_agents` sizes is filled exactly: if the names can be read from the lines
-- of the same file, `check_broker_agents` writes as many elements as were counted.
pub check_brokers-count_brokers :
    (install_dir : Str) (ls paths : List Str)
    → check_brokers install_dir ls ≡ ok paths
    → length paths ≡ count_brokers ls
unfolding check_brokers count_brokers
check_brokers-count_brokers install_dir [] paths h = ap length (sym (ok-injective h))
check_brokers-count_brokers install_dir (l ∷ ls) paths h =
    let (path, p, h') =
      >>=-eq-ok
        (if is_significant l
          then broker_path install_dir l (find l (bytes "broker_agent"))
          else ok [])
        _ h in
    let (rest, q, r) = >>=-eq-ok (check_brokers install_dir ls) _ h' in
    let later = check_brokers-count_brokers install_dir ls rest q in
    let total : length paths ≡ length path + length rest =
      ap length (sym (ok-injective r)) ∙ length-append path rest in
    elim (Bool-cases (is_significant l)) [
      | inr e ↦
          let none_found : length path ≡ 0 = ap length (sym (ok-injective (rw e at p))) in
          rw e (omega (arith, total, none_found, later))
      | inl e ↦
          let found =
            path_length install_dir l (find l (bytes "broker_agent")) path (rw e at p) refl in
          elim (Bool-cases (has l (bytes "broker_agent"))) [
            | inl b ↦ let one = rw b at found in rw (e, b) (omega (arith, total, one, later))
            | inr b ↦ let no_one = rw b at found in rw (e, b) (omega (arith, total, no_one, later))
          ]
    ]

-- `setFile` writes the element 0 of the array only if a drone was counted.
broker_at_first :
    (install_dir : Str) (agent_lines : List Str) (buffer : Str) (s s' : Brokers) (o : Option ℕ)
    → broker_at install_dir agent_lines buffer s o ≡ ok s'
    → find buffer (bytes "broker_agent") ≡ o
    → has buffer (bytes "broker_agent") ≡ false
    → s'.first_conf ≡ s.first_conf
broker_at_first install_dir agent_lines buffer s s' none h e n =
    ap (λ t. t.first_conf) (sym (ok-injective h))
broker_at_first install_dir agent_lines buffer s s' (some pos) h e n = cc (rw e at n)

set_all_line_first :
    (install_dir : Str) (agent_lines : List Str) (l : Str) (s s' : Brokers)
    → set_all_line install_dir agent_lines l s ≡ ok s'
    → names_broker l ≡ false
    → s'.first_conf ≡ s.first_conf
unfolding set_all_line
set_all_line_first install_dir agent_lines l s s' h n = elim (Bool-cases (is_significant l)) [
  | inr e ↦ ap (λ t. t.first_conf) (sym (ok-injective (rw e at h)))
  | inl e ↦
      let (included, p, h') = >>=-eq-ok (include_line s.disk.file l) _ (rw e at h) in
      let (mid, q, h'') =
        >>=-eq-ok (broker_at install_dir agent_lines l s (find l (bytes "broker_agent"))) _ h' in
      let (found, r, k) = >>=-eq-ok (value_line l) _ h'' in
      ap (λ t. t.first_conf) (sym (ok-injective k))
      ∙ broker_at_first install_dir agent_lines l s mid (find l (bytes "broker_agent")) q refl
          (rw e at n)
]

-- If no drone is counted, `setFile` leaves the array, which then has no element, alone.
pub set_all_lines-count_brokers :
    (install_dir : Str) (agent_lines ls : List Str) (s s' : Brokers)
    → set_all_lines install_dir agent_lines ls s ≡ ok s'
    → count_brokers ls ≡ 0
    → s'.first_conf ≡ s.first_conf
unfolding set_all_lines count_brokers
set_all_lines-count_brokers install_dir agent_lines [] s s' h c =
    ap (λ t. t.first_conf) (sym (ok-injective h))
set_all_lines-count_brokers install_dir agent_lines (l ∷ ls) s s' h c =
    let (mid, p, h') = >>=-eq-ok (set_all_line install_dir agent_lines l s) _ h in
    elim (Bool-cases (names_broker l)) [
      | inl b ↦ cc (rw b at c)
      | inr b ↦
          set_all_lines-count_brokers install_dir agent_lines ls mid s' h' (rw b at c)
          ∙ set_all_line_first install_dir agent_lines l s mid p b
    ]

-- The name of the parent is taken for that of the agent, if its line stands first.
pub check_agent_name_parent :
    (v : Str) (ls : List Str) → check_agent_name ((bytes "parent_agent_name " ++ v) ∷ ls) ≡ ok v
unfolding check_agent_name find
check_agent_name_parent v ls = ground arith
