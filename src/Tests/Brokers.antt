-- ===== src/Tests/Brokers.antt =====
-- Files and drone agents (misc/pandora_file.cc, pandora_windows_service.cc) at concrete inputs.
use pandora_agent_win.Base.{ℕ, ◌≡◌, refl, List, [], ◌∷◌, length}
use pandora_agent_win.Conf.Broker.Count.{check_brokers-count_brokers}
use pandora_agent_win.Conf.Broker.{check_brokers, count_brokers}
use pandora_agent_win.File.{md5, file_name}
use pandora_agent_win.Text.{Str, bytes, find, is_prefix}

abbrev sixteen : Str → List ℕ
sixteen text = 0 ∷ 1 ∷ 2 ∷ 3 ∷ 4 ∷ 5 ∷ 6 ∷ 7 ∷ 8 ∷ 9 ∷ 250 ∷ 251 ∷ 252 ∷ 253 ∷ 254 ∷ 255 ∷ []

md5_test : md5 sixteen [] ≡ bytes "00010203040506070809fafbfcfdfeff"
unfolding md5
md5_test = refl

file_name_test : file_name (bytes "c:\\temp\\a.data") ≡ bytes "a.data"
unfolding file_name
file_name_test = refl

abbrev named_lines : List Str
named_lines = bytes "broker_agent d1" ∷ bytes "# broker_agent d2" ∷ bytes "broker_agent d3" ∷ []

check_brokers-count_brokers_example :
    length (bytes "p\\d1.conf" ∷ bytes "p\\d3.conf" ∷ []) ≡ count_brokers named_lines
unfolding check_brokers find is_prefix
check_brokers-count_brokers_example =
    check_brokers-count_brokers (bytes "p\\") named_lines
      (bytes "p\\d1.conf" ∷ bytes "p\\d3.conf" ∷ []) refl
