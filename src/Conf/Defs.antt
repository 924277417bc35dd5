-- ===== src/Conf/Defs.antt =====
-- The state of `Pandora_Agent_Conf` and its operations on values and collections.
use pandora_agent_win.Base.{
  ℕ, zero, suc, ◌+◌, Bool, false, ◌||◌, List, [], ◌∷◌, ◌++◌, Option, none, some, ◌==◌,
  if◌then◌else◌, length, get_elem?,
}
use pandora_agent_win.KeyValue.{KeyValue}
use pandora_agent_win.Text.{Str, bytes, eq_str}

pub record Collection : Type 0 where
  pub name : Str
  pub verify : ℕ

pub record Conf : Type 0 where
  pub key_values : List KeyValue
  pub collection_list : List Collection
  -- the place of `collection_it` in the list; its length is `end ()`
  pub collection_it : ℕ
  pub broker_enabled : Bool

-- The files at their paths.
abbrev pub Files : Type 0
Files = Str → Option Str

-- `getValue`, over the list: the first entry with the key counts.
unfoldable pub get_value_in : List KeyValue → Str → Str
get_value_in [] key = []
get_value_in (kv ∷ kvs) key = if eq_str kv.key key then kv.value else get_value_in kvs key

abbrev pub get_value : Conf → Str → Str
get_value conf key = get_value_in conf.key_values key

-- What `strcmp` compares: the bytes before the first terminator.
abbrev pub c_str : Str → Str
c_str [] = []
c_str (c ∷ s) = if c == 0 then [] else c ∷ c_str s

pub is_in : List Collection → Str → Bool
is_in [] name = false
is_in (p ∷ ps) name =
    eq_str (c_str p.name) (c_str name)
    || eq_str (c_str (p.name ++ bytes ".md5")) (c_str name)
    || is_in ps name

unfoldable pub is_in_collection_list : Conf → Str → Bool
unfolding is_in
is_in_collection_list conf name = is_in conf.collection_list name

unfoldable pub go_first_collection : Conf → Conf
go_first_collection conf = record conf { collection_it = 0 }

unfoldable pub go_next_collection : Conf → Conf
go_next_collection conf = record conf { collection_it = conf.collection_it + 1 }

unfoldable pub is_last_collection : Conf → Bool
is_last_collection conf = conf.collection_it == length conf.collection_list

-- The element at the iterator; at `end ()` there is none to read.
pub get_current_collection_name : Conf → Option Str
get_current_collection_name conf = elim (get_elem? conf.collection_list conf.collection_it) [
  | none ↦ none
  | some p ↦ some p.name
]

pub get_current_collection_verify : Conf → Option ℕ
get_current_collection_verify conf = elim (get_elem? conf.collection_list conf.collection_it) [
  | none ↦ none
  | some p ↦ some p.verify
]

-- `collection_it->verify = 1`, at a place in the list.
unfoldable pub verify_at : List Collection → ℕ → List Collection
verify_at [] i = []
verify_at (p ∷ ps) zero = record p { verify = 1 } ∷ ps
verify_at (p ∷ ps) (suc i) = p ∷ verify_at ps i

unfoldable pub set_current_collection_verify : Conf → Conf
set_current_collection_verify conf = record conf {
  collection_list = verify_at conf.collection_list conf.collection_it;
}

unfoldable pub is_broker_enabled : Conf → Bool
is_broker_enabled conf = conf.broker_enabled
