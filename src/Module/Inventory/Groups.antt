-- ===== src/Module/Inventory/Groups.antt =====
-- The text of the inventory: one element for each run of values that have the same origin.
use pandora_agent_win.Base.{
  ◌<◌, ◌≡◌, refl, ap, arith, true, false, Bool-cases, inl, inr, List, [], ◌∷◌, ◌++◌, append_assoc,
  some, ltb, length, All, if◌then◌else◌,
}
use pandora_agent_win.Data.{PandoraData}
use pandora_agent_win.Module.Defs.{Module}
use pandora_agent_win.Module.Inventory.{
  module_end, inventory_end, data_item, module_begin, opening, xml_loop, inventory_xml,
}
use pandora_agent_win.Module.Kinds.{is_text}
use pandora_agent_win.Module.Output.Texts.{get_data_output-is_text}
use pandora_agent_win.Module.Output.{clean_data_list}
use pandora_agent_win.Module.Xml.{xml, data_clean}
use pandora_agent_win.Platform.{Platform}
use pandora_agent_win.Text.{Str, bytes, eq_str, is_empty}
use pandora_agent_win.Text.Laws.{eq_str_iff}

-- An origin, and the values that follow each other under it.
abbrev pub Group : Type 0
Group = Str × List Str

abbrev pub add : Str → Str → List Group → List Group
add origin value [] = (origin, value ∷ []) ∷ []
add origin value ((o, values) ∷ groups) =
    if eq_str o origin
    then (origin, value ∷ values) ∷ groups
    else (origin, value ∷ []) ∷ (o, values) ∷ groups

abbrev pub groups_of : List PandoraData → List Group
groups_of [] = []
groups_of (d ∷ ds) = add d.data_origin d.value (groups_of ds)

-- The values, then `behind`.
abbrev pub items : List Str → (behind : Str) → Str
items [] behind = behind
items (value ∷ values) behind = data_item (data_clean value) ++ items values behind

abbrev pub groups_text : (type : Str) → List Group → Str
groups_text type [] = inventory_end
groups_text type ((origin, values) ∷ groups) =
    module_begin type origin ++ items values (module_end ++ groups_text type groups)

-- The same inside of an element that is open.
abbrev continued : (type open_module : Str) → List Group → Str
continued type open_module [] = module_end ++ inventory_end
continued type open_module ((origin, values) ∷ groups) =
    if eq_str origin open_module
    then items values (module_end ++ groups_text type groups)
    else module_end ++ groups_text type ((origin, values) ∷ groups)

pub eq_str_self : (s : Str) → eq_str s s ≡ true
eq_str_self s = (eq_str_iff s s).1 refl

continued-opening :
    (type open_module origin value : Str) (values : List Str) (groups : List Group)
    → is_empty open_module ≡ false
    → opening type open_module origin
        ++ (data_item (data_clean value) ++ items values (module_end ++ groups_text type groups))
      ≡ continued type open_module ((origin, value ∷ values) ∷ groups)
continued-opening type open_module origin value values groups h =
    elim (Bool-cases (eq_str origin open_module)) [ inl e ↦ rw e | inr e ↦ rw (e, h, append_assoc) ]

-- A value in front of the rest of an element, or of a new one.
continued-add :
    (type open_module origin value : Str) (groups : List Group)
    → is_empty open_module ≡ false
    → opening type open_module origin
        ++ (data_item (data_clean value) ++ continued type origin groups)
      ≡ continued type open_module (add origin value groups)
continued-add type open_module origin value [] h =
    continued-opening type open_module origin value [] [] h
continued-add type open_module origin value ((o, values) ∷ groups) h =
    elim (Bool-cases (eq_str o origin)) [
      | inl e ↦ rw e (continued-opening type open_module origin value values groups h)
      | inr e ↦ rw e (continued-opening type open_module origin value [] ((o, values) ∷ groups) h)
    ]

-- A `std::string` that is not empty.
abbrev pub IsNamed : Str → Type 0
IsNamed s = is_empty s ≡ false

groups_text-add :
    (type origin value : Str) (groups : List Group)
    → module_begin type origin ++ (data_item (data_clean value) ++ continued type origin groups)
      ≡ groups_text type (add origin value groups)
groups_text-add type origin value [] = refl
groups_text-add type origin value ((o, values) ∷ groups) = elim (Bool-cases (eq_str o origin)) [
  | inl e ↦ rw e
  | inr e ↦ rw e
]

opening-first :
    (type origin : Str) → IsNamed origin → opening type [] origin ≡ module_begin type origin
unfolding eq_str
opening-first type [] named = cc
opening-first type (c ∷ s) named = refl

module _ {P : Platform} where
  xml_loop-continued :
      (unset : P.Double) (m : Module P) (prev_module : Str) (ds : List PandoraData)
      → is_text m.module_type ≡ true
      → IsNamed prev_module
      → All (λ d. IsNamed d.data_origin) ds
      → xml_loop unset m prev_module ds
        ≡ some (continued m.module_type_str prev_module (groups_of ds))
  unfolding xml_loop
  xml_loop-continued unset m prev_module [] t h all = refl
  xml_loop-continued unset m prev_module (d ∷ ds) t h (named, all) =
      rw
        (
          xml_loop,
          get_data_output-is_text unset m d t,
          xml_loop-continued unset m d.data_origin ds t named all,
        )
        (ap some
          (continued-add m.module_type_str prev_module d.data_origin d.value (groups_of ds) h))

  first_loop :
      (unset : P.Double) (m : Module P) (d : PandoraData) (ds : List PandoraData)
      → is_text m.module_type ≡ true
      → IsNamed d.data_origin
      → All (λ x. IsNamed x.data_origin) ds
      → xml_loop unset m [] (d ∷ ds) ≡ some (groups_text m.module_type_str (groups_of (d ∷ ds)))
  unfolding xml_loop
  first_loop unset m d ds t named all = rw (
    xml_loop,
    get_data_output-is_text unset m d t,
    xml_loop-continued unset m d.data_origin ds t named all,
    opening-first m.module_type_str d.data_origin named,
    groups_text-add,
  )

  -- The text of an inventory of more than one value, of a module of a text type, whose values have
  -- an origin each: one element for each run of values with the same origin, in the order of the
  -- list, with every value of the run in it; the list is emptied.
  pub inventory_xml-groups_of :
      (unset : P.Double) (m : Module P) (l : List PandoraData)
      → is_text m.module_type ≡ true
      → m.has_output ≡ true
      → m.inventory_list ≡ some l
      → 1 < length l
      → All (λ d. IsNamed d.data_origin) l
      → inventory_xml unset m ≡ (
        xml (bytes "\t<inventory>\n" ++ groups_text m.module_type_str (groups_of l)),
        clean_data_list m,
      )
  unfolding inventory_xml
  inventory_xml-groups_of unset m [] t o i n _ = elim n [ ]
  inventory_xml-groups_of unset m (d ∷ ds) t o i n (named, all) =
      let several : ltb 1 (length (d ∷ ds)) ≡ true = ground arith in
      simp (o, i, several, first_loop unset m d ds t named all)
