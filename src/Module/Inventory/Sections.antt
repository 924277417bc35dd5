-- ===== src/Module/Inventory/Sections.antt =====
-- What a turn of the inventory module gathers, and the text that comes of it.
use pandora_agent_win.Base.Int.{ℤ}
use pandora_agent_win.Base.Result.{ok}
use pandora_agent_win.Base.{
  ◌<◌, ◌≡◌, refl, sym, ap, ◌∙◌, Bool, true, false, Bool-cases, inl, inr, List, [], ◌∷◌, ◌++◌,
  append-nil, append_assoc, Option, none, some, length, All, All-append, if◌then◌else◌,
}
use pandora_agent_win.Data.{PandoraData, SystemTime, new_data}
use pandora_agent_win.Module.Defs.{Module}
use pandora_agent_win.Module.Inventory.Groups.{
  Group, add, groups_of, groups_text, IsNamed, eq_str_self, inventory_xml-groups_of,
}
use pandora_agent_win.Module.Inventory.{
  InventoryModule, Found, or_new_list, store_rows, section, gather, fix_interval, run_inventory,
  inventory_xml,
}
use pandora_agent_win.Module.Kinds.{is_text}
use pandora_agent_win.Module.Output.{fulfilled, run}
use pandora_agent_win.Module.Xml.{xml}
use pandora_agent_win.Platform.{Platform}
use pandora_agent_win.Text.{Str, bytes, eq_str, has}
use pandora_agent_win.Wmi.Info.{cdrom, video, hds, cpus, nics, patches, ram, services}

abbrev Section : Type 0
Section = Bool × Str × List Str

-- The nine sections in their order: whether they set the output, their names and rows.
abbrev pub sections : Found → List Section
sections found =
    (true, bytes "CDROM", found.info cdrom)
    ∷ (true, bytes "Video", found.info video)
    ∷ (true, bytes "HD", found.info hds)
    ∷ (true, bytes "CPU", found.info cpus)
    ∷ (true, bytes "NIC", found.info nics)
    ∷ (true, bytes "Patches", found.info patches)
    ∷ (true, bytes "RAM", found.info ram)
    ∷ (false, bytes "Software", found.software)
    ∷ (false, bytes "Services", found.info services)
    ∷ []

-- The sections whose names are found in the options and that have rows.
abbrev pub chosen : (options : Str) → List Section → List Group
chosen options [] = []
chosen options ((sets_output, name, []) ∷ rest) = chosen options rest
chosen options ((sets_output, name, row ∷ rows) ∷ rest) =
    if has options name then (name, row ∷ rows) ∷ chosen options rest else chosen options rest

abbrev pub entries : SystemTime → Str → List Str → List PandoraData
entries now name [] = []
entries now name (row ∷ rows) = new_data row now name ∷ entries now name rows

abbrev pub all_entries : SystemTime → List Group → List PandoraData
all_entries now [] = []
all_entries now ((name, rows) ∷ groups) = entries now name rows ++ all_entries now groups

or_new_list-store_rows :
    (now : SystemTime) (name : Str) (rows : List Str) (l : Option (List PandoraData))
    → or_new_list (store_rows now name rows l) ≡ or_new_list l ++ entries now name rows
unfolding store_rows
or_new_list-store_rows now name [] l = rw append-nil
or_new_list-store_rows now name (row ∷ rows) l = rw (
  or_new_list-store_rows now name rows (some (or_new_list l ++ new_data row now name ∷ [])),
  append_assoc,
)

module _ {P : Platform} where
  abbrev run_sections : SystemTime → List Section → InventoryModule P → InventoryModule P
  run_sections now [] m = m
  run_sections now ((sets_output, name, rows) ∷ rest) m =
      run_sections now rest (section now sets_output name rows m)

  gather-run_sections :
      (now : SystemTime) (found : Found) (m : InventoryModule P)
      → gather now found m ≡ run_sections now (sections found) m
  unfolding gather
  gather-run_sections now found m = refl

  -- What a turn leaves alone, and what it adds.
  abbrev Gathered : SystemTime → InventoryModule P → List Group → InventoryModule P → Type 0
  Gathered now m groups m' =
      m'.options ≡ m.options
      × m'.base.module_type ≡ m.base.module_type
      × m'.base.module_type_str ≡ m.base.module_type_str
      × (m.base.has_output ≡ true → m'.base.has_output ≡ true)
      × or_new_list m'.base.inventory_list
        ≡ or_new_list m.base.inventory_list ++ all_entries now groups

  section-Gathered :
      (now : SystemTime) (sets_output : Bool) (name : Str) (rows : List Str) (m : InventoryModule P)
      → Gathered now m
          (chosen m.options ((sets_output, name, rows) ∷ []))
          (section now sets_output name rows m)
  unfolding section
  section-Gathered now s name [] m = elim (Bool-cases (has m.options name)) [
    | inl e ↦
        rw (section, e)
          (refl, refl, refl, λ h. rw h, or_new_list-store_rows now name [] m.base.inventory_list)
    | inr e ↦ rw (section, e) (refl, refl, refl, λ h. h, rw append-nil)
  ]
  section-Gathered now s name (row ∷ rows) m = elim (Bool-cases (has m.options name)) [
    | inl e ↦
        rw (section, e)
          (
            refl,
            refl,
            refl,
            λ h. rw h,
            or_new_list-store_rows now name (row ∷ rows) m.base.inventory_list ∙ rw append-nil,
          )
    | inr e ↦ rw (section, e) (refl, refl, refl, λ h. h, rw append-nil)
  ]

all_entries-append :
    (now : SystemTime) (gs hs : List Group)
    → all_entries now (gs ++ hs) ≡ all_entries now gs ++ all_entries now hs
all_entries-append now [] hs = refl
all_entries-append now ((name, rows) ∷ gs) hs = rw (all_entries-append now gs hs, append_assoc)

chosen_first :
    (options : Str) (s : Bool) (name : Str) (rows : List Str) (rest : List Section)
    → chosen options ((s, name, rows) ∷ rest)
      ≡ chosen options ((s, name, rows) ∷ []) ++ chosen options rest
chosen_first options s name [] rest = refl
chosen_first options s name (row ∷ rows) rest = elim (Bool-cases (has options name)) [
  | inl e ↦ rw e
  | inr e ↦ rw e
]

module _ {P : Platform} where
  run_sections-Gathered :
      (now : SystemTime) (secs : List Section) (m : InventoryModule P)
      → Gathered now m (chosen m.options secs) (run_sections now secs m)
  run_sections-Gathered now [] m = (refl, refl, refl, λ h. h, rw append-nil)
  run_sections-Gathered now ((s, name, rows) ∷ rest) m =
      let m₁ = section now s name rows m in
      let h = section-Gathered now s name rows m in
      let k = run_sections-Gathered now rest m₁ in
      (
        k.0 ∙ h.0,
        k.1 ∙ h.1,
        k.2 ∙ h.2,
        λ out. k.3 (h.3 out),
        k.4
            ∙ ap (λ o. or_new_list m₁.base.inventory_list ++ all_entries now (chosen o rest)) h.0
            ∙ ap (λ l. l ++ all_entries now (chosen m.options rest)) h.4
            ∙ append_assoc (or_new_list m.base.inventory_list) _ _
            ∙ ap (λ l. or_new_list m.base.inventory_list ++ l)
                (sym (
                    all_entries-append now (chosen m.options ((s, name, rows) ∷ []))
                      (chosen m.options rest))
                  ∙ ap (all_entries now) (sym (chosen_first m.options s name rows rest))),
      )

-- No section has the name.
abbrev Fresh : Str → List Section → Type 0
Fresh name [] = Unit
Fresh name ((s, n, rows) ∷ rest) = (eq_str n name ≡ false) × Fresh name rest

abbrev Distinct : List Section → Type 0
Distinct [] = Unit
Distinct ((s, n, rows) ∷ rest) = IsNamed n × Fresh n rest × Distinct rest

add-Fresh :
    (options name value : Str) (secs : List Section)
    → Fresh name secs
    → add name value (chosen options secs) ≡ (name, value ∷ []) ∷ chosen options secs
add-Fresh options name value [] f = refl
add-Fresh options name value ((s, n, []) ∷ rest) (e, f) = add-Fresh options name value rest f
add-Fresh options name value ((s, n, row ∷ rows) ∷ rest) (e, f) =
    elim (Bool-cases (has options n)) [
      | inl h ↦ rw (h, e)
      | inr h ↦ rw h (add-Fresh options name value rest f)
    ]

groups_of-entries :
    (now : SystemTime) (name row : Str) (rows : List Str) (ds : List PandoraData)
    → ((value : Str) → add name value (groups_of ds) ≡ (name, value ∷ []) ∷ groups_of ds)
    → groups_of (entries now name (row ∷ rows) ++ ds) ≡ (name, row ∷ rows) ∷ groups_of ds
groups_of-entries now name row [] ds h = h row
groups_of-entries now name row (next ∷ rows) ds h =
    rw (groups_of-entries now name next rows ds h, eq_str_self name)

groups_of-chosen :
    (now : SystemTime) (options : Str) (secs : List Section)
    → Distinct secs
    → groups_of (all_entries now (chosen options secs)) ≡ chosen options secs
groups_of-chosen now options [] d = refl
groups_of-chosen now options ((s, n, []) ∷ rest) (named, f, d) = groups_of-chosen now options rest d
groups_of-chosen now options ((s, n, row ∷ rows) ∷ rest) (named, f, d) =
    let later = groups_of-chosen now options rest d in
    elim (Bool-cases (has options n)) [
      | inl h ↦ rw h (
          groups_of-entries now n row rows (all_entries now (chosen options rest))
            (λ value. rw later (add-Fresh options n value rest f))
          ∙ ap (λ gs. (n, row ∷ rows) ∷ gs) later)
      | inr h ↦ rw h later
    ]

entries-IsNamed :
    (now : SystemTime) (name : Str) (rows : List Str)
    → IsNamed name
    → All (λ d. IsNamed d.data_origin) (entries now name rows)
entries-IsNamed now name [] h = tt
entries-IsNamed now name (row ∷ rows) h = (h, entries-IsNamed now name rows h)

chosen-IsNamed :
    (now : SystemTime) (options : Str) (secs : List Section)
    → Distinct secs
    → All (λ d. IsNamed d.data_origin) (all_entries now (chosen options secs))
chosen-IsNamed now options [] d = tt
chosen-IsNamed now options ((s, n, []) ∷ rest) (named, f, d) = chosen-IsNamed now options rest d
chosen-IsNamed now options ((s, n, row ∷ rows) ∷ rest) (named, f, d) =
    elim (Bool-cases (has options n)) [
      | inl h ↦ rw h (
          All-append _ (entries now n (row ∷ rows)) _ (entries-IsNamed now n (row ∷ rows) named)
            (chosen-IsNamed now options rest d))
      | inr h ↦ rw h (chosen-IsNamed now options rest d)
    ]

sections-Distinct : (found : Found) → Distinct (sections found)
unfolding eq_str
sections-Distinct found = (
  refl,
  (refl, (refl, (refl, (refl, (refl, (refl, (refl, (refl, tt)))))))),
  (
    refl,
    (refl, (refl, (refl, (refl, (refl, (refl, (refl, tt))))))),
    (
      refl,
      (refl, (refl, (refl, (refl, (refl, (refl, tt)))))),
      (
        refl,
        (refl, (refl, (refl, (refl, (refl, tt))))),
        (
          refl,
          (refl, (refl, (refl, (refl, tt)))),
          (
            refl,
            (refl, (refl, (refl, tt))),
            (refl, (refl, (refl, tt)), (refl, (refl, tt), (refl, tt, tt))),
          ),
        ),
      ),
    ),
  ),
)

or_new_list-some :
    (x : Option (List PandoraData)) (l : List PandoraData)
    → or_new_list x ≡ l
    → 1 < length l
    → x ≡ some l
or_new_list-some none [] e n = elim n [ ]
or_new_list-some none (d ∷ l) e n = cc
or_new_list-some (some k) l e n = ap some e

module _ {P : Platform} where
  in_its_turn :
      (now : SystemTime) (found : Found) (agent_interval : ℤ) (m : InventoryModule P)
      (base : Module P)
      → m.interval_fixed ≡ true
      → run (record m.base { has_output = false }) ≡ (fulfilled, base)
      → run_inventory now found agent_interval m ≡ ok (gather now found (record m { base = base }))
  unfolding run_inventory fix_interval
  in_its_turn now found agent_interval m base fixed r = simp (fixed, r)

  -- What is gathered is what is reported: in a turn of a module of a text type that has no data yet, and
  -- whose interval is fixed, the text of the inventory has one element for each section whose name is
  -- found in the options and of which Windows gives any rows, in the fixed order of the sections, with
  -- every row of it, if there is more than one row in all.
  pub run_inventory-chosen :
      (unset : P.Double) (now : SystemTime) (found : Found) (agent_interval : ℤ)
      (m : InventoryModule P) (base : Module P)
      → m.interval_fixed ≡ true
      → run (record m.base { has_output = false }) ≡ (fulfilled, base)
      → base.has_output ≡ true
      → base.inventory_list ≡ none
      → is_text base.module_type ≡ true
      → 1 < length (all_entries now (chosen m.options (sections found)))
      → (m' : InventoryModule P) × (run_inventory now found agent_interval m ≡ ok m')
        × ((inventory_xml unset m'.base).0
            ≡ xml (
                bytes "\t<inventory>\n"
                ++ groups_text base.module_type_str (chosen m.options (sections found))))
  run_inventory-chosen unset now found agent_interval m base fixed r out empty t n =
      let m₁ : InventoryModule P = record m { base = base } in
      let h = run_sections-Gathered now (sections found) m₁ in
      let m' = run_sections now (sections found) m₁ in
      let l = all_entries now (chosen m.options (sections found)) in
      let listed : m'.base.inventory_list ≡ some l =
        or_new_list-some m'.base.inventory_list l (h.4 ∙ rw empty) n in
      let distinct = sections-Distinct found in
      (
        m',
        in_its_turn now found agent_interval m base fixed r
            ∙ ap ok (gather-run_sections now found m₁),
        ap (λ x. x.0)
              (inventory_xml-groups_of unset m'.base l (rw h.1 t) (h.3 out) listed n
                (chosen-IsNamed now m.options (sections found) distinct))
            ∙ rw (h.2, groups_of-chosen now m.options (sections found) distinct),
      )
