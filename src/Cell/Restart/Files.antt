-- ===== src/Cell/Restart/Files.antt =====
-- internal/cell/manager.go: `Load` after a stop finds the cells that were in memory.
use hive_worker.Base.{
  Text, ◌≡◌, sym, ap, ◌∙◌, true, false, Option, none, some, List, [], ◌∷◌, map, Dict, lookup,
  insert, text_eq, nat_eq, All, contains, arith, Option-cases, inl, inr, lookup-insert_self,
  lookup-insert_other, lookup-insert_cases,
}
use hive_worker.Go.Text.{codes}
use hive_worker.Go.Text.Affix.{has_suffix-append}
use hive_worker.Go.Json.{Fields}
use hive_worker.Cell.{Cell, CellLock, Manager}
use hive_worker.Cell.Storage.{config_name, reserve_cell_allocations}
use hive_worker.Cell.Loading.{Entry, loaded, revived, enter, load_files}
use hive_worker.Cell.Sync.{Mirrors, Agrees, Stored, restored, config_name_injective}

-- The directory holds these files and no others, in any order.
pub record Lists {Bytes : Type 0} (files : List (Entry Bytes)) (configs : Dict Text Bytes)
    : Type 0 where
  pub sound :
      All
        (λ f.
          (text : Bytes) × (f.is_dir ≡ false)
          × (f.content ≡ some text)
          × (lookup f.name configs ≡ some text))
        files
  pub complete :
      (name : Text) (text : Bytes)
      → lookup name configs ≡ some text
      → contains name (map (λ (f : Entry Bytes). f.name) files) ≡ true

module _ {V Bytes : Type 0} (encode : Fields → V) (marshal : Cell → Bytes)
    (unmarshal : Bytes → Option Cell) (lock_file : Text → Option CellLock)
    (faithful : (c : Cell)
      → (d : Cell) × (unmarshal (marshal c) ≡ some d) × (restored encode d ≡ restored encode c))
    (cells : Dict Text Cell) where
  restored-revived : (c : Cell) → restored encode (revived lock_file c) ≡ restored encode c
  restored-revived c = elim (Option-cases (lock_file c.dir)) [
    | inl none_there ↦ rw none_there
    | inr (lock, there) ↦ rw there
  ]

  -- The file gives a cell that agrees with the one in memory under its id.
  abbrev pub Gives : Entry Bytes → Type 0
  Gives f =
      (id : Text) × (c : Cell) × (cell : Cell) × (f.name ≡ config_name id)
      × (loaded unmarshal lock_file f ≡ some c)
      × (c.id ≡ id)
      × (lookup id cells ≡ some cell)
      × (restored encode c ≡ restored encode cell)

  loaded-config :
      (f : Entry Bytes) (id : Text) (text : Bytes) (d : Cell)
      → f.is_dir ≡ false
      → f.content ≡ some text
      → f.name ≡ config_name id
      → unmarshal text ≡ some d
      → loaded unmarshal lock_file f ≡ some (revived lock_file d)
  loaded-config f id text d plain content name decodes =
      rw (plain, name, has_suffix-append id (codes ".json"), content)
        (ap
          (λ o. elim o as (λ _. Option Cell) [ none ↦ none | some c ↦ some (revived lock_file c) ])
          decodes)

  pub file-Gives :
      (configs : Dict Text Bytes)
      → Mirrors (Agrees marshal) cells configs
      → (f : Entry Bytes) (text : Bytes) → f.is_dir ≡ false
      → f.content ≡ some text
      → lookup f.name configs ≡ some text
      → Gives f
  file-Gives configs sync f text plain content there =
      let (id, cell, name, found) = sync.known f.name text there in
      let (stored, e, held) = sync.stored id cell found in
      let (c, bytes, agrees, named) = held in
      let (d, decodes, same) = faithful c in
      let holds : text ≡ marshal c = cc in
      (
        id,
        revived lock_file d,
        cell,
        name,
        loaded-config f id text d plain content name (ap unmarshal holds ∙ decodes),
        ap (λ (x : Stored V). x.id) (restored-revived d ∙ same ∙ ap (restored encode) agrees)
            ∙ named,
        found,
        restored-revived d ∙ same ∙ ap (restored encode) agrees,
      )

  -- What a manager holds while it loads: cells that agree with those before the stop.
  abbrev pub IsSound : Manager → Type 0
  IsSound m =
      (id : Text) (c : Cell)
      → lookup id m.cells ≡ some c
      → (cell : Cell) × (lookup id cells ≡ some cell) × (restored encode c ≡ restored encode cell)

  enter-IsSound :
      (f : Entry Bytes) (m : Manager)
      → Gives f
      → IsSound m
      → IsSound (enter unmarshal lock_file (loaded unmarshal lock_file f) m)
  unfolding reserve_cell_allocations
  enter-IsSound f m (id, c, cell, name, gives, named, found, agrees) sound = rw gives (λ j b h.
      elim (lookup-insert_cases j c.id c m.cells h) [
        | inl (same, value) ↦ (
          cell,
          ap (λ k. lookup k cells) (same ∙ named) ∙ found,
          ap (restored encode) (sym value) ∙ agrees,
        )
        | inr (other, before) ↦ sound j b before
      ])

  abbrev pub Holds : Text → Manager → Type 0
  Holds id m = (c : Cell) × (lookup id m.cells ≡ some c)

  -- Putting a cell in loses none.
  enter-Holds :
      (id : Text) (o : Option Cell) (m : Manager)
      → Holds id m
      → Holds id (enter unmarshal lock_file o m)
  unfolding reserve_cell_allocations
  enter-Holds id none m h = h
  enter-Holds id (some c) m (b, h) = elim (text_eq.dec id c.id) [
    | yes same ↦
        (c, ap (λ k. lookup k (insert c.id c m.cells)) same ∙ lookup-insert_self c.id c m.cells)
    | no other ↦ (b, lookup-insert_other id c.id c m.cells other ∙ h)
  ]

  load_files-Holds :
      (id : Text) (files : List (Entry Bytes)) (m : Manager)
      → Holds id m
      → Holds id (load_files unmarshal lock_file files m)
  unfolding load_files
  load_files-Holds id [] m h = h
  load_files-Holds id (f ∷ rest) m h =
      load_files-Holds id rest (enter unmarshal lock_file (loaded unmarshal lock_file f) m)
        (enter-Holds id (loaded unmarshal lock_file f) m h)

  pub load_files-IsSound :
      (files : List (Entry Bytes)) (m : Manager)
      → All Gives files
      → IsSound m
      → IsSound (load_files unmarshal lock_file files m)
  unfolding load_files
  load_files-IsSound [] m gives sound = sound
  load_files-IsSound (f ∷ rest) m gives sound =
      load_files-IsSound rest (enter unmarshal lock_file (loaded unmarshal lock_file f) m) gives.1
        (enter-IsSound f m gives.0 sound)

  -- The file of a cell puts it in.
  enter_file-Holds :
      (id : Text) (f : Entry Bytes) (m : Manager)
      → Gives f
      → f.name ≡ config_name id
      → Holds id (enter unmarshal lock_file (loaded unmarshal lock_file f) m)
  unfolding reserve_cell_allocations
  enter_file-Holds id f m (j, c, cell, name, gives, named, found, agrees) e = rw gives (
    c,
    ap (λ k. lookup k (insert c.id c m.cells))
          (config_name_injective id j (sym e ∙ name) ∙ sym named)
        ∙ lookup-insert_self c.id c m.cells,
  )

  pub load_files-Holds_listed :
      (id : Text) (files : List (Entry Bytes)) (m : Manager)
      → All Gives files
      → contains (config_name id) (map (λ (f : Entry Bytes). f.name) files) ≡ true
      → Holds id (load_files unmarshal lock_file files m)
  unfolding load_files
  load_files-Holds_listed id [] m gives listed = absurd (cc)
  load_files-Holds_listed id (f ∷ rest) m gives listed =
      let m' = enter unmarshal lock_file (loaded unmarshal lock_file f) m in
      elim (text_eq.dec (config_name id) f.name) [
        | yes same ↦ load_files-Holds id rest m' (enter_file-Holds id f m gives.0 (sym same))
        | no other ↦ load_files-Holds_listed id rest m' gives.1 (ground arith)
      ]
