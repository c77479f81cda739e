-- ===== src/Cell/Restart/Recovery.antt =====
-- internal/cell: requests, a stop and a load.
use hive_worker.Base.{
  Text, ◌≡◌, refl, ap, false, Option, none, some, List, [], Dict, lookup, text_eq, Result,
  nothing_under, All, ◌∷◌,
}
use mathlib.Core.Option
use hive_worker.Go.Json.{Fields}
use hive_worker.Comb.{Comb}
use hive_worker.Cell.{Cell, CellLock, Manager}
use hive_worker.Cell.Storage.{World}
use hive_worker.Cell.Loading.{Entry, load, load_files}
use hive_worker.Cell.Sync.{Mirrors, Agrees, restored}
use hive_worker.Cell.Restart.{Request, serve_all, serve_all-InSync}
use hive_worker.Cell.Restart.Files.{
  Lists, Gives, file-Gives, load_files-IsSound, load_files-Holds_listed, IsSound,
}

map_agree :
    {A B : Type 0} (f : A → B) (x y : Option A)
    → ((a : A) → x ≡ some a → (b : A) × (y ≡ some b) × (f a ≡ f b))
    → ((b : A) → y ≡ some b → (a : A) × (x ≡ some a))
    → Option.map f x ≡ Option.map f y
map_agree f none none sound complete = refl
map_agree f none (some b) sound complete = absurd (cc (complete b refl).1)
map_agree f (some a) y sound complete =
    let (b, there, same) = sound a refl in rw there (ap some same)

nothing_there : (id : Text) (c : Cell) (m : Manager) → m.cells ≡ [] → lookup id m.cells ≡ some c → ⊥
nothing_there id c m e h = nothing_under id c m.cells e h

module _ {V Bytes : Type 0} (encode : Fields → V) (marshal : Cell → Bytes)
    (unmarshal : Bytes → Option Cell) (lock_file : Text → Option CellLock)
    (faithful : (c : Cell)
      → (d : Cell) × (unmarshal (marshal c) ≡ some d)
        × (restored encode d ≡ restored encode c)) where
  files-Gives :
      (cells : Dict Text Cell) (configs : Dict Text Bytes)
      → Mirrors (Agrees marshal) cells configs
      → (files : List (Entry Bytes))
      → All
          (λ f.
            (text : Bytes) × (f.is_dir ≡ false)
            × (f.content ≡ some text)
            × (lookup f.name configs ≡ some text))
          files
      → All (Gives encode marshal unmarshal lock_file faithful cells) files
  files-Gives cells configs sync [] h = tt
  files-Gives cells configs sync (f ∷ rest) ((text, plain, content, there), h) = (
    file-Gives encode marshal unmarshal lock_file faithful cells configs sync f text plain content
        there,
    files-Gives cells configs sync rest h,
  )

  -- The cells in memory come back from the files that mirror them.
  pub load-Mirrors :
      (cells : Dict Text Cell) (configs : Dict Text Bytes)
      → Mirrors (Agrees marshal) cells configs
      → (files : List (Entry Bytes)) → Lists files configs
      → (m : Manager) → m.cells ≡ []
      → (id : Text)
      → Option.map (restored encode) (lookup id (load_files unmarshal lock_file files m).cells)
        ≡ Option.map (restored encode) (lookup id cells)
  load-Mirrors cells configs sync files lists m empty id =
      map_agree (restored encode) (lookup id after.cells) (lookup id cells)
        (load_files-IsSound encode marshal unmarshal lock_file faithful cells files m gives none_yet
          id)
        (λ cell found.
          let (text, there, _) = sync.stored id cell found in
          load_files-Holds_listed encode marshal unmarshal lock_file faithful cells id files m gives
            (lists.complete _ text there))
    where
      after : Manager
      after = load_files unmarshal lock_file files m

      gives : All (Gives encode marshal unmarshal lock_file faithful cells) files
      gives = files-Gives cells configs sync files lists.sound

      none_yet : IsSound encode marshal unmarshal lock_file faithful cells m
      none_yet j c h = absurd (nothing_there j c m empty h)

  nothing-Mirrors :
      (w : World Bytes)
      → w.manager.cells ≡ []
      → w.configs ≡ []
      → Mirrors (Agrees marshal) w.manager.cells w.configs
  unfolding lookup
  nothing-Mirrors w no_cells no_files = record {
    stored = λ id a h. absurd (nothing_there id a w.manager no_cells h);
    known = λ name text h. absurd (nothing_under name text w.configs no_files h);
  }

  -- After any requests to a worker that began with nothing, loading what the directory of cells
  -- then holds, whatever the order of its files, into a manager without cells gives under each id
  -- the cell that was in memory there, up to its console, its subscribers and its lock, with its
  -- variables by what is under each key and the data of its comb by its encoding, where empty data
  -- counts as none; and no cell elsewhere. The requests create, redefine, delete, lock and unlock
  -- cells, with no failure where a cell's own file is written or removed; the decoder gives back
  -- what the encoder was given, up to the same.
  pub load-serve_all :
      (parse_id : Text → Option Text) (convert : Fields → Result Text Comb)
      (rs : List (Request Bytes)) (w : World Bytes)
      → w.manager.cells ≡ []
      → w.configs ≡ []
      → (files : List (Entry Bytes)) → Lists files (serve_all marshal parse_id convert rs w).configs
      → (m : Manager) → m.cells ≡ []
      → (id : Text)
      → Option.map (restored encode) (lookup id (load unmarshal lock_file (some files) m).0.cells)
        ≡ Option.map
            (restored encode)
            (lookup id (serve_all marshal parse_id convert rs w).manager.cells)
  unfolding load
  load-serve_all parse_id convert rs w no_cells no_files files lists m empty id =
      load-Mirrors (serve_all marshal parse_id convert rs w).manager.cells
        (serve_all marshal parse_id convert rs w).configs
        (serve_all-InSync marshal parse_id convert rs w (nothing-Mirrors w no_cells no_files)) files
        lists m empty id
