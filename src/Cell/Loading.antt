-- ===== src/Cell/Loading.antt =====
-- internal/cell/manager.go and storage.go: cells are loaded from the disk and looked up.
-- `unmarshal` is the JSON decoder; `lock_file` is the lock that a directory holds, if any.
pub mod Reserved
use hive_worker.Base.{
  Text, Bool, true, false, not, ◌||◌, Option, none, some, List, [], ◌∷◌, map, Dict, lookup, text_eq,
  if◌then◌else◌, Result, ok, err,
}
use hive_worker.Go.Text.{codes, is_empty, trim_space, has_suffix}
use hive_worker.Cell.{Cell, CellLock, Manager, Error, cell_not_found, disk_failure, refused}
use hive_worker.Cell.Console.{put_cell}
use hive_worker.Cell.Storage.{reserve_cell_allocations}

unfoldable pub cell_dir : Text → Manager → Result Error Text
cell_dir text m =
    let id = trim_space text in
    if is_empty id then err (refused (codes "cell id is required")) else elim (lookup id m.cells) [
      | none ↦ err cell_not_found
      | some cell ↦
          if is_empty (trim_space cell.dir)
          then err (refused (codes "cell directory is unavailable"))
          else ok cell.dir
    ]

unfoldable pub get : Text → Manager → Option Cell
get id m = lookup id m.cells

unfoldable pub status : Text → Manager → Result Error Cell
status id m = elim (lookup id m.cells) [
  | none ↦ err cell_not_found
  | some cell ↦ ok (if is_empty cell.status then record cell { status = codes "offline" } else cell)
]

-- A file of the directory of stored cells; what it holds cannot always be read.
pub record Entry (Bytes : Type 0) : Type 0 where
  pub name : Text
  pub is_dir : Bool
  pub content : Option Bytes

-- A stored lock is replaced by the one of the directory, if there is one.
abbrev pub with_lock : Option CellLock → Cell → Cell
with_lock none cell = cell
with_lock (some lock) cell = record cell { lock = lock }

abbrev pub revived : (Text → Option CellLock) → Cell → Cell
revived lock_file cell =
    with_lock (lock_file cell.dir) (record cell { console = []; subscribers = [] })

module _ {Bytes : Type 0} (unmarshal : Bytes → Option Cell)
    (lock_file : Text → Option CellLock) where
  abbrev pub decoded : Option Bytes → Option Cell
  decoded none = none
  decoded (some text) = elim (unmarshal text) [
    | none ↦ none
    | some cell ↦ some (revived lock_file cell)
  ]

  -- The cell that a file gives, `none` where the loop goes on with the next file.
  abbrev pub loaded : Entry Bytes → Option Cell
  loaded file =
      if file.is_dir || not (has_suffix file.name (codes ".json"))
      then none
      else decoded file.content

  abbrev pub enter : Option Cell → Manager → Manager
  enter none m = m
  enter (some cell) m = put_cell cell.id cell (reserve_cell_allocations cell m)

  unfoldable pub load_files : List (Entry Bytes) → Manager → Manager
  load_files [] m = m
  load_files (file ∷ rest) m = load_files rest (enter (loaded file) m)

  -- `none` if one of the directories cannot be made, or cannot be read.
  unfoldable pub load : Option (List (Entry Bytes)) → Manager → Manager × Result Error (Unit {0})
  unfolding load_files
  load none m = (m, err disk_failure)
  load (some files) m = (load_files files m, ok tt)
