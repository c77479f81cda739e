-- ===== src/Cell/Lock.antt =====
-- internal/cell/lock.go: locks on cells, the capabilities that they disable, and their files.
-- A lock file is the lock that it holds; `save_fails`, `remove_fails` and `stored` are what the disk
-- answers, and JSON encoding is not modelled.
pub mod Laws
use hive_worker.Base.{
  Text, Bool, true, false, Option, none, some, [], ◌∷◌, Result, ok, err, if◌then◌else◌, lookup,
  text_eq, ◌==◌, ◌||◌, ◌&&◌, not,
}
use hive_worker.Go.Text.{codes, is_empty}
use hive_worker.Cell.{
  Cell, CellLock, no_lock, Manager, Error, cell_not_found, cell_is_locked, disk_failure,
}
use hive_worker.Cell.Console.{put_cell}

-- A lock of no capability.
abbrev bare_lock : Text → Text → Text → CellLock
bare_lock lock_type reason message = record no_lock {
  locked = true;
  lock_type = lock_type;
  reason = reason;
  message = message;
}

unfoldable pub default_lock : Text → Text → Text → CellLock
default_lock lock_type reason message =
    let lock = bare_lock lock_type reason message in
    if lock_type == codes "importing"
    then record lock {
      disable_power = true;
      disable_files = true;
      disable_backups = true;
      disable_settings = true;
      disable_importer = true;
    }
    else if lock_type == codes "restoring_backup"
    then record lock {
      disable_power = true;
      disable_console = true;
      disable_files = true;
      disable_backups = true;
      disable_settings = true;
      disable_importer = true;
    }
    else if lock_type == codes "creating_backup"
    then record lock { disable_backups = true; disable_importer = true }
    else if lock_type == codes "suspended" || lock_type == codes "billing_hold"
    then record lock {
      disable_power = true;
      disable_console = true;
      disable_files = true;
      disable_backups = true;
      disable_settings = true;
      disable_importer = true;
    }
    else if lock_type == codes "maintenance"
    then record lock { disable_power = true; disable_importer = true }
    else if lock_type == codes "admin_lock"
    then record lock {
      disable_power = true;
      disable_console = true;
      disable_files = true;
      disable_backups = true;
      disable_settings = true;
      disable_importer = true;
    }
    else record lock {
      disable_power = true;
      disable_files = true;
      disable_backups = true;
      disable_settings = true;
      disable_importer = true;
    }

-- The error of `saveLock` or `deleteLock`, if the disk fails.
abbrev disk_result : Bool → Result Error (Unit {0})
disk_result true = err disk_failure
disk_result false = ok tt

-- The lock is set in memory even if it could not be saved.
unfoldable pub lock_cell :
    Text → Text → Text → Text → Bool → Manager → Manager × Result Error (Unit {0})
lock_cell id lock_type reason message save_fails m = elim (lookup id m.cells) [
  | none ↦ (m, err cell_not_found)
  | some cell ↦ (
    put_cell id (record cell { lock = default_lock lock_type reason message }) m,
    disk_result save_fails,
  )
]

unfoldable pub unlock_cell : Text → Bool → Manager → Manager × Result Error (Unit {0})
unlock_cell id remove_fails m = elim (lookup id m.cells) [
  | none ↦ (m, err cell_not_found)
  | some cell ↦ (put_cell id (record cell { lock = no_lock }) m, disk_result remove_fails)
]

unfoldable pub cell_lock : Text → Manager → Result Error CellLock
cell_lock id m = elim (lookup id m.cells) [ none ↦ err cell_not_found | some cell ↦ ok cell.lock ]

unfoldable pub is_locked : Text → Manager → Bool
is_locked id m = elim (lookup id m.cells) [ none ↦ false | some cell ↦ cell.lock.locked ]

-- The message of the lock, or the text to use in its place.
abbrev pub lock_message : CellLock → Text → Text
lock_message lock fallback = if not (is_empty lock.message) then lock.message else fallback

unfoldable pub ensure_not_locked : Text → Manager → Result Error (Unit {0})
ensure_not_locked id m = elim (lookup id m.cells) [
  | none ↦ err cell_not_found
  | some cell ↦
      if cell.lock.locked
      then err (cell_is_locked (lock_message cell.lock (codes "cell is locked")))
      else ok tt
]

unfoldable pub ensure_capability_allowed :
    Text → (CellLock → Bool) → Text → Manager → Result Error (Unit {0})
ensure_capability_allowed id disabled fallback m = elim (lookup id m.cells) [
  | none ↦ err cell_not_found
  | some cell ↦
      if not cell.lock.locked
      then ok tt
      else if disabled cell.lock
      then err (cell_is_locked (lock_message cell.lock fallback))
      else ok tt
]

pub data Capability : Type 0 where
  power files console backups settings importer : Capability

-- The field that each of the `Ensure…Allowed` methods reads.
abbrev pub disabled : Capability → CellLock → Bool
disabled power lock = lock.disable_power
disabled console lock = lock.disable_console
disabled files lock = lock.disable_files
disabled backups lock = lock.disable_backups
disabled settings lock = lock.disable_settings
disabled importer lock = lock.disable_importer

abbrev pub fallback : Capability → Text
fallback power = codes "power controls are disabled while this server is locked"
fallback console = codes "console access is disabled while this server is locked"
fallback files = codes "file access is disabled while this server is locked"
fallback backups = codes "backup actions are disabled while this server is locked"
fallback settings = codes "settings are disabled while this server is locked"
fallback importer = codes "server importer is disabled while this server is locked"

-- `EnsurePowerAllowed` and the other five.
unfoldable pub ensure_allowed : Capability → Text → Manager → Result Error (Unit {0})
unfolding ensure_capability_allowed
ensure_allowed c id m = ensure_capability_allowed id (disabled c) (fallback c) m

-- `stored` is what `loadLock` reads: no lock if the file is missing or holds none.
unfoldable pub load_cell_lock : Text → Option CellLock → Manager → Manager × Result Error (Unit {0})
load_cell_lock id stored m = elim (lookup id m.cells) [
  | none ↦ (m, err cell_not_found)
  | some cell ↦ elim stored [
    | none ↦ (m, err disk_failure)
    | some lock ↦ (put_cell id (record cell { lock = lock }) m, ok tt)
  ]
]
