-- ===== src/Cell/Lock/Laws.antt =====
-- What a locked cell refuses, and that a lock concerns its own cell alone.
use hive_worker.Base.{
  Text, ◌≡◌, Bool, true, false, some, arith, ok, err, if◌then◌else◌, lookup, lookup-insert, text_eq,
  ◌==◌, ◌||◌, not,
}
use hive_worker.Go.Text.{codes, is_empty}
use hive_worker.Cell.{Cell, no_lock, Manager, cell_is_locked}
use hive_worker.Cell.Lock.{
  default_lock, lock_cell, unlock_cell, ensure_allowed, Capability, power, files, console, backups,
  settings, importer, disabled, fallback,
}

-- The types of lock that leave a capability to the user. Any other type, the unknown ones
-- included, disables it.
abbrev pub leaves : Capability → Text → Bool
leaves power t = t == codes "creating_backup"
leaves console t = not (
    t == codes "restoring_backup"
    || t == codes "suspended"
    || t == codes "billing_hold"
    || t == codes "admin_lock")
leaves files t = t == codes "creating_backup" || t == codes "maintenance"
leaves backups t = t == codes "maintenance"
leaves settings t = t == codes "creating_backup" || t == codes "maintenance"
leaves importer t = false

disabled-default_lock :
    (c : Capability) (t reason message : Text)
    → disabled c (default_lock t reason message) ≡ not (leaves c t)
unfolding default_lock
disabled-default_lock power t reason message = ground arith
disabled-default_lock console t reason message = ground arith
disabled-default_lock files t reason message = ground arith
disabled-default_lock backups t reason message = ground arith
disabled-default_lock settings t reason message = ground arith
disabled-default_lock importer t reason message = ground arith

message-default_lock :
    (t reason message : Text)
    → ((default_lock t reason message).message ≡ message)
      × ((default_lock t reason message).locked ≡ true)
unfolding default_lock
message-default_lock t reason message = ground arith

module _ (c : Capability) (id j : Text) (m : Manager) (cell : Cell)
    (found : lookup id m.cells ≡ some cell) where
  -- After LockCell of a cell that exists, whether or not the lock was saved, the cell refuses
  -- exactly the capabilities that the type of lock does not leave, with the message of the lock or
  -- the capability's own; every other cell answers as before.
  pub ensure_allowed-lock_cell :
      (t reason message : Text) (save_fails : Bool)
      → ensure_allowed c j (lock_cell id t reason message save_fails m).0 ≡ (
          if j == id
          then (if leaves c t
              then ok tt
              else err (cell_is_locked (if is_empty message then fallback c else message)))
          else ensure_allowed c j m)
  unfolding ensure_allowed lock_cell
  ensure_allowed-lock_cell t reason message save_fails = ground (
    arith,
    found,
    lookup-insert j id (record cell { lock = default_lock t reason message }) m.cells,
    disabled-default_lock c t reason message,
    message-default_lock t reason message,
  )

  -- After UnlockCell of a cell that exists, whether or not the file was removed, the cell allows
  -- everything; every other cell answers as before.
  pub ensure_allowed-unlock_cell :
      (remove_fails : Bool)
      → ensure_allowed c j (unlock_cell id remove_fails m).0
        ≡ (if j == id then ok tt else ensure_allowed c j m)
  unfolding ensure_allowed unlock_cell
  ensure_allowed-unlock_cell remove_fails =
      ground (arith, found, lookup-insert j id (record cell { lock = no_lock }) m.cells)
