-- ===== src/Cell/Loading/Reserved.antt =====
-- internal/cell/manager.go: `Load` reserves the addresses of the cells that it finds.
use hive_worker.Base.{
  Text, ◌≡◌, refl, true, Option, none, some, List, [], ◌∷◌, lookup, insert, text_eq, All,
  lookup-insert_cases, inl, inr, ap, sym, ◌∙◌, subst, All-split, nothing_under, ◌++◌,
}
use hive_worker.Allocation
use hive_worker.Allocation.{
  Allocation, valid_allocation, normalise_allocation, is_reserved, reserve_existing,
}
use hive_worker.Allocation.Reserve.{is_reserved-reserve_more, is_reserved-reserve_self}
use hive_worker.Cell.{Cell, CellLock, Manager}
use hive_worker.Cell.Request.{cell_allocations}
use hive_worker.Cell.Storage.{reserve_cell_allocations, reserve_each}
use hive_worker.Cell.Loading.{Entry, loaded, enter, load_files, load}

abbrev Reserved : Allocation.Manager → Allocation → Type 0
Reserved m a = valid_allocation (normalise_allocation a) ≡ true → is_reserved a m ≡ true

reserve_each-Reserved :
    (xs : List Allocation) (b : Allocation) (m : Allocation.Manager)
    → Reserved m b
    → Reserved (reserve_each xs m) b
unfolding reserve_each
reserve_each-Reserved [] b m h = h
reserve_each-Reserved (a ∷ rest) b m h =
    reserve_each-Reserved rest b (reserve_existing a m)
      (λ valid. is_reserved-reserve_more a b m (h valid))

reserve_each-all :
    (xs : List Allocation) (m : Allocation.Manager) → All (Reserved (reserve_each xs m)) xs
unfolding reserve_each
reserve_each-all [] m = tt
reserve_each-all (a ∷ rest) m = (
  reserve_each-Reserved rest a (reserve_existing a m) (is_reserved-reserve_self a m),
  reserve_each-all rest (reserve_existing a m),
)

All-mono :
    (m m' : Allocation.Manager)
    → ((b : Allocation) → Reserved m b → Reserved m' b)
    → (xs : List Allocation) → All (Reserved m) xs
    → All (Reserved m') xs
All-mono m m' more [] h = tt
All-mono m m' more (a ∷ rest) h = (more a h.0, All-mono m m' more rest h.1)

-- Every valid address of every cell is reserved.
abbrev pub IsCovered : Manager → Type 0
IsCovered m =
    (id : Text) (cell : Cell)
    → lookup id m.cells ≡ some cell
    → All (Reserved m.alloc_manager) (cell_allocations cell)

reserve_cell_allocations-all :
    (cell : Cell) (m : Manager)
    → All (Reserved (reserve_cell_allocations cell m).alloc_manager) (cell_allocations cell)
unfolding reserve_cell_allocations cell_allocations
reserve_cell_allocations-all cell m =
    let first = reserve_existing cell.allocation m.alloc_manager in
    (
      reserve_each-Reserved cell.additional_allocations cell.allocation first
          (is_reserved-reserve_self cell.allocation m.alloc_manager),
      reserve_each-all cell.additional_allocations first,
    )

reserve_cell_allocations-more :
    (cell : Cell) (m : Manager) (b : Allocation)
    → Reserved m.alloc_manager b
    → Reserved (reserve_cell_allocations cell m).alloc_manager b
unfolding reserve_cell_allocations
reserve_cell_allocations-more cell m b h =
    reserve_each-Reserved cell.additional_allocations b
      (reserve_existing cell.allocation m.alloc_manager)
      (λ valid. is_reserved-reserve_more cell.allocation b m.alloc_manager (h valid))

cells-reserve_cell_allocations :
    (cell : Cell) (m : Manager) → (reserve_cell_allocations cell m).cells ≡ m.cells
unfolding reserve_cell_allocations
cells-reserve_cell_allocations cell m = refl

module _ {Bytes : Type 0} (unmarshal : Bytes → Option Cell)
    (lock_file : Text → Option CellLock) where
  enter-IsCovered :
      (o : Option Cell) (m : Manager) → IsCovered m → IsCovered (enter unmarshal lock_file o m)
  enter-IsCovered none m covered id cell h = covered id cell h
  enter-IsCovered (some c) m covered id cell h =
      elim (lookup-insert_cases id c.id c m.cells
        (ap (λ d. lookup id (insert c.id c d)) (sym (cells-reserve_cell_allocations c m)) ∙ h)) [
          | inl (same, value) ↦
              subst
                (λ v.
                  All (Reserved (reserve_cell_allocations c m).alloc_manager) (cell_allocations v))
                value (reserve_cell_allocations-all c m)
          | inr (other, before) ↦
              All-mono m.alloc_manager (reserve_cell_allocations c m).alloc_manager
                (reserve_cell_allocations-more c m) (cell_allocations cell) (covered id cell before)
        ]

  load_files-IsCovered :
      (files : List (Entry Bytes)) (m : Manager)
      → IsCovered m
      → IsCovered (load_files unmarshal lock_file files m)
  unfolding load_files
  load_files-IsCovered [] m covered = covered
  load_files-IsCovered (f ∷ rest) m covered =
      load_files-IsCovered rest (enter unmarshal lock_file (loaded unmarshal lock_file f) m)
        (enter-IsCovered (loaded unmarshal lock_file f) m covered)

  -- After Load into a manager without cells, each valid address of each cell is reserved.
  pub is_reserved-load :
      (found : Option (List (Entry Bytes))) (m : Manager)
      → m.cells ≡ []
      → (id : Text) (cell : Cell) → lookup id (load unmarshal lock_file found m).0.cells ≡ some cell
      → (before : List Allocation) (a : Allocation) (after : List Allocation)
      → cell_allocations cell ≡ before ++ (a ∷ after)
      → valid_allocation (normalise_allocation a) ≡ true
      → is_reserved a (load unmarshal lock_file found m).0.alloc_manager ≡ true
  unfolding load
  is_reserved-load none m empty id cell h before a after e valid =
      absurd (nothing_under id cell m.cells empty h)
  is_reserved-load (some files) m empty id cell h before a after e valid =
      let all =
        load_files-IsCovered files m (λ j c g. absurd (nothing_under j c m.cells empty g)) id cell
          h in
      (All-split (Reserved (load_files unmarshal lock_file files m).alloc_manager) before
          (a ∷ after)
          (subst (All (Reserved (load_files unmarshal lock_file files m).alloc_manager)) e all)).1.0
        valid
