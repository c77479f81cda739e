-- ===== src/Cell/Lifecycle/Variables.antt =====
-- internal/cell/lifecycle.go: the value that each variable has when a cell starts.
use hive_worker.Base.{
  Text, ◌≡◌, refl, ap, ◌∙◌, false, Option, none, some, List, [], ◌∷◌, map, Dict, lookup, insert,
  text_eq, ◌==◌, if◌then◌else◌, contains, NoRepeat, arith, lookup-insert,
}
use hive_worker.Go.Text.{codes}
use hive_worker.Go.Decimal.{itoa}
use hive_worker.Comb.{Comb}
use hive_worker.Cell.{Cell}
use hive_worker.Cell.Request.{merge}
use hive_worker.Cell.Lifecycle.{start_variables}

abbrev pub names : Dict Text Text → List Text
names d = map (λ (entry : Text × Text). entry.0) d

abbrev pub either : Option Text → Option Text → Option Text
either (some value) other = some value
either none other = other

lookup-absent : (k : Text) (d : Dict Text Text) → contains k (names d) ≡ false → lookup k d ≡ none
unfolding lookup
lookup-absent k [] h = refl
lookup-absent k ((j, v) ∷ d) h = ground (arith, lookup-absent k d)

-- The upper map goes first.
lookup-merge :
    (k : Text) (base over : Dict Text Text)
    → NoRepeat (names over)
    → lookup k (merge base over) ≡ either (lookup k over) (lookup k base)
unfolding lookup merge
lookup-merge k base [] once = refl
lookup-merge k base ((j, v) ∷ over) once =
    let ih = lookup-merge k (insert j v base) over once.1 in
    ground (arith, ih, lookup-insert k j v base, lookup-absent k over)

either-none : (o : Option Text) → either o none ≡ o
either-none none = refl
either-none (some value) = refl

-- When a cell starts, the variable allocation.port is its port and allocation.ip its host,
-- whatever variables of these names there are; each other variable has the cell's value, and where
-- it has none, the comb's, if no name is listed twice in either map.
pub lookup-start_variables :
    (comb : Comb) (cell : Cell) (k : Text)
    → NoRepeat (names comb.variables)
    → NoRepeat (names cell.variables)
    → lookup k (start_variables comb cell) ≡ (
        if k == codes "allocation.port"
        then some (itoa cell.allocation.port)
        else if k == codes "allocation.ip"
        then some cell.allocation.ip
        else either (lookup k cell.variables) (lookup k comb.variables))
unfolding start_variables lookup
lookup-start_variables comb cell k once once' =
    let all = merge (merge [] comb.variables) cell.variables in
    let merged : lookup k all ≡ either (lookup k cell.variables) (lookup k comb.variables) =
      lookup-merge k (merge [] comb.variables) cell.variables once'
      ∙ ap (either (lookup k cell.variables))
          (lookup-merge k [] comb.variables once ∙ either-none (lookup k comb.variables)) in
    rw
      (lookup-insert k (codes "allocation.port") (itoa cell.allocation.port)
        (insert (codes "allocation.ip") cell.allocation.ip all))
      (rw (lookup-insert k (codes "allocation.ip") cell.allocation.ip all) (rw merged))
