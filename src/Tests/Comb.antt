-- ===== src/Tests/Comb.antt =====
-- internal/comb/manager.go: a directory with one comb.
use hive_worker.Base.{◌≡◌, refl, false, some, List, [], ◌∷◌, text_eq, ℕ_discrete, insert, ok}
use hive_worker.Go.Text.{codes, has_suffix}
use hive_worker.Comb.{Manager, Entry, load, get}
use hive_worker.Comb.Laws.{IsNamed, get-load}
use hive_worker.Tests.Storage.{paper}

abbrev files : List Entry
files =
    record { name = codes "p.json"; is_dir = false; content = some [] }
    ∷ record { name = codes "notes.txt"; is_dir = false; content = some [] }
    ∷ []

abbrev no_combs : Manager
no_combs = record { combs = []; dir = codes "/d" }

abbrev one_comb : Manager
one_comb = record { combs = (codes "p", paper) ∷ []; dir = codes "/d" }

loaded : load (λ _. some paper) (some files) no_combs ≡ ok one_comb
unfolding load has_suffix text_eq ℕ_discrete insert
loaded = refl

get-load_example :
    IsNamed
      (λ _. some paper)
      (codes "p")
      files
      (get (codes "p") no_combs)
      (get (codes "p") one_comb)
get-load_example = get-load (λ _. some paper) (codes "p") files no_combs one_comb loaded
