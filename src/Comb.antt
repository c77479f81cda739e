-- ===== src/Comb.antt =====
-- internal/comb/manager.go: the templates of games. A file of the directory is its name, whether it
-- is a directory, and what reading it gives; the JSON decoder is the parameter `unmarshal`.
pub mod Laws
use hive_worker.Base.{
  Text, Bool, true, false, not, ◌||◌, Option, none, some, List, [], ◌∷◌, map, Dict, lookup, insert,
  text_eq, if◌then◌else◌, Result, ok, err,
}
use hive_worker.Go.Text.{codes, is_empty, has_suffix}
use hive_worker.Go.Path.{join_paths}
use hive_worker.Go.Json.{Fields}

pub record InstallStep : Type 0 where
  pub id : Text
  pub step_type : Text
  pub arguments : Option Fields
  pub save : Text

pub record Comb : Type 0 where
  pub id : Text
  pub name : Text
  pub game : Text
  pub startup : Text
  pub variables : Dict Text Text
  pub install : List InstallStep
  pub image : Text
  pub working_dir : Text
  pub entrypoint : List Text
  pub environment : Dict Text Text

pub record Manager : Type 0 where
  pub combs : Dict Text Comb
  pub dir : Text

pub record Entry : Type 0 where
  pub name : Text
  pub is_dir : Bool
  pub content : Option Text

unfoldable pub new_manager : Text → Manager
new_manager data_dir = record { combs = []; dir = join_paths data_dir (codes "combs") }

unfoldable pub list : Manager → List Comb
list m = map (λ (entry : Text × Comb). entry.1) m.combs

unfoldable pub get : Text → Manager → Option Comb
get id m = lookup id m.combs

unfoldable pub require : Text → Manager → Result Text Comb
unfolding get
require id m = elim (get id m) [ none ↦ err (codes "comb not found") | some comb ↦ ok comb ]

-- A directory, or a file whose extension is another one.
abbrev pub is_skipped : Entry → Bool
is_skipped file = file.is_dir || not (has_suffix file.name (codes ".json"))

module _ (unmarshal : Text → Option Comb) where
  -- What the loop of `Load` finds in a file, `none` where it goes on with the next.
  abbrev pub decoded : Entry → Option Comb
  decoded file = elim file.content [
    | none ↦ none
    | some text ↦ elim (unmarshal text) [
      | none ↦ none
      | some comb ↦ if is_empty comb.id then none else some comb
    ]
  ]

  abbrev pub found : Entry → Option Comb
  found file = if is_skipped file then none else decoded file

  abbrev pub put : Option Comb → Dict Text Comb → Dict Text Comb
  put none combs = combs
  put (some comb) combs = insert comb.id comb combs

  unfoldable pub load_files : List Entry → Dict Text Comb → Dict Text Comb
  load_files [] combs = combs
  load_files (file ∷ rest) combs = load_files rest (put (found file) combs)

  -- `none` for the files if the directory cannot be made or read.
  unfoldable pub load : Option (List Entry) → Manager → Result Text Manager
  unfolding load_files
  load none m = err (codes "cannot read directory")
  load (some files) m = ok (record m { combs = load_files files m.combs })

-- `FromMap`: `convert` is the encoding of the map and the decoding into a comb.
unfoldable pub from_map : (Fields → Result Text Comb) → Fields → Result Text Comb
from_map convert fields = elim (convert fields) [
  | err e ↦ err e
  | ok comb ↦ if is_empty comb.id then err (codes "comb id is required") else ok comb
]
