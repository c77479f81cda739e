-- ===== src/Cell/Sync.antt =====
-- internal/cell/storage.go: the cells in memory and those on the disk. What is not stored, or is
-- stored elsewhere, is left out of the comparison: the console, its subscribers and the lock.
use mathlib.Core.List.{append_cancel_right}
use hive_worker.Base.{
  Option, none, List, Text, ◌≡◌, sym, ap, ◌∙◌, subst, some, [], Dict, lookup, insert, erase,
  text_eq, lookup-insert_self, lookup-insert_other, lookup-insert_cases, lookup-erase_other,
  lookup-erase_cases, inl, inr,
}
use hive_worker.Go.Json.{Fields, field}
use hive_worker.Allocation.{Allocation}
use hive_worker.Cell.{Cell, Limits, FeatureLimits, DockerConfig, StartupConfig, no_lock}
use hive_worker.Cell.Storage.{World, config_name}

abbrev pub durable : Cell → Cell
durable cell = record cell { console = []; subscribers = []; lock = no_lock }

-- What of a cell its file keeps. A map counts by what is under its keys; the data of a comb, which
-- the worker stores with `omitempty`, by its encoding, an empty one being left out like a missing one.
pub record Stored (V : Type 0) : Type 0 where
  pub id : Text
  pub name : Text
  pub dir : Text
  pub created_at : Text
  pub status : Text
  pub comb : Text
  pub comb_data : Option V
  pub variables : Text → Option Text
  pub allocation : Allocation
  pub additional_allocations : List Allocation
  pub limits : Limits
  pub feature_limits : FeatureLimits
  pub docker : DockerConfig
  pub startup : StartupConfig

module _ {V : Type 0} (encode : Fields → V) where
  abbrev pub kept : Option Fields → Option V
  kept none = none
  kept (some Fields.end_fields) = none
  kept (some (field name value rest)) = some (encode (field name value rest))

  abbrev pub restored : Cell → Stored V
  restored cell = record {
    id = cell.id;
    name = cell.name;
    dir = cell.dir;
    created_at = cell.created_at;
    status = cell.status;
    comb = cell.comb;
    comb_data = kept cell.comb_data;
    variables = λ key. lookup key cell.variables;
    allocation = cell.allocation;
    additional_allocations = cell.additional_allocations;
    limits = cell.limits;
    feature_limits = cell.feature_limits;
    docker = cell.docker;
    startup = cell.startup;
  }

pub config_name_injective : (a b : Text) → config_name a ≡ config_name b → a ≡ b
config_name_injective a b e = append_cancel_right a b _ e

-- Each value of one map has its file, and each file its value.
module _ {A Bytes : Type 0} (Agrees : Text → A → Bytes → Type 0) where
  abbrev pub IsStored : Dict Text Bytes → Text → A → Type 0
  IsStored configs id a =
      (text : Bytes) × (lookup (config_name id) configs ≡ some text) × Agrees id a text

  abbrev pub IsKnown : Dict Text A → Text → Type 0
  IsKnown cells name = (id : Text) × (a : A) × (name ≡ config_name id) × (lookup id cells ≡ some a)

  pub record Mirrors (cells : Dict Text A) (configs : Dict Text Bytes) : Type 0 where
    pub stored : (id : Text) (a : A) → lookup id cells ≡ some a → IsStored configs id a
    pub known : (name : Text) (text : Bytes) → lookup name configs ≡ some text → IsKnown cells name

  module _ (cells : Dict Text A) (configs : Dict Text Bytes) (s : Mirrors cells configs) where
    -- A value and its file are replaced.
    pub insert-Mirrors :
        (id : Text) (a : A) (text : Bytes)
        → Agrees id a text
        → Mirrors (insert id a cells) (insert (config_name id) text configs)
    insert-Mirrors id a text agrees = record {
      stored = λ j b h. elim (lookup-insert_cases j id a cells h) [
        | inl (same, value) ↦ (
          text,
          subst (λ k. lookup (config_name k) (insert (config_name id) text configs) ≡ some text)
              (sym same) (lookup-insert_self (config_name id) text configs),
          subst (λ k. Agrees k b text) (sym same) (subst (λ c. Agrees id c text) value agrees),
        )
        | inr (other, before) ↦
            let (found, e, agrees') = s.stored j b before in
            (
              found,
              lookup-insert_other (config_name j) (config_name id) text configs
                    (λ p. other (config_name_injective j id p))
                  ∙ e,
              agrees',
            )
      ];
      known = λ name t h. elim (lookup-insert_cases name (config_name id) text configs h) [
        | inl (same, _) ↦ (id, a, same, lookup-insert_self id a cells)
        | inr (other, before) ↦
            let (j, b, e, found) = s.known name t before in
            (
              j,
              b,
              e,
              lookup-insert_other j id a cells (λ p. other (e ∙ ap (λ k. config_name k) p)) ∙ found,
            )
      ];
    }

    -- A value and its file go.
    pub erase-Mirrors : (id : Text) → Mirrors (erase id cells) (erase (config_name id) configs)
    erase-Mirrors id = record {
      stored = λ j b h.
          let (other, before) = lookup-erase_cases j id cells h in
          let (found, e, agrees) = s.stored j b before in
          (
            found,
            lookup-erase_other (config_name j) (config_name id) configs
                  (λ p. other (config_name_injective j id p))
                ∙ e,
            agrees,
          );
      known = λ name t h.
          let (other, before) = lookup-erase_cases name (config_name id) configs h in
          let (j, b, e, found) = s.known name t before in
          (
            j,
            b,
            e,
            lookup-erase_other j id cells (λ p. other (e ∙ ap (λ k. config_name k) p)) ∙ found,
          );
    }

    -- A value is replaced in memory by one that agrees with the same file.
    pub insert_same-Mirrors :
        (id : Text) (a b : A)
        → lookup id cells ≡ some a
        → ((text : Bytes) → Agrees id a text → Agrees id b text)
        → Mirrors (insert id b cells) configs
    insert_same-Mirrors id a b found keeps = record {
      stored = λ j c h. elim (lookup-insert_cases j id b cells h) [
        | inl (same, value) ↦
            let (text, e, agrees) = s.stored id a found in
            subst (λ k. IsStored configs k c) (sym same)
              (subst (λ d. IsStored configs id d) value (text, e, keeps text agrees))
        | inr (other, before) ↦ s.stored j c before
      ];
      known = λ name t h.
          let (j, c, e, before) = s.known name t h in
          elim (text_eq.dec j id) [
            | yes same ↦ (id, b, e ∙ ap (λ k. config_name k) same, lookup-insert_self id b cells)
            | no other ↦ (j, c, e, lookup-insert_other j id b cells other ∙ before)
          ];
    }

-- The file of a cell holds the encoding of a cell that agrees with it.
abbrev pub Agrees : {Bytes : Type 0} → (Cell → Bytes) → Text → Cell → Bytes → Type 0
Agrees marshal id cell text =
    (c : Cell) × (text ≡ marshal c) × (durable c ≡ durable cell) × (cell.id ≡ id)

-- The cells in memory are those on the disk, each under its id.
abbrev pub InSync : {Bytes : Type 0} → (Cell → Bytes) → World Bytes → Type 0
InSync marshal w = Mirrors (Agrees marshal) w.manager.cells w.configs
