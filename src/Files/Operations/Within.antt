-- ===== src/Files/Operations/Within.antt =====
-- internal/files/manager.go: no operation touches anything outside the directory.
use hive_worker.Base.{
  ℕ, Text, ◌≡◌, refl, true, Option, none, some, List, [], ◌∷◌, All, Result, ok, ◌⊎◌, inl, inr,
  Result-cases, arith, Bool-cases, ◌>>=◌, ltb, leb, ◌||◌, then_ok, subst,
}
use hive_worker.Go.Path.{is_rooted, components, abs, dir}
use hive_worker.Go.Path.Inside.{Extends}
use hive_worker.Files.{Error, safe_path}
use hive_worker.Files.Inside.{safe_path_iff}
use hive_worker.Files.Operations.{
  Call, read_file, write_file, create_new, truncate, remove_all, mkdir_all, move, Stat, read, write,
  delete, create_folder, rename, create_file, upload_from_url, downloaded,
}

pub data Operation : Type 0 where
  reads : Text → Operation
  writes : Text → Text → Operation
  deletes : Text → Operation
  creates_folder : Text → Operation
  renames : Text → Text → Operation
  creates_file : Text → Operation
  uploads : Text → Text → Option (ℕ × Text) → Operation

module _ (stat : Text → Stat) (working_directory base_dir : Text) where
  abbrev pub perform : Operation → Result Error (List Call)
  perform (reads path) = read working_directory base_dir path
  perform (writes path content) = write working_directory base_dir path content
  perform (deletes path) = delete working_directory base_dir path
  perform (creates_folder path) = create_folder working_directory base_dir path
  perform (renames old_path new_path) = rename working_directory base_dir old_path new_path
  perform (creates_file path) = create_file working_directory base_dir stat path
  perform (uploads path url answer) = upload_from_url working_directory base_dir path url answer

  abbrev pub IsInside : Text → Type 0
  IsInside path = Extends (components path) (components (abs working_directory base_dir))

  -- A directory that is made lies inside, or holds a path that does.
  abbrev pub IsWithin : Call → Type 0
  IsWithin (read_file path) = IsInside path
  IsWithin (write_file path content) = IsInside path
  IsWithin (create_new path) = IsInside path
  IsWithin (truncate path) = IsInside path
  IsWithin (remove_all path) = IsInside path
  IsWithin (mkdir_all path) = IsInside path ⊎ ((inner : Text) × (path ≡ dir inner) × IsInside inner)
  IsWithin (move source target) = IsInside source × IsInside target

  module _ (rooted : is_rooted working_directory ≡ true) where
    inside :
        (requested path : Text)
        → safe_path working_directory base_dir requested ≡ ok path
        → IsInside path
    inside requested path h =
        ((safe_path_iff working_directory base_dir requested path rooted).0 h).1

    -- What follows a path that was resolved.
    after_path :
        (P : List Call → Type 0) (requested : Text) (k : Text → Result Error (List Call))
        → ((path : Text) → IsInside path → (calls : List Call) → k path ≡ ok calls → P calls)
        → (calls : List Call) → (safe_path working_directory base_dir requested >>= k) ≡ ok calls
        → P calls
    after_path P requested k next calls h =
        elim (Result-cases (safe_path working_directory base_dir requested)) [
          | inr (e, failed) ↦ absurd (ground arith)
          | inl (path, made) ↦ next path (inside requested path made) calls (ground arith)
        ]

    kept :
        (xs ys : List Call)
        → All IsWithin xs
        → ◌≡◌ {A = Result Error (List Call)} (ok xs) (ok ys)
        → All IsWithin ys
    kept xs ys h e = subst (All IsWithin) (cc) h

    downloaded-IsWithin :
        (answer : Option (ℕ × Text)) (path : Text)
        → IsInside path
        → All IsWithin (downloaded working_directory base_dir answer path)
    downloaded-IsWithin none path h = tt
    downloaded-IsWithin (some (status, body)) path h =
        elim (Bool-cases (ltb status 200 || leb 300 status)) [
          | inl bad ↦ rw bad tt
          | inr good ↦ rw good (h, (h, tt))
        ]

    -- From an absolute working directory, every call of a file operation that is not refused lies
    -- in the directory; a directory that it makes lies there or holds a path that does.
    pub perform-IsWithin :
        (op : Operation) (calls : List Call) → perform op ≡ ok calls → All IsWithin calls
    unfolding read write delete create_folder rename create_file upload_from_url
    perform-IsWithin (reads path) calls h =
        after_path (All IsWithin) path _
          (λ p within made e. kept (read_file p ∷ []) made (within, tt) e) calls h
    perform-IsWithin (writes path content) calls h =
        after_path (All IsWithin) path _
          (λ p within made e.
            kept (mkdir_all (dir p) ∷ write_file p content ∷ []) made
              (inr (p, refl, within), (within, tt)) e)
          calls h
    perform-IsWithin (deletes path) calls h =
        after_path (All IsWithin) path _
          (λ p within made e. kept (remove_all p ∷ []) made (within, tt) e) calls h
    perform-IsWithin (creates_folder path) calls h =
        after_path (All IsWithin) path _
          (λ p within made e. kept (mkdir_all p ∷ []) made (inl within, tt) e) calls h
    perform-IsWithin (renames old_path new_path) calls h =
        after_path (All IsWithin) old_path _
          (λ p within made' e'.
            after_path (All IsWithin) new_path _
              (λ q within' made e.
                kept (mkdir_all (dir q) ∷ move p q ∷ []) made
                  (inr (q, refl, within'), ((within, within'), tt)) e)
              made' e')
          calls h
    perform-IsWithin (creates_file path) calls h =
        after_path (All IsWithin) path _
          (λ p within made e.
            kept (mkdir_all (dir p) ∷ create_new p ∷ []) made (inr (p, refl, within), (within, tt))
              (then_ok e).1)
          calls h
    perform-IsWithin (uploads path url answer) calls h =
        after_path (All IsWithin) path _
          (λ p within made e.
            kept (mkdir_all (dir p) ∷ downloaded working_directory base_dir answer p) made
              (inr (p, refl, within), downloaded-IsWithin answer p within) e)
          calls (then_ok h).1
