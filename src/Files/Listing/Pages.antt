-- ===== src/Files/Listing/Pages.antt =====
-- internal/files/manager.go: the pages of a directory give each of its entries once.
use hive_worker.Base.{
  ℕ, zero, suc, ◌+◌, ◌-◌, ◌*◌, ◌≤◌, ◌<◌, ◌≡◌, refl, sym, ap, ap₂, ◌∙◌, Text, Option, none, some,
  List, [], ◌∷◌, ◌++◌, length, take, drop, take_all, ltb, Result, ok, err, arith, Bool-cases, inl,
  inr,
}
use native.Mathlib.Nat.{div-add-mod', mod-lt}
use hive_worker.Go.Int.{ℤ, pos}
use hive_worker.Go.Sort.{
  slice_stable, length-slice_stable, Perm-slice_stable, slice_stable-IsOrdered,
}
use hive_worker.Files.Listing.Order.{IsListedInOrder, entry_less_asym, entries-IsListedInOrder}
use mathlib.Core.List.{Perm}
use hive_worker.Files.{Error, safe_path}
use hive_worker.Files.Listing.{
  FileEntry, FileInfo, DirEntry, ListResponse, Found, directory, capped, page_size, page_number,
  total_pages_of, page_slice, file_entries, append_entry, entry_less, list,
}

take_nil : {A : Type 0} (b : ℕ) → ◌≡◌ {A = List A} (take b []) []
take_nil zero = refl
take_nil (suc b) = refl

take-more : {A : Type 0} (a b : ℕ) (xs : List A) → take a xs ++ take b (drop a xs) ≡ take (a + b) xs
take-more zero b xs = ground arith
take-more (suc a) b [] = let e : suc a + b ≡ suc (a + b) = omega arith in rw e (take_nil b)
take-more (suc a) b (x ∷ xs) =
    let e : suc a + b ≡ suc (a + b) = omega arith in rw e (ap (λ l. x ∷ l) (take-more a b xs))

take-capped : {A : Type 0} (n : ℕ) (xs : List A) → take (capped n (length xs)) xs ≡ take n xs
take-capped n xs = elim (Bool-cases (ltb (length xs) n)) [
  | inl above ↦
      rw above (take_all (length xs) xs (omega arith) ∙ sym (take_all n xs (ground arith)))
  | inr below ↦ rw below
]

-- The entries of the first pages.
first_pages : ℕ → ℕ → List DirEntry → List DirEntry
first_pages per_page zero entries = []
first_pages per_page (suc n) entries =
    first_pages per_page n entries ++ page_slice per_page (suc n) entries

page_slice-suc :
    (per_page n : ℕ) (entries : List DirEntry)
    → take (n * per_page) entries ++ page_slice per_page (suc n) entries
      ≡ take (suc n * per_page) entries
unfolding page_slice
page_slice-suc per_page n entries =
    let k = n * per_page in
    let start = capped k (length entries) in
    let end = capped (k + per_page) (length entries) in
    let same : suc n - 1 ≡ n = omega arith in
    let ordered : start + (end - start) ≡ end = ground arith in
    let next : suc n * per_page ≡ k + per_page = grind arith in
    rw (same, next, ← take-capped k entries, take-more, ordered)
      (take-capped (k + per_page) entries)

first_pages-take :
    (per_page n : ℕ) (entries : List DirEntry)
    → first_pages per_page n entries ≡ take (n * per_page) entries
unfolding first_pages
first_pages-take per_page zero entries = ground arith
first_pages-take per_page (suc n) entries =
    rw (first_pages-take per_page n entries) (page_slice-suc per_page n entries)

total_pages_enough :
    (per_page total : ℕ) → 0 < per_page → total ≤ total_pages_of per_page total * per_page
unfolding total_pages_of
total_pages_enough per_page total h = elim (Bool-cases (ltb 0 total)) [
  | inr empty ↦ ground arith
  | inl some_left ↦
      let sum = total + per_page - 1 in
      rw some_left (omega (arith, div-add-mod' sum per_page, mod-lt sum h))
]

append_entry-append :
    (requested : Text) (x : DirEntry) (o : Option FileInfo) (rest more : List FileEntry)
    {all : List FileEntry}
    → all ≡ rest ++ more
    → append_entry requested x o all ≡ append_entry requested x o rest ++ more
append_entry-append requested x none rest more e = e
append_entry-append requested x (some info) rest more e = ground arith

file_entries-append :
    (info : DirEntry → Option FileInfo) (requested : Text) (xs ys : List DirEntry)
    → file_entries info requested (xs ++ ys)
      ≡ file_entries info requested xs ++ file_entries info requested ys
unfolding file_entries
file_entries-append info requested [] ys = refl
file_entries-append info requested (x ∷ xs) ys =
    append_entry-append requested x (info x) (file_entries info requested xs)
      (file_entries info requested ys) (file_entries-append info requested xs ys)

-- A page holds at least one and at most five hundred entries.
pub page_size_bounds : (per_page : ℤ) → (0 < page_size per_page) × (page_size per_page ≤ 500)
unfolding page_size
page_size_bounds per_page = (ground arith, ground arith)

page_number-pos :
    (n total_pages : ℕ) → suc n ≤ total_pages → page_number (pos (suc n)) total_pages ≡ suc n
unfolding page_number
page_number-pos n total_pages h = ground arith

abbrev pub files_of : Result Error ListResponse → List FileEntry
files_of (ok r) = r.files
files_of (err e) = []

module _ (to_lower : Text → Text) (disk : Text → Found) (info : DirEntry → Option FileInfo)
    (working_directory base_dir requested full_path : Text) (per_page : ℤ) (entries : List DirEntry)
    (resolves : safe_path working_directory base_dir requested ≡ ok full_path)
    (read : disk full_path ≡ directory (some entries)) where
  -- The files of the answers for the pages from 1 on, so many of them, one after another.
  abbrev pub listed : ℕ → List FileEntry
  listed zero = []
  listed (suc n) =
      listed n
      ++ files_of
          (list to_lower disk info working_directory base_dir requested (pos (suc n)) per_page)

  abbrev sorted : List DirEntry
  sorted = slice_stable (entry_less to_lower) entries

  list_page :
      (n : ℕ)
      → suc n ≤ total_pages_of (page_size per_page) (length sorted)
      → files_of
          (list to_lower disk info working_directory base_dir requested (pos (suc n)) per_page)
        ≡ file_entries info requested (page_slice (page_size per_page) (suc n) sorted)
  unfolding list
  list_page n h =
      rw (resolves, read)
        (ap (λ k. file_entries info requested (page_slice (page_size per_page) k sorted))
          (page_number-pos n _ h))

  listed-first_pages :
      (n : ℕ)
      → n ≤ total_pages_of (page_size per_page) (length sorted)
      → listed n ≡ file_entries info requested (first_pages (page_size per_page) n sorted)
  unfolding first_pages file_entries
  listed-first_pages zero h = refl
  listed-first_pages (suc n) h =
      ap₂ (λ xs ys. xs ++ ys) (listed-first_pages n (omega arith)) (list_page n h)
      ∙ sym (
          file_entries-append info requested (first_pages (page_size per_page) n sorted)
            (page_slice (page_size per_page) (suc n) sorted))

  listed-sorted :
      listed (total_pages_of (page_size per_page) (length entries))
      ≡ file_entries info requested sorted
  listed-sorted =
      let size = page_size per_page in
      let pages = total_pages_of size (length sorted) in
      rw (← length-slice_stable (entry_less to_lower) entries) (
        listed-first_pages pages (omega arith)
        ∙ ap (file_entries info requested) (
            first_pages-take size pages sorted
            ∙ take_all (pages * size) sorted
                (total_pages_enough size (length sorted) (page_size_bounds per_page).0)))

  -- The answers for all pages of a directory that can be read, one after another, are those for a
  -- rearrangement of its entries, each that is still there once, in which directories come first
  -- and names rise within directories and files: in lower case, and where that is equal, as written.
  pub listed_all :
      (all : List DirEntry) × Perm all entries
      × IsListedInOrder to_lower all
      × (listed (total_pages_of (page_size per_page) (length entries))
          ≡ file_entries info requested all)
  listed_all = (
    sorted,
    Perm-slice_stable (entry_less to_lower) entries,
    entries-IsListedInOrder to_lower sorted
        (slice_stable-IsOrdered (entry_less to_lower) (entry_less_asym to_lower) entries),
    listed-sorted,
  )
