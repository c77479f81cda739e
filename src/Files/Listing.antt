-- ===== src/Files/Listing.antt =====
-- internal/files/manager.go: a directory is listed page by page.
-- `to_lower` is `strings.ToLower`; `info` is what `Info` answers for an entry, if it is still there.
pub mod Order
pub mod Pages
use hive_worker.Base.{
  ℕ, zero, suc, ◌+◌, ◌-◌, ◌*◌, ◌/◌, Text, Bool, true, false, not, ◌&&◌, Option, none, some, List,
  [], ◌∷◌, length, take, drop, ltb, leb, ◌==◌, nat_eq, text_eq, if◌then◌else◌, Result, ok, err,
  ◌>>=◌,
}
use hive_worker.Go.Text.{codes}
use hive_worker.Go.Int.{ℤ, pos, leb_ℤ, pos_part}
use hive_worker.Go.Path.{clean, join_paths, dot}
use hive_worker.Go.Sort.{slice_stable, text_less}
use hive_worker.Files.{Error, safe_path, disk_failure, not_a_directory}

pub record FileEntry : Type 0 where
  pub name : Text
  pub path : Text
  pub is_dir : Bool
  pub size : ℤ
  pub modified_at : Text

pub record Pagination : Type 0 where
  pub page : ℕ
  pub per_page : ℕ
  pub total : ℕ
  pub total_pages : ℕ
  pub first : ℕ
  pub last : ℕ

pub record ListResponse : Type 0 where
  pub path : Text
  pub files : List FileEntry
  pub pagination : Pagination

pub record DirEntry : Type 0 where
  pub name : Text
  pub is_dir : Bool

pub record FileInfo : Type 0 where
  pub size : ℤ
  pub modified_at : Text

-- What the disk holds at a path: nothing, something else, or a directory that may not be read.
pub data Found : Type 0 where
  nothing : Found
  a_file : Found
  directory : Option (List DirEntry) → Found

abbrev pub default_page_size : ℕ
default_page_size = 250

abbrev pub max_page_size : ℕ
max_page_size = 500

unfoldable pub page_size : ℤ → ℕ
page_size per_page =
    let size = if leb_ℤ (pos 1) per_page then pos_part per_page else default_page_size in
    if ltb max_page_size size then max_page_size else size

unfoldable pub total_pages_of : ℕ → ℕ → ℕ
total_pages_of per_page total = if ltb 0 total then (total + per_page - 1) / per_page else 1

unfoldable pub page_number : ℤ → ℕ → ℕ
page_number page total_pages =
    let number = if leb_ℤ (pos 1) page then pos_part page else 1 in
    if ltb total_pages number then total_pages else number

abbrev pub capped : ℕ → ℕ → ℕ
capped n total = if ltb total n then total else n

-- `directoryEntries[start:end]` for a page
unfoldable pub page_slice : ℕ → ℕ → List DirEntry → List DirEntry
page_slice per_page page entries =
    let total = length entries in
    let start = capped ((page - 1) * per_page) total in
    let end = capped ((page - 1) * per_page + per_page) total in
    take (end - start) (drop start entries)

module _ (to_lower : Text → Text) where
  -- Directories first, then by name without case.
  unfoldable pub entry_less : DirEntry → DirEntry → Bool
  entry_less left right =
      let l = to_lower left.name in
      let r = to_lower right.name in
      if left.is_dir && not right.is_dir
      then true
      else if not left.is_dir && right.is_dir
      then false
      else if l == r
      then text_less left.name right.name
      else text_less l r

abbrev pub append_entry : Text → DirEntry → Option FileInfo → List FileEntry → List FileEntry
append_entry requested entry none rest = rest
append_entry requested entry (some info) rest =
    record {
      name = entry.name;
      path = join_paths requested entry.name;
      is_dir = entry.is_dir;
      size = info.size;
      modified_at = info.modified_at;
    }
    ∷ rest

-- The loop over the entries of a page; one that is gone is left out.
unfoldable pub file_entries : (DirEntry → Option FileInfo) → Text → List DirEntry → List FileEntry
file_entries info requested [] = []
file_entries info requested (entry ∷ rest) =
    append_entry requested entry (info entry) (file_entries info requested rest)

abbrev pub response : (DirEntry → Option FileInfo) → Text → ℤ → ℕ → List DirEntry → ListResponse
response info requested page per_page entries =
    let total = length entries in
    let total_pages = total_pages_of per_page total in
    let number = page_number page total_pages in
    let path = clean requested in
    record {
      path = if path == dot then [] else path;
      files = file_entries info requested (page_slice per_page number entries);
      pagination = record {
        page = number;
        per_page = per_page;
        total = total;
        total_pages = total_pages;
        first = if ltb 0 total then capped ((number - 1) * per_page) total + 1 else 0;
        last = if ltb 0 total then capped ((number - 1) * per_page + per_page) total else 0;
      };
    }

abbrev pub opened : Found → Result Error (List DirEntry)
opened nothing = err disk_failure
opened a_file = err not_a_directory
opened (directory none) = err disk_failure
opened (directory (some entries)) = ok entries

unfoldable pub list :
    (Text → Text)
    → (Text → Found)
    → (DirEntry → Option FileInfo)
    → Text
    → Text
    → Text
    → ℤ
    → ℤ
    → Result Error ListResponse
list to_lower disk info working_directory base_dir requested page per_page = do
  full_path ← safe_path working_directory base_dir requested
  entries ← opened (disk full_path)
  ok (
      response info requested page (page_size per_page)
        (slice_stable (entry_less to_lower) entries))
