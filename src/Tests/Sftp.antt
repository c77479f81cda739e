-- ===== src/Tests/Sftp.antt =====
-- Examples of the SFTP jail at work.
use hive_worker.Base.{
  Text, ◌≡◌, refl, Bool, true, false, none, some, List, [], ◌∷◌, Result, ok, err, All, ◌==◌,
  text_eq, ℕ_discrete, if◌then◌else◌, arith, inl,
}
use hive_worker.Go.Text.{codes, trim_prefix, trim_space}
use hive_worker.Go.Path.{is_outside, rel, join_paths, absolute, components, clean}
use hive_worker.Sftp.{Permissions, Filesystem, FileInfo, DiskError, not_exist}
use hive_worker.Sftp.Jail.{is_root, resolve_virtual_path, resolve_existing}
use hive_worker.Sftp.Jail.Inside.{IsJail, inside, virtual_components, resolve_virtual_path_lem}
use hive_worker.Sftp.Jail.Links.{AllPlain}
use hive_worker.Sftp.Jail.Resolve.{resolve_existing_iff}
use hive_worker.Sftp.Commands.{open_call, remove_call, Request, filecmd, remove, fileread}
use hive_worker.Sftp.Commands.Safety.{IsAllowed, Opens, filecmd-IsAllowed, transfer-IsAllowed}
use hive_worker.Sftp.Listing.Paging.{read_on, read_on-all}
use hive_worker.Sftp.{eof, links_unsupported}

abbrev everything : Permissions
everything = record { read = true; write = true; create = true; delete = true; rename = true }

abbrev cell : Filesystem
cell = record { root = codes "/srv/a"; permissions = everything }

abbrev file_info : Text → Bool → FileInfo
file_info name is_dir = record { name = name; is_symlink = false; is_dir = is_dir }

abbrev link_info : Text → FileInfo
link_info name = record { name = name; is_symlink = true; is_dir = false }

-- A disk with a folder, a file in it and a link.
abbrev lstat : Text → Result DiskError FileInfo
lstat path =
    if path == codes "/srv/a/logs"
    then ok (file_info (codes "logs") true)
    else if path == codes "/srv/a/logs/x.txt"
    then ok (file_info (codes "x.txt") false)
    else if path == codes "/srv/a/etc"
    then ok (link_info (codes "etc"))
    else err not_exist

abbrev ask : Text → Text → Request
ask method filepath = record {
  method = method;
  filepath = filepath;
  target = [];
  pflags = record { read = true; write = false; creat = false; trunc = false; excl = false };
  attributes = none;
  attr_flags = record { size = false; permissions = false; acmodtime = false };
}

cell-IsJail : IsJail cell
unfolding absolute ℕ_discrete text_eq
cell-IsJail = (codes "srv" ∷ codes "a" ∷ [], (((refl, refl), ((refl, refl), tt)), refl))

climbing : resolve_virtual_path cell (codes " ../../logs/./x.txt ") ≡ ok (codes "/srv/a/logs/x.txt")
unfolding text_eq ℕ_discrete resolve_virtual_path is_outside rel clean join_paths trim_prefix
    trim_space
climbing = refl

resolve_virtual_path_lem_example :
    resolve_virtual_path cell (codes "../x.txt") ≡ ok (inside cell (codes "../x.txt"))
resolve_virtual_path_lem_example = resolve_virtual_path_lem cell (codes "../x.txt") cell-IsJail

linked : resolve_existing lstat cell (codes "etc/passwd") ≡ err links_unsupported
unfolding resolve_existing text_eq ℕ_discrete resolve_virtual_path is_outside rel clean join_paths
    trim_prefix trim_space
linked = refl

found_file : resolve_existing lstat cell (codes "logs/x.txt") ≡ ok (codes "/srv/a/logs/x.txt")
unfolding resolve_existing text_eq ℕ_discrete resolve_virtual_path is_outside rel clean join_paths
    trim_prefix trim_space
found_file = refl

resolve_existing_iff_example :
    (codes "/srv/a/logs/x.txt" ≡ inside cell (codes "logs/x.txt"))
    × AllPlain lstat (components cell.root) (virtual_components (codes "logs/x.txt"))
resolve_existing_iff_example =
    (resolve_existing_iff lstat cell (codes "logs/x.txt") (codes "/srv/a/logs/x.txt") cell-IsJail).0
      found_file

removal :
    filecmd lstat cell 0 (ask (codes "Remove") (codes "logs/x.txt"))
    ≡ ok (remove_call (codes "/srv/a/logs/x.txt") ∷ [])
unfolding filecmd remove resolve_existing is_root text_eq ℕ_discrete resolve_virtual_path is_outside
    rel clean join_paths trim_prefix trim_space
removal = refl

filecmd-IsAllowed_example :
    All (IsAllowed lstat cell) (remove_call (codes "/srv/a/logs/x.txt") ∷ [])
filecmd-IsAllowed_example =
    filecmd-IsAllowed lstat cell 0 (ask (codes "Remove") (codes "logs/x.txt"))
      (remove_call (codes "/srv/a/logs/x.txt") ∷ []) cell-IsJail removal

reading :
    fileread lstat cell (ask (codes "Get") (codes "logs/x.txt"))
    ≡ ok (open_call (codes "/srv/a/logs/x.txt") ∷ [])
unfolding fileread resolve_existing text_eq ℕ_discrete resolve_virtual_path is_outside rel clean
    join_paths trim_prefix trim_space
reading = refl

transfer-IsAllowed_example :
    Opens lstat cell
      (ask (codes "Get") (codes "logs/x.txt"))
      (open_call (codes "/srv/a/logs/x.txt") ∷ [])
      (inl reading)
transfer-IsAllowed_example =
    transfer-IsAllowed lstat cell (ask (codes "Get") (codes "logs/x.txt"))
      (open_call (codes "/srv/a/logs/x.txt") ∷ []) cell-IsJail (inl reading)

abbrev three : List FileInfo
three = file_info (codes "a") true ∷ file_info (codes "b") false ∷ file_info (codes "c") false ∷ []

read_on-all_example : read_on 3 three 2 0 ≡ (three, some eof)
read_on-all_example = read_on-all 3 three 2 0 (omega arith) (omega arith) (omega arith)
