-- ===== src/Lib.antt =====
-- The HivePanel worker (internal/ and cmd/daemon): the node agent that creates game servers
-- ("cells"), hands out addresses, runs them and serves their files and consoles.
--
-- Parts, and the files that model them.
--
-- Base: numbers, tests, lists, results and maps that the other files share.
-- Go: what the worker uses of Go's standard library. A string is its sequence of code points.
--   Go.Text: the package strings. Go.Sort: the package sort. Go.Int, Go.Decimal: int and
--   strconv.Itoa; these integers have no width, since the worker compares and prints them only;
--   Rcon writes an int32 with its wrap-around. Go.Net: net.JoinHostPort.
--   Go.Ip: net.ParseIP. Go.Json: values of type any. Go.Path: the packages path and path/filepath
--   as on Unix; a clean path is the list of its components.
-- Allocation (internal/allocation/manager.go): the addresses that the worker may hand out and
--   those in use. Manager is the struct of that name; used is the map of the source as the list
--   of its keys. Each method is a function of the manager; the mutex makes each call one step.
-- Cell (internal/cell): the cells and their manager. A channel is a number that names an entry
--   of Manager.channels, with its buffer of at most a hundred lines and whether it is closed;
--   a panic is none. Cell.Console: console.go, and broadcastByID of lifecycle.go. Cell.Lock:
--   lock.go. Cell.Session: console_sessions.go. Cell.Request: the requests of cell.go.
--   Cell.Storage and Cell.Definition: storage.go and update.go, where a World is the manager with
--   the files of configurations and the cells' own directories on the disk. Cell.Loading: Load, Get
--   and Status of manager.go.
--   Cell.Lifecycle: start, stop and commands of lifecycle.go, template.go and comb_resolver.go.
--   Cell.Sync and Cell.Restart compare the memory with the disk over sequences of requests.
--
-- Comb (internal/comb/manager.go): the map of combs and their fields.
-- Runtime (internal/runtime/process/runtime.go): the table of running processes, each operation a
--   step, and the goroutine that waits for a command a step of its own.
-- Config (internal/config/config.go): the configuration, its repair, validation and loading.
-- Sftp (internal/sftp/filesystem.go): Sftp.Jail resolves the paths of a client below the root of a
--   cell and looks for links; Sftp.Commands has the handlers, each of which gives the list of the
--   disk calls that it makes or its error; Sftp.Listing has the directory listings and ListAt.
-- Files (internal/files/manager.go, and ensurePathWithinBase of internal/backup/manager.go):
--   SafePath; Files.Listing has the pages of a directory; Files.Operations and Files.RecycleBin give
--   the calls of the disk that each operation makes, in order, up to the first that fails.
-- Backup (internal/backup/manager.go): validateIdentifier, cleanArchivePath and
--   cleanRequestedArchivePath.
-- Backup.Mount (internal/backup/mount_service.go): the paths of mounts; Backup.Mount.Extract unpacks
--   an archive, given as its entries, and Backup.Mount.Restore copies a mounted path back, given
--   as a tree.
-- Players (internal/players/logfallback.go): the players that the lines of a log name.
-- Rcon (internal/rcon/client.go): packets as sequences of bytes. A Client has the bytes that were
--   sent and those that the server sent and that are not read yet.
--
-- Interaction: the cell manager calls the allocation manager when cells are loaded, updated and
-- deleted, and the console and lock operations concern the cells of one manager. A cell that starts
-- takes its command from its comb. The configuration makes the allocation manager.
--
-- Arguments in place of the outside: whether a port can be bound (net.Listen), the clock, fresh
-- tokens (uuid.NewString), whether a write or removal of a file fails, what the disk says of a path
-- (os.Lstat, os.Stat, os.ReadDir), the working directory, how many bytes one read of a connection
-- gives, the handles of commands, the environment, the panel's answer to a registration, what
-- regular expressions capture, which capacities of a slice there is room for, and the encoder and
-- decoder of JSON and YAML, whose bytes are a type parameter.
--
-- Loops are structural recursion over the list that the source ranges over; a decimal numeral
-- is written with one round more than the number itself, which is enough since each round
-- divides by ten. Two loops have fuel: the search for a free name in the recycle bin, which needs one
-- round more than there are names in use before the first free one, and the search for links
-- above a restored path, which needs one round more than there are names below the root.
--
-- Not modelled: the HTTP handlers, Docker, the panel's client, archives, imports and install steps,
-- which are listed with the components of the project's manifest; what another request does between
-- the two critical sections of creating or starting a cell; a link that appears on the disk between
-- the check of a path and its use; links in the paths of the file manager, whose SafePath compares
-- texts; failures of the disk in the middle of a restoration.
pub mod Base
pub mod Go
pub mod Allocation
pub mod Cell
pub mod Backup
pub mod Comb
pub mod Config
pub mod Files
pub mod Players
pub mod Rcon
pub mod Runtime
pub mod Sftp
mod Tests
