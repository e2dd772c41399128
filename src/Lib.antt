-- ===== src/Lib.antt =====
-- treeman gives every git worktree its own databases, ports and env files. This library models
-- the parts of it that decide names, ports and SQL statements, and proves what the rest of the
-- program relies on. Ident (internal/db/ident/ident.go) checks and quotes SQL identifiers. Slug
-- (internal/slug/slug.go) derives the slug of a worktree and its Redis databases; slugs are the
-- names that Ident checks. Ports (internal/ports/ports.go) hands out the ports of a worktree
-- over the table of Ports.Store (internal/store/worktree_ports.go). Split
-- (internal/db/dumpload/split.go) cuts a dump into the statements that are loaded. Template
-- (internal/template/template.go) renders names and env values from a slug and checks templates
-- beforehand. EnvFile (internal/envfile/envfile.go) parses and layers env files, and expands
-- what a template passed through. Engine (internal/engine/engine.go) names the families of
-- engines, and Gc (internal/snapshot/gc.go) evicts cached templates of databases, but those
-- that Pins (internal/snapshot/pin.go) says are in use; Fingerprint
-- (internal/snapshot/snapshot.go) is the key under which they are cached. Worktrees
-- (internal/store/store.go) is the table of the worktrees: it registers them under the slugs of
-- Slug, Worktrees.Retry (internal/store/teardown_pending.go, internal/daemon/teardown_retry.go,
-- internal/prepare/prepare.go) retries the teardowns that failed, and Worktrees.Repair
-- (internal/wtreg/wtreg.go) reconciles it with git. Daemon.InFlight (internal/daemon/state.go)
-- is what the daemon is doing for each worktree, and queues the reruns that Watcher
-- (internal/watcher/watcher.go) asks for when the inputs of a database change; Daemon.Backoff
-- (internal/daemon/state.go, internal/daemon/autofetch.go) is what the daemon keeps of the
-- fetches of a repository, and the delay that it asks for after a failure. Prepare
-- (internal/prepare/retry.go) tries an operation of an engine again when its connection drops.
--
-- A string is the list of its bytes and a map is an association list. Code that is not in the
-- repository is a parameter: blake3, the path and case tables of the standard library (the
-- record Slug.Host), whether a port can be bound, the regular expression copyFromStdin, the
-- process environment and the files that EnvFile reads, and the database servers, which
-- Gc.Servers lets answer each call by a table; for the watcher, the events of the kernel,
-- doublestar.PathMatch and filepath.Rel; for the table of the worktrees, the collation NOCASE,
-- what git lists and what the teardown of one database answers. Statements of the store run as
-- a state monad over the rows: before each statement a list of turns says what other processes
-- do to the table and whether the statement fails (Ports.Store: act, run_turn). In Worktrees a
-- statement maps the table that it sees, and a write is refused only by a UNIQUE index;
-- EnsureWorktreeWithAdmin takes the table that each of its statements sees, since others may
-- write in between (Stages). Each method of Daemon.InFlight and of Pins holds a mutex, so it is
-- one step.
--
-- Prelude passes the library's names on and holds what the parts share: tests, lists, byte
-- texts, the white space of strings.TrimSpace, decimal numbers. Each part has child modules
-- named for what they prove, and a module Tests with runs on concrete inputs.
--
-- Loops are recursion on the input, or on fuel where a round may consume several bytes or rows:
-- the splitter, its stream and the lines of a COPY block get one unit more than the bytes to
-- come, the checksum of Slug.Redis ten rounds for the length, and the retries of Prepare four
-- rounds. Each has a theorem that this is enough.
--
-- Not modelled: cancelled contexts (but in the sweep of Worktrees.Retry and the purge of Gc),
-- the directories that the watcher subscribes, the other tables of the store and its I/O errors
-- in Worktrees, the sizes of read buffers (a tag or delimiter longer than the buffer of the
-- reader is found here and not there), time stamps and error texts. The other packages are
-- clients of git, of databases and of the operating system, or are still to come.
pub mod Prelude
pub mod Ident
pub mod Slug
pub mod Ports
pub mod Split
pub mod Template
pub mod EnvFile
pub mod Engine
pub mod Pins
pub mod Gc
pub mod Fingerprint
pub mod Worktrees
pub mod Daemon
pub mod Watcher
pub mod Prepare
