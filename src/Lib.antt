-- ===== src/Lib.antt =====
-- kiry, a source-based package manager: a model of its core library, crates/kiry-core, and of the decisions
-- of its command line, crates/kiry.
--
-- The program's parts and the files that model them:
-- * Pkg (crates/kiry-core/src/pkg.rs): `Version::parse` is parse_version, `Display` is show_version and
--   show_dep, `lines`, `depends_from` and `required` keep their names.
-- * Error (crates/kiry-core/src/lib.rs): the errors, a constructor for each, and `hex`.
-- * Disk (`std::fs`): what `std::fs` does for the database, as an association list from paths to what stands there.
-- * Db/Manifest, Db/Provides, Db/Record, Db/Queue (crates/kiry-core/src/db.rs): the text of a manifest
--   and of the provided sonames, the files of a record below `usr/lib/kiry/db`, and the rebuild queue. Functions keep their names;
--   what changes files takes a disk and returns one.
-- * Archive/Resolve, Archive/Ends, Archive/Walk (crates/kiry-core/src/archive.rs): where the name of a
--   member lands (`tidy`, `resolve`), the count of zero bytes at the end of the stream, and `walk` with
--   its two callers' part `each` as a parameter.
-- * Install/Check, Install/Os, Install/Remove (crates/kiry-core/src/install.rs): `plan` with `paths`,
--   `deps` and `meta`, and `remove` with `unlink`, over an interface of the operating system.
-- * Install/Apply (crates/kiry-core/src/install.rs): `beside`, `baseline` and `dispossess`.
-- * Elf/Words, Elf/Tables, Elf/Parse, Elf/Compare (crates/kiry-core/src/elf.rs): the checked reads, the
--   symbol and version tables, `parse`, and `compare` of two builds of a library.
-- * Cli/Levels (crates/kiry/src/main.rs): `levels`, the order of a build, with the bootstrap files and the
--   host as arguments. A `die` is the plan cycle.
-- * Cli/Version (crates/kiry/src/main.rs): `parts`, `compare`, `compare_as`, `level` and `policy_allows`.
-- * Cli/Regex, Cli/Regex/Parse (crates/kiry/src/main.rs): the patterns of the failure table, `Rx::find` with
--   `one` and `seq`, and `Rx::new` with `brackets` and `pieces`. What the groups took is passed on as a
--   state, also from a try that failed. Cli/Regex/Meaning says what a pattern matches.
-- * Cli/Failures, Cli/Failures/Notes (crates/kiry/src/main.rs): `rules`, `phase`, `scan` and `write_fix`, with the day and what
--   `flags` says of a setting as parameters.
-- * Cli/Flags (crates/kiry/src/main.rs): `settings`, `filters` and `filtered`.
-- * Cli/Paths (crates/kiry/src/main.rs): `fold`, `spelled` and the directories that a loader searches.
-- * Cli/Loader, Cli/Loader/Search (crates/kiry/src/main.rs): `index`, `provider`, `missing` and what they
--   call, over the objects that Elf/Parse reads. The loop of `missing` is Cli/Loader/Search.
-- * Cli/Boot, Cli/Boot/Efi (crates/kiry/src/main.rs): `pair`, `fled`, `fallback`, `keeps` and `reorder`. The commands that
--   a fallback runs are a log, with the result of each a parameter.
-- Base holds the shared names, with the texts of Rust's `str` in Base/Text. Tests holds runs at
-- concrete inputs. Pkg and Db are used by Install/Check and Install/Remove, Archive/Walk by
-- Install/Check; Install/Remove reads the records with Db/Record and deletes through Install/Os.
--
-- How the code became definitions. A text is a list of code points. A `Result` with `?` is the type
-- Result with do blocks. A number is a natural number; a `u32` that is parsed is bounded as
-- `from_str_radix` bounds it. A `HashMap` is an association list whose newest entry for a key counts.
-- The loop of `resolve` takes structural recursion on the links that may still be followed (40, as in
-- the source) and on the queue of components, the loops over a file's tables on the counts that the
-- file states, and the chain of a hash table on its bytes, so none of
-- these needs fuel. The rounds of `levels` have twice as much fuel as there are packages: each round takes a
-- package off or lets one more stand in (levels_total). The reading of a pattern has twice its length and
-- one: a group uses two for each of its parentheses and bars, a piece one (new_total).
-- The loop of `missing` has one more round than there are objects, since each comes to the queue once.
--
-- Parameters. What the crates ruzstd and tar read from an archive (a list of headers and errors), the
-- links and directories on disk as an archive is planned, and the calls of the crate rustix with the
-- digest of sha2 are arguments of the definitions, and so is the search in the sorted symbols of `compare`,
-- which may find any symbol of a key. A removal is modelled with the installed files and
-- the database as two states: no package is taken to list the files of the database.
--
-- Not modelled: the extraction of an archive, `install::apply` but for the parts named above, the sparse
-- reads of a file (`elf::bytes`), the rest of the command line (crates/kiry/src/main.rs: what
-- it prints, the processes it starts, and what is not named above), the build sandbox
-- (crates/kiry/src/sandbox.rs), the conversion of recipes (crates/kiry/src/convert.rs), the shell
-- scripts of bootstrap, and the texts of errors.
pub mod Base
pub mod Error
pub mod Disk
pub mod Pkg
pub mod Db
pub mod Archive
pub mod Install
pub mod Elf
pub mod Cli
mod Tests
