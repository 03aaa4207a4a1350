-- ===== src/Lib.antt =====
-- The image store and extractor of this repository: pkg/extractor extracts the layers of an OCI
-- image into a directory, and reuses files that earlier extractions left on the disk. It reads the
-- table of contents of zstd:chunked layers (pkg/chunked), asks pkg/filedb which files are there
-- already, fetches the missing ones by byte range through pkg/ocistore/common.go, and filters what
-- upper layers have replaced or hidden. The rest of pkg/ocistore keeps images and snapshots in
-- containerd's stores, and cmd has the commands over both.
--
-- Prelude has tests, lists, texts (Go strings as lists of bytes), results, and int64 with its
-- wrap-around. Paths has Go's path/filepath on Unix: Clean, Join, Dir, Base, Abs and Rel.
--
-- FileDb is pkg/filedb/filedb.go. The state is a view of the bolt database, an interface with its
-- documented behaviour in FileDb/Buckets, and FileDb/Memory is one that meets it. `record_all_tx`
-- is the function that `RecordAll` passes to `Update`, `record_all` the whole method, and likewise
-- for `RemoveRoot`; `paths_for_checksum` and `root_exists` are the two readers. FileDb/Opening is
-- `Open` and `Close`. FileDb/Coherent has the sequences of transactions.
--
-- Chunked is pkg/chunked/tocutil.go: Chunked/Data its types, Chunked/Footer `ParseFooterFrame`,
-- Chunked/Toc `ParseAnnotations` and `ParseTOC`. zstd, SHA-256 and JSON are a record of functions.
--
-- Extractor is pkg/extractor. Extractor/Layer is the filter of extractor.go with its state
-- `LayerCtx`; Extractor/Split and Extractor/Ranges are `processTOC` and `groupMissingFiles` of
-- toc_process.go; Extractor/Nodes and Extractor/Contents are chunked_extraction.go; Extractor/Image
-- puts the layers together, Extractor/Dispatch is `fetchManifestAndConfig`, and Extractor/Reference
-- is `ExtractImage` from the image's reference on. A system call is a value of `Syscall`, and what
-- it does to the world is a parameter, so that every order of calls and every error path is there.
-- The duplicates of a file, pointers in the source, are places in the list of all files.
-- Extractor/Maintaining is about actions that keep a condition on the world while their calls stay
-- within a set, and Extractor/Confined about the calls of an extraction: the text of the paths that
-- they write.
--
-- Store is pkg/ocistore, over the interface to containerd in Store/Containerd: Store/Registry is
-- common.go with the resolver's set-up in Store/Registry/Resolver, Store/Setup is `Init` and
-- Store/Content are the readers of ociStore.go, Store/Snapshots is its leases and the operations of
-- snapshots.go, Store/Images is image.go and `Umount` of mount.go, Store/Mounts is `Mount`,
-- Store/Unpacking is unpack.go, Store/Pulling is pull.go, Store/Archives and Store/Importing are
-- import.go, Store/Commits and Store/Committing are commit.go. Store/Storing has the loops of
-- pull.go and import.go over the image records, and Store/Options the functions that set options.
-- Store/Catalog is what the image store promises, a map from names to records, and the operations
-- above as operations on that map; Store/Leases is the same for leases.
--
-- Commands is cmd: a command with its flags is a value of `Command`, `execute` sets the store up as
-- root.go does and runs the command's function, and the result is what it prints and its error.
-- Commands/Logging is `initLogger` with pkg/logger/logger.go, and Commands/Extracting is
-- cmd/extract.go with `NewExtractor`. Commands/Steady is about the parts of the store's state that
-- an execution leaves as they are, and Commands/Sessions about sequences of executions.
--
-- An error is a value; a nil pointer that the code follows is the error `nil_pointer`, which ends
-- the program in the source: the deferred functions that look at the returned error see none then.
--
-- Four loops are on fuel. `parent_loop` has one round more than the path has bytes, and each round
-- shortens the path. `show_digits` has one round more than the number. `remove_snapshots_chain` has
-- its number of rounds as an argument: a bounded depth bounds them, and so does the distance of the
-- snapshot to the end of its chain. `store_image` has its number of rounds as an argument, and
-- needs one if nothing else changes the image store. Sorting is any function that sorts as
-- sort.Slice does.
--
-- Not modelled: the tar reader and containerd's extraction of one entry (parameters), what bolt,
-- the HTTP client and containerd do inside (parameters), cobra's parsing of flags and which flags
-- go together, the random part of a mount's name, times of records, the text of log lines, links
-- that the system follows in a path, arrays that two slices share in toc_process.go, the steps of
-- other programs on the same stores, and the diff service, which only wraps containerd's.
pub mod Prelude
pub mod Paths
pub mod FileDb
pub mod Chunked
pub mod Extractor
pub mod Store
pub mod Commands
pub mod Tests
