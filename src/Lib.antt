-- ===== src/Lib.antt =====
-- Verification of era, a snapshot version store written in Rust.
--
-- The program's parts. crates/core defines the objects: identifiers (the BLAKE3 hash of canonical
-- bytes), trees (sorted directory listings) and snapshots (a root tree, parents and provenance).
-- crates/object-store keeps objects in files and stores a large blob as a delta to another blob.
-- crates/merge merges three versions of a file. crates/repository keeps branches, workspaces and
-- the references to snapshots, crates/materialization moves trees to and from directories, and
-- crates/cli is the command line.
--
-- Which file models which part.
-- - Base: byte strings as lists of numbers below 256, `Result` with the `?` operator as bind,
--   slices, big-endian integers, the byte order of names, UTF-8 as `str::from_utf8` checks it.
-- - Core.Cursor: the shape that the two decoders of crates/core share. A cursor is a buffer and an
--   offset; a read returns the value and the cursor behind it. `Reader` is the interface between a
--   `read_exact` and the proofs: the decoders fill it and the lemmas on integers take it.
-- - Core.ObjectId: crates/core/src/object_id.rs (`from_hex`, `to_hex`, `shard_prefix`).
-- - Core.Tree: crates/core/src/tree.rs (`Tree::new`, `TreeEntry::new`, `to_canonical_bytes`,
--   `from_canonical_bytes`). `to_canonical_bytes` is `none` where the source panics, on a length
--   that does not fit 32 bits. `sort_by` is an insertion sort, stable as the source's.
-- - Core.Snapshot: crates/core/src/snapshot.rs. The BTreeMap of attributes is a list in key order.
--   `write_u32` keeps the wrap-around of `as u32`.
-- - ObjectStore.BlobDelta: crates/object-store/src/blob_delta.rs.
-- - ObjectStore.Disk: what a path reads as, and the hard link by which an object appears.
-- - ObjectStore.Local: crates/object-store/src/local.rs, the reads as functions of the disk, the
--   stores as functions that answer and give the disk after. Local.Blobs, Local.Deltas and
--   Local.Objects relate reads to files, Local.Puts says what a store leaves, and Local.Stored has
--   the runs of stores as a relation between disks. `put_tree` is `none` where the source panics.
-- - Merge: crates/merge/src/lib.rs. Merge has the inputs, the results and `MergeEngine::merge`;
--   Merge.Lines `split_lines` and `lines_to_bytes`; Merge.Edits `edit_regions` from the matches on and
--   `apply_edits_to_range`; Merge.Matching `matching_pairs` with `unique_lis_anchors`, and
--   Merge.Matching.Lcs `collect_lcs_matches`; Merge.Group `conflict_group`; Merge.Hunks the pushes of
--   hunks; Merge.Loop the loop of `merge_present_lines`; Merge.Input `merge_line_input` and the
--   default engine. An index into a vector of edits is the list of the edits from it on.
-- - Repository.Branch: crates/repository/src/branch.rs (`BranchName::new`); Repository.Workspace:
--   crates/repository/src/workspace.rs, with `Path::display` as a parameter; Repository.Error: crates/repository/src/error.rs.
-- - Repository.Refs: crates/repository/src/refs.rs, HEAD, the refs and the pointer file as texts and as
--   files of the disk that the objects stand on too. Refs.Text and Refs.RoundTrip are on texts,
--   Refs.Paths and Refs.Quiet on what a write leaves alone.
-- - Repository.Snapshots: crates/repository/src/repository.rs. An operation is an action, a function of
--   the disk that answers and gives the disk after; `>>!` is `?` between two of them. `Materializer` is
--   the trait of crates/materialization/src/capture.rs: the repository takes one as an argument, and a
--   theorem asks, of each capture and each writing of a tree in its run, that it leaves HEAD, the refs
--   and the objects alone. That is so of the trees that the program captures, which have no entry
--   `.era`; a tree with such an entry, made by other means, would be written over the metadata. Snapshots.Cursors has the
--   invariant, Snapshots.Stores the storing of a snapshot, Snapshots.Moves and Snapshots.Branches the
--   operations on the invariant, Snapshots.Advances what an operation comes to. Repository.Restore is
--   `resolve_snapshot_target` and `restore`; the listings of directories are parameters.
-- - Repository.Timeline: `timeline`, whose loop runs on fuel; the number of snapshots that can be read,
--   and one, is enough.
-- - Repository.Runs: the operations of several handles one after another, as a relation of disks.
--
-- Bounds and fuel. `usize` has 64 bits. A buffer is shorter than 2 ^ 64 bytes, or 2 ^ 63 where the
-- source relies on a saturating sum, which every Rust slice is. No decoder needs fuel: a loop runs
-- on the count that the source reads. The loops of the merge run on fuel: a turn of the merge loop
-- and a round of `conflict_group` but its last take an edit, so that the number of edits is enough;
-- a call of `collect_patience_matches` has a shorter range of the base than its caller, a turn of
-- the walk through the LCS table passes a line, and a link of the increasing run leads back.
--
-- Not modelled: the hash, which is a parameter; formatting of errors; the temporary files of the
-- local store, failing writes, and other processes that write meanwhile; the directory listing;
-- init, open and the adding of workspaces; locks, of which the model says that they
-- are free; materialization behind its trait, and the command line.
pub mod Base
pub mod Core
pub mod Merge
pub mod ObjectStore
pub mod Repository
