-- ===== src/Lib.antt =====
-- The free exFAT implementation: the library in libexfat and the programs on it, as functions of an
-- explicit state.
--
-- Prelude passes on the shared names and holds C integers, bits of numbers, lists by native index
-- and signed integers. Result holds errno codes and results.
--
-- libexfat/utf.c is Utf: one function for each C function, and its two loops on a bound of one more
-- than the input's length, which is never used up. Utf/Scalar states the encodings of the RFCs.
-- libexfat/time.c is Time, with the timezone as an argument of both conversions.
-- libexfat/utils.c is Checksum: the sums and the name hash.
-- The macros BMAP_* of libexfat/exfatfs.h and the search of libexfat/cluster.c are Bitmap, on words
-- of 64 bits, the `size_t` of the systems that it runs on.
-- The structures of libexfat/exfat.h are Exfat. The system's `pread` and `pwrite` are an interface,
-- Device, on any state; IsDisk says what a disk promises of them.
-- libexfat/cluster.c is Cluster: a function takes the volume and the node, and gives both back with
-- its result, on errors too; `exfat_bug`, which aborts, is a result of its own. Children hold
-- `shrink_file` (Shrink), `grow_file` (Grow), erasing, truncation and flushing (Truncate). The
-- rounds of the loops are those that their bounds give; the loop of `erase_range` gets one round
-- more than the end of its range, and each of its rounds goes on by at least one byte as long as the
-- boundary, a number of 64 bits, does not wrap around.
--
-- The loops of libexfat/io.c over a file's clusters (Transfer) get one round for each byte, since a
-- round moves at least one. Used holds the search for sectors in use.
-- Names and the parts of paths in libexfat/lookup.c are Lookup. The entries of a file in
-- libexfat/node.c are Entry, their bytes Entry/Codec, and those of a directory Dir (with free slots
-- in Dir/Slot), which reads and writes them by Cluster/Transfer. Cluster/Keeps and Dir/Keeps hold
-- rules for what every action keeps of a volume, Cluster/Keeps/Sized those for the size of the node;
-- Dir/Shrunk is about `shrink_directory`. Cluster/Grow/Counts and
-- Cluster/Grow/Truncated count the clusters that are taken, by the rules of Leads and Steady there. The root directory's size and the options of
-- libexfat/mount.c are Mount. The sizes for display of libexfat/utils.c are Human. The question of
-- libexfat/repair.c is Repair, on the lines that the terminal gives.
--
-- The nodes of libexfat/node.c and libexfat/lookup.c are Tree: a store of nodes by address, which an
-- action takes and gives back, with the volume, the clock (which stands still in a call) and the
-- answers of `malloc`. An action on a volume and one node, such as `exfat_truncate`, is run on the
-- node at an address. Children hold the cache of directories (Cache, given up by Reset), the walk
-- over them and along paths (Walk), flushing (Flush), removal (Delete), creation (Create),
-- renaming (Rename) and the label (Label); the lemmas on lists of siblings are Siblings, Segment,
-- Attach and Detach, those on references and the search for a name References, Find and Named,
-- those on removed nodes Cleanup. Loops over siblings and up to the root get one round more than
-- there are addresses of nodes, loops over a directory two more than it has entries, and loops
-- along a path one more than it has bytes.
-- Opening and closing of the device in libexfat/io.c are Tree/Open, with the system's calls as an
-- interface, System; its loop over descriptors gets four rounds, for three descriptors and the end.
-- `exfat_mount` and `exfat_unmount` of libexfat/mount.c are Tree/Mount. Its options are Tree/Options,
-- with what they ask of the system in Caller, and its checks of the super block and of the boot
-- region are Tree/Super, with the super block as its bytes; Tree/Super/Boot and Tree/Super/Accepts
-- hold the proofs about them.
--
-- The programs of mkfs are Mkfs: the static parameters are the record Param, which has the table of
-- mkfs/uctc.c as an argument, and actions write to a Stream (of libexfat/io.c, on `lseek`, `write`
-- and `fsync`), whose laws are IsStream; the first failure stops them. Mkfs holds the positions of
-- the objects, Setup the parameters of mkfs/main.c, Write what is written of each object, and Create
-- `mkfs` of mkfs/mkexfat.c. The proofs on the layout are Layout, Room and Chosen; those on what is
-- written are Above, Safety, Region and Formatted. The loop of `setup_spc_bits` gets the 14 rounds
-- in which 1 << i is an `int`.
--
-- The callbacks of fuse/main.c are Fuse, with the address of a node as the handle of a file; the
-- strings of options are Fuse/Escape. fsck/main.c is Fsck: `nodeck` is Fsck/Node, and the walk over
-- directories has a bound on their nesting as an argument. label/main.c is Label.
--
-- Not modelled: the log, warnings, the unfinished recovery code with nuked/main.c, dump/main.c, the
-- table of mkfs/uctc.c, and the parsing of arguments.
pub mod Prelude
pub mod Result
pub mod Utf
pub mod Time
pub mod Checksum
pub mod Bitmap
pub mod Exfat
pub mod Cluster
pub mod Lookup
pub mod Entry
pub mod Dir
pub mod Mount
pub mod Mkfs
pub mod Repair
pub mod Tree
pub mod Fuse
pub mod Fsck
pub mod Label
pub mod Human
