-- ===== src/Lib.antt =====
-- The core of the Tundra build engine, src/ of the repository.
--
-- Parts. The build queue (src/BuildQueue.cpp) keeps a ring of the nodes that can advance; threads
-- take nodes from it and advance each through its states: its dependencies, the check of its input
-- signature, its action, its completion, which puts the nodes that waited for it back on the queue.
-- Paths (src/PathUtil.cpp), digests (src/Hash.cpp), merges of sorted arrays
-- (src/SortedArrayUtil.hpp), the scanners for includes (src/IncludeScanner.cpp, src/Scanner.cpp), the
-- cache of file infos (src/StatCache.cpp), hash tables (src/HashTable.hpp) and memory
-- (src/MemAllocLinear.cpp, src/Buffer.hpp) serve it. A node's implicit dependencies are found by the
-- scan of src/Scanner.cpp, which keeps what it found in the cache of src/ScanCache.cpp; input files
-- are signed by src/FileSign.cpp, over the cache of digests of src/DigestCache.cpp; and
-- src/BinaryWriter.cpp writes the files that the engine maps back into memory. The build scripts
-- write a description of the build as JSON (src/LuaJsonWriter.cpp), and the engine reads it
-- (src/JsonParse.cpp).
--
-- Files.
--   Prelude: tests, lists with native indices, integers, masks, and CHECK as an option that has no
--     value where the check fails. The model is that of a checked build.
--   Build/Ring: m_Queue with its indices, as `uint32_t` with a mask; Ring/Index and Ring/Fifo read it
--     as arithmetic round the capacity and as a list.
--   Build/Node, Build/State: NodeState, NodeData, BuildQueueConfig and BuildQueue; `enqueue`,
--     `next_node`, `park_expensive_node` and `unpark_expensive_node`. A NodeState pointer is its
--     index; m_NodeRemappingTable is a function. Calls on the condition variable are recorded.
--   Build/Dependencies: SetupDependencies and UnblockWaiters. Build/Actions: the unlocked parts of
--     CheckInputSignature and RunAction, with the outside world as arguments and the effects as a
--     list. Build/Advance: AdvanceNode, `round` for a round of its loop. Build/Loop: the threads, as
--     turns from one point where a thread gives up the lock to the next. Build/Frame: what the
--     functions leave alone. Build/Order: the order in which nodes are built, for any schedule.
--   FilePath: PathBuffer, `path_init`, `path_concat`, `path_strip_last`, `path_format`.
--   SortedArrays: `traverse` and `binary_search`, and the order of digests.
--   IncludeScanner: `scan_cpp_line`, `scan_line_generic` and the loop over lines, over `isspace`.
--   Json: values and their access. Json/Lexer and Json/Parser are JsonParse.cpp, over the character
--     classes and strtod of a `Clib`; Json/Writer is LuaJsonWriter.cpp, a script being the list of its
--     calls. Json/Text is the text of a value. Json/Reading and Json/RoundTrip read it back, Json/Fuel
--     and Json/Termination count what is left to read, Json/Refused is about texts that are refused.
--   HashTable: HashTable.hpp, a set being a table of units. HashTable/Probe, Lookup, Occupied and
--     Stored are about the slots, Place about a new key in a slot, Growth about new arrays, Contents,
--     Steps and Insertion about a table as a map, Walk about HashTableWalk.
--   StringHash, Words: the hashes, NextPowerOfTwo and the byte order of Common.cpp.
--     IncludeSet: the set of files of Scanner.cpp, a hash set under the hashes of the paths. Scanner:
--     FindFile and ScanFile, over what exists. StatCache: StatCache.cpp, a hash table of file infos.
--   ScanCache: ScanCache.cpp, its chains as lists. ScanCache/Chains, Rehash, Room, Links and Insert are
--     about a chain, the rehash, the room for an insertion, its stores and the whole of it.
--   ImplicitDeps: ScanImplicitDeps. ImplicitDeps/Visit is about a round, Adding and AddFiles about
--     the files that it adds, Loop and Result about the whole scan, over the files that can be reached
--     (Graph).
--   DigestCache: DigestCache.cpp, a hash table of digests. DigestCache/Save saves it with the binary
--     writer; Saved, SavedWriter and SavedFile are about the records, the segments and the file.
--   FileSign: the signatures of files (FileSign/Content, over FileSign/Reading) and of directories
--     (FileSign/Glob).
--   BinaryWriter: segments, fixups and the file. BinaryWriter/Segments and Calls are about what the
--     calls build, Fixups, Layout, Pointers and Places about the relocation, File about the file.
--   Memory: `linear_allocate` and the growth of buffers. Hashing: HashUpdate and HashFinalize over an
--     abstract block function, since the build chooses between two.
--   Tests: runs of the definitions, and the theorems at concrete inputs.
--
-- Bounds and fuel. `advance` makes at most as many rounds as it is given; `rounds` is 6, twice
-- what the longest path through the progress values takes between two points where the lock is given
-- up. `update_loop` has a round for each byte of its data, and each round takes at least one byte.
-- `scan_lines` has a round for each line, which is at most one more than the buffer has characters.
-- `json_parse` allows two nested calls for each byte of the text and two more.
-- A search in a hash table has a round for each slot; a table that is nearly full grows first.
-- `scan_loop` has a round for each path that can be included and one more. Sizes of the scan cache and
-- of the set of files stay below what the source's integers hold for up to 2^23 files.
-- The sums of the linear allocator and of an alignment wrap at 2^64; the sizes of buffers, which count
-- what lies in memory, do not. Counters that the source holds in `int32_t` are integers; ring indices wrap at 2^32.
--
-- Not modelled: the Lua front end and the DAG generator, the saving of the scan cache, the
-- selection of targets and the driver, process creation, the terminal, the profiler, and all code for
-- Windows but path parsing.
pub mod Prelude
pub mod Build
pub mod FilePath
pub mod Json
pub mod HashTable
pub mod StringHash
pub mod IncludeSet
pub mod ImplicitDeps
pub mod Scanner
pub mod ScanCache
pub mod StatCache
pub mod DigestCache
pub mod FileSign
pub mod IncludeScanner
pub mod SortedArrays
pub mod Memory
pub mod BinaryWriter
pub mod Hashing
pub mod Tests
pub mod Words
