-- ===== src/Lib.antt =====
-- libswift is the reference library of the PPSP / swift multiparty transport protocol. A content is
-- cut into chunks, and all its parts speak of runs of chunks by bins, the nodes of a binary tree over
-- the chunk numbers. A hash tree over the bins lets a peer check each chunk that another peer sends
-- against one root hash.
--
-- The parts, and the files that model them:
--   Bin, Bin/Steps      bin.h, bin.cpp: `bin_t`, as its 64-bit value. A method keeps its name in snake
--                       case; the constructor from a layer and an offset is `of_layer`.
--   BinUtils            bin_utils.h: `gen_peaks`, and bins on the wire.
--   HashTree/State      hashtree.h: the fields of `MmapHashTree`, and `peak_for`.
--   HashTree/Peak       hashtree.cpp: `OfferPeakHash` and `DeriveRoot`.
--   HashTree/Recover    hashtree.cpp: `RecoverPeakHashes`.
--   HashTree/Walk, HashTree/Offer
--                       hashtree.cpp: `OfferHash` and `OfferData`, and the loops of `OfferHash`.
--   SendControl         send_control.cpp: when a channel sends next, by the mode of its congestion
--                       control. State holds the fields of `Channel` (swift.h) that it uses, Timeout is
--                       `TimeoutDataOut` (sendrecv.cpp), Modes has one function per mode, and Next is
--                       `NextSendTime` with `SwitchSendControl`.
--   Binmap/Bitmap       binmap.cpp: the table of bitmaps, and `bitmap_to_bin`.
--   Binmap/Heap         binmap.h, binmap.cpp: the fields of `binmap_t`, its cells, the free list of
--                       cells, and `trace`.
--   Binmap/Query        binmap.cpp: `is_empty`, `is_filled`, `cover`, `find_empty` and `find_filled`.
--   Binmap/Restructure  binmap.cpp: `extend_root`, `pack_cells`, and the making of cells below a bitmap.
--   Binmap/Update       binmap.cpp: `set`, `reset`, `clear`, `fill` and `empty`.
--   Swarm               swarmmanager.h, swarmmanager.cpp: State holds the fields of `SwarmData` and
--                       `SwarmManager`, Data the methods of `SwarmData`, Vector the changes of a vector,
--                       Search the searches, Iterator the iterator, Build `BuildSwarm`, Activate the
--                       activation and deactivation of swarms with the limit and its timer (and
--                       `swift::Checkpoint` of api.cpp), Add `AddSwarm`, and Remove `RemoveSwarm`.
--   AvgSpeed            avgspeed.h, avgspeed.cpp: `MovingAverageSpeed`.
--   BinSet, Hashing     the interfaces of what the hash tree calls: `binmap_t` as a set of base bins
--                       (binmap.h), and `Sha1Hash` (hashtree.h, over sha1.cpp). Binmap/AsSet fills
--                       BinSet with the binmap of Binmap/Heap, Binmap/Query and Binmap/Update.
-- The other files of a part hold its proofs: Bin/Layout gives the meaning of a bin as a layer and
-- an offset, and every method is computed at such a pair; Binmap/Shape says which set of base bins
-- a tree of cells stands for, and Binmap/Chain and Binmap/Pool what a free list of cells is;
-- Swarm/Invariant is the invariant of the manager, after `SwarmManager::invariant()`;
-- HashTree/Spec says what a Merkle tree is and what a genuine tree holds. Base, Bits and Word are
-- shared: comparisons and lists over the native numbers, laws of the bitwise operations, and
-- 64-bit arithmetic that wraps. Tests applies the theorems at concrete inputs, with a
-- collision-free hash, a set of base bins, binmaps from the model of the constructor, one that the
-- model of `set` has built, and a manager of two swarms.
--
-- Bounds and fuel. A `uint_t` is a number below 2 ^ 64, and each operation wraps. A bin of the tree
-- has a layer up to 63 and an offset that fits above it. The first loop of `gen_peaks` has fuel for
-- 65 rounds, one more than a 64-bit length has digits. The walks of `OfferHash` have fuel for 64
-- rounds, one for each layer; each round goes one layer up. `DeriveRoot` has fuel for 192 rounds, for
-- 63 layers and at most 64 peaks. A call of `NextSendTime` has fuel of one unit for each time it
-- calls itself through `SwitchSendControl`, and six are enough. A `tint` is a signed 64-bit number in
-- two's complement; the counters of a channel are C integers that are taken not to overflow.
-- The binary search for a swarm has fuel for as many rounds as its list is long, and the loops that
-- put swarms to sleep for as many as swarms are active, since each round puts one to sleep.
-- The numbers of cells of a binmap are 64-bit numbers, and its references have 32 bits.
-- A walk down or up the cells of a binmap has fuel for 64 rounds, one for each layer of the root.
--
-- Parameters. SHA-1 is a copy of another project's code, so the digests and their pairing are a
-- record; where it matters, that no two pairs of digests collide is a named hypothesis. The storage
-- and the hash file answer through the record `Disk`, the floating point arithmetic is in the
-- records `Floats` and `Doubles`, and the clock is an argument. Whether `realloc` finds room for so
-- many cells of a binmap is an argument too. The cells of a binmap and the stored hashes are
-- functions of the index, so an index out of range is not an error in the model; the two words of a
-- cell, which are unions in the code, are numbers, and `is_free_` is set as in a build with
-- assertions.
--
-- A `SwarmData*` is an address in a heap of the model that also says which objects are alive; a root
-- hash is the number of its bytes, which `memcmp` compares. The transfers of the swarms are the record
-- `Transfers`; the clock, the file sizes, the checkpoints and the opening of a transfer are the record
-- `Os`, and one call reads the clock once, but for the loops, which read it in each round. The files that
-- `RemoveSwarm` deletes are a list, where the code has a set.
--
-- That the code keeps a tree genuine is not shown: it is a hypothesis where it is used. A tree that
-- `deserialize` loads is not one if it has acknowledged chunks, since `is_hash_verified_` is not saved.
--
-- Not modelled: printing; the constructors, `Submit`, `RecoverProgress` and the serialization of
-- the hash tree; the copies and the complements of binmaps, `find_empty` from a start bin, and
-- their serialization; and the other parts of the library: availability, the rest of the channels,
-- messages, the live trees, the gateways, the trackers and the bindings.
pub mod Base
pub mod Bits
pub mod Word
pub mod Bin
pub mod BinUtils
pub mod Binmap
pub mod BinSet
pub mod Hashing
pub mod HashTree
pub mod SendControl
pub mod Swarm
pub mod AvgSpeed
pub mod Tests
