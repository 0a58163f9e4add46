-- ===== src/Lib.antt =====
-- The storage system of this repository: a FAT32 file system (PFS) whose sectors lie on disk
-- processes (PPD), with a process in between (PRAID) that mirrors writes over several disks and
-- spreads reads over them, and the code that they share (Commons).
--
-- The parts, their files, and the code:
--   Prelude.antt and Prelude/: lists, Boolean tests and bytes over the native numbers, the results
--     of code that can fail (`Outcome`: a value, a fault such as a read through NULL or outside of
--     an object, or no fuel), `memcpy`, and lemmas on them.
--   Commons/Nipc.antt: the frames of the protocol (Commons/src/nipc.c: NIPC_createMsg, NIPC_toBytes,
--     NIPC_toMsg, NIPC_createCharMsg).
--   Commons/Queue.antt: the queues of all processes (Commons/src/tad_queue.c). The nodes are a
--     list and `end` is a position in it.
--   Pfs/BootSector.antt, Pfs/Fat.antt: the table of clusters in memory (PFS/src/tad_fat.c). A
--     pointer into the table is a position; a sector of the table knows where its bytes lie.
--   Pfs/Volume.antt, Pfs/Truncate.antt: the table with what the disk holds, and the change of a
--     file's chain and clusters in fat32_truncate (PFS/src/pfs_fat32.c).
--   Pfs/FileCache.antt: the cache of an open file (PFS/src/file_cache.c), with fuselage_flush of
--     PFS/src/pfs.c.
--   Pfs/Cluster.antt: the sectors of a cluster (PFS/src/tad_cluster.c, and fat32_readCluster of
--     PFS/src/pfs_fat32.c).
--   Pfs/DirEntry.antt: directory entries and their bytes (PFS/src/tad_direntry.c).
--   Pfs/LfnEntry.antt: entries of long names and their bytes (PFS/src/tad_lfnentry.c).
--   Pfs/FilePath.antt, Pfs/FileEntry.antt: paths, files and open files (PFS/src/tad_file.c).
--   Pfs/Directory.antt: the files that a directory shows (PFS/src/tad_direntry.c:
--     DIRTABLE_interpretFromCluster).
--   Pfs/Lookup.antt: the search for a file by its path (PFS/src/pfs_fat32.c: fat32_readDirectory,
--     fat32_getFileEntry).
--   Pfs/Files.antt: making, removing and truncating a file (PFS/src/pfs_fat32.c: fat32_mk,
--     fat32_remove, fat32_truncate).
--   Pfs/Span.antt, Pfs/FileIo.antt, Pfs/FileWrite.antt: reading, writing and flushing an open file
--     through its cache (PFS/src/pfs.c: fuselage_read, fuselage_write, fuselage_flush).
--   Pfs/Rename.antt, Pfs/Attributes.antt: fuselage_rename and fuselage_getattr (PFS/src/pfs.c).
--   Pfs/Fuse.antt: the operations that PFS gives to FUSE (PFS/src/pfs.c).
--   Pfs/Comm.antt: ppd_read_sectors and the reassembly of its answers (PFS/src/pfs_comm.c).
--   Ppd/Geometry.antt: addresses, sector numbers and times (PPD/src/ppd_common.c: COMMON_turnToCHS;
--     PPD/src/ppd_taker.c: TAKER_turnToSectorNum, TAKER_sectorDist, TAKER_reachedSector,
--     TAKER_distanceTime, TAKER_updateHPos).
--   Ppd/Taker.antt: the choice of a request (PPD/src/ppd_taker.c: TAKER_near, TAKER_getNextNode,
--     TAKER_takeRequest).
--   Ppd/Queues.antt: the two queues (PPD/src/ppd_qManager.c).
--   Ppd/Scan.antt: SSTF and FSCAN (PPD/src/ppd_SSTF.c, PPD/src/ppd_FSCAN.c).
--   Ppd/Translate.antt: messages as requests and back (PPD/src/ppd_translate.c).
--   Ppd/Io.antt: the mapped disk file (PPD/src/ppd_io_map.c).
--   Ppd/Service.antt: the thread that serves requests, a round at a time (PPD/src/ppd_taker.c:
--     TAKER_main, TAKER_handleRequest; PPD/src/ppd_common.c: COMMON_createLogChar,
--     COMMON_writeInLog), and the handler of messages (PPD/src/ppd_comm.c: COMM_handleReceive).
--   Praid/Disks.antt, Praid/Requests.antt, Praid/Clients.antt: the queues of PRAID
--     (PRAID/src/ppd_queue.c, request_handler.c, pfs_queue.c).
--   Praid/Service.antt: its handlers as steps on its globals (PRAID/src/praid.c, ppd_thread.c).
--     Praid/Service/Reach.antt has the states that it reaches, and Praid/Service/Race.antt the
--     acknowledgement of a write in the two parts that threads interleave.
--   System.antt: a request of PFS at a disk, and the answer that PFS reads.
--
-- The parts interact by messages and by their queues. PFS asks for sectors; PRAID sends a write to
-- every ready disk and a read to one of them; PPD puts a request into the queue that is not served,
-- takes requests out in the order of its algorithm, serves them on the disk file and answers. In
-- the files of the module tree, the file named after a component has the definitions and the files
-- in the folder of that name have the proofs. A `Tests` module has examples on small data.
--
-- Numbers of w bits are natural numbers with the wrap at 2 ^ w written out. A loop over the chain
-- of a cluster takes fuel: the number of entries of the table is enough, because a chain that ends
-- passes no entry twice. All other loops are recursion on a list or on the number of rounds.
--
-- A FUSE operation looks its file up in the queue of open files, or in the directories of the volume.
-- The data of a cluster are a list of bytes: a read or a copy past the end of an object is a fault, and
-- what `malloc` leaves in memory, the bytes behind a name, the conversions of ICU and the clock are
-- parameters. LFNENTRY_setNameChars asks for 26 bytes, and ICU writes 28 with the 0 behind the name: how
-- many `malloc` gives is a parameter too, and with fewer than 28 the conversion is a fault. The clock
-- counts seconds: two calls of `time` may deliver the same, and a full cache whose blocks were all used
-- in the current second has none to make room, which is a fault. A `float` is rounded to 24 binary digits after each operation, and clusters have a power
-- of two of bytes, as FAT32 has it. Freeing memory is left out, as is the mutex of a write.
--
-- What is not modelled: sockets (Commons/src/tad_sockets.c, comm.c; what arrives on one is an
-- argument), ppd_write_sectors of PFS/src/pfs_comm.c, the configuration and the log, the text of
-- the consoles, `malloc` that fails, waiting for a semaphore, and the interleaving of threads
-- inside the other handlers. Of PFS/src/pfs.c the start, the console, the dump of the cache
-- and what fuselage_open writes to the log are not modelled, nor is the synchroniser of PRAID, which
-- is never started.
pub mod Prelude
pub mod Commons
pub mod Pfs
pub mod Ppd
pub mod Praid
pub mod System
