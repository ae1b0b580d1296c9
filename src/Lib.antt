-- ===== src/Lib.antt =====
-- A flash translation layer that keeps the order of writes across a crash (ftl_optr), and the
-- simulator that runs it (vst), in the simulator's build: `VST` is defined, banks are idle whenever
-- they are asked, so every wait for hardware ends at once.
--
-- The parts. The host's reads and writes (ftl_optr/ftl.c) go page by page through a write cache
-- (ftl_optr/cache.c). A dirty buffer is written to the next page of an open block, which the page
-- map (ftl_optr/pgmap.c) and the block manager (ftl_optr/blkmgr.c) choose; the move is entered in
-- the log (ftl_optr/log.c). Checkpoints write the log and a commit tag to flash, and garbage
-- collection frees blocks. After a crash the recovery (ftl_optr/recovery.c) rebuilds the page map up
-- to the first write that is not complete. The flash and the memory are those of the simulator
-- (vst/port.c, vst/src/vflash.c, vpage.c, vram.c, checker.c).
--
-- The files. Prelude: shared names, tests, arrays, words, the option monad. Config: the geometry.
-- Stat: ftl_optr/stat.c. Vst.Page, Vst.Flash: vpage.c, vflash.c and the checks of checker.c. Vst.Ram:
-- vram.c. Vst.Trace: the trace of vst.c, the loop that plays it, and the order check of vram.c.
-- Blkmgr: blkmgr.c, with Blkmgr.Init for init_blkmgr. Cache: the bookkeeping of cache.c.
-- Pgmap: the tables of pgmap.c. Recovery: what recovery.c computes on its own state. Ftl: the state of
-- the firmware, and what uses several components: Ftl.Nand (port.c), Ftl.Pages (the allocation of
-- pgmap.c), Ftl.Record (log.c), Ftl.Dequeue (cache.c), Ftl.Gc (garbage_collection), Ftl.Commit (the map
-- table, record_tag), Ftl.Host (the commands), Ftl.Open (ftl_open), Ftl.Recover (the walks of
-- recovery.c), Ftl.Store (the contents of the logical pages as a specification that these refine,
-- and the condition under which the cache can be flushed). A file below one of these has its lemmas;
-- those called Tests run the definitions on the small device of TestData.
--
-- State and operations. A C struct is a record and its statics are fields; arrays and DRAM regions
-- are functions of the index. An operation has the name of its C function and gives the new state. A
-- step that may stop the program (ASSERT, an abort of the checker, an error message with an endless
-- loop) gives an Option, and `none` is the stop. UINT32 and UINT16 sums wrap where the source lets
-- them. The pages of DRAM are one array in the source's order; a page holds tagged host sectors or
-- words, as in vpage.c. The recovery lays its page epochs over that array from the first page on, and
-- over its own entries where they follow. What `malloc` leaves in memory is a parameter of the flash.
--
-- Loops recur on a count of rounds or on fuel. The page loops of a request have the number of sectors
-- as fuel and each takes one off at least. `record_mapent` has the number of entries. A flush has 33
-- rounds, since a bank has 32 buffers; the search of a clean buffer has 49. A batch of garbage
-- collection has 5,000 rounds, above the 4,152 blocks of a bank. The walks of the log have 4,096, above
-- the 16 * 2 * 127 pages of the log; the chain of open blocks has one more than the bank's blocks.
--
-- A line of a trace file is cut with its number of sectors and one more as fuel; the rounds over a
-- trace have fuel, and the first of them is enough for the check of what it has written.
--
-- Not modelled: printing, the interrupts and registers of the hardware, which this build leaves out,
-- the simulator's command line, processes and files, with the crashes that it forks, ftl_idle and
-- ftl_standby, the trace synthesiser, and the copy of the Jasmine platform's library.
pub mod Prelude
pub mod Config
pub mod Stat
pub mod Vst
pub mod Blkmgr
pub mod Cache
pub mod Pgmap
pub mod Ftl
pub mod Recovery
pub mod TestData
