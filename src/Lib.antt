-- ===== src/Lib.antt =====
-- Verification of drawterm: the coders of 9P messages and stat entries, UTF-8, byte order, the
-- digit vectors of big numbers, the kernel's queues, locks and file descriptors, the mount driver's
-- requests, text encodings, and the geometry of the drawing library.
--
-- drawterm is a Plan 9 terminal that runs on other systems. Its kernel part (kern/) speaks 9P with
-- servers: kern/devmnt.c codes a request with convS2M, the server answers, and convM2S decodes the
-- answer; exportfs/ serves the other direction with the same coders. Directory entries travel
-- inside Rstat, Twstat and Rread messages, coded by convD2M and decoded by convM2D; what comes from
-- outside is first put to statcheck. File names and the text of the terminal are UTF-8 (chartorune,
-- runetochar). libmp is below the cryptography of libsec, libip below the network devices, and the
-- rectangles of libdraw below the image memory.
--
-- The parts and their files:
--   Base        Boolean tests, lists and bytes measured by native numbers, and the bits of numbers.
--   Wire        Field widths, qids and strings (include/fcall.h, include/lib.h). Wire/Writer is the
--               storing of bytes with the macros PBIT8 to PBIT64, Wire/Reader the reading with GBIT8
--               to GBIT64. Both carry their exits as values: `stop` and `fail` are `return 0`, and
--               `fault` is an access outside an array.
--   Fcall       The structure Fcall and the message types. Fcall/Encode is libc/convS2M.c (size_s2m
--               for sizeS2M, conv_s2m for convS2M), Fcall/Decode is libc/convM2S.c (conv_m2s for
--               convM2S). Fcall/Layout describes the format of each type on its own.
--   Dir         The structure Dir. Dir/Encode is libc/convD2M.c (size_d2m, conv_d2m), Dir/Decode is
--               libc/convM2D.c (conv_m2d, statcheck).
--   Rune        libc/rune.c: chartorune, runetochar, runelen, runenlen, fullrune. Rune/Text has
--               libc/utflen.c and libc/utfnlen.c.
--   Mp          libmp/mpvecadd.c, libmp/mpvecsub.c and libmp/mpvecdigmuladd.c on lists of digits,
--               in Mp/Division libmp/mpdigdiv.c, and in Mp/Order libmp/mpveccmp.c.
--   Ip          libip/bo.c.
--   Qio         The blocks and queues of the kernel: kern/qio.c and kern/allocb.c. Qio/Blocks has the
--               functions on chains of blocks, Qio/Queue the queue with the functions that never sleep,
--               Qio/Queue/Read has qwait, qbread and qread, Qio/Queue/Write qbwrite, the flag of qflow
--               and a round of qiwrite. Qio/System is a queue with the wakeups that are due, for any
--               number of processes, Qio/System/World one process that takes and any number that put,
--               with their sleeps on q->rr and q->wr (sleep and wakeup of kern/rendez.c); Qio/Alloc is
--               _allocb.
--   Mnt         The mount driver, kern/devmnt.c. Mnt/Tags has alloctag and freetag, Mnt/Requests
--               mntralloc and mntfree, Mnt/Mux the processes in mountio, of which one reads for all, and
--               Mnt/Reply mntrpcread, over Qio and Fcall/Decode.
--   Qlock       The queueing locks of kern/qlock.c.
--   Rwlock      The locks for readers and writers of kern/rwlock.c, over Qlock, as steps of processes.
--   Fd          File descriptors: struct Fgrp of kern/dat.h with growfd, findfreefd, newfd, newfd2,
--               closefd and the table part of _sysdup of kern/sysfile.c. Fd/Channels has incref,
--               decref and cclose of kern/chan.c and fdtochan, Fd/Groups dupfgrp and closefgrp of
--               kern/pgrp.c, and Fd/System all tables together in sequences of these calls.
--   Enc         Bytes as text: libc/u16.c and libc/u64.c, and in Enc/Base32 libc/u32.c.
--   Draw        Points and rectangles: libdraw/arith.c and libdraw/rectclip.c. Draw/Move has the
--               functions that add coordinates, Draw/Alpha has setalpha.
--
-- Numbers. The fields of the structures are natural numbers; a stored field keeps what its width
-- holds, and sizes of type uint are cut to 32 bits where the source computes them. `long` is the
-- 32-bit `int` that include/lib.h makes of it, and a digit of libmp has 32 bits. A signed overflow of
-- a coordinate is not defined in C and gives no result. A value of type vlong stands by its 64 bits.
--
-- Queues. What a function does to a queue under its lock is one event; the result tells the wakeups
-- and the kick that follow. Most functions have one such section; a round of the loop of qiwrite is
-- one, and the setting of Qflow in qflow, which tests qnotfull before without the lock. A run is any
-- sequence of such events. In Qio/System a wakeup is due from when qwait or qflow has set its flag
-- until a wakeup of the rendez is sent. In Qio/System/World the flag, the sleep, which tests its
-- condition again, and the delivery of a wakeup are three events, and others come between. There one
-- process takes, with qflush and qreopen its own, and of the writers the one that holds `wlock`
-- sleeps, with Qflow set or not: with two writers the flag can be clear, and the test `forgotten` of
-- Qio/Tests is a run in which such a writer is left asleep. A process that wakes begins anew, and
-- interrupted sleeps are left out. pullupqueue is no event: it leaves `len` as it was when pullupblock
-- makes a new block. Where an allocator is needed it is an argument, with
-- what kern/allocb.c gives: an empty block with room for the bytes asked for. The counts `len`,
-- `dlen` and `eof` do not overflow. The tests under QDEBUG and the statistics are left out.
--
-- Mount driver. A request stands by its tag, and the process that waits for it likewise. The states
-- of a connection follow one another by events of single processes: a request is queued, its process
-- comes to the gate, the reader gets an answer or an error, or leaves. `malloc` succeeds. What the
-- server sends is any list of blocks to the reader, and any sequence of replies to the processes.
--
-- File descriptors. A channel is a number, and its count, flags and mode are functions of it. A call
-- on a table is one event, for the table is locked throughout; a reference that a function has
-- between two events is counted as held. `namec` gives a channel with one reference for its caller.
-- That malloc has memory is an argument. `none` is a panic. The close of the device, when a count falls to
-- 0, is left out, as is the warning of unlockfgrp.
--
-- Readers and writers. Each step runs from one call on a queueing lock to the next; between them
-- processes alternate in any order. The spin lock in rlock and runlock makes each one step.
--
-- Memory. A buffer is the list of its bytes from a pointer on. A function that fills one gives what
-- it has stored, also where it then returns 0. A `char*` is nil or the bytes before its NUL. The
-- decoder of messages moves each string one byte down inside the buffer; the string is modelled by
-- the bytes that it holds afterwards. The arrays of the digit vectors do not overlap.
--
-- Loops run over the lists, or over the count that the source counts down. The loops over the text
-- of a string take the length of the string as their fuel, of which every round uses one at least.
--
-- Not modelled: the loops of qwrite and qiwrite over the pieces of what is written, and freeing; interrupted requests and
-- their flushes; the name space and devices of the kernel and the export server, whose
-- state machines are not translated here; cryptography and authentication; image memory, window
-- systems and audio, which work on machine memory and services of the host; and the entry of the
-- program.
mod Base
pub mod Wire
pub mod Fcall
pub mod Dir
pub mod Rune
pub mod Mp
pub mod Ip
pub mod Qio
pub mod Mnt
pub mod Qlock
pub mod Draw
pub mod Fd
pub mod Enc
pub mod Rwlock
