-- ===== src/Lib.antt =====
-- A model of the openblt part of frotznet, a small i386 microkernel with its servers, and theorems on it.
--
-- The kernel (openblt/kernel) keeps every object (port, semaphore, task, team) as a resource with a
-- number in one map. A task that has to wait sleeps on the queue of a resource, and another task runs.
-- Messages travel over ports, which the servers and their clients use for all they do. The console
-- server (openblt/srv/console2) interprets characters as a VT100 and moves lines of its screen with
-- memmove of the C library (openblt/lib/libc). The file server (openblt/srv/vfs) answers the requests of
-- its clients by the driver of the place where a path leads. The boot loader (openblt/netboot) takes the
-- first image from the network. The tools beside openblt (utils, hiptop) stand on their own.
--
-- Files:
--   Prelude            shared names, tests on numbers, lists, memory as a function, integers
--   Kernel/State       resource.h, task.h, port.h, sem.h, team.h: struct to record, global to field
--   Kernel/Resource    resource.c: rsrc_init, rsrc_find, rsrc_bind, rsrc_enqueue, rsrc_dequeue, ...
--   Kernel/Task        task.c and kernel.c: task_wake, wait_on, thr_wait, swtch, preempt, rsrc_release
--   Kernel/Sem         sem.c: sem_create, sem_destroy, sem_acquire, sem_release
--   Kernel/Port        port.c: port_create, port_destroy, port_option, port_send, port_recv
--   Kernel/System      sequences of the calls on ports, semaphores and threads
--   Console/Screen     vt100.c: the cells, the cursor, clearing, scrolling
--   Console/Engine     vt100.c: the interpreters of a character, char_to_virtscreen
--   Kernel/Ring        list.c: the doubly linked lists, by address; the other modules use their lists
--   Kernel/Memory      memory.c: getpage, putpage, the page part of memory_init, kmallocP, kfreeP
--   Kernel/Heap        memory.c: kgetpage, kgetpages, kmappages, kfreepage, memory_init and kmallocB, kfreeB
--                      over the table of pools, with the pages of the kernel's own space
--   Kernel/Aspace      aspace.c: page tables, locate_span, aspace_create, _map, _maphi, _protect, _clr
--   Kernel/Area        aspace.c: area_create, _create_uber, _clone; in Area/Teardown area_destroy and
--                      aspace_destroy, in Area/Resize area_resize
--   Libblt/Hash        lib/libblt/hash.c: hashtable_new, _insert, _rebuild, _lookup, _remove
--   Libc/Memory        string.c: memset, memcpy, memmove
--   Libc/Strings       string.c: strncpy, strncmp, strchr, memcmp
--   Libc/Snprintf      snprintf.c: va_snprintf
--   Libblt/Disk        lib/libblt/disk.c: disk_alloc, blt_internal_code
--   Libposix/Fdl       lib/libposix/fdl.c: _fdl_alloc_descriptor, _read, _write, _ioctl, _close, ...
--   Libdl/Sym          lib/libdl/sym.c: _dlsym, __dl_lookup_sym, __dl_patch_section, __dl_patchup
--   Vfs/Path           srv/vfs/path.c: path_concat, path_combine
--   Vfs/Mounts         srv/vfs/fs.c and super.c: fs_register, fs_find, vfs_mount
--   Vfs/Rootfs         srv/vfs/rootfs.c: rootfs_mount, _walk, _mkdir, _opendir, _readdir; vnode.c: vget
--   Vfs/Bootfs         srv/vfs/bootfs.c: bootfs_mount, _walk, _opendir, _readdir, _read, ...; vnode.c: vget
--   Vfs/Shm            srv/vfs/shm.c: shm_write_dir
--   Vfs/Server         srv/vfs/vfs.c: the requests in Server/Requests, the switch of vfs_main in
--                      Server/Main, vfs_tell_parse in Server/Tell; in Server/Boot bootfs_vnode_ops
--   Netboot/Packets    netboot/netboot.c: receive, handle_arp, handle_rarp, handle_ip, handle_udp, ipchksum
--   Netboot/Prompt     netboot/netboot.c: console, keypress, command, parse, option, read_ip
--   Hiptop/Utf8        hiptop/dictionary/mkidx.c: write_utf8
--   Hiptop/Index       hiptop/dictionary/mkidx.c: START, CONT, fixup, the loop of main, COMPARE, EJECT
--   Hiptop/KanaMap     hiptop/jp_im/map.c: insert
--   Utils/Fdevent      utils/fdevent.c: the event loop on descriptors, in the build with select; the one with
--                      epoll, which utils/Makefile chooses, is not modelled
-- The modules below these hold the proofs, and those called Tests hold runs on concrete data.
--
-- How code becomes definitions. A function that changes kernel state takes a Kernel and gives one back. A
-- pointer is a number, NULL is 0. A list_t is the list of its data pointers. A call that may wait has an
-- Outcome: it returns, it sleeps (the state is then that in which another task runs) or the kernel
-- halts; what a loop of such a call does when its task runs again is a definition of its own
-- (send_again, recv_again, acquired). On the screen an access outside of the cells and an overflow of an
-- int are faults, `none`. A call on an address space takes the record of the spaces, areas, page groups,
-- pages and the kernel; a page table is a function, so that writes past its end are seen. A string is the
-- list of its characters before the NUL, and a call that leaves its strings is `none`. A request of the
-- file server is a block of attempts, each of which goes on, refuses with an error number or faults; the
-- operations of a driver are a record that the server is given.
--
-- Bounds and fuel. The walk over a linked list runs on fuel, one step for each node that the list counts
-- and one for its end, which is enough for a well-formed ring. The probe loops of the hash table run on
-- one step for each node of the table, and its rebuilds on fuel for their nesting; without fuel their
-- result is `none`. aspace_destroy is given a bound on its rounds, and the doubling of the descriptor table
-- seven, which lead from 256 past 32000. All other loops recur on a list or on a count. Ids, counts and
-- sizes are natural numbers; the status of a call is an integer that does not wrap, and the
-- count of a semaphore wraps as an int does. The numbers of an escape sequence are checked against the largest int.
--
-- Not modelled: kmalloc and kgetpage where other code uses them (a call that allocates is given the address
-- that they return), the switch of the processor itself, creation and death of tasks and teams, the other
-- servers, the loaders of programs and most tools, and copies of other projects (malloc.c, qsort.c).
pub mod Prelude
pub mod Libc
pub mod Libblt
pub mod Kernel
pub mod Console
pub mod Vfs
pub mod Libposix
pub mod Libdl
pub mod Hiptop
pub mod Utils
pub mod Netboot
