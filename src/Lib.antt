-- ===== src/Lib.antt =====
-- Verification of the network stack, the scheduler, the local sockets, the memory manager and two
-- file systems of UTMS7, a kernel for x86-64 written in C.
--
-- The program. net/ holds the network stack: Ethernet frames (net.c), ARP (arp.c), IPv4 (ip.c),
-- ICMP (icmp.c), UDP (udp.c) and TCP (tcp.c), each a set of static tables with functions that a
-- received packet, a timer tick or a system call runs. kernel/core/sched.c holds the table of
-- processes, the ready queue and the sleep queue; kernel/core/unix.c holds local sockets;
-- kernel/core/memory.c gives out blocks of a heap and pages of physical memory, of which
-- kernel/arch/x86_64/paging.c makes page tables; kernel/core/vfs.c holds ramfs, whose files lie in
-- blocks of the heap; kernel/fs/ufs.c holds a file system on a block device. A process that waits
-- in a network call sleeps in the scheduler, while packets and ticks go on changing the tables.
--
-- The files. Base holds lists with native indices, tests, words and the C `int`; it models no code.
-- Net.Endian: include/endian.h. bswap16, bswap32 and the names for them. Net.Checksum: the loops of
-- ip_checksum, which icmp.c, udp.c and tcp.c repeat. Net.State: the static variables of net/net.c
-- and net/arp.c; Net.Ethernet: net_eth_send and net_handle_packet, with the frames sent as a list.
-- Net.Arp: net/arp.c; arp_cache_add is `add`, arp_cache_lookup is `lookup`. Net.Ip: net/ip.c; the
-- handler that a packet is passed to is the result of `handle_packet`. Net.Icmp: net/icmp.c.
-- Net.Udp: net/udp.c. Net.Tcp: net/tcp.c and net/tcp.h. State is the table of sockets, Output
-- tcp_send_packet, Input tcp_handle_packet, Timer tcp_timer, Calls the functions that system calls
-- run. Ring, Span, Fifo, Diagram, Sequence, Retries, Keep and Run hold what is proved. A function
-- `tcp_x` is `x` (tcp_listen is `listen_on`, tcp_send_packet is `send_segment`). Sched:
-- kernel/core/sched.c and sched.h. State is process_t and the static variables, Queue the ready
-- queue, Switch sched_do_switch, Calls the calls that make no process, Spawn those that do, Init
-- sched_init. Fifo, Kill, Irq and Spawn.Fork hold what is proved. A function `sched_x` is `x`; a
-- pointer to a process is its index in the table. Unix: kernel/core/unix.c and unix.h. State is the
-- table and the descriptors, Calls the functions that make, connect and close sockets, Data
-- unix_send and unix_recv. Cell and Ids hold what is proved. A function `unix_x` is `x`. Memory:
-- kernel/core/memory.c. Heap is kmalloc and kfree over lists of free and used blocks; its children
-- Disjoint, Insert, Sound, Run and Aligned hold what is proved. Pages is the page bitmap, a
-- function `pmm_x` being `x`; Pages.Fresh holds what is proved. Paging, Space and Boot:
-- kernel/arch/x86_64/paging.c. Paging maps and unmaps in the tables of a process (Levels, Write,
-- Grow, Ensure and Map carry the proofs, Process and Unmap end them), Space makes, copies and frees
-- address spaces (Grows, Create), Boot holds paging_init and paging_map. Memory is 512 words for
-- each page address. Vfs: the functions ramfs_x of kernel/core/vfs.c, named `x`. File is the
-- contents of a file (Grow, Contents and Outcome hold what is proved), Dir the directories over a
-- table of nodes (Rename), Mount find_mount (Longest), Path resolve_path_internal (Names, Along),
-- Table the mounts and vfs_resolve_path. Ufs: kernel/fs/ufs.c, a function `ufs_x` or `ufs_vfs_x`
-- being `x`. Ufs itself holds the structures, a mount and the access to blocks and inodes, Extents
-- the blocks of a file (Insert), Alloc the bitmap and the inodes (Search, Fresh, Outcome), Dir the
-- directories (Scan, Store, Place, Found), Calls the calls on names, Files reading, writing and
-- listing (Contents), Volume format, mount and unmount (Room, Sealed, Again, Made, Success). Laws
-- says what is asked of a layout, and Bytes is the layout of the packed structures (Memory, Fields,
-- Lawful).
--
-- Interaction. Each layer of the network stack keeps the state of the layer below in its own and
-- calls its functions. What is outside enters as a parameter: the answers of kmalloc and what
-- happens while a loop spins or a process sleeps or is blocked (`Env`, `Host`, `World`), page
-- tables and the loader (`Memory`), what a file system answers to a name (`Driver`). How the
-- compiler lays the structures of ufs.c out in a block of bytes is `Layout`, a record of the stores
-- and loads, with the laws `IsLayout` for what fits the fields; `packed` is the layout of the
-- packed structures. A function whose result is -1 returns `none` or `false`.
--
-- Bounds and fuel. Machine words wrap where the code can reach their end (`u16`, `u32`, `u64`,
-- `sub32`). A length of type `int` is an integer where it can be negative, `to_size` is its
-- conversion to size_t, and `to_int` that of a length to `int`. A loop with a counter recurses on
-- what is left of it. The carry loop of the checksum has three rounds, which suffice for a 32-bit
-- sum; the copying loop of tcp_recv has a round for each byte held, that of unix_send one for each
-- byte to send; the loop of ramfs_write has 64 rounds, after which a capacity is 0 and stays so; a
-- blocked process has a patience, after which its call is still waiting; the walks over the sleep
-- queue have a round for each process of the table; the loops of ufs_vfs_read and ufs_vfs_write
-- have one for each byte, and copy a byte at least in each; the walk along a path has one for each
-- character. A copy past the end of a block is a result of its own (`overrun`, `fault`), not a
-- change of state.
--
-- Not modelled: printing, device registers, the contents of the processor's registers, the contents
-- of the blocks of the heap, the calls of vfs.c on open files, other file systems on disks, system
-- call dispatch, user programs.
pub mod Base
pub mod Net
pub mod Sched
pub mod Unix
pub mod Memory
pub mod Vfs
pub mod Ufs
