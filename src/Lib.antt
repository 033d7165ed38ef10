-- ===== src/Lib.antt =====
-- DPFS: a virtio-fs device whose file systems run on a DPU.
--
-- The repository has a hardware abstraction layer (dpfs_hal), which polls the virtio queues and
-- hands FUSE requests to a file system, and several file systems behind it: dpfs_nfs reflects a
-- folder of an NFS 4.1 server, dpfs_aio and dpfs_uring mirror a local folder, dpfs_kv is a store of
-- keys and values. This library models dpfs_nfs and the C code that it stands on, and what leads from
-- a queue to an operation of a file system in dpfs_fuse, which is C++, and the inodes of the mirrors.
--
-- Hal is dpfs_hal/src/snap.c: the windows of devices that the polling threads work through and the
-- test that ends their loops, a poll of a device (Hal.Poll), the reading of the configuration
-- (Hal.Config) and the devices brought up and taken down (Hal.Devices). SNAP and the TOML library
-- are no part of the repository: what SNAP is asked for is a list of calls, whether it gives a
-- controller is a function of the device's id, and what the TOML library finds in the file is an
-- argument, as is whether it takes NULL for an empty array. The 64 bits of the queue depth are the
-- rounds of `land`; the depth and the ids are converted to the 32 bits of an `int` for the devices.
-- There are at most 65535 mock devices, so that an index of 16 bits gets past them.
--
-- Fuse is dpfs_fuse/dpfs_fuse.cpp, which stands between the queues and the file systems.
-- Fuse.Dispatch is fuse_handle_req with the handlers fuse_ll_*, up to the call of an operation of the
-- file system: the guards of each handler, and the error that it answers. The numbers of FUSE are an
-- argument that gives the handler of an opcode, and a vector is its length there. Fuse.Init is the
-- handshake of a session (fuse_ll_init), without the lengths in the header. Fuse.Iov is the
-- writer of bytes into several vectors (iov_init, iov_write_buf), where a vector is its bytes; the
-- fuel of its loop is one round for each vector that is left, and one more.
--
-- Fuse.Reply are the replies fuse_ll_reply_* to the operations on entries, attributes and open files,
-- and Fuse.Direntry the entries of directories, whose layout in linux/fuse.h is the record Layout.
--
-- Mirror is what dpfs_uring/mirror_impl.c and dpfs_uring/fuser.c do with inodes, and dpfs_aio,
-- which has the same functions. A heap leads from an address to an inode, and the address is the
-- number that the kernel is given. Mirror has do_lookup and forget_one, Mirror.Handlers the
-- handlers that change inodes, and Mirror.Listing the one that reads a directory, where the entries
-- that readdir returns are an argument. What a call of the operating system returns is an argument
-- of the handler. The record Client is the kernel's side: how many references to each inode it was
-- given and has not forgotten, and which descriptors it holds for open files; the descriptor of the
-- root is among those that no other inode may have. Mirror.Run is the relation between the states,
-- where a request runs to its end before the next begins, so a mutex that a handler releases is
-- left out; the mutex of the table is kept, since one path does not release it, and so is what the
-- mutex of a directory does while it is read. That forget_one reads an inode it has freed is
-- counted, and the code then goes on. Mirror.Attributes has getattr, setattr, rename and rmdir; the
-- other handlers that change no inode are left out. Mirror.Rings has the asynchronous read, write
-- and fsync of one thread of dpfs_uring, with its ring and its pool, apart from the inodes;
-- liburing is an argument, of which is used that a ring has a free entry until as many as it has
-- are queued. A descriptor that the code leaks stays open in the model.
--
-- Mpool is lib/mpool.c, the pool that a thread takes the data of its callbacks from. The ring of
-- Concurrency Kit behind it is no part of the repository: it is the record RingOps, whose laws are
-- what the documentation of that ring states.
--
-- InodeTable is the chained hash table of dpfs_nfs/inode.c over any type of entry. A chain is a
-- list; the operations of the source that hold the mutex, or that only the main thread calls, are
-- single steps. InodeTable.Refinement has what it promises, a map from keys to entries. Nfs.Inode has
-- the inodes of dpfs_nfs and its table of 8192 chains.
--
-- Nfs.Wire is the part of dpfs_nfs/nfs_v4.c that reads numbers and attribute lists. A list is its
-- bytes and, beside them, the count that the code is given, so a read past the count can be stated.
--
-- Nfs.Session has the slots of a session (vnfs4_op_sequence, vnfs4_handle_sequence). One pass over
-- the slots is modelled: when all are in use the code sleeps and scans again, which the handlers
-- report as `waits`.
--
-- Nfs.State is what a polling thread works on. Nfs.Requests are the handlers of
-- dpfs_nfs/dpfs_nfs.c that dpfs_nfs_assign_ops registers: lookup, getattr, statfs, vfsync, vread,
-- vwrite, vopen, release. Nfs.Callbacks are their callbacks. libnfs is no part of the repository: a
-- request that it accepts stands in `pending` until an answer comes, in any order, and whether it
-- accepts one, whether an allocation succeeds and what an uninitialised field holds is in the record
-- World. The numbers of the headers of libnfs and FUSE are the record Headers. Nfs.Iovec copies the
-- data of a READ; its fuel is one round for each vector and one to see the end.
--
-- Nfs.Flight puts handlers and callbacks together: Run is the relation between the states of one
-- polling thread, where a handler and a callback are one step each. A thread has its own session and
-- pool; the inode table is shared by all threads, and the steps of other threads between two steps of
-- this one are not in Run.
--
-- Nfs.Connect is dpfs_nfs/vnfs_connect.c, with the functions of dpfs_nfs/nfs_v4.c that it calls:
-- the handshakes that set up one connection for each polling thread, each a chain of requests and
-- callbacks. Nfs.Connect.Run is the relation between their states, which begins where dpfs_nfs_main
-- of dpfs_nfs/dpfs_nfs.c calls vnfs_init_connections, and Nfs.Connect.Export the path of the
-- export, with what `strtok` returns for it. A callback that waits for a slot, as on a session with
-- none, does so for ever, which is `sleeps`; `fault` is a failed assertion, a read through NULL or
-- a write past the slots of the session, whose index is the server's. Memory for the strings, the
-- slots and the copy of the path is taken to be there, as the code does.
--
-- Counters have their width of 32 or 64 bits. What does not appear: the measuring of latencies, the
-- build with VNFS_NULLDEV, the printing of errors, create and setattr, which are written but not
-- registered, init and destroy, the start of the threads of dpfs_hal and its remote layer, the
-- conversions of flags in dpfs_fuse, the opening of directories, the threads of the mirrors and the
-- asynchronous I/O of dpfs_aio, and dpfs_kv.
pub mod Prelude
pub mod Hal
pub mod Mpool
pub mod InodeTable
pub mod Nfs
pub mod Fuse
pub mod Mirror
