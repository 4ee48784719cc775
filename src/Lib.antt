-- ===== src/Lib.antt =====
-- A model of the crate sandbox-ipc: shared memory between processes, a lock-free queue and a mutex that
-- live in it, and the channels over which processes send messages together with files and handles.
--
-- The parts of the program, and where they are modelled:
--
--   src/shm/mod.rs, src/unix/sharedmem.rs, src/windows/sharedmem.rs: Shm. `SharedMem::map` of each
--     platform is a function of the range, the access and the system's answer (Shm/Unix, Shm/Windows);
--     Shm/Map is the interface that both fill and the queue and the mutex use. Shm/Range is
--     `RangeArgument`, with the meaning of a range as a specification. Shm/Memory is `SharedMem::new`,
--     `size` and `clone_with_access`, over `new` and `clone` of the platforms (Shm/Unix/Created,
--     Shm/Windows/Created), with the names that a memory has on Unix in Shm/Unix/Names. A memory in a
--     message is in the Transfer of each platform; Shm/Unix/Rights follows its access from process to
--     process.
--   src/shm/queue.rs: Queue. The protocol is a step relation: Queue/Agent has one constructor for each
--     atomic access of `try_push`, `try_pop` and the drops of `PushGuard` and `PopGuard`, Queue/Steps
--     interleaves any number of agents. Queue/Invariant is the invariant, Queue/Safety, Queue/Fifo and
--     Queue/Progress are read off it. Queue/Spec is a bounded queue, which Queue/Refine relates the
--     steps to; Queue/Solo has the calls as loops that run alone. Queue/Layout has the addresses,
--     `new_with_memory`, `from_handle` and `handle` (with handles in messages in its child
--     Handles); Queue/Guard has `Write` and `Read` of the guards.
--   src/sync.rs, src/unix/sync.rs: Mutex. Code over the words in shared memory, with errors and panics
--     as values (Prelude/State); `from_handle` and the drop of the reference count in Mutex/Refcount, the
--     handle in a message in Mutex/Shared. src/sync.rs stands on the mutex of Unix here.
--   src/windows/sync.rs: ThinLock. A step relation over the counter in shared memory and a semaphore;
--     ThinLock/Attach has the constructors.
--   src/ser.rs: Channel/Datagram. `BincodeDatagram` over a transport, a codec and a wrapper.
--   src/unix/mod.rs: Channel/Cmsg (control messages) and Channel/Fds (file descriptors in messages, the
--     thread-local variables and their guards, with the types that may be parts of a message in its child
--     Items).
--   src/unix/channel.rs, src/unix/fd.rs: Channel/Socket (`Write` and `Read`), which fills the transport
--     and the wrapper of Channel/Datagram, and Channel/Establish (the constructors).
--   src/windows/mod.rs: Channel/Handles (`HandleSender` and its guards; sockets and the receiver's side in
--     its child Arrival, `WsaProtoInfo` in its child Winsock). Channel/Tokens is what serde passes on.
--   src/windows/channel.rs: Channel/Pipes. The constructors of channels with the handles that they own
--     (its child Establish for child processes and process handles, its child Named for named
--     channels), what a child is told and the iterator over it (its child Child), and timeouts.
--     Channel/Owned is the bookkeeping of what is open, shared with Channel/Establish, and its child
--     Turns has rules to prove such code free of leaks, part by part.
--   src/channel.rs: Channel/Messages. `Platform` is the interface of the two platforms, filled for both
--     in its child Platforms; typed and raw channels stand on it, and on Channel/Datagram. Its child
--     Stream has `Stream` and `Sink`, its children Sent and Arrival an end of a pair
--     that is sent to another process, on Windows and on Unix.
--   src/io.rs: Source. `SendableDataSource` with files as a parameter and memory over Shm/Map;
--     Source/Transfer is its serialization, over either platform.
--
-- Words. A `usize` is a number below 2^64, and arithmetic that the source does not check wraps around,
-- as in a release build; `isize` comparisons go through two's complement (Prelude/Word). Theorems that
-- need sizes or counts not to wrap around say so.
--
-- The system. The calls of libc, winapi, pthreads, tokio and bincode are parameters: functions over a
-- state that the model does not look into. What a theorem needs of their documented behaviour is a
-- record of laws (`Semaphore`, `Sends`, `Lent`, `Receives`, `Delivers`, `Bounded`, `Streams`,
-- `Seqpacket`, `Duplicates`, `Opening`, `Usable`), and the modules named Tests fill each with a concrete
-- function.
--
-- Bounds. Agents are numbered below a bound; the queue's theorems ask that its slots and agents together
-- are at most `isize::MAX` and that no agent has met the wrap-around, which the source does not
-- implement (it stops there by `unimplemented!()`). A compare-exchange may always fail, so the loops of
-- the source are steps that may repeat, and no fuel is needed. Queue/Solo runs a call with fuel, of which
-- two accesses after the first are enough; Source and the iterator of Channel/Pipes say in their
-- theorems what fuel is enough.
--
-- Not modelled: the one-line forwards of `Read`, `Write` and `ProcessHandle` in src/channel.rs and
-- src/io.rs, which have nothing of their own to state, and of `AsRawFd`, `AsRawHandle` and `Evented`;
-- the conversions between the wrappers of src/io.rs; the drawing of uuids and of the paths that are made
-- from them; formatting for debugging; and the tests and benchmarks.
pub mod Prelude
pub mod Queue
pub mod Shm
pub mod Source
pub mod Mutex
pub mod ThinLock
pub mod Channel
