-- ===== src/Lib.antt =====
-- A model of water.rs, a library of nets of endpoints that exchange messages, and what makes it
-- correct.
--
-- A net lists its endpoints. A message has a source, a destination and one of three payloads: raw
-- bytes, or a value of some type that one receiver takes (sync) or that every receiver may copy
-- (clone). Sending offers the message to every listed endpoint, which takes it by its address and its
-- limits into a queue; receiving takes it out. Bridges carry raw messages between nets over TCP.
--
-- The files and the code they model, from the root of the repository:
--   RawMessage, RawMessage/*: src/rawmessage.rs, `Internal` and the operations on the buffer. A block
--     of memory is a list of bytes; an access outside of it has the outcome `undefined`, a panic the
--     outcome `panicked`. `mem` stands for the unknown bytes of a fresh block, and `Layout` for how
--     the compiler lays out a type.
--   Store, Store/*: `RawMessage` itself, a handle that is shared by `Arc`. A handle is the number of
--     a cell of the store, which also holds the flags of sync messages. Operations of the program are
--     functions of the store (`M`).
--   SyncMessage, CloneMessage, Message, Message/*: src/syncmessage.rs, src/clonemessage.rs and
--     src/message.rs. A generic method has the `TypeId` and the layout of its type as an argument
--     (`Typed`).
--   Queue, Queue/*: src/queue.rs. A pointer of `InfiniteLinkQueue` and its cache is the number of a
--     cell, 0 is null. Two calls on a queue do not overlap, except in Queue/RingQueue/Atomic and below:
--     there each step is one atomic access of `put` or `maybeget` of `SizedRingQueue`, between one
--     thread that sends and one that receives.
--   Endpoint, Endpoint/*: src/endpoint.rs, `Internal` as a record, each method as one step on it.
--   Endpoint/Blocking, Endpoint/Blocking/*: the receivers that wait on the condition variable, as
--     threads that interleave at the points where they let go of the mutex.
--   Net, Net/*: src/net.rs, and the methods of `Endpoint` that go through the net. Endpoints are the
--     cells of the net; runs of the users are lists of operations in any order (Net/Once).
--     `send_internal` clones the handle of every listed endpoint and drops it at its end (Net/Handles,
--     Net/Held), which an endpoint without a handle outside of the net does not survive on the list.
--     Net/Values: values of any type, sent and received in any order.
--     Net/Sleeper: the rounds of the sleeper thread.
--     Net/Poll: the functions of src/endpoint.rs on lists of endpoints, in rounds; what the clock says
--     and what other threads do between two rounds are arguments.
--   Tcp, Tcp/*: src/tcp/mod.rs, `thread_rx` and `thread_tx` on streams of bytes; Tcp/Crossing: the way
--     of a message from one net to another, through the models of all parts; Tcp/Listener,
--     Tcp/Connector and Tcp/Link: the flags and counts of src/tcp/listener.rs and
--     src/tcp/connector.rs, and the endpoint that a link adds to its net; Tcp/Listener/Loop and
--     Tcp/Connector/Loop: the loops of both threads as steps, between which another thread may call
--     `terminate`. What the iterator of incoming connections yields is a parameter.
--   Compat, Compat/*: src/compat.rs, channels. A proxy is the number of its endpoint in the net.
--   Timespec, Timespec/*: src/timespec.rs.
--   Prelude, Prelude/*: shared names, lists, outcomes and integers. Samples: test data. The Tests
--     modules run the theorems at concrete inputs.
--
-- Machine integers are natural numbers with the wrap-around written out, at 2 ^ 64 for `usize` and
-- `u64`; the signed fields of a time wrap likewise. Some loops have fuel: `claim` of the ring queue,
-- for which two rounds are enough, since a free slot is claimed by the first one; `rx_loop`, which
-- starts with one round more than the bytes of the stream, of which every round takes eight or more;
-- the loop of `try_recv`, which starts with one round more than the messages in the queue, of which
-- every round but the last takes one; and those of `InfiniteLinkQueue`, for which one round more than
-- the calls of `put` is enough, since a list has at most that many items.
--
-- Locks are taken and released within one method, so a method is one step; the blocking receivers are
-- one step from each wait to the next. The sleeper thread is modelled, although its start is commented
-- out. Not modelled: the sockets, calls that overlap on a linked queue or at the same end of a ring
-- queue, src/allocmutex.rs, which the crate does not build, and freeing of memory. src/compat.rs is
-- modelled although src/lib.rs does not name it at present.
pub mod Prelude
pub mod RawMessage
pub mod Store
pub mod SyncMessage
pub mod CloneMessage
pub mod Message
pub mod Queue
pub mod Endpoint
pub mod Net
pub mod Samples
pub mod Timespec
pub mod Tcp
pub mod Compat
