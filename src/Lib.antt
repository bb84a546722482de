-- ===== src/Lib.antt =====
-- A limit order book with a matching engine, its wire protocol and its journal.
--
-- A gateway cuts the bytes of a connection into frames (include/matching_engine/net/frame_decoder.hpp),
-- decodes each into a command (src/net/protocol.cpp over include/matching_engine/net/binary_codec.hpp)
-- and hands it to the engine of the partition that owns the command's symbol
-- (include/matching_engine/partitioned_engine.hpp, symbol_router.hpp, src/matching_engine.cpp). The
-- engine gives the command a sequence number, runs it on the symbol's order book
-- (src/naive/order_book.cpp) and reports events. A second book with the same operations
-- (src/fast/order_book.cpp) keeps its orders in a pool of slots. A journal (src/persistence/journal.cpp) keeps the
-- commands in the same frames, to be replayed after a crash.
--
-- The files:
--   Common           lists, signed integers, machine words and keyed maps over the native numbers
--   Types            include/matching_engine/types.hpp, order.hpp, trade.hpp, command.hpp, events.hpp
--   Levels           a `std::map` of price levels as a list in the map's order, and its laws
--   Naive            the reference book: OrderBook and its queries. Naive.Matching is `Match` and
--                    `AvailableCrossingQuantity`, Naive.Operations `AddOrder` with `InsertResting` and
--                    `RemoveFromBook`, Naive.Amend `CancelOrder` and `ModifyOrder`. Naive.Sides and
--                    Naive.Books say when a book is well formed, Naive.Index and Naive.Indexed when
--                    its index is right; Naive.Placing and Naive.Leaving how an order comes into a
--                    queue and leaves it; Naive.Accepting, Naive.Adding, Naive.Amending, Naive.Resizing,
--                    Naive.Cancelling, Naive.Replacing and Naive.Keeping what the operations do
--   Pool             `ObjectPool` of include/matching_engine/object_pool.hpp; Pool.FreeList its free list
--   Fast             the pooled book of src/fast/order_book.cpp and
--                    include/matching_engine/fast/order_book.hpp. Fast.Links is `PushBack` and `Unlink`,
--                    Fast.Filling `Match` and `AvailableCrossingQuantity`, Fast.Book the operations.
--                    Fast.Cells, Fast.Queues and Fast.Image say what the slots hold for a queue, a side
--                    and a book of Naive. The proofs: Fast.Relinking, Fast.Unlinking, Fast.Removing and
--                    Fast.Pushing on one node; Fast.Rounds, Fast.Inner and Fast.Outer on the loops of
--                    `Match`; Fast.Pushed, Fast.Placing, Fast.Resting, Fast.Agreeing, Fast.Trading,
--                    Fast.Adding, Fast.Spending and Fast.Entering on `AddOrder`; Fast.Shrinking,
--                    Fast.Leaving, Fast.Finding and Fast.Cancelling on `CancelOrder`; Fast.Resized,
--                    Fast.Amending, Fast.Modifying and Fast.Replacing on `ModifyOrder`; Fast.Runs on
--                    sequences of calls, Fast.Queries on the queries
--   Engine           `MatchingEngine`; Engine.Events the events of an accepted command, and
--                    Engine.Partitions `SymbolRouter` and `PartitionedEngine`; Engine.Sequencing,
--                    Engine.Answers, Engine.Books, Engine.Isolation and Engine.Routing what they do
--   Wire             `BufferWriter` and `BufferReader`; Wire.Commands and Wire.Events the messages
--   Frames           `FrameDecoder` and `FrameMessage`; Frames.Stream is the specification, frames cut
--                    off a plain stream of bytes
--   Journal          `JournalWriter::Append` and `ReadJournal`
--   Snapshot         the order records of src/persistence/snapshot.cpp; Snapshot.Files is
--                    `WriteSnapshot` and `LoadSnapshot` on the bytes of the file
--   Examples         the theorems at concrete inputs
--
-- How the code is read. A function that changes an object takes it and returns it changed. Quantities
-- are numbers below 2 ^ 64 with the wrap-around of `uint64_t` written out where the code adds or
-- subtracts (`add64`, `sub64`), except where a test just before excludes it. An `enum class` may hold
-- a byte that no enumerator names, since the decoders cast any byte: the constructor `other`. The nodes
-- of a `std::list` have addresses that are never given out twice, and an iterator is such an address,
-- looked up in its level: an operation that would use a dangling iterator has the result `none`.
-- An `unordered_map` is an association list. The two sides of the book, which the code treats in two
-- branches of the same text, are one function with a Boolean.
--
-- A pointer of the pooled book is the index of a slot, and a slot is free, with its link, or live, with
-- its node: reading one as the other, which is undefined behaviour, has the result `none`. Each book
-- of Naive whose addresses are slots has a pooled book, its image, and the operations are compared there.
--
-- The loops over a book are recursion on its lists. The inner loop of the pooled `Match` follows
-- pointers and takes fuel: one round for each node that the level counts and one for its end. The loops over a decoder (`drain`, `read_loop`)
-- take fuel: one round more than there are bytes, which is enough since a frame takes four bytes.
-- The system's `write` is the list of what its calls return.
--
-- Not modelled: the threads, sockets and queues of the gateway, the market data publisher, the programs of apps and benchmarks,
-- the opening of files, and the conversions of enums to text.
pub mod Common
pub mod Types
pub mod Levels
pub mod Pool
pub mod Naive
pub mod Fast
pub mod Engine
pub mod Wire
pub mod Frames
pub mod Journal
pub mod Snapshot
mod Examples
