-- ===== src/Snapshot/Files.antt =====
-- `WriteSnapshot` and `LoadSnapshot` of src/persistence/snapshot.cpp, on the bytes of the file.
-- The books of a partition are written in the order of its association list, and a result `none` of
-- the reader is any of the errors that `LoadSnapshot` throws.
use order_book_matching_engi.Common.{
  ℕ, zero, suc, ◌+◌, ◌%◌, ◌^◌, ◌==◌, if◌then◌else◌, none, some, List, [], ◌∷◌, ◌++◌, length,
  get_elem?, set,
}
use order_book_matching_engi.Types.{Order}
use order_book_matching_engi.Wire.{
  Bytes, Reader, ◌>>=◌, return, fail, write_u8, write_u32, write_u64, read_u8, read_u32, read_u64,
}
use order_book_matching_engi.Naive.{OrderBook, all_resting_orders}
use order_book_matching_engi.Engine.{Engine, restore_engine_order, set_next_sequence_number}
use order_book_matching_engi.Engine.Partitions.{
  PartitionedEngine, new_partitions, register_symbol_on_partition,
}
use order_book_matching_engi.Snapshot.{write_order, read_order}

abbrev pub magic : Bytes
magic = 77 ∷ 69 ∷ 83 ∷ 78 ∷ []

abbrev pub version : ℕ
version = 1

unfoldable pub write_orders : List Order → Bytes
write_orders [] = []
write_orders (o ∷ os) = write_order o ++ write_orders os

unfoldable pub write_books : List (ℕ × OrderBook) → Bytes
write_books [] = []
write_books ((symbol, b) ∷ bs) =
    write_u32 symbol
    ++ (write_u32 (length (all_resting_orders b) % 2 ^ 32)
        ++ (write_orders (all_resting_orders b) ++ write_books bs))

unfoldable pub write_partitions : List Engine → Bytes
write_partitions [] = []
write_partitions (e ∷ es) =
    write_u64 e.next_seq
    ++ (write_u32 (length e.books % 2 ^ 32) ++ (write_books e.books ++ write_partitions es))

unfoldable pub write_snapshot : PartitionedEngine → Bytes
write_snapshot pe =
    magic
    ++ (write_u8 version
        ++ (write_u32 (length pe.partitions % 2 ^ 32) ++ write_partitions pe.partitions))

-- A change of the partition `p`, which the loops keep in range.
unfoldable pub at_partition : PartitionedEngine → ℕ → (Engine → Engine) → PartitionedEngine
at_partition pe p f = elim (get_elem? pe.partitions p) [
  | none ↦ pe
  | some e ↦ record pe { partitions = set pe.partitions p (f e) }
]

unfoldable pub load_orders : ℕ → ℕ → ℕ → PartitionedEngine → Reader PartitionedEngine
load_orders zero p symbol pe = return pe
load_orders (suc count) p symbol pe = do
  o ← read_order
  load_orders count p symbol (at_partition pe p (λ e. restore_engine_order e symbol o))

unfoldable pub load_books : ℕ → ℕ → PartitionedEngine → Reader PartitionedEngine
load_books zero p pe = return pe
load_books (suc count) p pe = do
  symbol ← read_u32
  order_count ← read_u32
  pe' ← elim (register_symbol_on_partition pe symbol p) [ none ↦ fail | some pe' ↦ return pe' ]
  pe'' ← load_orders order_count p symbol pe'
  load_books count p pe''

unfoldable pub load_partitions : ℕ → ℕ → PartitionedEngine → Reader PartitionedEngine
load_partitions zero p pe = return pe
load_partitions (suc count) p pe = do
  next_seq ← read_u64
  symbol_count ← read_u32
  pe' ← load_books symbol_count p pe
  load_partitions count (p + 1) (at_partition pe' p (λ e. set_next_sequence_number e next_seq))

unfoldable pub read_magic : Bytes → Reader (Unit {0})
read_magic [] = return tt
read_magic (expected ∷ more) = do got ← read_u8; if got == expected then read_magic more else fail

unfoldable pub load_snapshot : Reader PartitionedEngine
load_snapshot = do
  _ ← read_magic magic
  v ← read_u8
  if v == version
      then (do
        partition_count ← read_u32
        load_partitions partition_count 0 (new_partitions partition_count))
      else fail
