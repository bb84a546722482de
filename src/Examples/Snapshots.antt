-- ===== src/Examples/Snapshots.antt =====
-- A snapshot of an engine with one order, loaded again.
use order_book_matching_engi.Common.{◌≡◌, refl, Option, some, List, [], ◌∷◌, ◌>>=◌, get_elem?}
use order_book_matching_engi.Common.Keyed
use order_book_matching_engi.Types.{Order}
use order_book_matching_engi.Levels
use order_book_matching_engi.Wire
use order_book_matching_engi.Naive.{all_resting_orders, empty_book}
use order_book_matching_engi.Naive.Operations.{insert_resting, restore_order}
use order_book_matching_engi.Engine.{
  Engine, find_book, new_engine, register_symbol, restore_engine_order, set_next_sequence_number,
}
use order_book_matching_engi.Engine.Partitions.{
  PartitionedEngine, engines_from, new_partitions, register_on, pin, register_symbol_on_partition,
}
use order_book_matching_engi.Wire.{
  Bytes, push_bytes, write_u8, write_u32, write_u64, write_i64, or_bytes, read_u8, read_u32,
  read_u64, read_i64, return,
}
use order_book_matching_engi.Wire.Enums.{
  side_byte, side_of_byte, type_byte, type_of_byte, time_in_force_byte, time_in_force_of_byte,
  status_byte, status_of_byte,
}
use order_book_matching_engi.Snapshot.{write_order, read_order}
use order_book_matching_engi.Snapshot.Files.{
  write_snapshot, load_snapshot, write_partitions, write_books, write_orders, at_partition,
  load_orders, load_books, load_partitions, read_magic,
}
use order_book_matching_engi.Examples.Codec.{resting}

abbrev one_order : Engine
one_order = restore_engine_order (register_symbol (new_engine 0) 1) 1 resting

abbrev partitions : PartitionedEngine
partitions = record {
  router = record { partition_count = 1; overrides = [] };
  partitions = one_order ∷ [];
}

-- The resting orders of the symbol 1, wherever it is.
abbrev resting_after : Option (PartitionedEngine × Bytes) → Option (List Order)
resting_after loaded = do
  (pe, rest) ← loaded
  e ← get_elem? pe.partitions 0
  b ← Keyed.find 1 e.books
  some (all_resting_orders b)

load_snapshot_resting :
    resting_after (load_snapshot (write_snapshot partitions)) ≡ some (resting ∷ [])
unfolding Keyed.find Keyed.insert Levels.upsert all_resting_orders empty_book insert_resting
    restore_order find_book new_engine register_symbol restore_engine_order set_next_sequence_number
    engines_from new_partitions register_on pin register_symbol_on_partition push_bytes write_u8
    write_u32 write_u64 write_i64 or_bytes read_u8 read_u32 read_u64 read_i64 return Wire.◌>>=◌
    side_byte side_of_byte type_byte type_of_byte time_in_force_byte time_in_force_of_byte
    status_byte status_of_byte write_order read_order write_snapshot load_snapshot write_partitions
    write_books write_orders at_partition load_orders load_books load_partitions read_magic
load_snapshot_resting = refl
