-- ===== src/Engine/Partitions.antt =====
-- `SymbolRouter` and `PartitionedEngine`: include/matching_engine/symbol_router.hpp and
-- partitioned_engine.hpp. Out of range, `partitions_[p]` is undefined behaviour, here `none`.
use order_book_matching_engi.Common.{
  ℕ, zero, suc, ◌%◌, Option, none, some, List, [], ◌∷◌, ◌>>=◌, get_elem?, set,
}
use order_book_matching_engi.Common.Keyed
use order_book_matching_engi.Types.Messages.{Command, Event, symbol_of}
use order_book_matching_engi.Engine.{Engine, new_engine, register_symbol, process}

pub record SymbolRouter : Type 0 where
  pub partition_count : ℕ
  pub overrides : List (ℕ × ℕ)

unfoldable pub pin : SymbolRouter → ℕ → ℕ → SymbolRouter
pin r symbol partition = record r { overrides = Keyed.insert symbol partition r.overrides }

unfoldable pub partition_for : SymbolRouter → ℕ → ℕ
partition_for r symbol = elim (Keyed.find symbol r.overrides) [
  | none ↦ symbol % r.partition_count
  | some p ↦ p
]

pub record PartitionedEngine : Type 0 where
  pub router : SymbolRouter
  pub partitions : List Engine

-- The engines of the partitions `i`, `i + 1`, … , `n` of them.
unfoldable pub engines_from : ℕ → ℕ → List Engine
engines_from i zero = []
engines_from i (suc n) = new_engine i ∷ engines_from (suc i) n

unfoldable pub new_partitions : ℕ → PartitionedEngine
new_partitions n = record {
  router = record { partition_count = n; overrides = [] };
  partitions = engines_from 0 n;
}

unfoldable pub register_on : PartitionedEngine → ℕ → ℕ → Option PartitionedEngine
register_on pe symbol partition = do
  e ← get_elem? pe.partitions partition
  some (record pe { partitions = set pe.partitions partition (register_symbol e symbol) })

unfoldable pub register_symbol_routed : PartitionedEngine → ℕ → Option PartitionedEngine
register_symbol_routed pe symbol = register_on pe symbol (partition_for pe.router symbol)

unfoldable pub register_symbol_on_partition : PartitionedEngine → ℕ → ℕ → Option PartitionedEngine
register_symbol_on_partition pe symbol partition =
    register_on (record pe { router = pin pe.router symbol partition }) symbol partition

unfoldable pub dispatch : PartitionedEngine → Command → Option (ℕ × List Event × PartitionedEngine)
dispatch pe cmd = do
  let p = partition_for pe.router (symbol_of cmd)
  e ← get_elem? pe.partitions p
  (seq, out, e') ← process e cmd
  some (seq, out, record pe { partitions = set pe.partitions p e' })
