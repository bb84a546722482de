-- ===== src/Examples/Engines.antt =====
-- The theorems on the engine at two commands.
use order_book_matching_engi.Common.{
  ℕ, ◌≡◌, ◌==◌, ◌&&◌, ◌||◌, not, if◌then◌else◌, some, List, [], ◌∷◌, get_elem?, arith,
}
use order_book_matching_engi.Common.Int.{ℤ}
use order_book_matching_engi.Common.Words.{add64}
use order_book_matching_engi.Common.Keyed
use order_book_matching_engi.Types.{Side, OrderType, TimeInForce}
use order_book_matching_engi.Types.Messages.{Command, Event, symbol_of}
use order_book_matching_engi.Types.Messages.Command.{new_order, cancel}
use order_book_matching_engi.Engine.{
  Engine, new_engine, register_symbol, owns_symbol, find_book, process,
}
use order_book_matching_engi.Naive.{empty_book}
use order_book_matching_engi.Engine.Sequencing.{AreSequenced}
use order_book_matching_engi.Engine.Books.{IsEngine, new_engine-IsEngine, register_symbol-IsEngine}
use order_book_matching_engi.Engine.Isolation.{process_lem, run, run_lem, AreAnswered}
use order_book_matching_engi.Engine.Partitions.{
  partition_for, PartitionedEngine, engines_from, new_partitions, register_symbol_on_partition,
  dispatch,
}
use order_book_matching_engi.Engine.Routing.{
  IsPartitioned, new_partitions-IsPartitioned, dispatch_lem, register_symbol_on_partition_lem,
}

abbrev bid : Command
bid = new_order (record {
  order_id = 1;
  trader_id = 7;
  symbol_id = 3;
  side = Side.buy;
  type = OrderType.limit;
  price = ℤ.pos 100;
  quantity = 5;
  time_in_force = TimeInForce.good_till_cancel;
  timestamp = 0;
})

abbrev withdrawal : Command
withdrawal = cancel (record { order_id = 1; trader_id = 7; symbol_id = 3; timestamp = 1 })

abbrev engine : Engine
engine = register_symbol (new_engine 0) 3

engine-IsEngine : IsEngine engine
engine-IsEngine = register_symbol-IsEngine (new_engine 0) 3 (new_engine-IsEngine 0)

process_lem_example :
    (out : List Event) × (e' : Engine) × (process engine bid ≡ some (engine.next_seq, out, e'))
    × IsEngine e'
    × (e'.next_seq ≡ add64 engine.next_seq 1)
    × (Keyed.erase (symbol_of bid) e'.books ≡ Keyed.erase (symbol_of bid) engine.books)
    × AreSequenced engine.next_seq out
process_lem_example = process_lem engine bid engine-IsEngine (omega arith)

run_lem_example :
    (out : List Event) × (e' : Engine) × (run engine (bid ∷ withdrawal ∷ bid ∷ []) ≡ some (out, e'))
    × IsEngine e'
    × AreAnswered engine.next_seq (bid ∷ withdrawal ∷ bid ∷ []) out
run_lem_example =
    run_lem engine (bid ∷ withdrawal ∷ bid ∷ []) engine-IsEngine
      (omega arith, (tt, (omega arith, tt)))

register_symbol_on_partition_lem_example :
    (pe' : PartitionedEngine) × (register_symbol_on_partition (new_partitions 2) 3 0 ≡ some pe')
    × IsPartitioned pe'
    × (partition_for pe'.router 3
        ≡ (if 3 == 3 then 0 else partition_for (new_partitions 2).router 3))
    × (e : Engine) × (e' : Engine) × (get_elem? (new_partitions 2).partitions 0 ≡ some e)
    × (get_elem? pe'.partitions 0
        ≡ (if 0 == 0 then some e' else get_elem? (new_partitions 2).partitions 0))
    × (owns_symbol e' 3 ≡ (3 == 3 || owns_symbol e 3))
    × (find_book e' 3
        ≡ (if 3 == 3 && not (owns_symbol e 3) then some (empty_book 3) else find_book e 3))
unfolding new_partitions engines_from
register_symbol_on_partition_lem_example =
    register_symbol_on_partition_lem (new_partitions 2) 3 0 3 0
      (new_partitions-IsPartitioned 2 (omega arith)) (omega arith)

dispatch_lem_example :
    (seq : ℕ) × (out : List Event) × (pe' : PartitionedEngine) × (dispatch (new_partitions 2) bid
      ≡ some (seq, out, pe'))
    × IsPartitioned pe'
    × (pe'.router ≡ (new_partitions 2).router)
    × (get_elem? pe'.partitions 0 ≡ (
        if partition_for (new_partitions 2).router (symbol_of bid) == 0
        then get_elem? pe'.partitions 0
        else get_elem? (new_partitions 2).partitions 0))
dispatch_lem_example =
    dispatch_lem (new_partitions 2) bid 0 (new_partitions-IsPartitioned 2 (omega arith))
      (omega arith)
