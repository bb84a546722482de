-- ===== src/Examples/Pools.antt =====
-- The theorems on the object pool and the pooled book, at a book of two asks in one queue.
use order_book_matching_engi.Common.{
  ℕ, ◌≡◌, refl, ◌==◌, false, if◌then◌else◌, none, some, List, [], ◌∷◌, arith,
}
use order_book_matching_engi.Common.Int.{ℤ}
use order_book_matching_engi.Common.Keyed
use order_book_matching_engi.Types
use order_book_matching_engi.Types.{Side, TimeInForce, OrderId, Order}
use order_book_matching_engi.Levels
use order_book_matching_engi.Pool.{Slot, free, ObjectPool, new_pool, acquire, release, load}
use order_book_matching_engi.Pool.FreeList.{IsPool, new_pool-IsPool, release-acquire}
use order_book_matching_engi.Naive
use order_book_matching_engi.Naive.{CancelResult, find_node}
use order_book_matching_engi.Naive.Matching
use order_book_matching_engi.Naive.Books.{IsBook, empty_book-IsBook, add_order-IsBook}
use order_book_matching_engi.Naive.Indexed.{IsIndexed, empty_book-IsIndexed, add_order-IsIndexed}
use order_book_matching_engi.Naive.Operations
use order_book_matching_engi.Naive.Operations.{matched_book, erase_node}
use order_book_matching_engi.Naive.Amend
use order_book_matching_engi.Fast
use order_book_matching_engi.Fast.{NodePool}
use order_book_matching_engi.Fast.Links.{unlink, push_back}
use order_book_matching_engi.Fast.Filling
use order_book_matching_engi.Fast.Book
use order_book_matching_engi.Fast.Cells.{Slots, Queue, node, Cells, level_of}
use order_book_matching_engi.Fast.Rounds.{links, level}
use order_book_matching_engi.Fast.Unlinking.{IsUnlinked, unlink-IsUnlinked}
use order_book_matching_engi.Fast.Pushing.{pushed, IsPushed, push_back-IsPushed}
use order_book_matching_engi.Fast.Queues.{levels_of}
use order_book_matching_engi.Fast.Outer.{IsTraded, traded, match_levels-IsTraded}
use order_book_matching_engi.Fast.Image.{book_of, IsHeld}
use order_book_matching_engi.Fast.Queries.{queries_agree}
use order_book_matching_engi.Fast.Adding.{Simulates}
use order_book_matching_engi.Fast.Entering.{add_order-Simulates, add_order_without_slot}
use order_book_matching_engi.Fast.Cancelling.{cancel_order-Simulates}
use order_book_matching_engi.Fast.Modifying.{Modifies}
use order_book_matching_engi.Fast.Replacing.{modify_order-Simulates}
use order_book_matching_engi.Fast.Runs.{
  IsPooled, Call, add, cancel, modify, calls, calls-IsPooled, empty_book-IsPooled,
}
use order_book_matching_engi.Examples.Books.{sell_at, buy_at}

release-acquire_example :
    (pool1 : ObjectPool ℕ) × (pool2 : ObjectPool ℕ) × (acquire (new_pool 3) 7
      ≡ some (some 0, pool1))
    × (load pool1 0 ≡ some 7)
    × (release pool1 0 ≡ some pool2)
    × IsPool pool2 (0 ∷ 1 ∷ 2 ∷ [])
    × (pool2.in_use ≡ (new_pool {T = ℕ} 3).in_use)
    × ((q : ℕ) → (0 == q) ≡ false → pool2.slots q ≡ (new_pool 3).slots q)
release-acquire_example = release-acquire (new_pool 3) 0 (1 ∷ 2 ∷ []) 7 (new_pool-IsPool 3)

-- Two asks at 100 in a row, at the addresses 0 and 1.
abbrev one_ask : Naive.OrderBook
one_ask = (Operations.add_order (Naive.empty_book 1) (sell_at 1 100 5)).1

abbrev queued_asks : Naive.OrderBook
queued_asks = (Operations.add_order one_ask (sell_at 2 100 3)).1

queued_asks-IsBook : IsBook queued_asks
queued_asks-IsBook =
    add_order-IsBook one_ask (sell_at 2 100 3)
      (add_order-IsBook (Naive.empty_book 1) (sell_at 1 100 5) (empty_book-IsBook 1) (omega arith))
      (omega arith)

queued_asks-IsIndexed : IsIndexed queued_asks
queued_asks-IsIndexed =
    add_order-IsIndexed one_ask (sell_at 2 100 3)
      (add_order-IsBook (Naive.empty_book 1) (sell_at 1 100 5) (empty_book-IsBook 1) (omega arith))
      (add_order-IsIndexed (Naive.empty_book 1) (sell_at 1 100 5) (empty_book-IsBook 1)
        (empty_book-IsIndexed 1))

abbrev first_ask : Order
first_ask = Operations.resting_order (Naive.empty_book 1) (sell_at 1 100 5) 5

abbrev second_ask : Order
second_ask = Operations.resting_order (Naive.empty_book 1) (sell_at 2 100 3) 3

-- The slots of the two asks, and behind them those of a free list.
abbrev slots_with : Slot Fast.Node → Slots
slots_with rest q =
    if q == 0
    then node first_ask none (some 1)
    else if q == 1
    then node second_ask (some 0) none
    else rest

abbrev full_pool : NodePool
full_pool = record { capacity = 2; slots = slots_with (free none); free_head = none; in_use = 2 }

abbrev roomy_pool : NodePool
roomy_pool = record { capacity = 3; slots = slots_with (free none); free_head = some 2; in_use = 2 }

full_pool-IsHeld : IsHeld queued_asks.bids queued_asks.asks full_pool []
unfolding Operations.add_order Operations.accept_order Operations.reject_of matched_book
    Operations.insert_resting Naive.has_order Matching.available_from Matching.price_crosses
    Matching.match_orders Matching.match_levels Naive.empty_book Keyed.find Keyed.insert Levels.find
    Levels.upsert
full_pool-IsHeld = record {
  is_pool = record { head = refl; links = tt; counted = refl };
  bids_held = tt;
  asks_held = ((refl, refl, (refl, refl, tt)), (λ q i. refl), tt);
  apart = λ q i. absurd cc;
  counted = refl;
}

roomy_pool-IsHeld : IsHeld queued_asks.bids queued_asks.asks roomy_pool (2 ∷ [])
unfolding Operations.add_order Operations.accept_order Operations.reject_of matched_book
    Operations.insert_resting Naive.has_order Matching.available_from Matching.price_crosses
    Matching.match_orders Matching.match_levels Naive.empty_book Keyed.find Keyed.insert Levels.find
    Levels.upsert
roomy_pool-IsHeld = record {
  is_pool = record { head = refl; links = (refl, refl, tt); counted = refl };
  bids_held = tt;
  asks_held = ((refl, refl, (refl, refl, tt)), (λ q i. refl), tt);
  apart = λ q i. absurd cc;
  counted = refl;
}

-- A buyer of one order and a part of the next trades in the full pool.
add_order-Simulates_example :
    (it : ℕ) × Simulates
      (Operations.add_order
        (record queued_asks { next_node = it })
        (buy_at TimeInForce.good_till_cancel 100 6))
      (Book.add_order (book_of queued_asks full_pool) (buy_at TimeInForce.good_till_cancel 100 6))
      2
unfolding Operations.add_order Operations.accept_order Operations.reject_of matched_book
    Operations.insert_resting Naive.has_order Matching.available_from Matching.price_crosses
    Matching.match_orders Matching.match_levels Naive.empty_book Keyed.find Keyed.insert Levels.find
    Levels.upsert
add_order-Simulates_example =
    add_order-Simulates queued_asks (buy_at TimeInForce.good_till_cancel 100 6) full_pool []
      queued_asks-IsBook full_pool-IsHeld queued_asks-IsIndexed.agrees refl

-- A third ask has no slot there.
add_order_without_slot_example :
    Simulates
      (Operations.rejected_add Types.RejectReason.pool_exhausted, queued_asks)
      (Book.add_order (book_of queued_asks full_pool) (sell_at 3 101 4))
      2
unfolding Operations.add_order Operations.accept_order Operations.reject_of matched_book
    Operations.insert_resting Naive.has_order Matching.available_from Matching.price_crosses
    Matching.match_orders Matching.match_levels Naive.empty_book Keyed.find Keyed.insert Levels.find
    Levels.upsert
add_order_without_slot_example =
    add_order_without_slot queued_asks (sell_at 3 101 4) full_pool [] queued_asks-IsBook
      full_pool-IsHeld queued_asks-IsIndexed.agrees refl

cancel_order-Simulates_example :
    (r : CancelResult × Naive.OrderBook) × (Amend.cancel_order queued_asks 1 ≡ some r)
    × Simulates r (Book.cancel_order (book_of queued_asks full_pool) 1) 2
    × IsBook r.1
cancel_order-Simulates_example =
    cancel_order-Simulates queued_asks full_pool 1 [] queued_asks-IsBook full_pool-IsHeld
      queued_asks-IsIndexed.agrees

modify_order-Simulates_example : Modifies queued_asks full_pool 1 (ℤ.pos 102) 9 4 0
modify_order-Simulates_example =
    modify_order-Simulates queued_asks full_pool [] 1 (ℤ.pos 102) 9 4 0 queued_asks-IsBook
      full_pool-IsHeld queued_asks-IsIndexed.agrees

abbrev three_calls : List Call
three_calls = add (sell_at 1 100 5) ∷ modify 1 (ℤ.pos 101) 6 2 0 ∷ cancel 1 ∷ []

calls-IsPooled_example :
    (f' : Fast.OrderBook) × (calls (Fast.empty_book 1 1) three_calls ≡ some f')
    × (f'.pool.capacity ≡ (Fast.empty_book 1 1).pool.capacity)
    × IsPooled f'
calls-IsPooled_example =
    calls-IsPooled (Fast.empty_book 1 1) three_calls (empty_book-IsPooled 1 1)
      (omega arith, (omega arith, (tt, tt)))

match_levels-IsTraded_example :
    let a = buy_at TimeInForce.good_till_cancel 100 6 in
    let m = Matching.match_levels 1 a queued_asks.asks 6 queued_asks.index in
    (pool' : NodePool) × (ps' : List ℕ) × (Filling.match_levels 1 a
        (levels_of queued_asks.asks)
        6
        (links queued_asks.index)
        full_pool
      ≡ some (traded 1 a m pool'))
    × IsTraded full_pool queued_asks.asks m.levels pool' ps'
unfolding Operations.add_order Operations.accept_order Operations.reject_of matched_book
    Operations.insert_resting Naive.has_order Matching.available_from Matching.price_crosses
    Matching.match_orders Matching.match_levels Naive.empty_book Keyed.find Keyed.insert Levels.find
    Levels.upsert
match_levels-IsTraded_example =
    match_levels-IsTraded 1 (buy_at TimeInForce.good_till_cancel 100 6) queued_asks.asks 6
      queued_asks.index full_pool [] full_pool-IsHeld.asks_held full_pool-IsHeld.is_pool
      (omega arith)

abbrev two_nodes : Queue
two_nodes = record { it = 0; order = first_ask } ∷ record { it = 1; order = second_ask } ∷ []

unlink-IsUnlinked_example :
    (pool' : NodePool) × (unlink full_pool (level_of (level (ℤ.pos 100) 8 two_nodes)) 0
      ≡ some (pool', level_of (level (ℤ.pos 100) 8 (erase_node 0 two_nodes))))
    × IsUnlinked full_pool 0 first_ask none (some 1) pool'
    × Cells pool'.slots none (erase_node 0 two_nodes)
unfolding find_node
unlink-IsUnlinked_example =
    unlink-IsUnlinked full_pool (level (ℤ.pos 100) 8 two_nodes) 0 first_ask
      (refl, refl, (refl, refl, tt)) refl

-- The two asks and a loose node of a third.
abbrev third_pool : NodePool
third_pool = record full_pool {
  capacity = 3;
  slots = slots_with (node first_ask none none);
  in_use = 3;
}

push_back-IsPushed_example :
    (pool' : NodePool) × (push_back third_pool (level_of (level (ℤ.pos 100) 8 two_nodes)) 2
      ≡ some (
        pool',
        level_of (level (ℤ.pos 100) 8 (pushed two_nodes (record { it = 2; order = first_ask }))),
      ))
    × IsPushed third_pool two_nodes (record { it = 2; order = first_ask }) pool'
push_back-IsPushed_example =
    push_back-IsPushed third_pool (ℤ.pos 100) 8 two_nodes (record { it = 2; order = first_ask })
      (refl, refl, (refl, refl, tt)) refl refl

queries_agree_example :
    (Fast.quantity_at (book_of queued_asks full_pool) Side.sell (ℤ.pos 100)
      ≡ Naive.quantity_at queued_asks Side.sell (ℤ.pos 100))
    × (Fast.order_count_at (book_of queued_asks full_pool) Side.sell (ℤ.pos 100)
        ≡ Naive.order_count_at queued_asks Side.sell (ℤ.pos 100))
    × (Fast.best_bid (book_of queued_asks full_pool) ≡ Naive.best_bid queued_asks)
    × (Fast.best_ask (book_of queued_asks full_pool) ≡ Naive.best_ask queued_asks)
    × (Fast.has_order (book_of queued_asks full_pool) 2 ≡ Naive.has_order queued_asks 2)
    × (Fast.total_order_count (book_of queued_asks full_pool) ≡ Naive.total_order_count queued_asks)
queries_agree_example = queries_agree queued_asks full_pool Side.sell (ℤ.pos 100) 2
