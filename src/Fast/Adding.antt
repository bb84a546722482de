-- ===== src/Fast/Adding.antt =====
-- `AddOrder` of the pooled book does what that of the reference book does, unless the pool is empty
-- when an order has to rest.
use order_book_matching_engi.Common.{
  ℕ, ◌-◌, ◌≡◌, refl, ap, ◌∙◌, true, false, Option, none, some, List, [], ◌∷◌, arith,
}
use order_book_matching_engi.Types.{Order, Trade}
use order_book_matching_engi.Levels.Laws.{IsSorted}
use order_book_matching_engi.Pool.FreeList.{first}
use order_book_matching_engi.Naive
use order_book_matching_engi.Naive.{AddResult}
use order_book_matching_engi.Naive.Matching
use order_book_matching_engi.Naive.Matching.{Incoming}
use order_book_matching_engi.Naive.Indexed.{Agrees}
use order_book_matching_engi.Naive.Operations
use order_book_matching_engi.Naive.Operations.{matched_book}
use order_book_matching_engi.Fast
use order_book_matching_engi.Fast.{NodePool}
use order_book_matching_engi.Fast.Book
use order_book_matching_engi.Fast.Image.{book_of, IsHeld}
use order_book_matching_engi.Fast.Agreeing.{placed-Agrees}
use order_book_matching_engi.Fast.Placing.{free_not_in}
use order_book_matching_engi.Fast.Resting.{insert_resting-IsHeld, insert_resting_null}
use order_book_matching_engi.Fast.Trading.{is_full, matched_book_at, matched_symbol}

-- The result and the book of an operation of the reference book, and those of the pooled book.
pub record Simulates {R : Type 0} (r : R × Naive.OrderBook) (f : Option (R × Fast.OrderBook))
    (slots : ℕ) : Type 0 where
  pub pool : NodePool
  pub frees : List ℕ
  pub same : f ≡ some (r.0, book_of r.1 pool)
  pub held : IsHeld r.1.bids r.1.asks pool frees
  pub capacity : pool.capacity ≡ slots
  pub agrees : Agrees r.1

-- The pooled book after an order came to rest, or did not.
module _ (b : Fast.OrderBook) (a : Incoming) (remaining : ℕ) (trades : List Trade) where
  rest_found :
      (o : Order) (slot : Option ℕ) (b' : Fast.OrderBook)
      → Book.resting_order b a remaining ≡ o
      → Book.can_rest a remaining ≡ true
      → Book.insert_resting b o ≡ some (slot, b')
      → Book.rest_order b a remaining trades
        ≡ some (Book.rested_result slot o (a.quantity - remaining) trades, b')
  unfolding Book.rest_order
  rest_found o slot b' t e run =
      let run' : Book.insert_resting b (Book.resting_order b a remaining) ≡ some (slot, b') =
        ap (Book.insert_resting b) t ∙ run in
      rw (e, Book.rest_order) (rw run' refl)
      ∙ ap (λ x. some (Book.rested_result slot x (a.quantity - remaining) trades, b')) t

  rest_none :
      Book.can_rest a remaining ≡ false
      → Book.rest_order b a remaining trades
        ≡ some (Book.unrested_result a (a.quantity - remaining) trades, b)
  unfolding Book.rest_order
  rest_none e = rw (e, Book.rest_order) refl

-- The reference book after an order came to rest, or did not.
module _ (b : Naive.OrderBook) (it : ℕ) (a : Incoming) where
  abbrev pub left_after : ℕ
  left_after =
      (Matching.match_levels b.symbol_id a (Operations.against b a.side) a.quantity
        b.index).remaining

  abbrev pub trades_after : List Trade
  trades_after =
      (Matching.match_levels b.symbol_id a (Operations.against b a.side) a.quantity b.index).trades

  rested_at :
      Operations.can_rest a left_after ≡ true
      → Operations.accept_order (record b { next_node = it }) a ≡ (
        Book.rested_result
            (some it)
            (Operations.resting_order b a left_after)
            (a.quantity - left_after)
            trades_after,
        Operations.insert_resting
            (record (matched_book b a) { next_node = it })
            (Operations.resting_order b a left_after),
      )
  unfolding Operations.accept_order Book.rested_result
  rested_at e = rw e (rw (matched_book_at b it a) refl)

  unrested_at :
      Operations.can_rest a left_after ≡ false
      → Operations.accept_order (record b { next_node = it }) a ≡ (
        Book.unrested_result a (a.quantity - left_after) trades_after,
        record (matched_book b a) { next_node = it },
      )
  unfolding Operations.accept_order
  unrested_at e = rw e (rw (matched_book_at b it a) refl)

module _ (b : Naive.OrderBook) (a : Incoming)
    (sorted : IsSorted true (matched_book b a).bids × IsSorted false (matched_book b a).asks)
    (k : Agrees (matched_book b a)) where
  abbrev pub rested : Order
  rested = Operations.resting_order b a (left_after b 0 a)

  symbol_same :
      (pool : NodePool)
      → Book.resting_order (book_of (matched_book b a) pool) a (left_after b 0 a) ≡ rested
  symbol_same pool = ap (λ x. record rested { symbol_id = x }) (matched_symbol b a)

  -- `AddOrder` behind its checks, at the slot `it` if it rests the order.
  abbrev pub Accepts : NodePool → ℕ → Type 0
  Accepts pool capacity =
      (it : ℕ) × Simulates (Operations.accept_order (record b { next_node = it }) a)
        (Book.accept_order (book_of b pool) a) capacity

  pub accept_resting :
      (pool pool1 : NodePool) (ps1 : List ℕ) (capacity : ℕ)
      → Book.accept_order (book_of b pool) a
        ≡ Book.rest_order
            (book_of (matched_book b a) pool1)
            a
            (left_after b 0 a)
            (trades_after b 0 a)
      → IsHeld (matched_book b a).bids (matched_book b a).asks pool1 ps1
      → pool1.capacity ≡ capacity
      → Operations.can_rest a (left_after b 0 a) ≡ true
      → is_full b a capacity ≡ false
      → Accepts pool capacity
  accept_resting pool pool1 [] capacity run held kept e f =
      absurd (ground (arith, held.is_pool.counted, held.counted))
  accept_resting pool pool1 (it ∷ ps1) capacity run held kept e f =
      let (pool2, placed, held2, kept2) =
        insert_resting-IsHeld (matched_book b a) pool1 it ps1 rested held sorted in
      (
        it,
        rw (rested_at b it a e) (record {
          pool = pool2;
          frees = ps1;
          same =
              run
              ∙ rest_found (book_of (matched_book b a) pool1) a (left_after b 0 a)
                  (trades_after b 0 a) rested (some it) _ (symbol_same pool1) e placed;
          held = held2;
          capacity = kept2 ∙ kept;
          agrees =
              placed-Agrees (matched_book b a) it rested sorted.0 sorted.1 k
                (free_not_in pool1.slots it (matched_book b a).bids (first ps1) held.bids_held
                  held.is_pool.links.0)
                (free_not_in pool1.slots it (matched_book b a).asks (first ps1) held.asks_held
                  held.is_pool.links.0);
        }),
      )

  pub accept_unrested :
      (pool pool1 : NodePool) (ps1 : List ℕ) (capacity : ℕ)
      → Book.accept_order (book_of b pool) a
        ≡ Book.rest_order
            (book_of (matched_book b a) pool1)
            a
            (left_after b 0 a)
            (trades_after b 0 a)
      → IsHeld (matched_book b a).bids (matched_book b a).asks pool1 ps1
      → pool1.capacity ≡ capacity
      → Operations.can_rest a (left_after b 0 a) ≡ false
      → Accepts pool capacity
  accept_unrested pool pool1 ps1 capacity run held kept e = (
    0,
    rw (unrested_at b 0 a e) (record {
      pool = pool1;
      frees = ps1;
      same =
          run
          ∙ rest_none (book_of (matched_book b a) pool1) a (left_after b 0 a) (trades_after b 0 a)
              e;
      held = held;
      capacity = kept;
      agrees = k;
    }),
  )

  pub accept_full :
      (pool pool1 : NodePool) (ps1 : List ℕ) (capacity : ℕ)
      → Book.accept_order (book_of b pool) a
        ≡ Book.rest_order
            (book_of (matched_book b a) pool1)
            a
            (left_after b 0 a)
            (trades_after b 0 a)
      → IsHeld (matched_book b a).bids (matched_book b a).asks pool1 ps1
      → pool1.capacity ≡ capacity
      → is_full b a capacity ≡ true
      → Simulates
          (
            Book.rested_result none rested (a.quantity - left_after b 0 a) (trades_after b 0 a),
            matched_book b a,
          )
          (Book.accept_order (book_of b pool) a)
          capacity
  accept_full pool pool1 (it ∷ ps1) capacity run held kept f =
      absurd (ground (arith, held.is_pool.counted, held.counted))
  accept_full pool pool1 [] capacity run held kept f = record {
    pool = pool1;
    frees = [];
    same =
        run
        ∙ rest_found (book_of (matched_book b a) pool1) a (left_after b 0 a) (trades_after b 0 a)
            rested none _ (symbol_same pool1) (ground arith)
            (insert_resting_null (matched_book b a) pool1 rested held.is_pool);
    held = held;
    capacity = kept;
    agrees = k;
  }
