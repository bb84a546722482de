-- ===== src/Fast/Queries.antt =====
-- The queries of the pooled book give what those of the reference book give.
use order_book_matching_engi.Common.{suc, ◌≡◌, refl, ap, [], ◌∷◌, length, arith}
use order_book_matching_engi.Types
use order_book_matching_engi.Types.{Price, OrderId, is_buy}
use order_book_matching_engi.Naive
use order_book_matching_engi.Naive.{Index}
use order_book_matching_engi.Fast
use order_book_matching_engi.Fast.{NodePool}
use order_book_matching_engi.Fast.Rounds.{links}
use order_book_matching_engi.Fast.Queues.{BookSide, levels_of}
use order_book_matching_engi.Fast.Image.{book_of, find-levels_of, has_order-book_of}

length-links : (m : Index) → length (links m) ≡ length m
length-links [] = refl
length-links (e ∷ m) = ap suc (length-links m)

best_price-levels_of : (ls : BookSide) → Fast.best_price (levels_of ls) ≡ Naive.best_price ls
unfolding Fast.best_price Naive.best_price
best_price-levels_of [] = refl
best_price-levels_of (e ∷ ls) = refl

-- On the pooled book of a reference book the queries of both agree: the quantity and the number of
-- orders at a price, the best prices, the orders there are and how many.
pub queries_agree :
    (b : Naive.OrderBook) (pool : NodePool) (s : Types.Side) (p : Price) (id : OrderId)
    → (Fast.quantity_at (book_of b pool) s p ≡ Naive.quantity_at b s p)
      × (Fast.order_count_at (book_of b pool) s p ≡ Naive.order_count_at b s p)
      × (Fast.best_bid (book_of b pool) ≡ Naive.best_bid b)
      × (Fast.best_ask (book_of b pool) ≡ Naive.best_ask b)
      × (Fast.has_order (book_of b pool) id ≡ Naive.has_order b id)
      × (Fast.total_order_count (book_of b pool) ≡ Naive.total_order_count b)
unfolding Fast.quantity_at Naive.quantity_at Fast.order_count_at Naive.order_count_at Fast.best_bid
    Naive.best_bid Fast.best_ask Naive.best_ask Fast.total_order_count Naive.total_order_count
queries_agree b pool s p id = (
  ground (arith, find-levels_of p b.bids, find-levels_of p b.asks),
  ground (arith, find-levels_of p b.bids, find-levels_of p b.asks),
  best_price-levels_of b.bids,
  best_price-levels_of b.asks,
  has_order-book_of b pool id,
  length-links b.index,
)
