-- ===== src/Naive/Matching/Priority.antt =====
-- Price-time priority: the two nested loops of `Match` are one walk along the side's queue.
use order_book_matching_engi.Common.{
  ℕ, ◌-◌, ◌<◌, ◌≡◌, refl, ap, ◌∙◌, ◌==◌, ◌||◌, not, true, false, is_empty, length, take, All,
  if◌then◌else◌, List, [], ◌∷◌, ◌++◌, min, arith, Bool-cases, inl, inr,
}
use order_book_matching_engi.Common.Words.{sub64}
use order_book_matching_engi.Types.{Order, Trade, Quantity, OrderStatus}
use order_book_matching_engi.Levels.{Levels}
use order_book_matching_engi.Naive.{Node, PriceLevel, Index, orders_of, queue}
use order_book_matching_engi.Naive.Matching.Limit.{within_limit, crosses-within_limit}
use order_book_matching_engi.Naive.Matching.{
  Incoming, trade_of, trade_quantity, index_after, Filled, match_orders, Matched, match_levels,
  crosses,
}

-- The reference: what a walk along a queue of orders trades, and what it leaves.
pub record Walk : Type 0 where
  pub trades : List Trade
  pub left : List Order

-- The order with what is left of it.
abbrev pub still_open : Order → Quantity → Order
still_open o left = record o { remaining_quantity = left; status = OrderStatus.partially_filled }

unfoldable pub walk : ℕ → Incoming → List Order → Quantity → Walk
walk symbol a [] remaining = record { trades = []; left = [] }
walk symbol a (o ∷ os) remaining =
    let q = min remaining o.remaining_quantity in
    let rest = walk symbol a os (remaining - q) in
    let trade : Trade = record {
      sequence_number = a.seq;
      timestamp = a.ts;
      symbol_id = symbol;
      aggressor_order_id = a.id;
      resting_order_id = o.id;
      aggressor_trader_id = a.trader_id;
      resting_trader_id = o.trader_id;
      aggressor_side = a.side;
      price = o.price;
      quantity = q;
    } in
    if remaining == 0 || not (within_limit a o.price)
    then record { trades = []; left = o ∷ os }
    else record {
      trades = trade ∷ rest.trades;
      left =
          if o.remaining_quantity - q == 0
          then rest.left
          else still_open o (o.remaining_quantity - q) ∷ rest.left;
    }

-- No level is empty, and every order rests at its level's price.
abbrev pub ArePriced : Levels PriceLevel → Type 0
ArePriced [] = Unit {0}
ArePriced ((p, l) ∷ ls) =
    (is_empty l.orders ≡ false) × All (λ n. n.order.price ≡ p) l.orders × ArePriced ls

abbrev pub resting_ids : List Trade → List ℕ
resting_ids [] = []
resting_ids (t ∷ ts) = t.resting_order_id ∷ resting_ids ts

abbrev pub order_ids : List Order → List ℕ
order_ids [] = []
order_ids (o ∷ os) = o.id ∷ order_ids os

pub record IsTradeOf (a : Incoming) (t : Trade) : Type 0 where
  pub within : within_limit a t.price ≡ true
  pub positive : 0 < t.quantity
  pub aggressor : t.aggressor_order_id ≡ a.id

pub orders_of-is_empty : (ns : List Node) → is_empty ns ≡ true → orders_of ns ≡ []
orders_of-is_empty [] h = refl
orders_of-is_empty (n ∷ ns) h = cc

module _ (symbol : ℕ) (a : Incoming) where
  walk_spent : (os : List Order) → walk symbol a os 0 ≡ record { trades = []; left = os }
  unfolding walk
  walk_spent [] = refl
  walk_spent (o ∷ os) = refl

  walk_blocked :
      (o : Order) (os : List Order) (remaining : ℕ)
      → crosses a o.price ≡ false
      → walk symbol a (o ∷ os) remaining ≡ record { trades = []; left = o ∷ os }
  unfolding walk
  walk_blocked o os remaining h = ground (arith, crosses-within_limit a o.price)

  -- A crossing level: the inner loop is the walk over its orders.
  walk_level :
      (ns : List Node) (p : _) (os : List Order) (total remaining : ℕ) (index : Index)
      → crosses a p ≡ true
      → All (λ (n : Node). n.order.price ≡ p) ns
      → let f = match_orders symbol a ns total remaining index in
        walk symbol a (orders_of ns ++ os) remaining ≡ record {
          trades = f.trades ++ (walk symbol a os f.remaining).trades;
          left = orders_of f.orders ++ (walk symbol a os f.remaining).left;
        }
  unfolding walk match_orders trade_of
  walk_level [] p os total remaining index c h = refl
  walk_level (n ∷ ns) p os total remaining index c h = ground (
    arith,
    walk_level ns p os (sub64 total (trade_quantity n remaining))
        (remaining - trade_quantity n remaining) (index_after n remaining index) c h.1,
    walk_spent os,
    crosses-within_limit a n.order.price,
    ap (crosses a) h.0,
  )

  walk_blocked_level :
      (ns : List Node) (p : _) (os : List Order) (remaining : ℕ)
      → crosses a p ≡ false
      → is_empty ns ≡ false
      → All (λ (n : Node). n.order.price ≡ p) ns
      → walk symbol a (orders_of ns ++ os) remaining
        ≡ record { trades = []; left = orders_of ns ++ os }
  walk_blocked_level [] p os remaining c e h = cc
  walk_blocked_level (n ∷ ns) p os remaining c e h =
      walk_blocked n.order (orders_of ns ++ os) remaining (ap (crosses a) h.0 ∙ c)

  -- On a side whose levels hold the orders of their own price, `Match` makes the trades of one walk
  -- along the queue, best price first and first in first out within a price, and leaves its rest.
  pub match_levels-walk :
      (ls : Levels PriceLevel) (remaining : ℕ) (index : Index)
      → ArePriced ls
      → let m = match_levels symbol a ls remaining index in
        walk symbol a (queue ls) remaining ≡ record { trades = m.trades; left = queue m.levels }
  unfolding match_levels
  match_levels-walk [] remaining index h = unfold walk in refl
  match_levels-walk ((p, l) ∷ ls) remaining index h =
      let f : Filled = match_orders symbol a l.orders l.total_quantity remaining index in
      let m : Matched = match_levels symbol a ls f.remaining f.index in
      elim (Bool-cases (crosses a p)) [
        | inl c ↦ ground (
          arith,
          walk_level l.orders p (queue ls) l.total_quantity remaining index c h.1,
          match_levels-walk ls f.remaining f.index h.2,
          walk_spent (orders_of l.orders ++ queue ls),
          orders_of-is_empty f.orders,
        )
        | inr c ↦ ground (arith, walk_blocked_level l.orders p (queue ls) remaining c h.0 h.1)
      ]

  -- The orders that trade are the first of the queue, each once, in the queue's order.
  pub walk_takes_first :
      (os : List Order) (remaining : ℕ)
      → let w = walk symbol a os remaining in
        resting_ids w.trades ≡ take (length w.trades) (order_ids os)
  unfolding walk
  walk_takes_first [] remaining = refl
  walk_takes_first (o ∷ os) remaining =
      ground (arith, walk_takes_first os (remaining - min remaining o.remaining_quantity))

  -- Each trade is at a price that crosses, is of a positive quantity and names the incoming order.
  pub walk_trades :
      (os : List Order) (remaining : ℕ)
      → All (λ o. 0 < o.remaining_quantity) os
      → All (IsTradeOf a) (walk symbol a os remaining).trades
  unfolding walk
  walk_trades [] remaining h = tt
  walk_trades (o ∷ os) remaining h =
      ground (arith, walk_trades os (remaining - min remaining o.remaining_quantity) h.1)
