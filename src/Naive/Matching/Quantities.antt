-- ===== src/Naive/Matching/Quantities.antt =====
-- What `Match` does to quantities: nothing is lost or made up, level by level and in all.
use order_book_matching_engi.Common.{
  ℕ, ◌+◌, ◌-◌, ◌%◌, ◌^◌, ◌≡◌, refl, ap, List, [], ◌∷◌, ◌++◌, min, arith, ◌⊎◌, inr, true, is_empty,
}
use order_book_matching_engi.Common.Words.{sub64}
use order_book_matching_engi.Types.{Trade, Quantity}
use order_book_matching_engi.Levels.{Levels}
use order_book_matching_engi.Naive.{Node, PriceLevel, Index}
use order_book_matching_engi.Naive.Matching.{
  Incoming, trade_of, trade_quantity, left_over, index_after, Filled, match_orders, Matched,
  match_levels,
}

-- The quantity still open in a queue, and on a side, as an unbounded sum.
abbrev pub open_quantity : List Node → ℕ
open_quantity [] = 0
open_quantity (n ∷ ns) = n.order.remaining_quantity + open_quantity ns

abbrev pub depth : Levels PriceLevel → ℕ
depth [] = 0
depth ((p, l) ∷ ls) = open_quantity l.orders + depth ls

abbrev pub traded : List Trade → ℕ
traded [] = 0
traded (t ∷ ts) = t.quantity + traded ts

open_quantity-is_empty : (ns : List Node) → is_empty ns ≡ true → open_quantity ns ≡ 0
open_quantity-is_empty [] h = refl
open_quantity-is_empty (n ∷ ns) h = cc

open_quantity-nil : (ns : List Node) → ns ≡ [] → open_quantity ns ≡ 0
open_quantity-nil ns h = ap open_quantity h

pub traded-append : (ts us : List Trade) → traded (ts ++ us) ≡ traded ts + traded us
traded-append [] us = omega arith
traded-append (t ∷ ts) us = omega (arith, traded-append ts us)

module _ (symbol : ℕ) (a : Incoming) where
  -- The rest of the inner loop, behind the trade with `n`.
  abbrev pub rest_of : Node → List Node → Quantity → Quantity → Index → Filled
  rest_of n ns total remaining index =
      match_orders symbol a ns (sub64 total (trade_quantity n remaining))
        (remaining - trade_quantity n remaining) (index_after n remaining index)

  -- What one level gives is what the incoming order takes.
  pub match_orders-remaining :
      (ns : List Node) (total remaining : ℕ) (index : Index)
      → let f = match_orders symbol a ns total remaining index in
        f.remaining + traded f.trades ≡ remaining
  unfolding match_orders trade_of
  match_orders-remaining [] total remaining index = omega arith
  match_orders-remaining (n ∷ ns) total remaining index = ground (
    arith,
    match_orders-remaining ns (sub64 total (trade_quantity n remaining))
        (remaining - trade_quantity n remaining) (index_after n remaining index),
  )

  pub match_orders-open_quantity :
      (ns : List Node) (total remaining : ℕ) (index : Index)
      → let f = match_orders symbol a ns total remaining index in
        open_quantity f.orders + traded f.trades ≡ open_quantity ns
  unfolding match_orders trade_of
  match_orders-open_quantity [] total remaining index = omega arith
  match_orders-open_quantity (n ∷ ns) total remaining index = ground (
    arith,
    match_orders-open_quantity ns (sub64 total (trade_quantity n remaining))
        (remaining - trade_quantity n remaining) (index_after n remaining index),
  )

  -- The level's total stays the sum of its queue modulo the word; `kept` is what stands before.
  match_orders-total_with :
      (ns : List Node) (total remaining : ℕ) (index : Index) (kept : ℕ)
      → total ≡ (kept + open_quantity ns) % 2 ^ 64
      → let f = match_orders symbol a ns total remaining index in
        f.total ≡ (kept + open_quantity f.orders) % 2 ^ 64
  unfolding match_orders
  match_orders-total_with [] total remaining index kept h = h
  match_orders-total_with (n ∷ ns) total remaining index kept h = ground (
    arith,
    match_orders-total_with ns (sub64 total (trade_quantity n remaining))
        (remaining - trade_quantity n remaining) (index_after n remaining index)
        (kept + left_over n remaining) (omega arith),
  )

  pub match_orders-total :
      (ns : List Node) (total remaining : ℕ) (index : Index)
      → total ≡ open_quantity ns % 2 ^ 64
      → let f = match_orders symbol a ns total remaining index in
        f.total ≡ open_quantity f.orders % 2 ^ 64
  match_orders-total ns total remaining index h =
      omega (arith, match_orders-total_with ns total remaining index 0 (omega arith))

  -- An order that stays behind unfilled is met only by a spent incoming order.
  pub match_orders-exhausts :
      (ns : List Node) (total remaining : ℕ) (index : Index)
      → let f = match_orders symbol a ns total remaining index in
        (f.remaining ≡ 0) ⊎ (f.orders ≡ [])
  unfolding match_orders
  match_orders-exhausts [] total remaining index = inr refl
  match_orders-exhausts (n ∷ ns) total remaining index = ground (
    arith,
    match_orders-exhausts ns (sub64 total (trade_quantity n remaining))
        (remaining - trade_quantity n remaining) (index_after n remaining index),
    match_orders-remaining ns (sub64 total (trade_quantity n remaining))
        (remaining - trade_quantity n remaining) (index_after n remaining index),
  )

  -- In all: what the side gives up is what the incoming order takes.
  pub match_levels-remaining :
      (ls : Levels PriceLevel) (remaining : ℕ) (index : Index)
      → let m = match_levels symbol a ls remaining index in
        m.remaining + traded m.trades ≡ remaining
  unfolding match_levels
  match_levels-remaining [] remaining index = omega arith
  match_levels-remaining ((p, l) ∷ ls) remaining index =
      let f : Filled = match_orders symbol a l.orders l.total_quantity remaining index in
      let m : Matched = match_levels symbol a ls f.remaining f.index in
      ground (
        arith,
        match_orders-remaining l.orders l.total_quantity remaining index,
        match_levels-remaining ls f.remaining f.index,
        traded-append f.trades m.trades,
      )

  pub match_levels-depth :
      (ls : Levels PriceLevel) (remaining : ℕ) (index : Index)
      → let m = match_levels symbol a ls remaining index in
        depth m.levels + traded m.trades ≡ depth ls
  unfolding match_levels
  match_levels-depth [] remaining index = omega arith
  match_levels-depth ((p, l) ∷ ls) remaining index =
      let f : Filled = match_orders symbol a l.orders l.total_quantity remaining index in
      let m : Matched = match_levels symbol a ls f.remaining f.index in
      ground (
        arith,
        match_orders-open_quantity l.orders l.total_quantity remaining index,
        match_levels-depth ls f.remaining f.index,
        traded-append f.trades m.trades,
        open_quantity-is_empty f.orders,
      )

  -- A level trades all that it has, or all that is asked of it.
  pub match_orders-traded :
      (ns : List Node) (total remaining : ℕ) (index : Index)
      → traded (match_orders symbol a ns total remaining index).trades
        ≡ min remaining (open_quantity ns)
  match_orders-traded ns total remaining index =
      let f : Filled = match_orders symbol a ns total remaining index in
      ground (
        arith,
        match_orders-remaining ns total remaining index,
        match_orders-open_quantity ns total remaining index,
        match_orders-exhausts ns total remaining index,
        open_quantity-nil f.orders,
      )
