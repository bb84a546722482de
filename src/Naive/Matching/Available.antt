-- ===== src/Naive/Matching/Available.antt =====
-- The liquidity that `AvailableCrossingQuantity` counts is what `Match` can trade.
use order_book_matching_engi.Common.{ℕ, ◌+◌, ◌%◌, ◌^◌, ◌≡◌, [], ◌∷◌, min, arith, if◌then◌else◌}
use order_book_matching_engi.Common.Words.{add64}
use order_book_matching_engi.Levels.{Levels}
use order_book_matching_engi.Naive.{PriceLevel, Index}
use order_book_matching_engi.Naive.Matching.{
  Incoming, available_from, Filled, match_orders, Matched, match_levels,
}
use order_book_matching_engi.Naive.Matching.Limit.{within_limit, crosses-within_limit}
use order_book_matching_engi.Naive.Matching.Quantities.{
  open_quantity, traded, traded-append, match_orders-traded, match_orders-remaining,
}

-- Every level's total is its queue's sum modulo the word.
abbrev pub AreTotalled : Levels PriceLevel → Type 0
AreTotalled [] = Unit {0}
AreTotalled ((p, l) ∷ ls) = (l.total_quantity ≡ open_quantity l.orders % 2 ^ 64) × AreTotalled ls

-- The unbounded sum over the levels within the order's limit, from the best price on.
unfoldable pub crossing_quantity : Incoming → Levels PriceLevel → ℕ
crossing_quantity a [] = 0
crossing_quantity a ((p, l) ∷ ls) =
    if within_limit a p then open_quantity l.orders + crossing_quantity a ls else 0

module _ (a : Incoming) where
  available_from-crossing_quantity :
      (ls : Levels PriceLevel) (before total : ℕ)
      → AreTotalled ls
      → total ≡ before % 2 ^ 64
      → available_from a ls total ≡ (before + crossing_quantity a ls) % 2 ^ 64
  unfolding available_from crossing_quantity
  available_from-crossing_quantity [] before total h e = omega arith
  available_from-crossing_quantity ((p, l) ∷ ls) before total h e = ground (
    arith,
    crosses-within_limit a p,
    available_from-crossing_quantity ls (before + open_quantity l.orders)
        (add64 total l.total_quantity) h.1,
  )

  -- The count is right modulo the word.
  pub available-crossing_quantity :
      (ls : Levels PriceLevel)
      → AreTotalled ls
      → available_from a ls 0 ≡ crossing_quantity a ls % 2 ^ 64
  available-crossing_quantity ls h =
      omega (arith, available_from-crossing_quantity ls 0 0 h (omega arith))

  -- `Match` trades all that crosses, or all that is asked.
  pub match_levels-traded :
      (symbol : ℕ) (ls : Levels PriceLevel) (remaining : ℕ) (index : Index)
      → traded (match_levels symbol a ls remaining index).trades
        ≡ min remaining (crossing_quantity a ls)
  unfolding match_levels crossing_quantity
  match_levels-traded symbol [] remaining index = omega arith
  match_levels-traded symbol ((p, l) ∷ ls) remaining index =
      let f : Filled = match_orders symbol a l.orders l.total_quantity remaining index in
      let m : Matched = match_levels symbol a ls f.remaining f.index in
      ground (
        arith,
        crosses-within_limit a p,
        match_orders-traded symbol a l.orders l.total_quantity remaining index,
        match_orders-remaining symbol a l.orders l.total_quantity remaining index,
        match_levels-traded symbol ls f.remaining f.index,
        traded-append f.trades m.trades,
      )
