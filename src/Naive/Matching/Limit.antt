-- ===== src/Naive/Matching/Limit.antt =====
-- The limit of an incoming order, said of its own side, type and price, for `PriceCrosses`.
use order_book_matching_engi.Common.{◌≡◌, Bool, ◌||◌, if◌then◌else◌, arith}
use order_book_matching_engi.Common.Int.{leb_ℤ}
use order_book_matching_engi.Types.{Price, is_buy, is_market}
use order_book_matching_engi.Naive.Matching.{Incoming, crosses, price_crosses}

-- A market order has no limit; a buyer pays its price at most, a seller takes its price at least.
abbrev pub within_limit : Incoming → Price → Bool
within_limit a p = is_market a.type || (if is_buy a.side then leb_ℤ p a.price else leb_ℤ a.price p)

pub crosses-within_limit : (a : Incoming) (p : Price) → crosses a p ≡ within_limit a p
unfolding price_crosses
crosses-within_limit a p = ground arith
