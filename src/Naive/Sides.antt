-- ===== src/Naive/Sides.antt =====
-- When one side of the reference book is well formed, and that `Match` keeps it so.
use order_book_matching_engi.Common.{
  ℕ, ◌-◌, ◌%◌, ◌^◌, ◌≤◌, ◌<◌, ◌≡◌, Bool, true, false, not, is_empty, All, List, [], ◌∷◌, arith,
}
use order_book_matching_engi.Common.Words.{sub64, IsU64}
use order_book_matching_engi.Types.{Price, Order, is_buy}
use order_book_matching_engi.Levels.{Levels, precedes}
use order_book_matching_engi.Levels.Laws.{IsSorted, Precede}
use order_book_matching_engi.Naive.{Node, PriceLevel, Index}
use order_book_matching_engi.Naive.Matching.{
  Incoming, trade_quantity, index_after, Filled, match_orders, match_levels, crosses, price_crosses,
}
use order_book_matching_engi.Naive.Matching.Quantities.{
  open_quantity, match_orders-total, match_orders-exhausts, match_levels-remaining,
}
use order_book_matching_engi.Naive.Matching.Priority.{ArePriced}

-- A resting order of the side and price where it stands.
pub record IsResting (bids : Bool) (p : Price) (o : Order) : Type 0 where
  pub priced : o.price ≡ p
  pub sided : is_buy o.side ≡ bids
  pub unfilled : 0 < o.remaining_quantity
  pub within : o.remaining_quantity ≤ o.quantity
  pub sized : IsU64 o.quantity

abbrev pub AreResting : Bool → Price → List Node → Type 0
AreResting bids p = All (λ n. IsResting bids p n.order)

-- A level holds some order, and its total is the sum of them modulo the word.
pub record IsLevel (bids : Bool) (p : Price) (l : PriceLevel) : Type 0 where
  pub filled : is_empty l.orders ≡ false
  pub total : l.total_quantity ≡ open_quantity l.orders % 2 ^ 64
  pub resting : AreResting bids p l.orders

pub record IsSide (bids : Bool) (ls : Levels PriceLevel) : Type 0 where
  pub sorted : IsSorted bids ls
  pub levels : All (λ e. IsLevel bids e.0 e.1) ls

ArePriced-nodes :
    (bids : Bool) (p : Price) (ns : List Node)
    → AreResting bids p ns
    → All (λ n. n.order.price ≡ p) ns
ArePriced-nodes bids p [] h = tt
ArePriced-nodes bids p (n ∷ ns) h = (h.0.priced, ArePriced-nodes bids p ns h.1)

pub IsSide-ArePriced :
    (bids : Bool) (ls : Levels PriceLevel) → All (λ e. IsLevel bids e.0 e.1) ls → ArePriced ls
IsSide-ArePriced bids [] h = tt
IsSide-ArePriced bids ((p, l) ∷ ls) h =
    (h.0.filled, ArePriced-nodes bids p l.orders h.0.resting, IsSide-ArePriced bids ls h.1)

-- Past a price that does not cross no price crosses.
crosses-precedes :
    (a : Incoming) (p q : Price)
    → precedes (not (is_buy a.side)) p q ≡ true
    → crosses a p ≡ false
    → crosses a q ≡ false
unfolding price_crosses
crosses-precedes a p q h c = ground arith

crosses-Precede :
    (a : Incoming) (p : Price) (ls : Levels PriceLevel)
    → Precede (not (is_buy a.side)) p ls
    → crosses a p ≡ false
    → All (λ e. crosses a e.0 ≡ false) ls
crosses-Precede a p [] h c = tt
crosses-Precede a p ((q, l) ∷ ls) h c = (crosses-precedes a p q h.0 c, crosses-Precede a p ls h.1 c)

module _ (symbol : ℕ) (a : Incoming) where
  -- `Match` brings no new price to the side.
  pub match_levels-keys :
      (P : Price → Type 0) (ls : Levels PriceLevel) (remaining : ℕ) (index : Index)
      → All (λ e. P e.0) ls
      → All (λ e. P e.0) (match_levels symbol a ls remaining index).levels
  unfolding match_levels
  match_levels-keys P [] remaining index h = tt
  match_levels-keys P ((p, l) ∷ ls) remaining index h =
      let f : Filled = match_orders symbol a l.orders l.total_quantity remaining index in
      ground (arith, match_levels-keys P ls f.remaining f.index h.1)

  -- An incoming order that is not spent has met every price that it crosses.
  pub match_levels-blocked :
      (ls : Levels PriceLevel) (remaining : ℕ) (index : Index)
      → IsSorted (not (is_buy a.side)) ls
      → let m = match_levels symbol a ls remaining index in
        0 < m.remaining → All (λ e. crosses a e.0 ≡ false) m.levels
  unfolding match_levels
  match_levels-blocked [] remaining index h r = tt
  match_levels-blocked ((p, l) ∷ ls) remaining index h r =
      let f : Filled = match_orders symbol a l.orders l.total_quantity remaining index in
      ground (
        arith,
        match_levels-blocked ls f.remaining f.index h.1,
        crosses-Precede a p ls h.0,
        match_orders-exhausts symbol a l.orders l.total_quantity remaining index,
        match_levels-remaining symbol a ls f.remaining f.index,
      )

module _ (symbol : ℕ) (a : Incoming) (bids : Bool) where
  match_orders-AreResting :
      (p : Price) (ns : List Node) (total remaining : ℕ) (index : Index)
      → AreResting bids p ns
      → AreResting bids p (match_orders symbol a ns total remaining index).orders
  unfolding match_orders
  match_orders-AreResting p [] total remaining index h = tt
  match_orders-AreResting p (n ∷ ns) total remaining index h = ground (
    arith,
    match_orders-AreResting p ns (sub64 total (trade_quantity n remaining))
        (remaining - trade_quantity n remaining) (index_after n remaining index) h.1,
  )

  match_orders-IsLevel :
      (p : Price) (l : PriceLevel) (remaining : ℕ) (index : Index)
      → IsLevel bids p l
      → let f = match_orders symbol a l.orders l.total_quantity remaining index in
        is_empty f.orders ≡ false
        → IsLevel bids p (record l { orders = f.orders; total_quantity = f.total })
  match_orders-IsLevel p l remaining index h e = record {
    filled = e;
    total = match_orders-total symbol a l.orders l.total_quantity remaining index h.total;
    resting = match_orders-AreResting p l.orders l.total_quantity remaining index h.resting;
  }

  pub match_levels-IsSorted :
      (ls : Levels PriceLevel) (remaining : ℕ) (index : Index)
      → IsSorted bids ls
      → IsSorted bids (match_levels symbol a ls remaining index).levels
  unfolding match_levels
  match_levels-IsSorted [] remaining index h = tt
  match_levels-IsSorted ((p, l) ∷ ls) remaining index h =
      let f : Filled = match_orders symbol a l.orders l.total_quantity remaining index in
      ground (
        arith,
        match_levels-keys symbol a (λ q. precedes bids p q ≡ true) ls f.remaining f.index h.0,
        match_levels-IsSorted ls f.remaining f.index h.1,
      )

  match_levels-levels :
      (ls : Levels PriceLevel) (remaining : ℕ) (index : Index)
      → All (λ e. IsLevel bids e.0 e.1) ls
      → All (λ e. IsLevel bids e.0 e.1) (match_levels symbol a ls remaining index).levels
  unfolding match_levels
  match_levels-levels [] remaining index h = tt
  match_levels-levels ((p, l) ∷ ls) remaining index h =
      let f : Filled = match_orders symbol a l.orders l.total_quantity remaining index in
      ground (
        arith,
        match_orders-IsLevel p l remaining index h.0,
        match_levels-levels ls f.remaining f.index h.1,
      )

  -- `Match` keeps a side well formed.
  pub match_levels-IsSide :
      (ls : Levels PriceLevel) (remaining : ℕ) (index : Index)
      → IsSide bids ls
      → IsSide bids (match_levels symbol a ls remaining index).levels
  match_levels-IsSide ls remaining index h = record {
    sorted = match_levels-IsSorted ls remaining index h.sorted;
    levels = match_levels-levels ls remaining index h.levels;
  }
