-- ===== src/Naive/Index.antt =====
-- The index of the reference book: each of its iterators leads to the order of its key. First the
-- lists and levels that an iterator is looked up in.
pub mod Sides
use order_book_matching_engi.Common.{
  ℕ, ◌+◌, ◌-◌, ◌<◌, ◌≡◌, ◌≢◌, refl, sym, ap, subst, ◌∙◌, ◌==◌, ==_iff, Bool, true, false, not, ◌&&◌,
  ◌||◌, is_empty, if◌then◌else◌, Option, none, some, Option-cases, Bool-cases, inl, inr, List, [],
  ◌∷◌, ◌++◌, All, All-append, min, arith,
}
use order_book_matching_engi.Common.Int.{eqb_ℤ}
use order_book_matching_engi.Common.Words.{sub64}
use order_book_matching_engi.Common.Keyed
use order_book_matching_engi.Common.Keyed.{find-erase}
use order_book_matching_engi.Types.{Price, OrderId, Order, Quantity}
use order_book_matching_engi.Levels.{Levels, find, upsert, erase}
use order_book_matching_engi.Levels.Laws.{IsSorted, find-upsert}
use order_book_matching_engi.Naive.{Node, PriceLevel, fresh_level, Index, Locator, find_node}
use order_book_matching_engi.Naive.Matching.{
  Incoming, Filled, trade_quantity, left_over, index_after, match_orders, match_levels,
}
use order_book_matching_engi.Naive.Operations.{push_order, erase_node, shrink_level}
use order_book_matching_engi.Naive.Amend.{resize_node}

-- The identifier of the order at an address, in a queue and on a side.
abbrev pub id_at : ℕ → List Node → Option OrderId
id_at it [] = none
id_at it (n ∷ ns) = if n.it == it then some n.order.id else id_at it ns

unfoldable pub id_in : Price → ℕ → Levels PriceLevel → Option OrderId
id_in p it ls = elim (find p ls) [ none ↦ none | some l ↦ id_at it l.orders ]

-- Every address on a side is below `k`.
abbrev pub AreBelow : ℕ → Levels PriceLevel → Type 0
AreBelow k = All (λ e. All (λ n. n.it < k) e.1.orders)

module _ (symbol : ℕ) (a : Incoming) where
  -- `Match` only takes entries out of the index.
  match_orders-index :
      (ns : List Node) (total remaining : ℕ) (index : Index) (id : OrderId) (loc : Locator)
      → Keyed.find id (match_orders symbol a ns total remaining index).index ≡ some loc
      → Keyed.find id index ≡ some loc
  unfolding match_orders
  match_orders-index [] total remaining index id loc h = h
  match_orders-index (n ∷ ns) total remaining index id loc h = ground (
    arith,
    match_orders-index ns (sub64 total (trade_quantity n remaining))
        (remaining - trade_quantity n remaining) (index_after n remaining index) id loc,
    find-erase n.order.id id index,
  )

  pub match_levels-index :
      (ls : Levels PriceLevel) (remaining : ℕ) (index : Index) (id : OrderId) (loc : Locator)
      → Keyed.find id (match_levels symbol a ls remaining index).index ≡ some loc
      → Keyed.find id index ≡ some loc
  unfolding match_levels
  match_levels-index [] remaining index id loc h = h
  match_levels-index ((p, l) ∷ ls) remaining index id loc h =
      let f : Filled = match_orders symbol a l.orders l.total_quantity remaining index in
      ground (
        arith,
        match_levels-index ls f.remaining f.index id loc,
        match_orders-index l.orders l.total_quantity remaining index id loc,
      )

  -- An order that is still indexed is still where it was.
  match_orders-id_at :
      (ns : List Node) (total remaining : ℕ) (index : Index) (id it : ℕ) (loc : Locator)
      → id_at it ns ≡ some id
      → Keyed.find id (match_orders symbol a ns total remaining index).index ≡ some loc
      → id_at it (match_orders symbol a ns total remaining index).orders ≡ some id
  unfolding match_orders
  match_orders-id_at [] total remaining index id it loc e h = cc
  match_orders-id_at (n ∷ ns) total remaining index id it loc e h = ground (
    arith,
    match_orders-id_at ns (sub64 total (trade_quantity n remaining))
        (remaining - trade_quantity n remaining) (index_after n remaining index) id it loc,
    match_orders-index ns (sub64 total (trade_quantity n remaining))
        (remaining - trade_quantity n remaining) (index_after n remaining index) id loc,
    find-erase n.order.id id index,
  )

  pub match_levels-id_in :
      (ls : Levels PriceLevel) (remaining : ℕ) (index : Index) (p : Price) (id it : ℕ)
      (loc : Locator)
      → id_in p it ls ≡ some id
      → Keyed.find id (match_levels symbol a ls remaining index).index ≡ some loc
      → id_in p it (match_levels symbol a ls remaining index).levels ≡ some id
  unfolding match_levels id_in find
  match_levels-id_in [] remaining index p id it loc e h = cc
  match_levels-id_in ((q, l) ∷ ls) remaining index p id it loc e h =
      let f : Filled = match_orders symbol a l.orders l.total_quantity remaining index in
      ground (
        arith,
        match_levels-id_in ls f.remaining f.index p id it loc,
        match_levels-index ls f.remaining f.index id loc,
        match_orders-id_at l.orders l.total_quantity remaining index id it loc,
      )

  match_orders_below :
      (k : ℕ) (ns : List Node) (total remaining : ℕ) (index : Index)
      → All (λ n. n.it < k) ns
      → All (λ n. n.it < k) (match_orders symbol a ns total remaining index).orders
  unfolding match_orders
  match_orders_below k [] total remaining index h = tt
  match_orders_below k (n ∷ ns) total remaining index h = ground (
    arith,
    match_orders_below k ns (sub64 total (trade_quantity n remaining))
        (remaining - trade_quantity n remaining) (index_after n remaining index) h.1,
  )

  pub match_levels-AreBelow :
      (k : ℕ) (ls : Levels PriceLevel) (remaining : ℕ) (index : Index)
      → AreBelow k ls
      → AreBelow k (match_levels symbol a ls remaining index).levels
  unfolding match_levels
  match_levels-AreBelow k [] remaining index h = tt
  match_levels-AreBelow k ((p, l) ∷ ls) remaining index h =
      let f : Filled = match_orders symbol a l.orders l.total_quantity remaining index in
      ground (
        arith,
        match_orders_below k l.orders l.total_quantity remaining index h.0,
        match_levels-AreBelow k ls f.remaining f.index h.1,
      )

-- An order at the back of a queue.
id_at_front :
    (ns : List Node) (n : Node) (id it : ℕ)
    → id_at it ns ≡ some id
    → id_at it (ns ++ (n ∷ [])) ≡ some id
id_at_front [] n id it e = cc
id_at_front (m ∷ ns) n id it e = ground (arith, id_at_front ns n id it)

id_at_back :
    (ns : List Node) (n : Node)
    → All (λ m. m.it < n.it) ns
    → id_at n.it (ns ++ (n ∷ [])) ≡ some n.order.id
id_at_back [] n h = ground arith
id_at_back (m ∷ ns) n h = ground (arith, id_at_back ns n h.1)
