-- ===== src/Naive/Cancelling.antt =====
-- `RemoveFromBook` and `CancelOrder` on a book whose index is right.
use order_book_matching_engi.Common.{
  ◌≡◌, ◌≢◌, ◌⊎◌, refl, ap, ◌==◌, true, false, if◌then◌else◌, Option, none, some, Option-cases,
  Bool-cases, inl, inr, arith,
}
use mathlib.Core.Option.{map}
use order_book_matching_engi.Common.Keyed
use order_book_matching_engi.Common.Keyed.{find-insert, find-erase}
use order_book_matching_engi.Types.{OrderId, Order, is_buy, RejectReason}
use order_book_matching_engi.Levels.{find}
use order_book_matching_engi.Naive.{
  PriceLevel, Locator, OrderBook, on_side, with_side, has_order, CancelResult, find_order, deref,
  find_node, all_resting_orders, queue,
}
use order_book_matching_engi.Naive.Operations.{remove_from_book, shrink_level}
use order_book_matching_engi.Naive.Leaving.{
  Leaves, Leaves-before, Leaves-behind, Leaves-shrink_level,
}
use order_book_matching_engi.Naive.Amend.{refused_cancel, cancel_order}
use order_book_matching_engi.Naive.Books.{IsBook}
use order_book_matching_engi.Naive.Amending.{remove_from_book-IsBook}
use order_book_matching_engi.Naive.Index.{id_at, id_in}
use order_book_matching_engi.Naive.Index.Sides.{id_in-shrink_level, AreBelow-shrink_level}
use order_book_matching_engi.Naive.Indexed.{Agrees, IsIndexed, find_node-id_at, deref-id_in}

-- The book without the order `o` of the level `l`.
abbrev pub without : OrderBook → Locator → OrderId → PriceLevel → Order → OrderBook
without b loc id l o =
    record (with_side b loc.side (
      shrink_level (is_buy loc.side) loc.price l loc.it o.remaining_quantity
        (on_side b loc.side))) { index = Keyed.erase id b.index }

module _ (b : OrderBook) (loc : Locator) (id : OrderId) (l : PriceLevel) (o : Order) (h : IsBook b)
    (k : Agrees b) (f : find loc.price (on_side b loc.side) ≡ some l)
    (g : id_at loc.it l.orders ≡ some id) where
  pub without-Agrees :
      (id' : OrderId) (loc' : Locator)
      → Keyed.find id' (without b loc id l o).index ≡ some loc'
      → id_in loc'.price loc'.it (on_side (without b loc id l o) loc'.side) ≡ some id'
  without-Agrees id' loc' e = elim (Bool-cases (id == id')) [
    | inl t ↦ absurd (cc (e, t, find-erase id id' b.index))
    | inr t ↦
        let differs : id' ≢ id = λ q. ground arith in
        elim (Bool-cases (is_buy loc.side)) [
          | inl s ↦
              let there : find loc.price b.bids ≡ some l = rw s at f in
              ground (
                arith,
                find-erase id id' b.index,
                k id' loc',
                id_in-shrink_level true loc.price loc'.price l loc'.it loc.it id' id
                    o.remaining_quantity b.bids h.bids.sorted there g,
              )
          | inr s ↦
              let there : find loc.price b.asks ≡ some l = rw s at f in
              ground (
                arith,
                find-erase id id' b.index,
                k id' loc',
                id_in-shrink_level false loc.price loc'.price l loc'.it loc.it id' id
                    o.remaining_quantity b.asks h.asks.sorted there g,
              )
        ]
  ]

  without-IsIndexed : IsIndexed b → IsIndexed (without b loc id l o)
  without-IsIndexed indexed = elim (Bool-cases (is_buy loc.side)) [
    | inl s ↦
        let there : find loc.price b.bids ≡ some l = rw s at f in
        record {
          agrees = without-Agrees;
          bids_below = rw s (
              AreBelow-shrink_level b.next_node true loc.price l loc.it o.remaining_quantity b.bids
                there indexed.bids_below);
          asks_below = rw s indexed.asks_below;
        }
    | inr s ↦
        let there : find loc.price b.asks ≡ some l = rw s at f in
        record {
          agrees = without-Agrees;
          bids_below = rw s indexed.bids_below;
          asks_below = rw s (
              AreBelow-shrink_level b.next_node false loc.price l loc.it o.remaining_quantity b.asks
                there indexed.asks_below);
        }
  ]

-- An order of the index is taken out, and its identifier is free again.
pub remove_from_book_lem :
    (b : OrderBook) (loc : Locator) (id : OrderId)
    → IsBook b
    → IsIndexed b
    → Keyed.find id b.index ≡ some loc
    → (b' : OrderBook) × (remove_from_book b loc id ≡ some b')
      × IsBook b'
      × IsIndexed b'
      × (b'.index ≡ Keyed.erase id b.index)
unfolding remove_from_book id_in
remove_from_book_lem b loc id h k e = elim (Option-cases (find loc.price (on_side b loc.side))) [
  | inl f ↦ absurd (cc (k.agrees id loc e))
  | inr (l, f) ↦
      let g : id_at loc.it l.orders ≡ some id = cc (k.agrees id loc e) in
      let (o, found, _) = find_node-id_at loc.it l.orders id g in
      let done : remove_from_book b loc id ≡ some (without b loc id l o) = ground arith in
      (
        without b loc id l o,
        done,
        remove_from_book-IsBook b (without b loc id l o) loc id h done,
        without-IsIndexed b loc id l o h k.agrees f g k,
        ground arith,
      )
]

-- On an indexed book `FindOrder` never follows a dangling iterator: it gives an order
-- of the identifier asked for exactly if the book has one.
pub find_order_lem :
    (b : OrderBook) (id : OrderId)
    → IsIndexed b
    → (found : Option Order) × (find_order b id ≡ some found)
      × (map (λ o. o.id) found ≡ (if has_order b id then some id else none))
unfolding find_order has_order
find_order_lem b id k = elim (Option-cases (Keyed.find id b.index)) [
  | inl e ↦ (none, ground arith, ground arith)
  | inr (loc, e) ↦
      let (o, d, same) = deref-id_in b loc id (k.agrees id loc e) in
      (some o, ground arith, ground (arith, same))
]

-- What is taken out of the book leaves the resting orders, and the others stay in their order.
Leaves-remove_from_book :
    (b b' : OrderBook) (loc : Locator) (id : OrderId) (o : Order)
    → IsBook b
    → deref b loc ≡ some o
    → remove_from_book b loc id ≡ some b'
    → Leaves o (all_resting_orders b) (all_resting_orders b')
unfolding remove_from_book deref all_resting_orders
Leaves-remove_from_book b b' loc id o h d e =
    elim (Option-cases (find loc.price (on_side b loc.side))) [
      | inl f ↦ absurd (cc (d, f))
      | inr (l, f) ↦
          let g : find_node loc.it l.orders ≡ some o = rw f at d in
          let done : remove_from_book b loc id ≡ some (without b loc id l o) = ground arith in
          let same : without b loc id l o ≡ b' = cc (done, e) in
          rw (← same) (elim (Bool-cases (is_buy loc.side)) [
            | inl s ↦ rw s (
                Leaves-before o (queue b.bids) _ (queue b.asks) (
                  Leaves-shrink_level loc.price l o true loc.it o.remaining_quantity b.bids
                    h.bids.sorted (rw s at f) g))
            | inr s ↦ rw s (
                Leaves-behind o (queue b.asks) _ (queue b.bids) (
                  Leaves-shrink_level loc.price l o false loc.it o.remaining_quantity b.asks
                    h.asks.sorted (rw s at f) g))
          ])
    ]

-- On a well-formed and indexed book `CancelOrder` returns. It succeeds exactly if the book has the
-- order: then the order is taken out of the resting orders, the others stay as they are and in their
-- order, and the answer names the order's symbol and trader; else it is refused as unknown, and the
-- book is as it was. The index then has every other identifier that it had and not this one, and the
-- book is well formed and indexed still.
pub cancel_order_lem :
    (b : OrderBook) (id j : OrderId)
    → IsBook b
    → IsIndexed b
    → (r : CancelResult) × (b' : OrderBook) × (cancel_order b id ≡ some (r, b'))
      × (r.success ≡ has_order b id)
      × (((r.success ≡ false) × (r.reject_reason ≡ RejectReason.unknown_order) × (b' ≡ b))
          ⊎ ((o : Order) × (find_order b id ≡ some (some o))
              × (o.id ≡ id)
              × (r ≡ record {
                success = true;
                reject_reason = RejectReason.none;
                symbol_id = o.symbol_id;
                trader_id = o.trader_id;
              })
              × Leaves o (all_resting_orders b) (all_resting_orders b')))
      × (has_order b' j ≡ (if id == j then false else has_order b j))
      × IsBook b'
      × IsIndexed b'
unfolding cancel_order has_order find_order
cancel_order_lem b id j h k = elim (Option-cases (Keyed.find id b.index)) [
  | inl e ↦
      (refused_cancel, b, ground arith, ground arith, inl (refl, refl, refl), ground arith, h, k)
  | inr (loc, e) ↦
      let (o, d, same) = deref-id_in b loc id (k.agrees id loc e) in
      let (b', removed, h', k', index) = remove_from_book_lem b loc id h k e in
      (
        record {
          success = true;
          reject_reason = RejectReason.none;
          symbol_id = o.symbol_id;
          trader_id = o.trader_id;
        },
        b',
        ground arith,
        ground arith,
        inr (o, ground arith, same, refl, Leaves-remove_from_book b b' loc id o h d removed),
        ground (arith, find-erase id j b.index, ap (Keyed.find j) index),
        h',
        k',
      )
]
