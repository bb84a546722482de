-- ===== src/Naive/Indexed.antt =====
-- Each iterator of the index leads to the order of its key, and stays so: no operation of the
-- reference book meets a dangling iterator.
use order_book_matching_engi.Common.{
  ℕ, ◌+◌, ◌≡◌, refl, ◌==◌, true, false, some, Option-cases, Bool-cases, inl, inr, List, [], ◌∷◌,
  arith,
}
use order_book_matching_engi.Common.Keyed
use order_book_matching_engi.Common.Keyed.{find-insert, find-erase}
use order_book_matching_engi.Types.{OrderId, Order}
use order_book_matching_engi.Levels.{find, upsert}
use order_book_matching_engi.Levels.Laws.{IsSorted}
use order_book_matching_engi.Naive.{
  fresh_level, Node, Locator, OrderBook, on_side, empty_book, find_node, deref,
}
use order_book_matching_engi.Naive.Matching.{Incoming, match_levels}
use order_book_matching_engi.Naive.Operations.{
  push_order, against, can_rest, resting_order, reject_of, matched_book, insert_resting,
  accept_order, add_order,
}
use order_book_matching_engi.Naive.Books.{IsBook, matched_book-IsBook}
use order_book_matching_engi.Naive.Index.{
  id_at, id_in, AreBelow, match_levels-index, match_levels-id_in, match_levels-AreBelow,
}
use order_book_matching_engi.Naive.Index.Sides.{
  id_in-push, id_in-pushed, AreBelow-push, AreBelow-suc,
}

abbrev pub Agrees : OrderBook → Type 0
Agrees b =
    (id : OrderId) (loc : Locator)
    → Keyed.find id b.index ≡ some loc
    → id_in loc.price loc.it (on_side b loc.side) ≡ some id

pub record IsIndexed (b : OrderBook) : Type 0 where
  pub agrees : Agrees b
  pub bids_below : AreBelow b.next_node b.bids
  pub asks_below : AreBelow b.next_node b.asks

pub empty_book-IsIndexed : (symbol : ℕ) → IsIndexed (empty_book symbol)
unfolding empty_book Keyed.find
empty_book-IsIndexed symbol = record { agrees = λ id loc h. cc; bids_below = tt; asks_below = tt }

pub find_node-id_at :
    (it : ℕ) (ns : List Node) (id : OrderId)
    → id_at it ns ≡ some id
    → (o : Order) × (find_node it ns ≡ some o) × (o.id ≡ id)
unfolding find_node
find_node-id_at it [] id e = absurd cc
find_node-id_at it (n ∷ ns) id e = elim (Bool-cases (n.it == it)) [
  | inl t ↦ rw t (n.order, refl, cc (rw t at e))
  | inr t ↦ rw t (find_node-id_at it ns id (rw t at e))
]

-- Following an iterator that leads to an identifier.
pub deref-id_in :
    (b : OrderBook) (loc : Locator) (id : OrderId)
    → id_in loc.price loc.it (on_side b loc.side) ≡ some id
    → (o : Order) × (deref b loc ≡ some o) × (o.id ≡ id)
unfolding deref id_in
deref-id_in b loc id e = elim (Option-cases (find loc.price (on_side b loc.side))) [
  | inl f ↦ absurd cc
  | inr (l, f) ↦ rw f (find_node-id_at loc.it l.orders id (rw (f, id_in) at e))
]

module _ (b : OrderBook) (a : Incoming) where
  pub matched_book-Agrees : Agrees b → Agrees (matched_book b a)
  unfolding matched_book
  matched_book-Agrees h id loc e = ground (
    arith,
    h id loc,
    match_levels-index b.symbol_id a (against b a.side) a.quantity b.index id loc e,
    match_levels-id_in b.symbol_id a (against b a.side) a.quantity b.index loc.price id loc.it loc,
  )

  matched_book-IsIndexed : IsIndexed b → IsIndexed (matched_book b a)
  unfolding matched_book
  matched_book-IsIndexed h = record {
    agrees = matched_book-Agrees h.agrees;
    bids_below = ground (
      arith,
      h.bids_below,
      match_levels-AreBelow b.symbol_id a b.next_node b.bids a.quantity b.index h.bids_below,
    );
    asks_below = ground (
      arith,
      h.asks_below,
      match_levels-AreBelow b.symbol_id a b.next_node b.asks a.quantity b.index h.asks_below,
    );
  }

-- A new order of `InsertResting` that its address leads to is indexed.
pub insert_resting-Agrees :
    (b : OrderBook) (o : Order)
    → IsSorted true b.bids
    → IsSorted false b.asks
    → Agrees b
    → id_in o.price b.next_node (
        upsert true fresh_level
          (push_order o.price (record { it = b.next_node; order = o }))
          o.price
          b.bids)
      ≡ some o.id
    → id_in o.price b.next_node (
        upsert false fresh_level
          (push_order o.price (record { it = b.next_node; order = o }))
          o.price
          b.asks)
      ≡ some o.id
    → Agrees (insert_resting b o)
unfolding insert_resting
insert_resting-Agrees b o s t k new_bid new_ask id loc e =
    let node : Node = record { it = b.next_node; order = o } in
    elim (Bool-cases (o.id == id)) [
      | inl t ↦
          let same : o.id ≡ id = ground arith in
          let here : record { side = o.side; price = o.price; it = b.next_node } ≡ loc = cc (
            t,
            find-insert o.id id (record { side = o.side; price = o.price; it = b.next_node })
                b.index,
          ) in
          ground (arith, here, new_bid, new_ask)
      | inr f ↦ ground (
        arith,
        find-insert o.id id (record { side = o.side; price = o.price; it = b.next_node }) b.index,
        k id loc,
        id_in-push true o.price loc.price node loc.it id b.bids s,
        id_in-push false o.price loc.price node loc.it id b.asks t,
      )
    ]

pub insert_resting-IsIndexed :
    (b : OrderBook) (o : Order) → IsBook b → IsIndexed b → IsIndexed (insert_resting b o)
unfolding insert_resting
insert_resting-IsIndexed b o h k =
    let node : Node = record { it = b.next_node; order = o } in
    record {
      agrees =
          insert_resting-Agrees b o h.bids.sorted h.asks.sorted k.agrees
            (id_in-pushed true o.price node b.bids h.bids.sorted k.bids_below)
            (id_in-pushed false o.price node b.asks h.asks.sorted k.asks_below);
      bids_below = ground (
        arith,
        AreBelow-suc b.next_node b.bids k.bids_below,
        AreBelow-push (b.next_node + 1) true o.price node b.bids (omega arith)
            (AreBelow-suc b.next_node b.bids k.bids_below),
      );
      asks_below = ground (
        arith,
        AreBelow-suc b.next_node b.asks k.asks_below,
        AreBelow-push (b.next_node + 1) false o.price node b.asks (omega arith)
            (AreBelow-suc b.next_node b.asks k.asks_below),
      );
    }

accept_order-IsIndexed :
    (b : OrderBook) (a : Incoming) → IsBook b → IsIndexed b → IsIndexed (accept_order b a).1
unfolding accept_order
accept_order-IsIndexed b a h k =
    let m = match_levels b.symbol_id a (against b a.side) a.quantity b.index in
    let left = matched_book-IsIndexed b a k in
    elim (Bool-cases (can_rest a m.remaining)) [
      | inl t ↦ rw t (
          insert_resting-IsIndexed (matched_book b a) (resting_order b a m.remaining)
            (matched_book-IsBook b a h) left)
      | inr t ↦ rw t left
    ]

pub add_order-IsIndexed :
    (b : OrderBook) (a : Incoming) → IsBook b → IsIndexed b → IsIndexed (add_order b a).1
unfolding add_order
add_order-IsIndexed b a h k = elim (Option-cases (reject_of b a)) [
  | inl e ↦ rw (e, add_order) (accept_order-IsIndexed b a h k)
  | inr (reason, e) ↦ rw (e, add_order) k
]
