-- ===== src/Naive/Replacing.antt =====
-- `ModifyOrder` on a book whose index is right.
use order_book_matching_engi.Common.{
  ℕ, ◌-◌, ◌≡◌, ◌⊎◌, refl, ◌==◌, true, false, ◌&&◌, leb, some, Option-cases, Bool-cases, inl, inr,
  arith,
}
use order_book_matching_engi.Common.Int.{ℤ, leb_ℤ, eqb_ℤ}
use order_book_matching_engi.Common.Words.{IsU64, sub64}
use order_book_matching_engi.Common.Keyed
use order_book_matching_engi.Types.{Price, OrderId, Order, Quantity, RejectReason}
use order_book_matching_engi.Naive.{Locator, OrderBook, has_order, ModifyResult}
use order_book_matching_engi.Naive.Operations.{add_order}
use order_book_matching_engi.Naive.Amend.{
  refused_modify, replacement, replaced, amended, amend_in_place, modify_found, modify_order,
}
use order_book_matching_engi.Naive.Books.{IsBook}
use order_book_matching_engi.Naive.Resizing.{modify_order-IsBook}
use order_book_matching_engi.Naive.Index.Sides.{id_in-resize, AreBelow-resize}
use order_book_matching_engi.Naive.Indexed.{Agrees, IsIndexed, deref-id_in, add_order-IsIndexed}
use order_book_matching_engi.Naive.Cancelling.{remove_from_book_lem}

pub amend_in_place-Agrees :
    (b : OrderBook) (loc : Locator) (o : Order) (new_quantity : Quantity)
    → IsBook b
    → Agrees b
    → Agrees (amend_in_place b loc o new_quantity)
unfolding amend_in_place
amend_in_place-Agrees b loc o new_quantity h k id loc' e =
    let delta = o.remaining_quantity - new_quantity in
    let size = sub64 o.quantity delta in
    ground (
      arith,
      k id loc',
      id_in-resize true loc.price loc'.price loc'.it loc.it id delta new_quantity size b.bids
          h.bids.sorted,
      id_in-resize false loc.price loc'.price loc'.it loc.it id delta new_quantity size b.asks
          h.asks.sorted,
    )

amend_in_place-IsIndexed :
    (b : OrderBook) (loc : Locator) (o : Order) (new_quantity : Quantity)
    → IsBook b
    → IsIndexed b
    → IsIndexed (amend_in_place b loc o new_quantity)
unfolding amend_in_place
amend_in_place-IsIndexed b loc o new_quantity h k =
    let delta = o.remaining_quantity - new_quantity in
    let size = sub64 o.quantity delta in
    record {
      agrees = amend_in_place-Agrees b loc o new_quantity h k.agrees;
      bids_below = ground (
        arith,
        k.bids_below,
        AreBelow-resize b.next_node true loc.price loc.it delta new_quantity size b.bids
            k.bids_below,
      );
      asks_below = ground (
        arith,
        k.asks_below,
        AreBelow-resize b.next_node false loc.price loc.it delta new_quantity size b.asks
            k.asks_below,
      );
    }

modify_found_lem :
    (b : OrderBook) (id : OrderId) (loc : Locator) (o : Order) (new_price : Price)
    (new_quantity seq ts : ℕ)
    → IsBook b
    → IsIndexed b
    → Keyed.find id b.index ≡ some loc
    → (r : ModifyResult) × (b' : OrderBook) × (modify_found b id loc o new_price new_quantity seq ts
        ≡ some (r, b'))
      × IsIndexed b'
unfolding modify_found
modify_found_lem b id loc o new_price new_quantity seq ts h k e =
    elim (Bool-cases (eqb_ℤ new_price o.price && leb new_quantity o.remaining_quantity)) [
      | inl t ↦ rw t (
        amended new_quantity,
        amend_in_place b loc o new_quantity,
        refl,
        amend_in_place-IsIndexed b loc o new_quantity h k,
      )
      | inr t ↦
          let (c, removed, h', k', _) = remove_from_book_lem b loc id h k e in
          let a = replacement id o new_price new_quantity seq ts in
          rw (t, removed)
            (replaced (add_order c a).0, (add_order c a).1, refl, add_order-IsIndexed c a h' k')
    ]

-- On a well-formed and indexed book, and with a quantity in range, `ModifyOrder` returns, and the
-- book is well formed and indexed after it. It refuses an order that the book does not have, and
-- changes nothing then.
pub modify_order_lem :
    (b : OrderBook) (id : OrderId) (new_price : Price) (new_quantity seq ts : ℕ)
    → IsBook b
    → IsIndexed b
    → IsU64 new_quantity
    → (r : ModifyResult) × (b' : OrderBook) × (modify_order b id new_price new_quantity seq ts
        ≡ some (r, b'))
      × ((has_order b id ≡ true) ⊎ ((r ≡ refused_modify RejectReason.unknown_order) × (b' ≡ b)))
      × IsBook b'
      × IsIndexed b'
unfolding modify_order has_order
modify_order_lem b id new_price new_quantity seq ts h k u =
    elim (Option-cases (Keyed.find id b.index)) [
      | inl e ↦ (refused_modify RejectReason.unknown_order, b, ground arith, inr (refl, refl), h, k)
      | inr (loc, e) ↦
          let there : has_order b id ≡ true = ground arith in
          elim (Bool-cases (new_quantity == 0)) [
            | inl q ↦
                (refused_modify RejectReason.invalid_quantity, b, ground arith, inl there, h, k)
            | inr q ↦ elim (Bool-cases (leb_ℤ new_price (ℤ.pos 0))) [
              | inl p ↦
                  (refused_modify RejectReason.invalid_price, b, ground arith, inl there, h, k)
              | inr p ↦
                  let (o, d, _) = deref-id_in b loc id (k.agrees id loc e) in
                  let (r, b', found, k') =
                    modify_found_lem b id loc o new_price new_quantity seq ts h k e in
                  let done : modify_order b id new_price new_quantity seq ts ≡ some (r, b') =
                    ground arith in
                  (
                    r,
                    b',
                    done,
                    inl there,
                    modify_order-IsBook b b' id new_price new_quantity seq ts r h u done,
                    k',
                  )
            ]
          ]
    ]
