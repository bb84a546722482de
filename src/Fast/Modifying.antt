-- ===== src/Fast/Modifying.antt =====
-- The checks of `ModifyOrder` in the two books, and the slots that a replacement can count on.
use order_book_matching_engi.Common.{
  ℕ, ◌+◌, ◌<◌, ◌≤◌, ◌≡◌, refl, ◌==◌, true, false, Bool-cases, inl, inr, none, some, Option-cases,
  List, ◌∷◌, arith,
}
use order_book_matching_engi.Common.Int.{ℤ, leb_ℤ}
use order_book_matching_engi.Common.Keyed
use order_book_matching_engi.Types
use order_book_matching_engi.Types.{Price, Order, OrderId, Quantity, is_buy}
use order_book_matching_engi.Naive
use order_book_matching_engi.Naive.{Locator, find_node, deref, AddResult, ModifyResult}
use order_book_matching_engi.Naive.Matching.{Incoming}
use order_book_matching_engi.Naive.Indexed.{Agrees}
use order_book_matching_engi.Naive.Operations
use order_book_matching_engi.Naive.Operations.{matched_book}
use order_book_matching_engi.Naive.Amend
use order_book_matching_engi.Fast
use order_book_matching_engi.Fast.{NodePool}
use order_book_matching_engi.Fast.Book
use order_book_matching_engi.Fast.Cells.{prev_of, next_of}
use order_book_matching_engi.Fast.Queues.{nodes}
use order_book_matching_engi.Fast.Resized.{match_levels-nodes}
use order_book_matching_engi.Fast.Image.{book_of, IsHeld, find-links}
use order_book_matching_engi.Fast.Adding.{Simulates}
use order_book_matching_engi.Fast.Entering.{lacks_slot}
use order_book_matching_engi.Fast.Leaving.{load_live}
use order_book_matching_engi.Fast.Finding.{IsFound}

-- Trading frees slots and takes none.
matched_book-nodes :
    (b : Naive.OrderBook) (a : Incoming)
    → nodes (matched_book b a).bids + nodes (matched_book b a).asks ≤ nodes b.bids + nodes b.asks
unfolding matched_book
matched_book-nodes b a = elim (Bool-cases (is_buy a.side)) [
  | inl e ↦ rw e (omega (arith, match_levels-nodes b.symbol_id a b.asks a.quantity b.index))
  | inr e ↦ rw e (omega (arith, match_levels-nodes b.symbol_id a b.bids a.quantity b.index))
]

-- With a free slot no order lacks one.
pub lacks_slot_free :
    (b : Naive.OrderBook) (pool : NodePool) (ps : List ℕ) (p : ℕ) (a : Incoming)
    → IsHeld b.bids b.asks pool (p ∷ ps)
    → lacks_slot b a pool.capacity ≡ false
lacks_slot_free b pool ps p a h =
    let fewer = matched_book-nodes b a in
    let free_one : nodes b.bids + nodes b.asks < pool.capacity =
      omega (arith, h.is_pool.counted, h.counted) in
    let other : (nodes (matched_book b a).bids + nodes (matched_book b a).asks == pool.capacity)
        ≡ false =
      ground arith in
    elim (Option-cases (Operations.reject_of b a)) [
      | inl e ↦ rw (e, lacks_slot) (ground (arith, other))
      | inr (reason, e) ↦ rw (e, lacks_slot) refl
    ]

module _ (b : Naive.OrderBook) (pool : NodePool) (id : OrderId) (new_price : Price)
    (new_quantity seq ts : ℕ) where
  abbrev pub Modifies : Type 0
  Modifies =
      (it : ℕ) × (r : ModifyResult × Naive.OrderBook) × (Amend.modify_order
          (record b { next_node = it }) id new_price new_quantity seq ts
        ≡ some r)
      × Simulates r (Book.modify_order (book_of b pool) id new_price new_quantity seq ts)
          pool.capacity

  pub refused :
      (reason : Types.RejectReason) (ps : List ℕ)
      → IsHeld b.bids b.asks pool ps
      → Agrees b
      → Amend.modify_order (record b { next_node = 0 }) id new_price new_quantity seq ts
        ≡ some (Amend.refused_modify reason, record b { next_node = 0 })
      → Book.modify_order (book_of b pool) id new_price new_quantity seq ts
        ≡ some (Amend.refused_modify reason, book_of b pool)
      → Modifies
  refused reason ps h g same pooled = (
    0,
    (Amend.refused_modify reason, record b { next_node = 0 }),
    same,
    record { pool = pool; frees = ps; same = pooled; held = h; capacity = refl; agrees = g },
  )

  -- The checks of `ModifyOrder`.
  pub refuses_unknown :
      Keyed.find id b.index ≡ none
      → (Amend.modify_order (record b { next_node = 0 }) id new_price new_quantity seq ts
          ≡ some
              (Amend.refused_modify Types.RejectReason.unknown_order, record b { next_node = 0 }))
        × (Book.modify_order (book_of b pool) id new_price new_quantity seq ts
            ≡ some (Amend.refused_modify Types.RejectReason.unknown_order, book_of b pool))
  unfolding Amend.modify_order Book.modify_order
  refuses_unknown e =
      (rw (e, Amend.modify_order) refl, rw (find-links id b.index, e, Book.modify_order) refl)

  module _ (loc : Locator) (e : Keyed.find id b.index ≡ some loc) where
    pub refuses_quantity :
        (new_quantity == 0) ≡ true
        → (Amend.modify_order (record b { next_node = 0 }) id new_price new_quantity seq ts
            ≡ some (
              Amend.refused_modify Types.RejectReason.invalid_quantity,
              record b { next_node = 0 },
            ))
          × (Book.modify_order (book_of b pool) id new_price new_quantity seq ts
              ≡ some (Amend.refused_modify Types.RejectReason.invalid_quantity, book_of b pool))
    unfolding Amend.modify_order Book.modify_order
    refuses_quantity q = (
      rw (e, Amend.modify_order) (rw q refl),
      rw (find-links id b.index, e, Book.modify_order) (ground (arith, q)),
    )

    pub refuses_price :
        (new_quantity == 0) ≡ false
        → leb_ℤ new_price (ℤ.pos 0) ≡ true
        → (Amend.modify_order (record b { next_node = 0 }) id new_price new_quantity seq ts
            ≡ some
                (Amend.refused_modify Types.RejectReason.invalid_price, record b { next_node = 0 }))
          × (Book.modify_order (book_of b pool) id new_price new_quantity seq ts
              ≡ some (Amend.refused_modify Types.RejectReason.invalid_price, book_of b pool))
    unfolding Amend.modify_order Book.modify_order
    refuses_price q p = (
      rw (e, Amend.modify_order) (ground (arith, q, p)),
      rw (find-links id b.index, e, Book.modify_order) (ground (arith, q, p)),
    )

    module _ (found : IsFound b pool loc id) where
      abbrev pub found_node : Fast.Node
      found_node = record {
        order = found.order;
        prev = prev_of loc.it none found.level.orders;
        next = next_of loc.it found.level.orders;
      }

      pub passes :
          (it : ℕ)
          → (new_quantity == 0) ≡ false
          → leb_ℤ new_price (ℤ.pos 0) ≡ false
          → (Amend.modify_order (record b { next_node = it }) id new_price new_quantity seq ts
              ≡ Amend.modify_found
                  (record b { next_node = it })
                  id
                  loc
                  found.order
                  new_price
                  new_quantity
                  seq
                  ts)
            × (Book.modify_order (book_of b pool) id new_price new_quantity seq ts
                ≡ Book.modify_found
                    (book_of b pool)
                    id
                    loc.it
                    found_node
                    new_price
                    new_quantity
                    seq
                    ts)
      unfolding Amend.modify_order Book.modify_order deref
      passes it q p = (
        rw (e, Amend.modify_order) (rw (q, p) (rw found.in_level (rw found.in_queue refl))),
        rw (find-links id b.index, e, Book.modify_order)
            (rw (q, p) (rw (load_live pool loc.it found_node found.in_slot) refl)),
      )
