-- ===== src/Fast/Replacing.antt =====
-- `ModifyOrder` of the pooled book and of the reference book side by side.
use order_book_matching_engi.Common.{
  ℕ, ◌≡◌, refl, ap, ◌∙◌, ◌==◌, leb, Bool, true, false, ◌&&◌, Bool-cases, inl, inr, some,
  Option-cases, List, ◌∷◌,
}
use order_book_matching_engi.Common.Int.{ℤ, leb_ℤ, eqb_ℤ}
use order_book_matching_engi.Common.Keyed
use order_book_matching_engi.Types.{Price, OrderId, is_buy}
use order_book_matching_engi.Naive
use order_book_matching_engi.Naive.{Locator, find_node, AddResult, ModifyResult}
use order_book_matching_engi.Naive.Books.{IsBook}
use order_book_matching_engi.Naive.Indexed.{Agrees}
use order_book_matching_engi.Naive.Operations
use order_book_matching_engi.Naive.Amend
use order_book_matching_engi.Naive.Replacing.{amend_in_place-Agrees}
use order_book_matching_engi.Fast
use order_book_matching_engi.Fast.{NodePool}
use order_book_matching_engi.Fast.Book
use order_book_matching_engi.Fast.Image.{book_of, IsHeld}
use order_book_matching_engi.Fast.Adding.{Simulates}
use order_book_matching_engi.Fast.Entering.{add_order-Simulates}
use order_book_matching_engi.Fast.Leaving.{removed, remove_reference}
use order_book_matching_engi.Fast.Finding.{
  IsFound, find-IsFound, remove_from_book-Agrees, sorted_of,
}
use order_book_matching_engi.Fast.Amending.{amend_in_place-IsHeld}
use order_book_matching_engi.Fast.Modifying.{
  lacks_slot_free, Modifies, refused, refuses_unknown, refuses_quantity, refuses_price, found_node,
  passes,
}

-- The two branches of `ModifyOrder` of the pooled book.
module _ (b : Fast.OrderBook) (id : OrderId) (p : ℕ) (node : Fast.Node) (new_price : Price)
    (new_quantity seq ts : ℕ) where
  found_amends :
      (eqb_ℤ new_price node.order.price && leb new_quantity node.order.remaining_quantity) ≡ true
      → Book.modify_found b id p node new_price new_quantity seq ts
        ≡ some (Amend.amended new_quantity, Book.amend_in_place b p node new_quantity)
  unfolding Book.modify_found
  found_amends t = rw (t, Book.modify_found) refl

  found_replaces :
      (b' b'' : Fast.OrderBook) (r : AddResult)
      → (eqb_ℤ new_price node.order.price && leb new_quantity node.order.remaining_quantity) ≡ false
      → Book.remove_from_book b p node.order.side node.order.price id ≡ some b'
      → Book.add_order b' (Amend.replacement id node.order new_price new_quantity seq ts)
        ≡ some (r, b'')
      → Book.modify_found b id p node new_price new_quantity seq ts ≡ some (Amend.replaced r, b'')
  unfolding Book.modify_found
  found_replaces b' b'' r t removes adds = rw (t, Book.modify_found) (rw removes (rw adds refl))

module _ (b : Naive.OrderBook) (pool : NodePool) (ps : List ℕ) (loc : Locator) (id : OrderId)
    (h : IsHeld b.bids b.asks pool ps) (k : IsBook b) (found : IsFound b pool loc id) (it : ℕ) where
  abbrev gone : Naive.OrderBook
  gone =
      removed b pool ps loc id found.level found.order h (sorted_of b k) found.in_level
        found.in_queue

  -- The address of the next node does not matter for a removal.
  removed_at :
      Operations.remove_from_book (record b { next_node = it }) loc id
      ≡ some (record gone { next_node = it })
  removed_at =
      remove_reference (record b { next_node = it }) pool ps loc id found.level found.order h
        (sorted_of b k) found.in_level found.in_queue
      ∙ elim (Bool-cases (is_buy loc.side)) [ inl e ↦ rw e refl | inr e ↦ rw e refl ]

module _ (b : Naive.OrderBook) (pool : NodePool) (ps : List ℕ) (id : OrderId) (loc : Locator)
    (new_price : Price) (new_quantity seq ts : ℕ) (k : IsBook b) (h : IsHeld b.bids b.asks pool ps)
    (g : Agrees b) (e : Keyed.find id b.index ≡ some loc) (found : IsFound b pool loc id) where
  abbrev node : Fast.Node
  node = found_node b pool id new_price new_quantity seq ts loc e found

  abbrev in_place : Bool
  in_place = eqb_ℤ new_price found.order.price && leb new_quantity found.order.remaining_quantity

  abbrev Found : Type 0
  Found =
      (it : ℕ) × (r : ModifyResult × Naive.OrderBook) × (Amend.modify_found
          (record b { next_node = it }) id loc found.order new_price new_quantity seq ts
        ≡ some r)
      × Simulates r
          (Book.modify_found (book_of b pool) id loc.it node new_price new_quantity seq ts)
          pool.capacity

  modify_amends : in_place ≡ true → Found
  unfolding Amend.modify_found
  modify_amends t =
      let (pool', same, held, kept) =
        amend_in_place-IsHeld b pool ps id loc new_quantity k h found in
      (
        b.next_node,
        (Amend.amended new_quantity, Amend.amend_in_place b loc found.order new_quantity),
        rw t refl,
        record {
          pool = pool';
          frees = ps;
          same =
              found_amends (book_of b pool) id loc.it node new_price new_quantity seq ts t
              ∙ ap (λ x. some (Amend.amended new_quantity, x)) same;
          held = held;
          capacity = kept;
          agrees = amend_in_place-Agrees b loc found.order new_quantity k g;
        },
      )

  modify_replaces : in_place ≡ false → Found
  unfolding Amend.modify_found
  modify_replaces t =
      let (reference, pool1, run, held, kept, agrees, whole) =
        remove_from_book-Agrees b pool ps id loc k h g e found in
      let b' = gone b pool ps loc id h k found 0 in
      let a = Amend.replacement id found.order new_price new_quantity seq ts in
      let (it, done) =
        add_order-Simulates b' a pool1 (loc.it ∷ ps) whole held agrees
          (lacks_slot_free b' pool1 ps loc.it a held) in
      (
        it,
        (
          Amend.replaced (Operations.add_order (record b' { next_node = it }) a).0,
          (Operations.add_order (record b' { next_node = it }) a).1,
        ),
        rw t (rw (removed_at b pool ps loc id h k found it) refl),
        record {
          pool = done.pool;
          frees = done.frees;
          same =
              found_replaces (book_of b pool) id loc.it node new_price new_quantity seq ts
                (book_of b' pool1) _ _ t run done.same;
          held = done.held;
          capacity = done.capacity ∙ kept;
          agrees = done.agrees;
        },
      )

-- On the pooled book of a well-formed and indexed reference book `ModifyOrder` gives the result of
-- the reference book and the pooled book of what that becomes, for the slot of a new node; it never
-- lacks a slot.
pub modify_order-Simulates :
    (b : Naive.OrderBook) (pool : NodePool) (ps : List ℕ) (id : OrderId) (new_price : Price)
    (new_quantity seq ts : ℕ)
    → IsBook b
    → IsHeld b.bids b.asks pool ps
    → Agrees b
    → Modifies b pool id new_price new_quantity seq ts
modify_order-Simulates b pool ps id new_price new_quantity seq ts k h g =
    elim (Option-cases (Keyed.find id b.index)) [
      | inl e ↦
          let (same, pooled) = refuses_unknown b pool id new_price new_quantity seq ts e in
          refused b pool id new_price new_quantity seq ts _ ps h g same pooled
      | inr (loc, e) ↦ elim (Bool-cases (new_quantity == 0)) [
        | inl q ↦
            let (same, pooled) = refuses_quantity b pool id new_price new_quantity seq ts loc e q in
            refused b pool id new_price new_quantity seq ts _ ps h g same pooled
        | inr q ↦ elim (Bool-cases (leb_ℤ new_price (ℤ.pos 0))) [
          | inl p ↦
              let (same, pooled) =
                refuses_price b pool id new_price new_quantity seq ts loc e q p in
              refused b pool id new_price new_quantity seq ts _ ps h g same pooled
          | inr p ↦
              let found = find-IsFound b pool ps id loc k h g e in
              let (it, r, reference, done) : Found b pool ps id loc new_price new_quantity seq ts k
                  h g e found =
                elim (Bool-cases
                  (in_place b pool ps id loc new_price new_quantity seq ts k h g e found)) [
                    | inl t ↦
                        modify_amends b pool ps id loc new_price new_quantity seq ts k h g e found t
                    | inr t ↦
                        modify_replaces b pool ps id loc new_price new_quantity seq ts k h g e found
                          t
                  ] in
              let (same, pooled) =
                passes b pool id new_price new_quantity seq ts loc e found it q p in
              (
                it,
                r,
                same ∙ reference,
                record {
                  pool = done.pool;
                  frees = done.frees;
                  same = pooled ∙ done.same;
                  held = done.held;
                  capacity = done.capacity;
                  agrees = done.agrees;
                },
              )
        ]
      ]
    ]
