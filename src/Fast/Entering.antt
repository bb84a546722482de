-- ===== src/Fast/Entering.antt =====
-- `AddOrder` of the pooled book and of the reference book side by side.
use order_book_matching_engi.Common.{
  ℕ, ◌-◌, ◌≡◌, refl, ap, ap₂, subst, ◌∙◌, ◌<◌, ◌+◌, ◌==◌, [], Bool, true, false, ◌&&◌, Bool-cases,
  inl, inr, none, some, Option-cases, List, arith,
}
use order_book_matching_engi.Types.{Order, RejectReason}
use order_book_matching_engi.Levels.Laws.{IsSorted}
use order_book_matching_engi.Naive
use order_book_matching_engi.Naive.Matching.{Incoming}
use order_book_matching_engi.Naive.Books.{IsBook, matched_book-IsBook}
use order_book_matching_engi.Naive.Indexed.{Agrees, matched_book-Agrees}
use order_book_matching_engi.Naive.Operations
use order_book_matching_engi.Naive.Operations.{matched_book}
use order_book_matching_engi.Fast.{NodePool}
use order_book_matching_engi.Fast.Book
use order_book_matching_engi.Fast.Image.{book_of, IsHeld, reject_of-book_of}
use order_book_matching_engi.Fast.Queues.{nodes}
use order_book_matching_engi.Fast.Spending.{matched_book_spends}
use order_book_matching_engi.Fast.Trading.{matched_book-IsHeld, is_full, accept_after}
use order_book_matching_engi.Fast.Adding.{
  Simulates, Accepts, left_after, trades_after, accept_resting, accept_unrested, accept_full,
}

-- The pool is empty when the order has to rest.
abbrev pub lacks_slot : Naive.OrderBook → Incoming → ℕ → Bool
lacks_slot b a capacity = elim (Operations.reject_of b a) [
  | none ↦ is_full b a capacity
  | some reason ↦ false
]

both : (x y : Bool) → (x && y) ≡ true → (x ≡ true) × (y ≡ true)
both true y e = (refl, e)
both false y e = absurd cc

equal : (x y : ℕ) → (x == y) ≡ true → x ≡ y
equal x y e = ground arith

rests : (a : Incoming) (remaining : ℕ) → Operations.can_rest a remaining ≡ true → 0 < remaining
rests a remaining e = ground arith

-- What a book without a slot has left to rest, and its orders.
full_counts :
    (b : Naive.OrderBook) (a : Incoming) (capacity : ℕ)
    → is_full b a capacity ≡ true
    → (0 < left_after b 0 a)
      × (nodes (matched_book b a).bids + nodes (matched_book b a).asks ≡ capacity)
full_counts b a capacity e = let (r, c) = both _ _ e in (rests a (left_after b 0 a) r, equal _ _ c)

reject_of_at :
    (b : Naive.OrderBook) (it : ℕ) (a : Incoming)
    → Operations.reject_of (record b { next_node = it }) a ≡ Operations.reject_of b a
unfolding Operations.reject_of Naive.has_order
reject_of_at b it a = refl

abbrev sorted_after :
    (b : Naive.OrderBook) (a : Incoming)
    → IsBook b
    → IsSorted true (matched_book b a).bids × IsSorted false (matched_book b a).asks
sorted_after b a k = let left = matched_book-IsBook b a k in (left.bids.sorted, left.asks.sorted)

module _ (b : Naive.OrderBook) (a : Incoming) where
  rejected_at :
      (it : ℕ) (reason : RejectReason)
      → Operations.reject_of b a ≡ some reason
      → Operations.add_order (record b { next_node = it }) a
        ≡ (Operations.rejected_add reason, record b { next_node = it })
  unfolding Operations.add_order
  rejected_at it reason e = rw (reject_of_at b it a, e, Operations.add_order) refl

  accepted_at :
      (it : ℕ)
      → Operations.reject_of b a ≡ none
      → Operations.add_order (record b { next_node = it }) a
        ≡ Operations.accept_order (record b { next_node = it }) a
  unfolding Operations.add_order
  accepted_at it e = rw (reject_of_at b it a, e, Operations.add_order) refl

  pooled_rejected :
      (pool : NodePool) (reason : RejectReason)
      → Operations.reject_of b a ≡ some reason
      → Book.add_order (book_of b pool) a ≡ some (Operations.rejected_add reason, book_of b pool)
  unfolding Book.add_order
  pooled_rejected pool reason e = rw (reject_of-book_of b pool a, e, Book.add_order) refl

  pooled_accepted :
      (pool : NodePool)
      → Operations.reject_of b a ≡ none
      → Book.add_order (book_of b pool) a ≡ Book.accept_order (book_of b pool) a
  unfolding Book.add_order
  pooled_accepted pool e = rw (reject_of-book_of b pool a, e, Book.add_order) refl

  module _ (pool : NodePool) (ps : List ℕ) (k : IsBook b) (h : IsHeld b.bids b.asks pool ps)
      (g : Agrees b) where
    -- On the pooled book of a well-formed and indexed reference book, unless the pool is empty when
    -- the order has to rest, `AddOrder` gives the result of the reference book and the pooled book of
    -- what that becomes, for the slot of a new node.
    pub add_order-Simulates :
        lacks_slot b a pool.capacity ≡ false
        → (it : ℕ) × Simulates
            (Operations.add_order (record b { next_node = it }) a)
            (Book.add_order (book_of b pool) a)
            pool.capacity
    add_order-Simulates f = elim (Option-cases (Operations.reject_of b a)) [
      | inr (reason, e) ↦ (
        0,
        rw (rejected_at 0 reason e) (record {
          pool = pool;
          frees = ps;
          same = pooled_rejected pool reason e;
          held = h;
          capacity = refl;
          agrees = g;
        }),
      )
      | inl e ↦
          let (pool1, ps1, run, held, kept) = matched_book-IsHeld b pool ps a h in
          let sorted = sorted_after b a k in
          let still = matched_book-Agrees b a g in
          let after = accept_after b pool pool1 a run in
          let full : is_full b a pool.capacity ≡ false = rw (e, lacks_slot) at f in
          let (it, done) =
            elim (Bool-cases (Operations.can_rest a (left_after b 0 a)))
              as (λ _. Accepts b a sorted still pool pool.capacity) [
                | inl r ↦
                    accept_resting b a sorted still pool pool1 ps1 pool.capacity after held kept r
                      full
                | inr r ↦
                    accept_unrested b a sorted still pool pool1 ps1 pool.capacity after held kept r
              ] in
          (it, rw (accepted_at it e, pooled_accepted pool e) done)
    ]

    outcome_without_slot :
        lacks_slot b a pool.capacity ≡ true
        → Simulates
            (
              Book.rested_result none
                  (Operations.resting_order b a (left_after b 0 a))
                  (a.quantity - left_after b 0 a)
                  (trades_after b 0 a),
              matched_book b a,
            )
            (Book.add_order (book_of b pool) a)
            pool.capacity
    outcome_without_slot f = elim (Option-cases (Operations.reject_of b a)) [
      | inr (reason, e) ↦ let no : false ≡ true = rw (e, lacks_slot) at f in absurd cc
      | inl e ↦
          let (pool1, ps1, run, held, kept) = matched_book-IsHeld b pool ps a h in
          let full : is_full b a pool.capacity ≡ true = rw (e, lacks_slot) at f in
          rw (pooled_accepted pool e) (
            accept_full b a (sorted_after b a k) (matched_book-Agrees b a g) pool pool1 ps1
              pool.capacity (accept_after b pool pool1 a run) held kept full)
    ]

    -- Trades would have given slots back.
    untraded :
        lacks_slot b a pool.capacity ≡ true
        → (left_after b 0 a ≡ a.quantity) × (trades_after b 0 a ≡ []) × (matched_book b a ≡ b)
    untraded f = elim (Option-cases (Operations.reject_of b a)) [
      | inr (reason, e) ↦ let no : false ≡ true = rw (e, lacks_slot) at f in absurd cc
      | inl e ↦
          let full : is_full b a pool.capacity ≡ true = rw (e, lacks_slot) at f in
          let (left, counted) = full_counts b a pool.capacity full in
          elim (matched_book_spends b a k left) [
            | inl (same, still) ↦ (ap (λ m. m.remaining) same, ap (λ m. m.trades) same, still)
            | inr fewer ↦ absurd (omega (arith, fewer, counted, h.counted, h.is_pool.counted))
          ]
    ]

    nothing_filled :
        (o : Order)
        → Book.rested_result none o (a.quantity - a.quantity) []
          ≡ Operations.rejected_add RejectReason.pool_exhausted
    unfolding Book.rested_result
    nothing_filled o = ground arith

    -- On the pooled book of a well-formed and indexed reference book, when an order that passes the
    -- checks has to rest and the pool is empty, `AddOrder` made no trade: it refuses the order
    -- for the pool, and the book holds what it held.
    pub add_order_without_slot :
        lacks_slot b a pool.capacity ≡ true
        → Simulates
            (Operations.rejected_add RejectReason.pool_exhausted, b)
            (Book.add_order (book_of b pool) a)
            pool.capacity
    add_order_without_slot f =
        let (left, trades, still) = untraded f in
        let o = Operations.resting_order b a (left_after b 0 a) in
        subst (λ r. Simulates r (Book.add_order (book_of b pool) a) pool.capacity)
          (ap₂ (λ x y. (Book.rested_result none o (a.quantity - x) y, matched_book b a)) left trades
            ∙ ap₂ (λ x y. (x, y)) (nothing_filled o) still)
          (outcome_without_slot f)
