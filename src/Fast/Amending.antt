-- ===== src/Fast/Amending.antt =====
-- The amendment in place of the pooled book does what that of the reference book does.
use order_book_matching_engi.Common.{
  ℕ, ◌-◌, ◌≡◌, refl, sym, ◌∙◌, ◌==◌, ==_refl, Bool, true, false, is_empty, Bool-cases, inl, inr,
  none, some, List, arith,
}
use order_book_matching_engi.Common.Words.{sub64}
use order_book_matching_engi.Types.{Price, Order, OrderId, Quantity, is_buy}
use order_book_matching_engi.Levels
use order_book_matching_engi.Levels.Laws.{IsSorted}
use order_book_matching_engi.Pool.{live, store, put}
use order_book_matching_engi.Pool.FreeList.{IsPool}
use order_book_matching_engi.Naive
use order_book_matching_engi.Naive.{Locator, find_node}
use order_book_matching_engi.Naive.Books.{IsBook}
use order_book_matching_engi.Naive.Amend
use order_book_matching_engi.Naive.Amend.{resize_node}
use order_book_matching_engi.Fast
use order_book_matching_engi.Fast.{NodePool}
use order_book_matching_engi.Fast.Book
use order_book_matching_engi.Fast.Cells.{has, cell_at, prev_of, next_of, find_node-has}
use order_book_matching_engi.Fast.Removing.{apart, flip, put_other}
use order_book_matching_engi.Fast.Rounds.{store-IsPool}
use order_book_matching_engi.Fast.Queues.{BookSide, nodes, Queues, Queues-undisturbed}
use order_book_matching_engi.Fast.Resting.{Split, Split-sym}
use order_book_matching_engi.Fast.Shrinking.{
  not_found, Queues-found, was_in, nodes-shrunk, Queues-shrunk,
}
use order_book_matching_engi.Fast.Resized.{
  resize_filled, resize_node-has, resize_node-length, level_of-resize, Cells-resize,
  upsert-levels_as, upsert_found,
}
use order_book_matching_engi.Fast.Image.{book_of, IsHeld}
use order_book_matching_engi.Fast.Finding.{IsFound}

module _ (bids : Bool) (ls other : BookSide) (pool : NodePool) (ps : List ℕ) (p : Price) (it : ℕ)
    (l : Naive.PriceLevel) (o : Order) (delta r q : Quantity) (h : IsPool pool ps)
    (c : Queues pool.slots ls) (d : Queues pool.slots other) (sorted : IsSorted bids ls)
    (split : Split ls other) (f : Levels.find p ls ≡ some l)
    (g : find_node it l.orders ≡ some o) where
  abbrev resize : Naive.PriceLevel → Naive.PriceLevel
  resize l = record l {
    total_quantity = sub64 l.total_quantity delta;
    orders = resize_node it r q l.orders;
  }

  abbrev resized_side : BookSide
  resized_side = Levels.upsert bids Naive.fresh_level resize p ls

  abbrev resized_node : Fast.Node
  resized_node = record {
    order = record o { remaining_quantity = r; quantity = q };
    prev = prev_of it none l.orders;
    next = next_of it l.orders;
  }

  -- The order changes in its slot and in its level.
  resize_side :
      IsPool (store pool it resized_node) ps
      × Queues (store pool it resized_node).slots resized_side
      × Queues (store pool it resized_node).slots other
      × Split resized_side other
      × (nodes resized_side ≡ nodes ls)
  unfolding store
  resize_side =
      let here = find_node-has it l.orders o g in
      let cells = Queues-found pool.slots p l ls c f in
      let same : (x : ℕ)
          → (it == x) ≡ false
          → put pool.slots it (live resized_node) x ≡ pool.slots x =
        λ x i. put_other pool.slots it x (live resized_node) i in
      let within : (x : ℕ) → has x l.orders ≡ false → has x (resize l).orders ≡ false =
        λ x i. resize_node-has it r q x l.orders ∙ i in
      let apart_found : (x : ℕ) → has x l.orders ≡ false → (it == x) ≡ false =
        λ x i. flip x it (apart x it l.orders i here) in
      let filled : is_empty (resize l).orders ≡ false = resize_filled it r q l.orders here in
      rw (upsert_found bids p resize l ls sorted f filled) (
        store-IsPool pool it _ resized_node ps h (cell_at pool.slots it none l.orders o cells g),
        Queues-shrunk bids p l (resize l) within pool.slots _ ls sorted f c
            (Cells-resize it r q pool.slots _ none l.orders o cells g (rw (==_refl it) refl) same)
            (λ x i j. same x (apart_found x j)),
        Queues-undisturbed pool.slots _ other d
            (λ x i. same x (apart_found x (not_found p l x ls f (Split-sym ls other split x i)))),
        λ x i. split x (was_in bids p l (resize l) within x ls sorted f i),
        omega (
          arith,
          nodes-shrunk bids p l (resize l) within ls sorted f,
          resize_node-length it r q l.orders,
        ),
      )

module _ (b : Naive.OrderBook) (pool : NodePool) (ps : List ℕ) (id : OrderId) (loc : Locator)
    (new_quantity : Quantity) (k : IsBook b) (h : IsHeld b.bids b.asks pool ps)
    (found : IsFound b pool loc id) where
  abbrev amended_book : Naive.OrderBook
  amended_book = Amend.amend_in_place b loc found.order new_quantity

  abbrev found_node : Fast.Node
  found_node = record {
    order = found.order;
    prev = prev_of loc.it none found.level.orders;
    next = next_of loc.it found.level.orders;
  }

  abbrev Amends : Type 0
  Amends =
      (pool' : NodePool) × (Book.amend_in_place (book_of b pool) loc.it found_node new_quantity
        ≡ book_of amended_book pool')
      × IsHeld amended_book.bids amended_book.asks pool' ps
      × (pool'.capacity ≡ pool.capacity)

  amend_bid : is_buy loc.side ≡ true → Amends
  unfolding Amend.amend_in_place Book.amend_in_place store
  amend_bid e =
      let f : Levels.find loc.price b.bids ≡ some found.level = rw e at found.in_level in
      let delta = found.order.remaining_quantity - new_quantity in
      let q = sub64 found.order.quantity delta in
      let (is_pool, here, there, split, counted) =
        resize_side true b.bids b.asks pool ps loc.price loc.it found.level found.order delta
          new_quantity q h.is_pool h.bids_held h.asks_held k.bids.sorted h.apart f found.in_queue in
      (
        store pool loc.it (
            resized_node true b.bids b.asks pool ps loc.price loc.it found.level found.order delta
              new_quantity q h.is_pool h.bids_held h.asks_held k.bids.sorted h.apart f
              found.in_queue),
        rw
            (
              found.side,
              e,
              found.price,
              upsert-levels_as true loc.price
                  (λ (l : Naive.PriceLevel). record l {
                    total_quantity = sub64 l.total_quantity delta;
                    orders = resize_node loc.it new_quantity q l.orders;
                  })
                  (λ (l : Fast.PriceLevel). record l {
                    total_quantity = sub64 l.total_quantity delta;
                  })
                  b.bids
                  (λ l.
                    sym (level_of-resize loc.it new_quantity q l (sub64 l.total_quantity delta))),
            )
            refl,
        rw e (record {
          is_pool = is_pool;
          bids_held = here;
          asks_held = there;
          apart = split;
          counted = omega (arith, counted, h.counted);
        }),
        refl,
      )

  amend_ask : is_buy loc.side ≡ false → Amends
  unfolding Amend.amend_in_place Book.amend_in_place store
  amend_ask e =
      let f : Levels.find loc.price b.asks ≡ some found.level = rw e at found.in_level in
      let delta = found.order.remaining_quantity - new_quantity in
      let q = sub64 found.order.quantity delta in
      let (is_pool, here, there, split, counted) =
        resize_side false b.asks b.bids pool ps loc.price loc.it found.level found.order delta
          new_quantity q h.is_pool h.asks_held h.bids_held k.asks.sorted
          (Split-sym b.bids b.asks h.apart) f found.in_queue in
      (
        store pool loc.it (
            resized_node false b.asks b.bids pool ps loc.price loc.it found.level found.order delta
              new_quantity q h.is_pool h.asks_held h.bids_held k.asks.sorted
              (Split-sym b.bids b.asks h.apart) f found.in_queue),
        rw
            (
              found.side,
              e,
              found.price,
              upsert-levels_as false loc.price
                  (λ (l : Naive.PriceLevel). record l {
                    total_quantity = sub64 l.total_quantity delta;
                    orders = resize_node loc.it new_quantity q l.orders;
                  })
                  (λ (l : Fast.PriceLevel). record l {
                    total_quantity = sub64 l.total_quantity delta;
                  })
                  b.asks
                  (λ l.
                    sym (level_of-resize loc.it new_quantity q l (sub64 l.total_quantity delta))),
            )
            refl,
        rw e (record {
          is_pool = is_pool;
          bids_held = there;
          asks_held = here;
          apart =
              Split-sym
                (resized_side false b.asks b.bids pool ps loc.price loc.it found.level found.order
                  delta new_quantity q h.is_pool h.asks_held h.bids_held k.asks.sorted
                  (Split-sym b.bids b.asks h.apart) f found.in_queue)
                b.bids split;
          counted = omega (arith, counted, h.counted);
        }),
        refl,
      )

  pub amend_in_place-IsHeld : Amends
  amend_in_place-IsHeld = elim (Bool-cases (is_buy loc.side)) [
    | inl e ↦ amend_bid e
    | inr e ↦ amend_ask e
  ]
