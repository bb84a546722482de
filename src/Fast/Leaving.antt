-- ===== src/Fast/Leaving.antt =====
-- `RemoveFromBook` of the pooled book does what that of the reference book does, and gives the slot
-- back to the pool.
use order_book_matching_engi.Common.{
  ℕ, ◌+◌, ◌≡◌, refl, ◌∙◌, ◌==◌, Bool, true, false, if◌then◌else◌, Bool-cases, inl, inr, none, some,
  List, ◌∷◌, arith,
}
use order_book_matching_engi.Common.Words.{sub64}
use order_book_matching_engi.Common.Keyed
use order_book_matching_engi.Types.{Price, Order, OrderId, Quantity, is_buy}
use order_book_matching_engi.Types
use order_book_matching_engi.Levels
use order_book_matching_engi.Levels.Laws.{IsSorted}
use order_book_matching_engi.Pool.{live, load, release}
use order_book_matching_engi.Pool.FreeList.{IsPool}
use order_book_matching_engi.Naive
use order_book_matching_engi.Naive.{Locator, find_node}
use order_book_matching_engi.Naive.Operations
use order_book_matching_engi.Naive.Operations.{erase_node, shrink_level}
use order_book_matching_engi.Fast
use order_book_matching_engi.Fast.{NodePool}
use order_book_matching_engi.Fast.Links.{unlink}
use order_book_matching_engi.Fast.Book
use order_book_matching_engi.Fast.Cells.{
  has, level_of, cell_at, find_node-has, prev_of, next_of, erase_node-has, erase_node-length,
}
use order_book_matching_engi.Fast.Removing.{remove-IsPool}
use order_book_matching_engi.Fast.Rounds.{links-erase}
use order_book_matching_engi.Fast.Queues.{BookSide, nodes, Queues, Queues-undisturbed}
use order_book_matching_engi.Fast.Image.{book_of, IsHeld, find-levels_of}
use order_book_matching_engi.Fast.Resting.{Split, Split-sym}
use order_book_matching_engi.Fast.Shrinking.{
  shrunk, shrunk-levels_of, not_found, Queues-found, was_in, nodes-shrunk, Queues-shrunk,
}

-- The level after the removal.
abbrev pub reduced_level : Naive.PriceLevel → ℕ → Order → Naive.PriceLevel
reduced_level l it o = record l {
  total_quantity = sub64 l.total_quantity o.remaining_quantity;
  orders = erase_node it l.orders;
}

module _ (bids : Bool) (ls other : BookSide) (pool : NodePool) (ps : List ℕ) (p : Price) (it : ℕ)
    (l : Naive.PriceLevel) (o : Order) (h : IsPool pool ps) (c : Queues pool.slots ls)
    (d : Queues pool.slots other) (sorted : IsSorted bids ls) (split : Split ls other)
    (counted : pool.in_use ≡ nodes ls + nodes other) (f : Levels.find p ls ≡ some l)
    (g : find_node it l.orders ≡ some o) where
  -- The node leaves its level, and its slot is free.
  remove_side :
      (pool1 : NodePool) × (pool2 : NodePool) × (unlink pool
          (level_of (record l { total_quantity = sub64 l.total_quantity o.remaining_quantity }))
          it
        ≡ some (pool1, level_of (reduced_level l it o)))
      × (release pool1 it ≡ some pool2)
      × IsPool pool2 (it ∷ ps)
      × Queues pool2.slots (shrunk bids p (reduced_level l it o) ls)
      × Queues pool2.slots other
      × Split (shrunk bids p (reduced_level l it o) ls) other
      × (pool2.in_use ≡ nodes (shrunk bids p (reduced_level l it o) ls) + nodes other)
      × (pool2.capacity ≡ pool.capacity)
  remove_side =
      let v = reduced_level l it o in
      let here = find_node-has it l.orders o g in
      let within : (q : ℕ) → has q l.orders ≡ false → has q v.orders ≡ false = λ q i.
        elim (Bool-cases (has q v.orders)) [
          | inl t ↦ absurd (cc (erase_node-has it q l.orders t, i))
          | inr t ↦ t
        ] in
      let fewer = erase_node-length it l.orders here in
      let counts = nodes-shrunk bids p l v within ls sorted f in
      let (pool1, pool2, unlinked, released, is_pool, left, outside, in_use, capacity) =
        remove-IsPool pool
          (record l { total_quantity = sub64 l.total_quantity o.remaining_quantity }) it o ps
          (Queues-found pool.slots p l ls c f) g h (omega (arith, counts, fewer, counted)) in
      (
        pool1,
        pool2,
        unlinked,
        released,
        is_pool,
        Queues-shrunk bids p l v within pool.slots pool2.slots ls sorted f c left
            (λ q i j. outside q j),
        Queues-undisturbed pool.slots pool2.slots other d
            (λ q i. outside q (not_found p l q ls f (Split-sym ls other split q i))),
        λ q i. split q (was_in bids p l v within q ls sorted f i),
        omega (arith, counts, fewer, counted, in_use),
        capacity,
      )

pub load_live :
    (pool : NodePool) (it : ℕ) (n : Fast.Node) → pool.slots it ≡ live n → load pool it ≡ some n
unfolding load
load_live pool it n e = rw (e, load) refl

-- `RemoveFromBook` of the pooled book on a node and a level.
remove_run :
    (b : Fast.OrderBook) (it : ℕ) (side : Types.Side) (p : Price) (id : OrderId)
    (l l1 : Fast.PriceLevel) (n : Fast.Node) (pool1 pool2 : NodePool)
    → Levels.find p (Fast.on_side b side) ≡ some l
    → b.pool.slots it ≡ live n
    → unlink b.pool
        (record l { total_quantity = sub64 l.total_quantity n.order.remaining_quantity })
        it
      ≡ some (pool1, l1)
    → release pool1 it ≡ some pool2
    → Book.remove_from_book b it side p id
      ≡ some
          (record (Fast.with_side b side (
            if l1.count == 0
            then Levels.erase p (Fast.on_side b side)
            else Levels.upsert (is_buy side) Fast.fresh_level (λ _. l1) p (Fast.on_side b side))) {
              index = Keyed.erase id b.index;
              pool = pool2;
            })
unfolding Book.remove_from_book
remove_run b it side p id l l1 n pool1 pool2 f e unlinked released =
    rw (f, Book.remove_from_book) (rw (load_live b.pool it n e) (rw unlinked (rw released refl)))

module _ (b : Naive.OrderBook) (pool : NodePool) (ps : List ℕ) (loc : Locator) (id : OrderId)
    (l : Naive.PriceLevel) (o : Order) (h : IsHeld b.bids b.asks pool ps)
    (sorted : IsSorted true b.bids × IsSorted false b.asks)
    (f : Levels.find loc.price (Naive.on_side b loc.side) ≡ some l)
    (g : find_node loc.it l.orders ≡ some o) where
  -- The book of the reference after the removal.
  abbrev pub removed : Naive.OrderBook
  removed =
      record (Naive.with_side b loc.side (
        shrunk (is_buy loc.side) loc.price (reduced_level l loc.it o) (Naive.on_side b loc.side))) {
          index = Keyed.erase id b.index;
        }

  pub remove_reference : Operations.remove_from_book b loc id ≡ some removed
  unfolding Operations.remove_from_book shrink_level
  remove_reference = rw (f, Operations.remove_from_book) (rw (g, Operations.remove_from_book) refl)

  abbrev Removes : Type 0
  Removes =
      (pool' : NodePool) × (Book.remove_from_book (book_of b pool) loc.it loc.side loc.price id
        ≡ some (book_of removed pool'))
      × IsHeld removed.bids removed.asks pool' (loc.it ∷ ps)
      × (pool'.capacity ≡ pool.capacity)

  remove_bid : is_buy loc.side ≡ true → Removes
  remove_bid e =
      let f' : Levels.find loc.price b.bids ≡ some l = rw e at f in
      let n : Fast.Node = record {
        order = o;
        prev = prev_of loc.it none l.orders;
        next = next_of loc.it l.orders;
      } in
      let (pool1, pool2, unlinked, released, is_pool, here, there, split, counted, kept) =
        remove_side true b.bids b.asks pool ps loc.price loc.it l o h.is_pool h.bids_held
          h.asks_held sorted.0 h.apart h.counted f' g in
      (
        pool2,
        remove_run (book_of b pool) loc.it loc.side loc.price id (level_of l)
              (level_of (reduced_level l loc.it o)) n pool1 pool2
              (rw e (find-levels_of loc.price b.bids ∙ rw f' refl))
              (cell_at pool.slots loc.it none l.orders o
                (Queues-found pool.slots loc.price l b.bids h.bids_held f') g)
              unlinked released
            ∙ rw
                (
                  e,
                  shrunk-levels_of true loc.price (reduced_level l loc.it o) b.bids,
                  links-erase id b.index,
                )
                refl,
        rw e (record {
          is_pool = is_pool;
          bids_held = here;
          asks_held = there;
          apart = split;
          counted = counted;
        }),
        kept,
      )

  remove_ask : is_buy loc.side ≡ false → Removes
  remove_ask e =
      let f' : Levels.find loc.price b.asks ≡ some l = rw e at f in
      let n : Fast.Node = record {
        order = o;
        prev = prev_of loc.it none l.orders;
        next = next_of loc.it l.orders;
      } in
      let (pool1, pool2, unlinked, released, is_pool, here, there, split, counted, kept) =
        remove_side false b.asks b.bids pool ps loc.price loc.it l o h.is_pool h.asks_held
          h.bids_held sorted.1 (Split-sym b.bids b.asks h.apart) (omega (arith, h.counted)) f' g in
      (
        pool2,
        remove_run (book_of b pool) loc.it loc.side loc.price id (level_of l)
              (level_of (reduced_level l loc.it o)) n pool1 pool2
              (rw e (find-levels_of loc.price b.asks ∙ rw f' refl))
              (cell_at pool.slots loc.it none l.orders o
                (Queues-found pool.slots loc.price l b.asks h.asks_held f') g)
              unlinked released
            ∙ rw
                (
                  e,
                  shrunk-levels_of false loc.price (reduced_level l loc.it o) b.asks,
                  links-erase id b.index,
                )
                refl,
        rw e (record {
          is_pool = is_pool;
          bids_held = there;
          asks_held = here;
          apart = Split-sym (shrunk false loc.price (reduced_level l loc.it o) b.asks) b.bids split;
          counted = omega (arith, counted);
        }),
        kept,
      )

  pub remove_from_book-IsHeld : Removes
  remove_from_book-IsHeld = elim (Bool-cases (is_buy loc.side)) [
    | inl e ↦ remove_bid e
    | inr e ↦ remove_ask e
  ]
