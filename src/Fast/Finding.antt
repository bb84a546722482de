-- ===== src/Fast/Finding.antt =====
-- Where the index leads, and the order there leaving both books.
use order_book_matching_engi.Common.{
  ℕ, ◌≡◌, refl, sym, ap, ◌∙◌, ◌==◌, Bool, true, false, Bool-cases, inl, inr, if◌then◌else◌, Option,
  none, some, Option-cases, List, ◌∷◌, ◌>>=◌, All,
}
use order_book_matching_engi.Common.Keyed
use order_book_matching_engi.Types
use order_book_matching_engi.Types.{Price, Order, OrderId, is_buy}
use order_book_matching_engi.Levels
use order_book_matching_engi.Levels.Laws.{All-find, IsSorted}
use order_book_matching_engi.Pool.{live, load, release}
use order_book_matching_engi.Naive
use order_book_matching_engi.Naive.{Locator, find_node, deref, CancelResult}
use order_book_matching_engi.Naive.Sides.{IsResting, IsLevel}
use order_book_matching_engi.Naive.Resizing.{find_node-IsResting}
use order_book_matching_engi.Naive.Books.{IsBook}
use order_book_matching_engi.Naive.Index.{id_at, id_in}
use order_book_matching_engi.Naive.Indexed.{Agrees, find_node-id_at}
use order_book_matching_engi.Naive.Operations
use order_book_matching_engi.Naive.Operations.{shrink_level}
use order_book_matching_engi.Naive.Amending.{remove_from_book-IsBook}
use order_book_matching_engi.Naive.Cancelling.{without-Agrees}
use order_book_matching_engi.Fast
use order_book_matching_engi.Fast.{NodePool}
use order_book_matching_engi.Fast.Book
use order_book_matching_engi.Fast.Links.{unlink}
use order_book_matching_engi.Common.Words.{sub64}
use order_book_matching_engi.Fast.Cells.{cell_at, prev_of, next_of}
use order_book_matching_engi.Fast.Queues.{Queues}
use order_book_matching_engi.Fast.Shrinking.{Queues-found}
use order_book_matching_engi.Fast.Image.{book_of, IsHeld}
use order_book_matching_engi.Fast.Leaving.{removed, remove_reference, remove_from_book-IsHeld}

-- Where a locator of the index leads, in the reference book and in the pool.
pub record IsFound (b : Naive.OrderBook) (pool : NodePool) (loc : Locator) (id : OrderId)
    : Type 0 where
  pub level : Naive.PriceLevel
  pub order : Order
  pub in_level : Levels.find loc.price (Naive.on_side b loc.side) ≡ some level
  pub in_queue : find_node loc.it level.orders ≡ some order
  pub identified : id_at loc.it level.orders ≡ some id
  pub price : order.price ≡ loc.price
  pub side : is_buy order.side ≡ is_buy loc.side
  pub in_slot :
      pool.slots loc.it
      ≡ live (record {
        order = order;
        prev = prev_of loc.it none level.orders;
        next = next_of loc.it level.orders;
      })

pub found_side :
    (bids : Bool) (ls : Levels.Levels Naive.PriceLevel) (pool : NodePool) (loc : Locator)
    (id : OrderId) (l : Naive.PriceLevel)
    → All (λ e. IsLevel bids e.0 e.1) ls
    → Queues pool.slots ls
    → Levels.find loc.price ls ≡ some l
    → id_at loc.it l.orders ≡ some id
    → (o : Order) × (find_node loc.it l.orders ≡ some o)
      × IsResting bids loc.price o
      × (pool.slots loc.it
          ≡ live (record {
            order = o;
            prev = prev_of loc.it none l.orders;
            next = next_of loc.it l.orders;
          }))
found_side bids ls pool loc id l h c f g =
    let (o, there, _) = find_node-id_at loc.it l.orders id g in
    let whole : IsLevel bids loc.price l = All-find (IsLevel bids) loc.price ls l h f in
    (
      o,
      there,
      find_node-IsResting bids loc.price loc.it l.orders o there whole.resting,
      cell_at pool.slots loc.it none l.orders o (Queues-found pool.slots loc.price l ls c f) there,
    )

pub find-IsFound :
    (b : Naive.OrderBook) (pool : NodePool) (ps : List ℕ) (id : OrderId) (loc : Locator)
    → IsBook b
    → IsHeld b.bids b.asks pool ps
    → Agrees b
    → Keyed.find id b.index ≡ some loc
    → IsFound b pool loc id
unfolding id_in
find-IsFound b pool ps id loc k h g e =
    elim (Option-cases (Levels.find loc.price (Naive.on_side b loc.side))) [
      | inl f ↦ absurd (cc (g id loc e))
      | inr (l, f) ↦
          let there : id_at loc.it l.orders ≡ some id = cc (g id loc e) in
          elim (Bool-cases (is_buy loc.side)) [
            | inl s ↦
                let f' : Levels.find loc.price b.bids ≡ some l = rw s at f in
                let (o, in_queue, rests, in_slot) =
                  found_side true b.bids pool loc id l k.bids.levels h.bids_held f' there in
                record {
                  level = l;
                  order = o;
                  in_level = f;
                  in_queue = in_queue;
                  identified = there;
                  price = rests.priced;
                  side = rests.sided ∙ sym s;
                  in_slot = in_slot;
                }
            | inr s ↦
                let f' : Levels.find loc.price b.asks ≡ some l = rw s at f in
                let (o, in_queue, rests, in_slot) =
                  found_side false b.asks pool loc id l k.asks.levels h.asks_held f' there in
                record {
                  level = l;
                  order = o;
                  in_level = f;
                  in_queue = in_queue;
                  identified = there;
                  price = rests.priced;
                  side = rests.sided ∙ sym s;
                  in_slot = in_slot;
                }
          ]
    ]

-- `RemoveFromBook` on the outcome of its test of the side.
abbrev pub remove_by : Fast.OrderBook → ℕ → Bool → Price → OrderId → Option Fast.OrderBook
remove_by b it buy p id =
    let side : Levels.Levels Fast.PriceLevel = if buy then b.bids else b.asks in
    elim (Levels.find p side) [
      | none ↦ some b
      | some l ↦ do
        n ← load b.pool it
        (pool1, l1) ←
            unlink b.pool
              (record l { total_quantity = sub64 l.total_quantity n.order.remaining_quantity }) it
        pool2 ← release pool1 it
        let left =
            if l1.count == 0
            then Levels.erase p side
            else Levels.upsert buy Fast.fresh_level (λ _. l1) p side
        some (record (if buy then record b { bids = left } else record b { asks = left }) {
          index = Keyed.erase id b.index;
          pool = pool2;
        })
    ]

pub remove_by_test :
    (b : Fast.OrderBook) (it : ℕ) (s : Types.Side) (p : Price) (id : OrderId)
    → Book.remove_from_book b it s p id ≡ remove_by b it (is_buy s) p id
unfolding Book.remove_from_book
remove_by_test b it s p id = refl

pub same_side :
    (b : Fast.OrderBook) (it : ℕ) (s t : Types.Side) (p : Price) (id : OrderId)
    → is_buy s ≡ is_buy t
    → Book.remove_from_book b it s p id ≡ Book.remove_from_book b it t p id
same_side b it s t p id e =
    remove_by_test b it s p id
    ∙ ap (λ x. remove_by b it x p id) e
    ∙ sym (remove_by_test b it t p id)

abbrev pub sorted_of :
    (b : Naive.OrderBook) → IsBook b → IsSorted true b.bids × IsSorted false b.asks
sorted_of b k = (k.bids.sorted, k.asks.sorted)

module _ (b : Naive.OrderBook) (pool : NodePool) (ps : List ℕ) (id : OrderId) (loc : Locator)
    (k : IsBook b) (h : IsHeld b.bids b.asks pool ps) (g : Agrees b)
    (e : Keyed.find id b.index ≡ some loc) where
  -- The order of a locator leaves both books.
  pub remove_from_book-Agrees :
      (found : IsFound b pool loc id)
      → let b' =
          removed b pool ps loc id found.level found.order h
            (sorted_of b k)
            found.in_level
            found.in_queue in
        (Operations.remove_from_book b loc id ≡ some b')
        × (pool' : NodePool) × (Book.remove_from_book
              (book_of b pool)
              loc.it
              found.order.side
              found.order.price
              id
            ≡ some (book_of b' pool'))
        × IsHeld b'.bids b'.asks pool' (loc.it ∷ ps)
        × (pool'.capacity ≡ pool.capacity)
        × Agrees b'
        × IsBook b'
  unfolding shrink_level
  remove_from_book-Agrees found =
      let sorted = sorted_of b k in
      let reference =
        remove_reference b pool ps loc id found.level found.order h sorted found.in_level
          found.in_queue in
      let (pool', run, held, kept) =
        remove_from_book-IsHeld b pool ps loc id found.level found.order h sorted found.in_level
          found.in_queue in
      (
        reference,
        pool',
        same_side (book_of b pool) loc.it found.order.side loc.side found.order.price id found.side
            ∙ ap (λ p. Book.remove_from_book (book_of b pool) loc.it loc.side p id) found.price
            ∙ run,
        held,
        kept,
        without-Agrees b loc id found.level found.order k g found.in_level found.identified,
        remove_from_book-IsBook b _ loc id k reference,
      )
