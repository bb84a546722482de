-- ===== src/Fast/Rounds.antt =====
-- The inner loop of the pooled `Match` does what that of the reference book does, on the slots.
use order_book_matching_engi.Common.{
  ℕ, ◌+◌, ◌-◌, ◌<◌, ◌≡◌, refl, ap, ◌∙◌, ◌==◌, ==_refl, false, none, some, Bool-cases, inl, inr,
  List, [], ◌∷◌, arith,
}
use order_book_matching_engi.Common.Words.{sub64}
use order_book_matching_engi.Common.Keyed
use order_book_matching_engi.Types.{Price, Quantity, OrderId, Order, OrderStatus}
use order_book_matching_engi.Pool.{live, release, store}
use order_book_matching_engi.Pool.FreeList.{IsPool, Frees_frame, mem_free}
use order_book_matching_engi.Naive
use order_book_matching_engi.Naive.{Index, Locator, find_node}
use order_book_matching_engi.Naive.Matching.{trade_quantity, left_over, reduced}
use order_book_matching_engi.Naive.Operations.{erase_node}
use order_book_matching_engi.Fast
use order_book_matching_engi.Fast.{NodePool}
use order_book_matching_engi.Fast.Links.{unlink}
use order_book_matching_engi.Fast.Filling.{Filling, fill_node}
use order_book_matching_engi.Fast.Cells.{Queue, has, head_of, Cells, level_of, Cells-undisturbed}
use order_book_matching_engi.Fast.Removing.{remove-IsPool, apart, put_other}

-- The pooled index of an index of the reference book.
abbrev pub links : Index → List (OrderId × ℕ)
links [] = []
links ((id, loc) ∷ m) = (id, loc.it) ∷ links m

pub links-erase : (id : OrderId) (m : Index) → Keyed.erase id (links m) ≡ links (Keyed.erase id m)
unfolding Keyed.erase
links-erase id [] = refl
links-erase id ((j, loc) ∷ m) = ground (arith, links-erase id m)

-- A level of the reference book by its fields.
abbrev pub level : Price → Quantity → Queue → Naive.PriceLevel
level p total ns = record { price = p; total_quantity = total; orders = ns }

-- An order of the queue's head that changed in its slot.
pub store_head :
    (pool : NodePool) (n : Naive.Node) (ns : Queue) (o : Order)
    → Cells pool.slots none (n ∷ ns)
    → Cells
        (store pool n.it (record { order = o; prev = none; next = head_of ns })).slots
        none
        (record n { order = o } ∷ ns)
unfolding store
store_head pool n ns o c = (
  rw (==_refl n.it) refl,
  c.1,
  Cells-undisturbed pool.slots _ (some n.it) ns c.2
      (λ q i. put_other pool.slots n.it q _ (apart n.it q ns c.1 i)),
)

-- A live slot that changed is not a free one.
pub store-IsPool :
    (pool : NodePool) (p : ℕ) (v w : Fast.Node) (ps : List ℕ)
    → IsPool pool ps
    → pool.slots p ≡ live v
    → IsPool (store pool p w) ps
unfolding store
store-IsPool pool p v w ps h e = record {
  head = h.head;
  links = Frees_frame pool.slots _ ps h.links (λ q i.
      let (f, there) = mem_free pool.slots ps q h.links i in
      elim (Bool-cases (p == q)) [
        | inl t ↦ let same : p ≡ q = ground arith in absurd (cc (e, there, ap pool.slots same))
        | inr t ↦ put_other pool.slots p q _ t
      ]);
  counted = h.counted;
}

-- The head of a queue is removed.
remove_head :
    (pool : NodePool) (p : Price) (total : Quantity) (n : Naive.Node) (ns : Queue) (ps : List ℕ)
    → Cells pool.slots none (n ∷ ns)
    → IsPool pool ps
    → 0 < pool.in_use
    → (pool1 : NodePool) × (pool2 : NodePool) × (unlink pool
          (level_of (level p total (n ∷ ns)))
          n.it
        ≡ some (pool1, level_of (level p total ns)))
      × (release pool1 n.it ≡ some pool2)
      × IsPool pool2 (n.it ∷ ps)
      × Cells pool2.slots none ns
      × ((q : ℕ) → has q (n ∷ ns) ≡ false → pool2.slots q ≡ pool.slots q)
      × (pool2.in_use + 1 ≡ pool.in_use)
      × (pool2.capacity ≡ pool.capacity)
unfolding erase_node find_node
remove_head pool p total n ns ps c h b =
    let whole =
      remove-IsPool pool (level p total (n ∷ ns)) n.it n.order ps c (rw (==_refl n.it) refl) h b in
    rw (==_refl n.it) at whole

abbrev pub filled_order : Order → Order
filled_order o = record o { remaining_quantity = 0; status = OrderStatus.filled }

module _ (pool : NodePool) (p : Price) (total : Quantity) (n : Naive.Node) (ns : Queue)
    (remaining : ℕ) (index : Index) (ps : List ℕ) (c : Cells pool.slots none (n ∷ ns))
    (h : IsPool pool ps) where
  abbrev pub round : Filling
  round = record {
    pool = pool;
    level = level_of (level p total (n ∷ ns));
    remaining = remaining;
    index = links index;
  }

  abbrev pub cell : Fast.Node
  cell = record { order = n.order; prev = none; next = head_of ns }

  -- A round that fills the head of the queue removes it.
  pub fill_node_filled :
      0 < pool.in_use
      → left_over n remaining ≡ 0
      → (pool' : NodePool) × (fill_node n.it cell round
          ≡ some (record {
            pool = pool';
            level = level_of (level p (sub64 total (trade_quantity n remaining)) ns);
            remaining = remaining - trade_quantity n remaining;
            index = links (Keyed.erase n.order.id index);
          }))
        × IsPool pool' (n.it ∷ ps)
        × Cells pool'.slots none ns
        × ((q : ℕ) → has q (n ∷ ns) ≡ false → pool'.slots q ≡ pool.slots q)
        × (pool'.in_use + 1 ≡ pool.in_use)
        × (pool'.capacity ≡ pool.capacity)
  unfolding fill_node store
  fill_node_filled b e =
      let o = filled_order n.order in
      let (pool1, pool2, unlinked, released, h2, left, same, in_use, capacity) =
        remove_head (store pool n.it (record cell { order = o })) p
          (sub64 total (trade_quantity n remaining)) (record n { order = o }) ns ps
          (store_head pool n ns o c)
          (store-IsPool pool n.it cell (record cell { order = o }) ps h c.0) b in
      (
        pool2,
        ground (arith, e, unlinked, released, links-erase n.order.id index),
        h2,
        left,
        λ q i.
            same q i
            ∙ put_other pool.slots n.it q (live (record cell { order = o })) (ground arith),
        in_use,
        capacity,
      )

  -- A round that does not, changes its order, and nothing is left to trade.
  pub fill_node-reduced :
      (left_over n remaining == 0) ≡ false
      → (pool' : NodePool) × (fill_node n.it cell round
          ≡ some (record {
            pool = pool';
            level = level_of (
                level p
                  (sub64 total (trade_quantity n remaining))
                  (reduced n (left_over n remaining) ∷ ns));
            remaining = 0;
            index = links index;
          }))
        × IsPool pool' ps
        × Cells pool'.slots none (reduced n (left_over n remaining) ∷ ns)
        × ((q : ℕ) → has q (n ∷ ns) ≡ false → pool'.slots q ≡ pool.slots q)
        × (pool'.in_use ≡ pool.in_use)
        × (pool'.capacity ≡ pool.capacity)
  unfolding fill_node store
  fill_node-reduced e =
      let o = (reduced n (left_over n remaining)).order in
      (
        store pool n.it (record cell { order = o }),
        ground (arith, e),
        store-IsPool pool n.it cell (record cell { order = o }) ps h c.0,
        store_head pool n ns o c,
        λ q i. put_other pool.slots n.it q (live (record cell { order = o })) (ground arith),
        refl,
        refl,
      )
