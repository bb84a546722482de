-- ===== src/Fast/Agreeing.antt =====
-- The index of a book whose addresses are slots of the pool.
use order_book_matching_engi.Common.{ℕ, ◌≡◌, Bool, true, false, some, [], ◌∷◌, arith}
use order_book_matching_engi.Types.{Price, Order}
use order_book_matching_engi.Levels.Laws.{IsSorted, find-upsert}
use order_book_matching_engi.Naive
use order_book_matching_engi.Naive.Operations
use order_book_matching_engi.Naive.Operations.{push_order}
use order_book_matching_engi.Naive.Index.{id_at, id_in}
use order_book_matching_engi.Naive.Index.Sides.{eqb_ℤ_refl}
use order_book_matching_engi.Naive.Indexed.{Agrees, insert_resting-Agrees}
use order_book_matching_engi.Fast.Cells.{Queue, has}
use order_book_matching_engi.Fast.Pushing.{pushed}
use order_book_matching_engi.Fast.Queues.{BookSide, in_levels}
use order_book_matching_engi.Fast.Pushed.{found, side_with, found_in}

id_at-pushed :
    (ns : Queue) (n : Naive.Node) → has n.it ns ≡ false → id_at n.it (pushed ns n) ≡ some n.order.id
id_at-pushed [] n h = ground arith
id_at-pushed (m ∷ ns) n h = ground (arith, id_at-pushed ns n)

id_in-placed :
    (bids : Bool) (p : Price) (n : Naive.Node) (ls : BookSide)
    → IsSorted bids ls
    → in_levels n.it ls ≡ false
    → id_in p n.it (side_with bids p n ls) ≡ some n.order.id
unfolding id_in
id_in-placed bids p n ls s h = ground (
  arith,
  find-upsert bids Naive.fresh_level (push_order p n) p p ls s,
  eqb_ℤ_refl p,
  id_at-pushed (found p ls).orders n (found_in n.it p ls h),
)

-- An order that rests at an address that no queue has is indexed.
pub placed-Agrees :
    (b : Naive.OrderBook) (it : ℕ) (o : Order)
    → IsSorted true b.bids
    → IsSorted false b.asks
    → Agrees b
    → in_levels it b.bids ≡ false
    → in_levels it b.asks ≡ false
    → Agrees (Operations.insert_resting (record b { next_node = it }) o)
placed-Agrees b it o s t k d e =
    let n : Naive.Node = record { it = it; order = o } in
    insert_resting-Agrees (record b { next_node = it }) o s t k
      (id_in-placed true o.price n b.bids s d) (id_in-placed false o.price n b.asks t e)
