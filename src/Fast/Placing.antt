-- ===== src/Fast/Placing.antt =====
-- A node that is taken from the pool and queued at its price.
use order_book_matching_engi.Common.{
  ℕ, ◌+◌, ◌≡◌, refl, sym, ap, ◌∙◌, ◌==◌, ==_refl, Bool, true, false, length, Bool-cases, inl, inr,
  Option, none, some, List, [], ◌∷◌, arith,
}
use order_book_matching_engi.Common.Words.{add64}
use order_book_matching_engi.Types.{Order}
use order_book_matching_engi.Levels.Laws.{IsSorted}
use order_book_matching_engi.Pool.{free, live, acquire}
use order_book_matching_engi.Pool.FreeList.{first, Frees_frame, mem_free, IsPool, acquire_first}
use order_book_matching_engi.Naive
use order_book_matching_engi.Naive.Operations.{push_order}
use order_book_matching_engi.Fast
use order_book_matching_engi.Fast.{NodePool}
use order_book_matching_engi.Fast.Links.{push_back}
use order_book_matching_engi.Fast.Cells.{Slots, node, level_of}
use order_book_matching_engi.Fast.Removing.{free_not_has, put_other}
use order_book_matching_engi.Fast.Rounds.{level}
use order_book_matching_engi.Fast.Pushing.{push_back-IsPushed}
use order_book_matching_engi.Fast.Queues.{BookSide, in_levels, Queues, Queues-undisturbed}
use order_book_matching_engi.Fast.Pushed.{found, side_with, found-Cells, found_in, Queues-upsert}

-- A free slot is in no queue.
pub free_not_in :
    (s : Slots) (q : ℕ) (ls : BookSide) (f : Option ℕ)
    → Queues s ls
    → s q ≡ free f
    → in_levels q ls ≡ false
free_not_in s q [] f h e = refl
free_not_in s q ((p, l) ∷ ls) f h e =
    let here = free_not_has s none q l.orders f h.0 e in
    let there = free_not_in s q ls f h.2 e in rw (here, there) refl

pub in_apart :
    (it q : ℕ) (ls : BookSide) → in_levels it ls ≡ false → in_levels q ls ≡ true → (it == q) ≡ false
in_apart it q ls d i = elim (Bool-cases (it == q)) [
  | inl t ↦ let same : it ≡ q = ground arith in cc (i, d, ap (λ x. in_levels x ls) same)
  | inr t ↦ t
]

module _ (bids : Bool) (ls other : BookSide) (pool : NodePool) (it : ℕ) (ps : List ℕ) (o : Order)
    (h : IsPool pool (it ∷ ps)) (c : Queues pool.slots ls) (d : Queues pool.slots other)
    (sorted : IsSorted bids ls)
    (split : (q : ℕ) → in_levels q other ≡ true → in_levels q ls ≡ false) where
  abbrev pub new : Naive.Node
  new = record { it = it; order = o }

  abbrev pub cell : Fast.Node
  cell = record { order = o; prev = none; next = none }

  -- The node is taken, linked and queued.
  pub push_side :
      (pool1 : NodePool) × (pool2 : NodePool) × (acquire pool cell ≡ some (some it, pool1))
      × (push_back pool1
            (level_of (
              level o.price
                (add64 (found o.price ls).total_quantity o.remaining_quantity)
                (found o.price ls).orders))
            it
          ≡ some (pool2, level_of (push_order o.price new (found o.price ls))))
      × IsPool pool2 ps
      × Queues pool2.slots (side_with bids o.price new ls)
      × Queues pool2.slots other
      × (pool2.in_use ≡ pool.in_use + 1)
      × (pool2.capacity ≡ pool.capacity)
  push_side =
      let (pool1, taken, h1, slots, capacity, in_use) = acquire_first pool it ps cell h in
      let ns = (found o.price ls).orders in
      let fresh = free_not_in pool.slots it ls (first ps) c h.links.0 in
      let fresh' = free_not_in pool.slots it other (first ps) d h.links.0 in
      let new_cell : pool1.slots it ≡ node o none none =
        ap (λ s. s it) slots ∙ rw (==_refl it) refl in
      let old : (q : ℕ) → (it == q) ≡ false → pool1.slots q ≡ pool.slots q =
        λ q i. ap (λ s. s q) slots ∙ put_other pool.slots it q (live cell) i in
      let c1 =
        Queues-undisturbed pool.slots pool1.slots ls c (λ q i. old q (in_apart it q ls fresh i)) in
      let cells = found-Cells pool1.slots o.price ls c1 in
      let (pool2, linked, k) =
        push_back-IsPushed pool1 o.price
          (add64 (found o.price ls).total_quantity o.remaining_quantity) ns new cells new_cell
          (found_in it o.price ls fresh) in
      (
        pool1,
        pool2,
        taken,
        linked,
        record {
          head = k.free_head ∙ h1.head;
          links = Frees_frame pool1.slots pool2.slots ps h1.links (λ q m.
              let (f, e) = mem_free pool1.slots ps q h1.links m in
              k.others q (free_not_has pool1.slots none q ns f cells e)
                (live_apart pool1.slots q f new_cell e));
          counted = ap (λ x. x + length ps) k.in_use ∙ h1.counted ∙ sym k.capacity;
        },
        Queues-upsert bids o.price new pool1.slots pool2.slots ls sorted c1 fresh k.cells
            (λ q i j. k.others q j (in_apart it q ls fresh i)),
        Queues-undisturbed pool.slots pool2.slots other d (λ q i.
            k.others q (found_in q o.price ls (split q i)) (in_apart it q other fresh' i)
            ∙ old q (in_apart it q other fresh' i)),
        k.in_use ∙ in_use,
        k.capacity ∙ capacity,
      )
    where
      live_apart :
          (s : Slots) (q : ℕ) (f : Option ℕ)
          → s it ≡ node o none none
          → s q ≡ free f
          → (it == q) ≡ false
      live_apart s q f e g = elim (Bool-cases (it == q)) [
        | inl t ↦ let same : it ≡ q = ground arith in absurd (cc (e, g, ap s same))
        | inr t ↦ t
      ]
