-- ===== src/Fast/Removing.antt =====
-- A node taken out of its queue and given back to the pool.
use order_book_matching_engi.Common.{
  ℕ, ◌+◌, ◌<◌, ◌≡◌, refl, ap, ◌∙◌, ◌==◌, true, false, Option, none, some, Bool-cases, inl, inr,
  List, [], ◌∷◌, arith,
}
use order_book_matching_engi.Types.{Order}
use order_book_matching_engi.Pool.{free, live, put, release}
use order_book_matching_engi.Pool.FreeList.{first, IsPool, Frees_frame, mem_free, release_lem}
use order_book_matching_engi.Naive
use order_book_matching_engi.Naive.{find_node}
use order_book_matching_engi.Naive.Operations.{erase_node}
use order_book_matching_engi.Fast
use order_book_matching_engi.Fast.{NodePool}
use order_book_matching_engi.Fast.Links.{unlink}
use order_book_matching_engi.Fast.Cells.{
  Slots, Queue, has, Cells, level_of, prev_of, next_of, Cells-undisturbed, cell_at, find_node-has,
  has-find_node,
}
use order_book_matching_engi.Fast.Relinking.{next_not, prev_not, relinked_same}
use order_book_matching_engi.Fast.Unlinking.{IsUnlinked, unlink-IsUnlinked}

-- The slots of a queue are live.
pub has_live :
    (s : Slots) (prev : Option ℕ) (q : ℕ) (ns : Queue)
    → Cells s prev ns
    → has q ns ≡ true
    → (v : Fast.Node) × (s q ≡ live v)
has_live s prev q ns c i =
    let (o, e) = has-find_node q ns i in
    (record { order = o; prev = prev_of q prev ns; next = next_of q ns }, cell_at s q prev ns o c e)

pub free_not_has :
    (s : Slots) (prev : Option ℕ) (q : ℕ) (ns : Queue) (f : Option ℕ)
    → Cells s prev ns
    → s q ≡ free f
    → has q ns ≡ false
free_not_has s prev q ns f c e = elim (Bool-cases (has q ns)) [
  | inl t ↦ let (v, there) = has_live s prev q ns c t in absurd (cc (e, there))
  | inr t ↦ t
]

erased_not_has :
    (s : Slots) (it : ℕ) (prev : Option ℕ) (ns : Queue)
    → Cells s prev ns
    → has it (erase_node it ns) ≡ false
unfolding erase_node
erased_not_has s it prev [] c = refl
erased_not_has s it prev (n ∷ ns) c = elim (Bool-cases (n.it == it)) [
  | inl t ↦ let same : n.it ≡ it = ground arith in rw t (rw (← same) c.1)
  | inr t ↦ rw t (ground (arith, erased_not_has s it (some n.it) ns c.2))
]

-- Slots outside the queue stay as they were.
pub unlinked_outside :
    (pool pool' : NodePool) (it q : ℕ) (o : Order) (ns : Queue)
    → IsUnlinked pool it o (prev_of it none ns) (next_of it ns) pool'
    → has it ns ≡ true
    → has q ns ≡ false
    → pool'.slots q ≡ pool.slots q
unlinked_outside pool pool' it q o ns k i d = elim (Bool-cases (q == it)) [
  | inl t ↦ let same : q ≡ it = ground arith in absurd (cc (i, d, ap (λ x. has x ns) same))
  | inr t ↦
      k.others q t
      ∙ relinked_same (prev_of it none ns) (next_of it ns) q (pool.slots q)
          (prev_not it none q ns d refl) (next_not it q ns d)
]

pub flip : (p q : ℕ) → (p == q) ≡ false → (q == p) ≡ false
flip p q h = ground arith

-- Two addresses of which one is in the queue.
pub apart : (it q : ℕ) (ns : Queue) → has it ns ≡ false → has q ns ≡ true → (it == q) ≡ false
apart it q ns d i = elim (Bool-cases (it == q)) [
  | inl t ↦ let same : it ≡ q = ground arith in cc (i, d, ap (λ x. has x ns) same)
  | inr t ↦ t
]

pub put_other : {A : Type 0} (s : ℕ → A) (p q : ℕ) (v : A) → (p == q) ≡ false → put s p v q ≡ s q
put_other s p q v d = rw d refl

-- A node of a queue is removed: the slots hold the rest of it, the node's slot is free, and every
-- other slot is as it was.
pub remove-IsPool :
    (pool : NodePool) (l : Naive.PriceLevel) (it : ℕ) (o : Order) (ps : List ℕ)
    → Cells pool.slots none l.orders
    → find_node it l.orders ≡ some o
    → IsPool pool ps
    → 0 < pool.in_use
    → let left = erase_node it l.orders in
      (pool1 : NodePool) × (pool2 : NodePool) × (unlink pool (level_of l) it
        ≡ some (pool1, level_of (record l { orders = left })))
      × (release pool1 it ≡ some pool2)
      × IsPool pool2 (it ∷ ps)
      × Cells pool2.slots none left
      × ((q : ℕ) → has q l.orders ≡ false → pool2.slots q ≡ pool.slots q)
      × (pool2.in_use + 1 ≡ pool.in_use)
      × (pool2.capacity ≡ pool.capacity)
remove-IsPool pool l it o ps c f h b =
    let i = find_node-has it l.orders o f in
    let (pool1, done, k, left) = unlink-IsUnlinked pool l it o c f in
    let h1 : IsPool pool1 ps = record {
      head = k.free_head ∙ h.head;
      links = Frees_frame pool.slots pool1.slots ps h.links (λ q m.
          let (x, e) = mem_free pool.slots ps q h.links m in
          unlinked_outside pool pool1 it q o l.orders k i
            (free_not_has pool.slots none q l.orders x c e));
      counted = ground (arith, k.in_use, k.capacity, h.counted);
    } in
    let (pool2, released, h2, slots, capacity, in_use) =
      release_lem pool1 it ps (record { order = o; prev = none; next = none }) h1 k.loose
        (rw k.in_use b) in
    (
      pool1,
      pool2,
      done,
      released,
      h2,
      Cells-undisturbed pool1.slots pool2.slots none (erase_node it l.orders) left (λ q m.
          ap (λ s. s q) slots
          ∙ put_other pool1.slots it q (free (first ps)) (
              apart it q (erase_node it l.orders) (erased_not_has pool.slots it none l.orders c)
                m)),
      λ q m.
          ap (λ s. s q) slots
          ∙ put_other pool1.slots it q (free (first ps)) (flip q it (apart q it l.orders m i))
          ∙ unlinked_outside pool pool1 it q o l.orders k i m,
      in_use ∙ k.in_use,
      capacity ∙ k.capacity,
    )
