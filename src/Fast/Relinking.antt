-- ===== src/Fast/Relinking.antt =====
-- What taking a node out makes of the links of the other slots.
use order_book_matching_engi.Common.{
  ℕ, ◌≡◌, refl, ap, ◌∙◌, ◌==◌, ==_refl, Bool, true, false, Option, none, some, Option-cases,
  Bool-cases, inl, inr, [], ◌∷◌, arith,
}
use order_book_matching_engi.Types.{Order}
use order_book_matching_engi.Pool.{Slot, free, live}
use order_book_matching_engi.Naive.Operations.{erase_node}
use order_book_matching_engi.Fast
use order_book_matching_engi.Fast.{NodePool}
use order_book_matching_engi.Fast.Cells.{
  Slots, Queue, node, has, head_of, Cells, prev_of, next_of, is_ptr, is_in, Cells-undisturbed,
  next_in, prev_in, erase_node-has, erase_node-head,
}

-- A slot with another link, if the test says so.
abbrev pub set_next : Bool → Option ℕ → Slot Fast.Node → Slot Fast.Node
set_next false p x = x
set_next true p (free f) = free f
set_next true p (live n) = live (record n { next = p })

abbrev pub set_prev : Bool → Option ℕ → Slot Fast.Node → Slot Fast.Node
set_prev false p x = x
set_prev true p (free f) = free f
set_prev true p (live n) = live (record n { prev = p })

-- What `Unlink` makes of the slot of another node.
abbrev pub relinked : Option ℕ → Option ℕ → ℕ → Slot Fast.Node → Slot Fast.Node
relinked prev next q x = set_prev (is_ptr next q) prev (set_next (is_ptr prev q) next x)

pub relinked_same :
    (pv nx : Option ℕ) (q : ℕ) (x : Slot Fast.Node)
    → is_ptr pv q ≡ false
    → is_ptr nx q ≡ false
    → relinked pv nx q x ≡ x
relinked_same pv nx q x h k = rw (h, k)

-- An address before the queue is linked to the node only as its predecessor.
pub next_not : (it q : ℕ) (ns : Queue) → has q ns ≡ false → is_ptr (next_of it ns) q ≡ false
next_not it q ns h = elim (Option-cases (next_of it ns)) [
  | inl e ↦ rw e refl
  | inr (p, e) ↦ rw e (ground (arith, next_in it ns p e))
]

pub prev_not :
    (it : ℕ) (prev : Option ℕ) (q : ℕ) (ns : Queue)
    → has q ns ≡ false
    → is_ptr prev q ≡ false
    → is_ptr (prev_of it prev ns) q ≡ false
prev_not it prev q ns h k = elim (Option-cases (prev_of it prev ns)) [
  | inl e ↦ rw e refl
  | inr (p, e) ↦ rw e (ground (arith, prev_in it prev ns p e))
]

pub prev_head :
    (it q : ℕ) (ns : Queue)
    → has q ns ≡ false
    → has it ns ≡ true
    → is_ptr (prev_of it (some q) ns) q ≡ is_ptr (head_of ns) it
prev_head it q [] h k = cc
prev_head it q (m ∷ ns) h k = elim (Bool-cases (m.it == it)) [
  | inl t ↦ ground arith
  | inr t ↦ rw t (prev_not it (some m.it) q ns (ground arith) (ground arith))
]

-- A pointer out of a queue leads to none of its nodes.
pub not_in :
    (p : Option ℕ) (ns : Queue) (q : ℕ) → is_in p ns ≡ false → has q ns ≡ true → is_ptr p q ≡ false
not_in none ns q h i = refl
not_in (some p) ns q h i = elim (Bool-cases (p == q)) [
  | inl t ↦ let same : p ≡ q = ground arith in cc (h, i, ap (λ x. has x ns) same)
  | inr t ↦ t
]

-- The slots after the node is out hold the rest of the queue.
pub Cells-erase_node :
    (s s' : Slots) (it : ℕ) (prev : Option ℕ) (ns : Queue)
    → Cells s prev ns
    → has it ns ≡ true
    → is_in prev ns ≡ false
    → ((q : ℕ) → (q == it) ≡ false → s' q ≡ relinked (prev_of it prev ns) (next_of it ns) q (s q))
    → Cells s' prev (erase_node it ns)
unfolding erase_node
Cells-erase_node s s' it prev [] c h d k = tt
Cells-erase_node s s' it prev (n ∷ ns) c h d k = elim (Bool-cases (n.it == it)) [
  | inl t ↦ rw t (first ns c (rw t at k) d t)
  | inr t ↦
      let k' : (q : ℕ)
          → (q == it) ≡ false
          → s' q ≡ relinked (prev_of it (some n.it) ns) (next_of it ns) q (s q) =
        rw t at k in
      rw t (
        k' n.it t ∙ relinked_head (ground arith),
        ground (arith, erase_node-has it n.it ns),
        Cells-erase_node s s' it (some n.it) ns c.2 (ground arith) c.1 k',
      )
]
  where
    relinked_head :
        has it ns ≡ true
        → relinked (prev_of it (some n.it) ns) (next_of it ns) n.it (s n.it)
          ≡ node n.order prev (head_of (erase_node it ns))
    relinked_head i =
        rw (c.0, next_not it n.it ns c.1, prev_head it n.it ns c.1 i, erase_node-head it ns)
          (ground arith)

    second :
        (q : ℕ) (o : Order) (next : Option ℕ)
        → s q ≡ node o (some n.it) next
        → is_ptr prev q ≡ false
        → relinked prev (some q) q (s q) ≡ node o prev next
    second q o next e i = rw (e, i, ==_refl q) refl

    first :
        (ns : Queue)
        → Cells s prev (n ∷ ns)
        → ((q : ℕ) → (q == it) ≡ false → s' q ≡ relinked prev (head_of ns) q (s q))
        → is_in prev (n ∷ ns) ≡ false
        → (n.it == it) ≡ true
        → Cells s' prev ns
    first [] c k d t = tt
    first (m ∷ ns) c k d t = (
      k m.it (ground arith)
          ∙ second m.it m.order (head_of ns) c.2.0 (not_in prev (n ∷ m ∷ ns) m.it d (ground arith)),
      c.2.1,
      Cells-undisturbed s s' (some m.it) ns c.2.2 (λ q i.
          ground
            (arith, k q, relinked_same prev (some m.it) q (s q), not_in prev (n ∷ m ∷ ns) q d)),
    )
