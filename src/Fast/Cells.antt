-- ===== src/Fast/Cells.antt =====
-- What the slots of the pool hold for a queue: the nodes of the queue in order, each linked to its
-- neighbours. The queue is that of a level of the reference book, with slots for its addresses.
use order_book_matching_engi.Common.{
  ℕ, suc, ◌≡◌, refl, ◌∙◌, ◌==◌, Bool, true, false, ◌||◌, length, if◌then◌else◌, Option, none, some,
  Bool-cases, inl, inr, List, [], ◌∷◌, arith,
}
use order_book_matching_engi.Types.{Order}
use order_book_matching_engi.Pool.{Slot, live}
use order_book_matching_engi.Naive
use order_book_matching_engi.Naive.{find_node}
use order_book_matching_engi.Naive.Operations.{erase_node}
use order_book_matching_engi.Fast

abbrev pub Slots : Type 0
Slots = ℕ → Slot Fast.Node

abbrev pub Queue : Type 0
Queue = List Naive.Node

abbrev pub node : Order → Option ℕ → Option ℕ → Slot Fast.Node
node o prev next = live (record { order = o; prev = prev; next = next })

abbrev pub has : ℕ → Queue → Bool
has q [] = false
has q (n ∷ ns) = (n.it == q) || has q ns

abbrev pub head_of : Queue → Option ℕ
head_of [] = none
head_of (n ∷ ns) = some n.it

-- The last address, where `prev` comes before the queue.
abbrev pub last_of : Option ℕ → Queue → Option ℕ
last_of prev [] = prev
last_of prev (n ∷ ns) = last_of (some n.it) ns

abbrev pub Cells : Slots → Option ℕ → Queue → Type 0
Cells s prev [] = Unit
Cells s prev (n ∷ ns) =
    (s n.it ≡ node n.order prev (head_of ns)) × (has n.it ns ≡ false) × Cells s (some n.it) ns

-- The pooled level of a level of the reference book.
abbrev pub level_of : Naive.PriceLevel → Fast.PriceLevel
level_of l = record {
  price = l.price;
  total_quantity = l.total_quantity;
  count = length l.orders;
  head = head_of l.orders;
  tail = last_of none l.orders;
}

-- The neighbours of an address.
abbrev pub prev_of : ℕ → Option ℕ → Queue → Option ℕ
prev_of it prev [] = none
prev_of it prev (n ∷ ns) = if n.it == it then prev else prev_of it (some n.it) ns

abbrev pub next_of : ℕ → Queue → Option ℕ
next_of it [] = none
next_of it (n ∷ ns) = if n.it == it then head_of ns else next_of it ns

abbrev pub is_ptr : Option ℕ → ℕ → Bool
is_ptr none q = false
is_ptr (some p) q = p == q

abbrev pub is_in : Option ℕ → Queue → Bool
is_in none ns = false
is_in (some p) ns = has p ns

-- A change of other slots leaves the queue.
pub Cells-undisturbed :
    (s s' : Slots) (prev : Option ℕ) (ns : Queue)
    → Cells s prev ns
    → ((q : ℕ) → has q ns ≡ true → s' q ≡ s q)
    → Cells s' prev ns
Cells-undisturbed s s' prev [] h same = tt
Cells-undisturbed s s' prev (n ∷ ns) h same = (
  same n.it (ground arith) ∙ h.0,
  h.1,
  Cells-undisturbed s s' (some n.it) ns h.2 (λ q i. same q (ground arith)),
)

pub cell_at :
    (s : Slots) (it : ℕ) (prev : Option ℕ) (ns : Queue) (o : Order)
    → Cells s prev ns
    → find_node it ns ≡ some o
    → s it ≡ node o (prev_of it prev ns) (next_of it ns)
unfolding find_node
cell_at s it prev [] o h e = absurd cc
cell_at s it prev (n ∷ ns) o h e = elim (Bool-cases (n.it == it)) [
  | inl t ↦
      let same : n.it ≡ it = ground arith in
      let order : n.order ≡ o = cc (rw t at e) in rw t (rw (← same, ← order) h.0)
  | inr t ↦ rw t (cell_at s it (some n.it) ns o h.2 (rw t at e))
]

pub find_node-has : (it : ℕ) (ns : Queue) (o : Order) → find_node it ns ≡ some o → has it ns ≡ true
unfolding find_node
find_node-has it [] o e = cc
find_node-has it (n ∷ ns) o e = ground (arith, find_node-has it ns o)

pub has-find_node :
    (it : ℕ) (ns : Queue) → has it ns ≡ true → (o : Order) × (find_node it ns ≡ some o)
unfolding find_node
has-find_node it [] h = absurd cc
has-find_node it (n ∷ ns) h = elim (Bool-cases (n.it == it)) [
  | inl t ↦ (n.order, rw t refl)
  | inr t ↦ rw t (has-find_node it ns (rw t at h))
]

pub next_in : (it : ℕ) (ns : Queue) (q : ℕ) → next_of it ns ≡ some q → has q ns ≡ true
next_in it [] q e = cc
next_in it (n ∷ []) q e = ground arith
next_in it (n ∷ m ∷ ns) q e = ground (arith, next_in it (m ∷ ns) q)

pub prev_in :
    (it : ℕ) (prev : Option ℕ) (ns : Queue) (q : ℕ)
    → prev_of it prev ns ≡ some q
    → (is_ptr prev q || has q ns) ≡ true
prev_in it prev [] q e = cc
prev_in it prev (n ∷ ns) q e = ground (arith, prev_in it (some n.it) ns q)

pub erase_node-has : (it q : ℕ) (ns : Queue) → has q (erase_node it ns) ≡ true → has q ns ≡ true
unfolding erase_node
erase_node-has it q [] h = h
erase_node-has it q (n ∷ ns) h = ground (arith, erase_node-has it q ns)

pub erase_node-head :
    (it : ℕ) (ns : Queue)
    → head_of (erase_node it ns) ≡ (if is_ptr (head_of ns) it then next_of it ns else head_of ns)
unfolding erase_node
erase_node-head it [] = refl
erase_node-head it (n ∷ ns) = ground arith

pub erase_node-length :
    (it : ℕ) (ns : Queue) → has it ns ≡ true → suc (length (erase_node it ns)) ≡ length ns
unfolding erase_node
erase_node-length it [] h = cc
erase_node-length it (n ∷ ns) h = ground (arith, erase_node-length it ns)

pub erase_node-last :
    (it : ℕ) (prev : Option ℕ) (ns : Queue)
    → has it ns ≡ true
    → last_of prev (erase_node it ns)
      ≡ elim (next_of it ns) [ none ↦ prev_of it prev ns | some q ↦ last_of prev ns ]
unfolding erase_node
erase_node-last it prev [] h = cc
erase_node-last it prev (n ∷ []) h = ground arith
erase_node-last it prev (n ∷ m ∷ ns) h = ground (arith, erase_node-last it (some n.it) (m ∷ ns))
