-- ===== src/Fast/Pushing.antt =====
-- `PushBack` puts a node behind the queue of its level.
use order_book_matching_engi.Common.{
  ℕ, ◌≡◌, refl, ap, ◌∙◌, ◌==◌, ==_refl, true, false, ◌||◌, length-append, Option, none, some,
  Bool-cases, inl, inr, [], ◌∷◌, ◌++◌, arith,
}
use order_book_matching_engi.Pool.{live, load, store}
use order_book_matching_engi.Naive
use order_book_matching_engi.Fast
use order_book_matching_engi.Fast.{NodePool}
use order_book_matching_engi.Fast.Links.{push_back}
use order_book_matching_engi.Fast.Cells.{
  Slots, Queue, node, has, head_of, last_of, Cells, level_of, is_ptr,
}
use order_book_matching_engi.Fast.Relinking.{set_next}
use order_book_matching_engi.Fast.Removing.{has_live, flip, apart, put_other}
use order_book_matching_engi.Fast.Rounds.{level}
use order_book_matching_engi.Types.{Price, Quantity}

abbrev pub pushed : Queue → Naive.Node → Queue
pushed ns n = ns ++ (n ∷ [])

pub has-pushed :
    (q : ℕ) (ns : Queue) (n : Naive.Node) → has q (pushed ns n) ≡ (has q ns || (n.it == q))
has-pushed q [] n = ground arith
has-pushed q (m ∷ ns) n = ground (arith, has-pushed q ns n)

head_of-pushed :
    (ns : Queue) (n : Naive.Node)
    → head_of (pushed ns n) ≡ elim (head_of ns) [ none ↦ some n.it | some q ↦ some q ]
head_of-pushed [] n = refl
head_of-pushed (m ∷ ns) n = refl

last_of-pushed :
    (prev : Option ℕ) (ns : Queue) (n : Naive.Node) → last_of prev (pushed ns n) ≡ some n.it
last_of-pushed prev [] n = refl
last_of-pushed prev (m ∷ ns) n = last_of-pushed (some m.it) ns n

last_in :
    (prev : Option ℕ) (ns : Queue) (t : ℕ)
    → last_of prev ns ≡ some t
    → (is_ptr prev t || has t ns) ≡ true
last_in prev [] t e = ground arith
last_in prev (n ∷ ns) t e = ground (arith, last_in (some n.it) ns t e)

last_some : (prev : ℕ) (ns : Queue) → (t : ℕ) × (last_of (some prev) ns ≡ some t)
last_some prev [] = (prev, refl)
last_some prev (n ∷ ns) = last_some n.it ns

-- The slots hold the longer queue when the last node leads to the new one.
Cells-pushed :
    (s s' : Slots) (prev : Option ℕ) (ns : Queue) (n : Naive.Node)
    → Cells s prev ns
    → has n.it ns ≡ false
    → s' n.it ≡ node n.order (last_of prev ns) none
    → ((q : ℕ) → has q ns ≡ true → s' q ≡ set_next (is_ptr (last_of none ns) q) (some n.it) (s q))
    → Cells s' prev (pushed ns n)
Cells-pushed s s' prev [] n c d e k = (e, refl, tt)
Cells-pushed s s' prev (m ∷ []) n c d e k = (
  k m.it (ground arith) ∙ rw (==_refl m.it, c.0) refl,
  ground arith,
  Cells-pushed s s' (some m.it) [] n tt refl e (λ q i. absurd cc),
)
Cells-pushed s s' prev (m ∷ j ∷ ns) n c d e k =
    let (t, last) = last_some j.it ns in
    let within = last_in none (j ∷ ns) t last in
    let other = flip m.it t (apart m.it t (j ∷ ns) c.1 within) in
    (
      k m.it (ground arith) ∙ rw (last, other, c.0) refl,
      has-pushed m.it (j ∷ ns) n ∙ ground (arith, c.1),
      Cells-pushed s s' (some m.it) (j ∷ ns) n c.2 (ground arith) e (λ q i. k q (ground arith)),
    )

-- What `PushBack` leaves of the pool.
pub record IsPushed (pool : NodePool) (ns : Queue) (n : Naive.Node) (pool' : NodePool)
    : Type 0 where
  pub cells : Cells pool'.slots none (pushed ns n)
  pub others : (q : ℕ) → has q ns ≡ false → (n.it == q) ≡ false → pool'.slots q ≡ pool.slots q
  pub capacity : pool'.capacity ≡ pool.capacity
  pub free_head : pool'.free_head ≡ pool.free_head
  pub in_use : pool'.in_use ≡ pool.in_use

push_behind :
    (pool : NodePool) (p : Price) (total : Quantity) (m : Naive.Node) (ns : Queue) (n : Naive.Node)
    (t : ℕ) (v : Fast.Node)
    → Cells pool.slots none (m ∷ ns)
    → pool.slots n.it ≡ node n.order none none
    → has n.it (m ∷ ns) ≡ false
    → last_of (some m.it) ns ≡ some t
    → pool.slots t ≡ live v
    → (n.it == t) ≡ false
    → has t (m ∷ ns) ≡ true
    → (pool' : NodePool) × (push_back pool (level_of (level p total (m ∷ ns))) n.it
        ≡ some (pool', level_of (level p total (pushed (m ∷ ns) n))))
      × IsPushed pool (m ∷ ns) n pool'
unfolding push_back load store
push_behind pool p total m ns n t v c e d z there other within =
    let outside : (q : ℕ) → has q (m ∷ ns) ≡ false → (t == q) ≡ false =
      λ q i. flip q t (apart q t (m ∷ ns) i within) in
    (
      store (store pool n.it (record { order = n.order; prev = some t; next = none })) t
          (record v { next = some n.it }),
      ground
          (arith, z, e, there, other, last_of-pushed (some m.it) ns n, length-append ns (n ∷ [])),
      record {
        cells =
            Cells-pushed pool.slots _ none (m ∷ ns) n c d
              (rw (z, flip n.it t other, ==_refl n.it) refl)
              (λ q i.
                let new = apart n.it q (m ∷ ns) d i in
                elim (Bool-cases (t == q)) [
                  | inl s ↦ rw (z, s) (ground (arith, there, ap pool.slots))
                  | inr s ↦ rw (z, s, new) refl
                ]);
        others = λ q i j. rw (outside q i, j) refl;
        capacity = refl;
        free_head = refl;
        in_use = refl;
      },
    )

-- `PushBack` of a loose node that the level does not have returns; the level and the slots then hold
-- the queue with it at the back, and no other slot has changed.
pub push_back-IsPushed :
    (pool : NodePool) (p : Price) (total : Quantity) (ns : Queue) (n : Naive.Node)
    → Cells pool.slots none ns
    → pool.slots n.it ≡ node n.order none none
    → has n.it ns ≡ false
    → (pool' : NodePool) × (push_back pool (level_of (level p total ns)) n.it
        ≡ some (pool', level_of (level p total (pushed ns n))))
      × IsPushed pool ns n pool'
unfolding push_back load store
push_back-IsPushed pool p total [] n c e d = (
  store pool n.it (record { order = n.order; prev = none; next = none }),
  ground (arith, e),
  record {
    cells = (rw (==_refl n.it) refl, refl, tt);
    others = λ q i j. put_other pool.slots n.it q _ j;
    capacity = refl;
    free_head = refl;
    in_use = refl;
  },
)
push_back-IsPushed pool p total (m ∷ ns) n c e d =
    let (t, z) = last_some m.it ns in
    let within = last_in none (m ∷ ns) t z in
    let (v, there) = has_live pool.slots none t (m ∷ ns) c within in
    push_behind pool p total m ns n t v c e d z there (apart n.it t (m ∷ ns) d within) within
