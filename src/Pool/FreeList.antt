-- ===== src/Pool/FreeList.antt =====
-- The free list of the pool and its accounts.
use order_book_matching_engi.Common.{
  ℕ, zero, suc, ◌+◌, ◌<◌, ◌≡◌, refl, ap, ◌∙◌, ◌==◌, ==_refl, ltb, Bool, true, false, ◌||◌, length,
  if◌then◌else◌, Option, none, some, List, [], ◌∷◌, inl, inr, arith, Bool-cases,
}
use order_book_matching_engi.Pool.{
  Slot, free, live, ObjectPool, put, decrement, new_pool, acquire, release, load,
}

abbrev pub first : List ℕ → Option ℕ
first [] = none
first (p ∷ ps) = some p

abbrev pub mem : ℕ → List ℕ → Bool
mem q [] = false
mem q (p ∷ ps) = (p == q) || mem q ps

-- The slots of a list, free and linked in its order.
abbrev pub Frees : {T : Type 0} → (ℕ → Slot T) → List ℕ → Type 0
Frees s [] = Unit
Frees s (p ∷ ps) = (s p ≡ free (first ps)) × (mem p ps ≡ false) × Frees s ps

-- A pool whose free list is `ps`: together with the objects in use these are all its slots.
pub record IsPool {T : Type 0} (pool : ObjectPool T) (ps : List ℕ) : Type 0 where
  pub head : pool.free_head ≡ first ps
  pub links : Frees pool.slots ps
  pub counted : pool.in_use + length ps ≡ pool.capacity

module _ {T : Type 0} where
  pub Frees_frame :
      (s s' : ℕ → Slot T) (ps : List ℕ)
      → Frees s ps
      → ((q : ℕ) → mem q ps ≡ true → s' q ≡ s q)
      → Frees s' ps
  Frees_frame s s' [] h same = tt
  Frees_frame s s' (p ∷ ps) h same =
      (same p (ground arith) ∙ h.0, h.1, Frees_frame s s' ps h.2 (λ q i. same q (ground arith)))

  -- A live slot is none of them.
  pub not_mem_of_live :
      (s : ℕ → Slot T) (ps : List ℕ) (q : ℕ) (v : T) → Frees s ps → s q ≡ live v → mem q ps ≡ false
  not_mem_of_live s [] q v h e = refl
  not_mem_of_live s (p ∷ ps) q v h e = elim (Bool-cases (p == q)) [
    | inl t ↦ let same : p ≡ q = ground arith in absurd (cc (h.0, e, ap s same))
    | inr t ↦ rw t (not_mem_of_live s ps q v h.2 e)
  ]

  pub mem_free :
      (s : ℕ → Slot T) (ps : List ℕ) (q : ℕ)
      → Frees s ps
      → mem q ps ≡ true
      → (f : Option ℕ) × (s q ≡ free f)
  mem_free s [] q h i = absurd cc
  mem_free s (p ∷ ps) q h i = elim (Bool-cases (p == q)) [
    | inl t ↦ let same : p ≡ q = ground arith in (first ps, cc (h.0, ap s same))
    | inr t ↦ mem_free s ps q h.2 (ground arith)
  ]

  -- `Acquire` takes the first free slot.
  pub acquire_first :
      (pool : ObjectPool T) (p : ℕ) (ps : List ℕ) (v : T)
      → IsPool pool (p ∷ ps)
      → (pool' : ObjectPool T) × (acquire pool v ≡ some (some p, pool'))
        × IsPool pool' ps
        × (pool'.slots ≡ put pool.slots p (live v))
        × (pool'.capacity ≡ pool.capacity)
        × (pool'.in_use ≡ pool.in_use + 1)
  unfolding acquire
  acquire_first pool p ps v h = (
    record pool {
      slots = put pool.slots p (live v);
      free_head = first ps;
      in_use = pool.in_use + 1;
    },
    ground (arith, h.head, h.links.0),
    record {
      head = refl;
      links =
          Frees_frame pool.slots _ ps h.links.2
            (λ q i. ground (arith, h.links.1, ap (λ x. mem x ps)));
      counted = omega (arith, h.counted);
    },
    refl,
    refl,
    refl,
  )

  pub acquire_none :
      (pool : ObjectPool T) (v : T) → IsPool pool [] → acquire pool v ≡ some (none, pool)
  unfolding acquire
  acquire_none pool v h = ground (arith, h.head)

  -- `Release` puts a live slot in front of the free list.
  pub release_lem :
      (pool : ObjectPool T) (p : ℕ) (ps : List ℕ) (v : T)
      → IsPool pool ps
      → pool.slots p ≡ live v
      → 0 < pool.in_use
      → (pool' : ObjectPool T) × (release pool p ≡ some pool')
        × IsPool pool' (p ∷ ps)
        × (pool'.slots ≡ put pool.slots p (free (first ps)))
        × (pool'.capacity ≡ pool.capacity)
        × (pool'.in_use + 1 ≡ pool.in_use)
  unfolding release
  release_lem pool p ps v h e b =
      let out = not_mem_of_live pool.slots ps p v h.links e in
      (
        record pool {
          slots = put pool.slots p (free (first ps));
          free_head = some p;
          in_use = decrement pool.in_use;
        },
        ground (arith, h.head),
        record {
          head = refl;
          links = (
            ground arith,
            out,
            Frees_frame pool.slots _ ps h.links (λ q i. ground (arith, out, ap (λ x. mem x ps))),
          );
          counted = ground (arith, h.counted);
        },
        refl,
        refl,
        ground arith,
      )

  -- On a pool with a free slot `Acquire` gives out the first one, with the object in it, and `Release`
  -- of it gives a pool with the free list and the accounts of before, and the other slots as they were.
  pub release-acquire :
      (pool : ObjectPool T) (p : ℕ) (ps : List ℕ) (v : T)
      → IsPool pool (p ∷ ps)
      → (pool1 : ObjectPool T) × (pool2 : ObjectPool T) × (acquire pool v ≡ some (some p, pool1))
        × (load pool1 p ≡ some v)
        × (release pool1 p ≡ some pool2)
        × IsPool pool2 (p ∷ ps)
        × (pool2.in_use ≡ pool.in_use)
        × ((q : ℕ) → (p == q) ≡ false → pool2.slots q ≡ pool.slots q)
  unfolding load
  release-acquire pool p ps v h =
      let (pool1, taken, h1, slots, capacity, in_use) = acquire_first pool p ps v h in
      let here : pool1.slots p ≡ live v = ap (λ s. s p) slots ∙ rw (==_refl p) refl in
      let (pool2, given, h2, slots2, capacity2, in_use2) =
        release_lem pool1 p ps v h1 here (omega (arith, in_use)) in
      (
        pool1,
        pool2,
        taken,
        rw (here, load) refl,
        given,
        h2,
        omega (arith, in_use, in_use2),
        λ q i. ap (λ s. s q) slots2 ∙ rw i (ap (λ s. s q) slots ∙ rw i refl),
      )

-- A new pool has every slot free.
abbrev pub slots_from : ℕ → ℕ → List ℕ
slots_from i zero = []
slots_from i (suc n) = i ∷ slots_from (suc i) n

length-slots_from : (i n : ℕ) → length (slots_from i n) ≡ n
length-slots_from i zero = refl
length-slots_from i (suc n) = ap suc (length-slots_from (suc i) n)

below_slots_from : (q i n : ℕ) → q < i → mem q (slots_from i n) ≡ false
below_slots_from q i zero h = refl
below_slots_from q i (suc n) h = ground (arith, below_slots_from q (suc i) n)

first-slots_from : (i n : ℕ) → first (slots_from i n) ≡ (if ltb 0 n then some i else none)
first-slots_from i zero = refl
first-slots_from i (suc n) = ground arith

slots_from-Frees :
    (T : Type 0) (capacity i n : ℕ)
    → i + n ≡ capacity
    → Frees (new_pool {T = T} capacity).slots (slots_from i n)
unfolding new_pool
slots_from-Frees T capacity i zero h = tt
slots_from-Frees T capacity i (suc n) h = (
  ground (arith, first-slots_from (suc i) n),
  below_slots_from i (suc i) n (omega arith),
  slots_from-Frees T capacity (suc i) n (omega arith),
)

module _ {T : Type 0} where
  pub new_pool-IsPool : (capacity : ℕ) → IsPool (new_pool {T = T} capacity) (slots_from 0 capacity)
  unfolding new_pool
  new_pool-IsPool capacity = record {
    head = ground (arith, first-slots_from 0 capacity);
    links = slots_from-Frees T capacity 0 capacity (omega arith);
    counted = omega (arith, length-slots_from 0 capacity);
  }
