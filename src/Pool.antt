-- ===== src/Pool.antt =====
-- `ObjectPool`: include/matching_engine/object_pool.hpp. A pointer to a slot is the slot's index in
-- `slots_`, and `none` is the null pointer. A result whose outer `Option` is `none` is undefined
-- behaviour: a live slot read as a free one, or a free one as live.
pub mod FreeList
use order_book_matching_engi.Common.{ℕ, ◌+◌, ◌-◌, ◌^◌, ◌==◌, ltb, if◌then◌else◌, Option, none, some}

-- The union: the storage of an object, or the link of the free list.
pub data Slot (T : Type 0) : Type 0 where
  free : Option ℕ → Slot T
  live : T → Slot T

pub record ObjectPool (T : Type 0) : Type 0 where
  pub capacity : ℕ
  pub slots : ℕ → Slot T
  pub free_head : Option ℕ
  pub in_use : ℕ

abbrev pub put : {A : Type 0} → (ℕ → A) → ℕ → A → ℕ → A
put s p v q = if p == q then v else s q

-- `--n` of a `size_t`. What it counts are slots in memory, so `++n` does not wrap.
abbrev pub decrement : ℕ → ℕ
decrement n = if n == 0 then 2 ^ 64 - 1 else n - 1

module _ {T : Type 0} where
  unfoldable pub new_pool : ℕ → ObjectPool T
  new_pool capacity = record {
    capacity = capacity;
    slots = λ i. free (if ltb (i + 1) capacity then some (i + 1) else none);
    free_head = if ltb 0 capacity then some 0 else none;
    in_use = 0;
  }

  -- The object is constructed as `v`.
  unfoldable pub acquire : ObjectPool T → T → Option (Option ℕ × ObjectPool T)
  acquire pool v = elim pool.free_head [
    | none ↦ some (none, pool)
    | some p ↦ elim (pool.slots p) [
      | live w ↦ none
      | free next ↦ some (
        some p,
        record pool {
          slots = put pool.slots p (live v);
          free_head = next;
          in_use = pool.in_use + 1;
        },
      )
    ]
  ]

  unfoldable pub release : ObjectPool T → ℕ → Option (ObjectPool T)
  release pool p = elim (pool.slots p) [
    | free next ↦ none
    | live v ↦ some (record pool {
      slots = put pool.slots p (free pool.free_head);
      free_head = some p;
      in_use = decrement pool.in_use;
    })
  ]

  -- `*p` and an assignment to it.
  unfoldable pub load : ObjectPool T → ℕ → Option T
  load pool p = elim (pool.slots p) [ free next ↦ none | live v ↦ some v ]

  unfoldable pub store : ObjectPool T → ℕ → T → ObjectPool T
  store pool p v = record pool { slots = put pool.slots p (live v) }

  unfoldable pub available : ObjectPool T → ℕ
  available pool = pool.capacity - pool.in_use
