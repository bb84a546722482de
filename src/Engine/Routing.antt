-- ===== src/Engine/Routing.antt =====
-- `PartitionedEngine::Dispatch` reaches one partition, the one of the command's symbol.
use order_book_matching_engi.Common.{
  ℕ, zero, suc, ◌<◌, ◌≡◌, refl, ap, ◌∙◌, ◌==◌, ◌&&◌, ◌||◌, not, if◌then◌else◌, some, List, [], ◌∷◌,
  All, length, get_elem?, set, Option-cases, inl, inr, arith,
}
use order_book_matching_engi.Common.Keyed
use order_book_matching_engi.Common.Keyed.{find-insert}
use order_book_matching_engi.Types.Messages.{Command, Event, symbol_of}
use order_book_matching_engi.Engine.{Engine, register_symbol, owns_symbol, find_book}
use order_book_matching_engi.Naive.{empty_book}
use order_book_matching_engi.Engine.Books.{IsEngine, new_engine-IsEngine, register_symbol-IsEngine}
use order_book_matching_engi.Engine.Isolation.{IsInRange, process_lem}
use order_book_matching_engi.Engine.Partitions.{
  SymbolRouter, pin, partition_for, PartitionedEngine, engines_from, new_partitions, register_on,
  register_symbol_on_partition, dispatch,
}

-- A router whose pins are partitions.
abbrev pub IsRouter : SymbolRouter → Type 0
IsRouter r = (0 < r.partition_count) × All (λ e. e.1 < r.partition_count) r.overrides

pub record IsPartitioned (pe : PartitionedEngine) : Type 0 where
  pub counted : length pe.partitions ≡ pe.router.partition_count
  pub router : IsRouter pe.router
  pub engines : All IsEngine pe.partitions

find_below : (k s p : ℕ) (m : List (ℕ × ℕ)) → All (λ e. e.1 < k) m → Keyed.find s m ≡ some p → p < k
unfolding Keyed.find
find_below k s p [] h e = absurd cc
find_below k s p ((t, q) ∷ m) h e = ground (arith, find_below k s p m h.1)

insert_below :
    (k s p : ℕ) (m : List (ℕ × ℕ))
    → p < k
    → All (λ e. e.1 < k) m
    → All (λ e. e.1 < k) (Keyed.insert s p m)
unfolding Keyed.insert
insert_below k s p [] b h = (b, tt)
insert_below k s p ((t, q) ∷ m) b h = ground (arith, insert_below k s p m b h.1)

-- A symbol always routes to one of the partitions.
pub partition_for_bound :
    (r : SymbolRouter) (s : ℕ) → IsRouter r → partition_for r s < r.partition_count
unfolding partition_for
partition_for_bound r s h = elim (Option-cases (Keyed.find s r.overrides)) [
  | inl e ↦ rw (e, partition_for) (omega (arith, h.0))
  | inr (p, e) ↦ rw (e, partition_for) (find_below r.partition_count s p r.overrides h.1 e)
]

-- Pinning a symbol routes it to its partition, and every other symbol as before.
partition_for-pin :
    (r : SymbolRouter) (s t p : ℕ)
    → partition_for (pin r s p) t ≡ (if s == t then p else partition_for r t)
unfolding partition_for pin
partition_for-pin r s t p = ground (arith, find-insert s t p r.overrides)

get_elem?-lt :
    (es : List Engine) (i : ℕ)
    → i < length es
    → All IsEngine es
    → (e : Engine) × (get_elem? es i ≡ some e) × IsEngine e
get_elem?-lt [] i b h = absurd (omega arith)
get_elem?-lt (e ∷ es) zero b h = (e, refl, h.0)
get_elem?-lt (e ∷ es) (suc i) b h = get_elem?-lt es i (omega arith) h.1

set-engines :
    (es : List Engine) (i : ℕ) (e : Engine)
    → IsEngine e
    → All IsEngine es
    → All IsEngine (set es i e)
set-engines [] i e k h = tt
set-engines (x ∷ es) zero e k h = (k, h.1)
set-engines (x ∷ es) (suc i) e k h = (h.0, set-engines es i e k h.1)

length-set : (es : List Engine) (i : ℕ) (e : Engine) → length (set es i e) ≡ length es
length-set [] i e = refl
length-set (x ∷ es) zero e = refl
length-set (x ∷ es) (suc i) e = ap suc (length-set es i e)

get_elem?-set :
    (es : List Engine) (i q : ℕ) (e : Engine)
    → get_elem? (set es i e) q ≡ (if i == q then get_elem? (set es i e) q else get_elem? es q)
get_elem?-set [] i q e = ground arith
get_elem?-set (x ∷ es) zero zero e = refl
get_elem?-set (x ∷ es) zero (suc q) e = ground arith
get_elem?-set (x ∷ es) (suc i) zero e = ground arith
get_elem?-set (x ∷ es) (suc i) (suc q) e = ground (arith, get_elem?-set es i q e)

-- `Dispatch` returns on a command whose quantity is in range, and keeps the engine partitioned and
-- all books well formed and indexed. It changes no partition but the one that the command's symbol
-- routes to, and not the router.
pub dispatch_lem :
    (pe : PartitionedEngine) (cmd : Command) (q : ℕ)
    → IsPartitioned pe
    → IsInRange cmd
    → (seq : ℕ) × (out : List Event) × (pe' : PartitionedEngine) × (dispatch pe cmd
        ≡ some (seq, out, pe'))
      × IsPartitioned pe'
      × (pe'.router ≡ pe.router)
      × (get_elem? pe'.partitions q ≡ (
          if partition_for pe.router (symbol_of cmd) == q
          then get_elem? pe'.partitions q
          else get_elem? pe.partitions q))
unfolding dispatch
dispatch_lem pe cmd q h u =
    let p = partition_for pe.router (symbol_of cmd) in
    let bound = partition_for_bound pe.router (symbol_of cmd) h.router in
    let (e, there, k) = get_elem?-lt pe.partitions p (omega (arith, bound, h.counted)) h.engines in
    let (out, e', done, k', _, _, _) = process_lem e cmd k u in
    (
      e.next_seq,
      out,
      record pe { partitions = set pe.partitions p e' },
      ground arith,
      record {
        counted = length-set pe.partitions p e' ∙ h.counted;
        router = h.router;
        engines = set-engines pe.partitions p e' k' h.engines;
      },
      refl,
      get_elem?-set pe.partitions p q e',
    )

engines_from-IsEngine : (i n : ℕ) → All IsEngine (engines_from i n)
unfolding engines_from
engines_from-IsEngine i zero = tt
engines_from-IsEngine i (suc n) = (new_engine-IsEngine i, engines_from-IsEngine (suc i) n)

length-engines_from : (i n : ℕ) → length (engines_from i n) ≡ n
unfolding engines_from
length-engines_from i zero = refl
length-engines_from i (suc n) = ap suc (length-engines_from (suc i) n)

pub new_partitions-IsPartitioned : (n : ℕ) → 0 < n → IsPartitioned (new_partitions n)
unfolding new_partitions
new_partitions-IsPartitioned n h = record {
  counted = length-engines_from 0 n;
  router = (h, tt);
  engines = engines_from-IsEngine 0 n;
}

get_elem?-set_here :
    (es : List Engine) (i : ℕ) (e : Engine) → i < length es → get_elem? (set es i e) i ≡ some e
get_elem?-set_here [] i e b = absurd (omega arith)
get_elem?-set_here (x ∷ es) zero e b = refl
get_elem?-set_here (x ∷ es) (suc i) e b = get_elem?-set_here es i e (omega arith)

-- A symbol that is registered anew has an empty book, one that was registered keeps its own.
find_book-register_symbol :
    (e : Engine) (s t : ℕ)
    → find_book (register_symbol e s) t
      ≡ (if s == t && not (owns_symbol e s) then some (empty_book s) else find_book e t)
unfolding find_book register_symbol owns_symbol
find_book-register_symbol e s t = ground (arith, find-insert s t (empty_book s) e.books)

owns_symbol-register_symbol :
    (e : Engine) (s t : ℕ) → owns_symbol (register_symbol e s) t ≡ (s == t || owns_symbol e t)
unfolding register_symbol owns_symbol
owns_symbol-register_symbol e s t = ground (arith, find-insert s t (empty_book s) e.books)

-- Registering a symbol on a partition in range succeeds and keeps the engine partitioned. The
-- partition then owns the symbol, with the book it had of it or else an empty one, and owns of the
-- other symbols those that it did, with the books it had; the other partitions are as they were. The
-- symbol routes to the partition, and every other symbol as before.
pub register_symbol_on_partition_lem :
    (pe : PartitionedEngine) (s p t q : ℕ)
    → IsPartitioned pe
    → p < length pe.partitions
    → (pe' : PartitionedEngine) × (register_symbol_on_partition pe s p ≡ some pe')
      × IsPartitioned pe'
      × (partition_for pe'.router t ≡ (if s == t then p else partition_for pe.router t))
      × (e : Engine) × (e' : Engine) × (get_elem? pe.partitions p ≡ some e)
      × (get_elem? pe'.partitions q ≡ (if p == q then some e' else get_elem? pe.partitions q))
      × (owns_symbol e' t ≡ (s == t || owns_symbol e t))
      × (find_book e' t
          ≡ (if s == t && not (owns_symbol e s) then some (empty_book s) else find_book e t))
unfolding register_symbol_on_partition register_on pin
register_symbol_on_partition_lem pe s p t q h b =
    let (e, there, k) = get_elem?-lt pe.partitions p b h.engines in
    (
      record { router = pin pe.router s p; partitions = set pe.partitions p (register_symbol e s) },
      ground arith,
      record {
        counted = length-set pe.partitions p (register_symbol e s) ∙ h.counted;
        router = (
          h.router.0,
          insert_below pe.router.partition_count s p pe.router.overrides (omega (arith, h.counted))
              h.router.1,
        );
        engines =
            set-engines pe.partitions p (register_symbol e s) (register_symbol-IsEngine e s k)
              h.engines;
      },
      partition_for-pin pe.router s t p,
      e,
      register_symbol e s,
      there,
      ground (
        arith,
        get_elem?-set pe.partitions p q (register_symbol e s),
        get_elem?-set_here pe.partitions p (register_symbol e s) b,
      ),
      owns_symbol-register_symbol e s t,
      find_book-register_symbol e s t,
    )
