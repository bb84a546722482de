-- ===== src/Engine/Books.antt =====
-- The engine as a whole: all its books are well formed and indexed, and `Process` keeps them so.
use order_book_matching_engi.Common.{
  ℕ, ◌≡◌, refl, subst, ◌==◌, not, some, List, Option-cases, Bool-cases, inl, inr,
}
use order_book_matching_engi.Common.Words.{IsU64}
use order_book_matching_engi.Common.Keyed
use order_book_matching_engi.Common.Keyed.{find-insert, erase-insert}
use order_book_matching_engi.Types.Messages.{NewOrderCommand, CancelCommand, ModifyCommand, Event}
use order_book_matching_engi.Naive.{OrderBook, empty_book}
use order_book_matching_engi.Naive.Operations.{add_order}
use order_book_matching_engi.Naive.Books.{IsBook, empty_book-IsBook, add_order-IsBook}
use order_book_matching_engi.Naive.Indexed.{IsIndexed, empty_book-IsIndexed, add_order-IsIndexed}
use order_book_matching_engi.Naive.Cancelling.{find_order_lem, cancel_order_lem}
use order_book_matching_engi.Naive.Replacing.{modify_order_lem}
use order_book_matching_engi.Engine.{
  Engine, new_engine, find_book, with_book, incoming_of, register_symbol, process_new_order,
  process_cancel, process_modify,
}
use order_book_matching_engi.Engine.Sequencing.{
  AreSequenced, add_order-TradesSequenced, modify_order-TradesSequenced,
  accepted_events-AreSequenced, cancelled_events-AreSequenced, modified_events-AreSequenced,
}

-- Every book of the engine is well formed, and its index right.
pub record IsEngine (e : Engine) : Type 0 where
  pub books : (s : ℕ) (b : OrderBook) → Keyed.find s e.books ≡ some b → IsBook b × IsIndexed b

pub new_engine-IsEngine : (partition : ℕ) → IsEngine (new_engine partition)
unfolding new_engine Keyed.find
new_engine-IsEngine partition = record { books = λ s b h. absurd cc }

with_book-IsEngine :
    (e : Engine) (s : ℕ) (b : OrderBook)
    → IsEngine e
    → IsBook b
    → IsIndexed b
    → IsEngine (with_book e s b)
with_book-IsEngine e s b h k i = record {
  books = λ t c found. elim (Bool-cases (s == t)) [
    | inl q ↦
        let same : b ≡ c = cc (found, q, find-insert s t b e.books) in
        subst (λ x. IsBook x × IsIndexed x) same (k, i)
    | inr q ↦
        let there : Keyed.find t e.books ≡ some c = cc (found, q, find-insert s t b e.books) in
        h.books t c there
  ];
}

-- Registering a symbol keeps the books.
pub register_symbol-IsEngine : (e : Engine) (s : ℕ) → IsEngine e → IsEngine (register_symbol e s)
unfolding register_symbol
register_symbol-IsEngine e s h = elim (Option-cases (Keyed.find s e.books)) [
  | inl f ↦
      rw (f, register_symbol)
        (with_book-IsEngine e s (empty_book s) h (empty_book-IsBook s) (empty_book-IsIndexed s))
  | inr (b, f) ↦ rw (f, register_symbol) h
]

-- What a handler leaves: good books, the next sequence number, the books of all other symbols, and
-- events with the command's sequence number.
pub record IsHandled (e : Engine) (symbol seq : ℕ) (out : List Event) (e' : Engine) : Type 0 where
  pub engine : IsEngine e'
  pub next_seq : e'.next_seq ≡ e.next_seq
  pub others : Keyed.erase symbol e'.books ≡ Keyed.erase symbol e.books
  pub sequenced : AreSequenced seq out

unchanged-IsHandled :
    (e : Engine) (symbol seq : ℕ) (out : List Event)
    → IsEngine e
    → AreSequenced seq out
    → IsHandled e symbol seq out e
unchanged-IsHandled e symbol seq out h s = record {
  engine = h;
  next_seq = refl;
  others = refl;
  sequenced = s;
}

with_book-IsHandled :
    (e : Engine) (symbol seq : ℕ) (b : OrderBook) (out : List Event)
    → IsEngine e
    → IsBook b
    → IsIndexed b
    → AreSequenced seq out
    → IsHandled e symbol seq out (with_book e symbol b)
with_book-IsHandled e symbol seq b out h k i s = record {
  engine = with_book-IsEngine e symbol b h k i;
  next_seq = refl;
  others = erase-insert symbol b e.books;
  sequenced = s;
}

pub process_new_order-IsHandled :
    (e : Engine) (c : NewOrderCommand) (seq : ℕ)
    → IsEngine e
    → IsU64 c.quantity
    → let (out, e') = process_new_order e c seq in IsHandled e c.symbol_id seq out e'
unfolding process_new_order find_book
process_new_order-IsHandled e c seq h u = elim (Option-cases (Keyed.find c.symbol_id e.books)) [
  | inl f ↦
      rw (f, process_new_order, find_book) (unchanged-IsHandled e c.symbol_id seq _ h (refl, tt))
  | inr (b, f) ↦
      let (k, i) = h.books c.symbol_id b f in
      let a = incoming_of c seq in
      let k' = add_order-IsBook b a k u in
      let i' = add_order-IsIndexed b a k i in
      elim (Bool-cases (not (add_order b a).0.accepted)) [
        | inl t ↦
            rw (f, t, process_new_order, find_book)
              (with_book-IsHandled e c.symbol_id seq (add_order b a).1 _ h k' i' (refl, tt))
        | inr t ↦
            rw (f, t, process_new_order, find_book)
              (with_book-IsHandled e c.symbol_id seq (add_order b a).1 _ h k' i' (
                accepted_events-AreSequenced c seq (add_order b a).0 (add_order b a).1
                  (add_order-TradesSequenced b a)))
      ]
]

pub process_cancel-IsHandled :
    (e : Engine) (c : CancelCommand) (seq : ℕ)
    → IsEngine e
    → (out : List Event) × (e' : Engine) × (process_cancel e c seq ≡ some (out, e'))
      × IsHandled e c.symbol_id seq out e'
unfolding process_cancel find_book
process_cancel-IsHandled e c seq h = elim (Option-cases (Keyed.find c.symbol_id e.books)) [
  | inl f ↦
      rw (f, process_cancel, find_book)
        (_, e, refl, unchanged-IsHandled e c.symbol_id seq _ h (refl, tt))
  | inr (b, f) ↦
      let (k, i) = h.books c.symbol_id b f in
      let (existing, found, _) = find_order_lem b c.order_id i in
      let (r, b', done, _, _, _, k', i') = cancel_order_lem b c.order_id c.order_id k i in
      elim (Bool-cases (not r.success)) [
        | inl t ↦
            rw (f, found, done, t, process_cancel, find_book)
              (
                _,
                with_book e c.symbol_id b',
                refl,
                with_book-IsHandled e c.symbol_id seq b' _ h k' i' (refl, tt),
              )
        | inr t ↦
            rw (f, found, done, t, process_cancel, find_book)
              (
                _,
                with_book e c.symbol_id b',
                refl,
                with_book-IsHandled e c.symbol_id seq b' _ h k' i'
                    (cancelled_events-AreSequenced c seq existing r b'),
              )
      ]
]

pub process_modify-IsHandled :
    (e : Engine) (c : ModifyCommand) (seq : ℕ)
    → IsEngine e
    → IsU64 c.new_quantity
    → (out : List Event) × (e' : Engine) × (process_modify e c seq ≡ some (out, e'))
      × IsHandled e c.symbol_id seq out e'
unfolding process_modify find_book
process_modify-IsHandled e c seq h u = elim (Option-cases (Keyed.find c.symbol_id e.books)) [
  | inl f ↦
      rw (f, process_modify, find_book)
        (_, e, refl, unchanged-IsHandled e c.symbol_id seq _ h (refl, tt))
  | inr (b, f) ↦
      let (k, i) = h.books c.symbol_id b f in
      let (existing, found, _) = find_order_lem b c.order_id i in
      elim (Option-cases existing) [
        | inl n ↦
            rw (f, found, n, process_modify, find_book)
              (_, e, refl, unchanged-IsHandled e c.symbol_id seq _ h (refl, tt))
        | inr (o, n) ↦
            let (r, b', done, _, k', i') =
              modify_order_lem b c.order_id c.new_price c.new_quantity seq c.timestamp k i u in
            elim (Bool-cases (not r.success)) [
              | inl t ↦
                  rw (f, found, n, done, t, process_modify, find_book)
                    (
                      _,
                      with_book e c.symbol_id b',
                      refl,
                      with_book-IsHandled e c.symbol_id seq b' _ h k' i' (refl, tt),
                    )
              | inr t ↦
                  rw (f, found, n, done, t, process_modify, find_book)
                    (
                      _,
                      with_book e c.symbol_id b',
                      refl,
                      with_book-IsHandled e c.symbol_id seq b' _ h k' i' (
                          modified_events-AreSequenced c seq o r b' (
                            modify_order-TradesSequenced b b' c.order_id c.new_price c.new_quantity
                              seq c.timestamp r done)),
                    )
            ]
      ]
]
