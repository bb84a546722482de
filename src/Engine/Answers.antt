-- ===== src/Engine/Answers.antt =====
-- What answers a command: one event that accepts, rejects, cancels or modifies, then its details.
use order_book_matching_engi.Common.{
  ℕ, ◌≡◌, refl, subst, ◌==◌, ◌&&◌, not, Bool, true, false, All, map, Option, none, some, List, [],
  ◌∷◌, ◌++◌, Option-cases, Bool-cases, inl, inr, arith,
}
use order_book_matching_engi.Common.Words.{add64}
use order_book_matching_engi.Types.{Trade}
use order_book_matching_engi.Types.Messages.{
  Command, Event, NewOrderCommand, CancelCommand, ModifyCommand,
}
use order_book_matching_engi.Types.Messages.Command.{new_order, cancel, modify}
use order_book_matching_engi.Types.Messages.Event.{
  accepted, rejected, cancelled, modified, trade, book_update,
}
use order_book_matching_engi.Naive.{OrderBook, find_order}
use order_book_matching_engi.Naive.Operations.{add_order}
use order_book_matching_engi.Naive.Amend.{cancel_order, modify_order}
use order_book_matching_engi.Engine.{
  Engine, find_book, incoming_of, process_new_order, process_cancel, process_modify, process,
}
use order_book_matching_engi.Engine.Events.{
  book_updates, accepted_events, cancelled_events, modified_events,
}

-- The event decides the command: it is of the command's kind or a rejection, for its order and symbol.
abbrev pub answers : Command → Event → Bool
answers (new_order c) (accepted e) = e.order_id == c.order_id && e.symbol_id == c.symbol_id
answers (new_order c) (rejected e) = e.order_id == c.order_id && e.symbol_id == c.symbol_id
answers (cancel c) (cancelled e) = e.order_id == c.order_id && e.symbol_id == c.symbol_id
answers (cancel c) (rejected e) = e.order_id == c.order_id && e.symbol_id == c.symbol_id
answers (modify c) (modified e) = e.order_id == c.order_id && e.symbol_id == c.symbol_id
answers (modify c) (rejected e) = e.order_id == c.order_id && e.symbol_id == c.symbol_id
answers _ _ = false

-- A trade, or the new quantity of a level.
abbrev pub is_detail : Event → Bool
is_detail (trade t) = true
is_detail (book_update e) = true
is_detail _ = false

-- One answer in front, and nothing but details behind it.
abbrev pub Answers : Command → List Event → Type 0
Answers cmd [] = ⊥
Answers cmd (answer ∷ details) = (answers cmd answer ≡ true) × All (λ e. is_detail e ≡ true) details

book_updates_are_details :
    (b : OrderBook) (seq ts symbol : ℕ) (touched : _)
    → All (λ e. is_detail e ≡ true) (book_updates b seq ts symbol touched)
unfolding book_updates
book_updates_are_details b seq ts symbol [] = tt
book_updates_are_details b seq ts symbol ((s, p) ∷ touched) =
    (refl, book_updates_are_details b seq ts symbol touched)

trades_are_details :
    (ts : List Trade) (es : List Event)
    → All (λ e. is_detail e ≡ true) es
    → All (λ e. is_detail e ≡ true) (map trade ts ++ es)
trades_are_details [] es h = h
trades_are_details (t ∷ ts) es h = (refl, trades_are_details ts es h)

process_new_order-Answers :
    (e : Engine) (c : NewOrderCommand) (seq : ℕ)
    → Answers (new_order c) (process_new_order e c seq).0
unfolding process_new_order accepted_events
process_new_order-Answers e c seq = elim (Option-cases (find_book e c.symbol_id)) [
  | inl f ↦ rw (f, process_new_order) (ground arith, tt)
  | inr (b, f) ↦ elim (Bool-cases (not (add_order b (incoming_of c seq)).0.accepted)) [
    | inl t ↦ rw (f, t, process_new_order) (ground arith, tt)
    | inr t ↦
        rw (f, t, process_new_order)
          (ground arith, trades_are_details _ _ (book_updates_are_details _ _ _ _ _))
  ]
]

-- What a handler that returns gives.
abbrev AnswersAll : Command → Option (List Event × Engine) → Type 0
AnswersAll cmd none = Unit
AnswersAll cmd (some (out, e')) = Answers cmd out

process_cancel-AnswersAll :
    (e : Engine) (c : CancelCommand) (seq : ℕ) → AnswersAll (cancel c) (process_cancel e c seq)
unfolding process_cancel cancelled_events
process_cancel-AnswersAll e c seq = elim (Option-cases (find_book e c.symbol_id)) [
  | inl f ↦ rw (f, process_cancel) (ground arith, tt)
  | inr (b, f) ↦ elim (Option-cases (find_order b c.order_id)) [
    | inl g ↦ rw (f, g, process_cancel) tt
    | inr (existing, g) ↦ elim (Option-cases (cancel_order b c.order_id)) [
      | inl k ↦ rw (f, g, k, process_cancel) tt
      | inr ((r, b'), k) ↦ elim (Bool-cases (not r.success)) [
        | inl t ↦ rw (f, g, k, t, process_cancel) (ground arith, tt)
        | inr t ↦
            rw (f, g, k, t, process_cancel)
              (elim (Option-cases existing) [
                | inl n ↦ rw n (ground arith, tt)
                | inr (o, n) ↦ rw n (ground arith, book_updates_are_details _ _ _ _ _)
              ])
      ]
    ]
  ]
]

process_modify-AnswersAll :
    (e : Engine) (c : ModifyCommand) (seq : ℕ) → AnswersAll (modify c) (process_modify e c seq)
unfolding process_modify modified_events
process_modify-AnswersAll e c seq = elim (Option-cases (find_book e c.symbol_id)) [
  | inl f ↦ rw (f, process_modify) (ground arith, tt)
  | inr (b, f) ↦ elim (Option-cases (find_order b c.order_id)) [
    | inl g ↦ rw (f, g, process_modify) tt
    | inr (existing, g) ↦ elim (Option-cases existing) [
      | inl n ↦ rw (f, g, n, process_modify) (ground arith, tt)
      | inr (o, n) ↦
          elim (Option-cases
            (modify_order b c.order_id c.new_price c.new_quantity seq c.timestamp)) [
              | inl k ↦ rw (f, g, n, k, process_modify) tt
              | inr ((r, b'), k) ↦ elim (Bool-cases (not r.success)) [
                | inl t ↦ rw (f, g, n, k, t, process_modify) (ground arith, tt)
                | inr t ↦
                    rw (f, g, n, k, t, process_modify)
                      (ground arith, trades_are_details _ _ (book_updates_are_details _ _ _ _ _))
              ]
            ]
    ]
  ]
]

-- Every command that `Process` is given is answered by one event, with only details behind it.
pub process-Answers :
    (e e' : Engine) (cmd : Command) (seq : ℕ) (out : List Event)
    → process e cmd ≡ some (seq, out, e')
    → Answers cmd out
unfolding process
process-Answers e e' (new_order c) seq out h =
    let e1 = record e { next_seq = add64 e.next_seq 1 } in
    let same : (process_new_order e1 c e.next_seq).0 ≡ out = cc in
    subst (Answers (new_order c)) same (process_new_order-Answers e1 c e.next_seq)
process-Answers e e' (cancel c) seq out h =
    let e1 = record e { next_seq = add64 e.next_seq 1 } in
    elim (Option-cases (process_cancel e1 c e.next_seq)) [
      | inl k ↦ absurd (cc (h, k))
      | inr ((out', e2), k) ↦
          let same : out' ≡ out = cc (h, k) in
          subst (Answers (cancel c)) same (rw k at (process_cancel-AnswersAll e1 c e.next_seq))
    ]
process-Answers e e' (modify c) seq out h =
    let e1 = record e { next_seq = add64 e.next_seq 1 } in
    elim (Option-cases (process_modify e1 c e.next_seq)) [
      | inl k ↦ absurd (cc (h, k))
      | inr ((out', e2), k) ↦
          let same : out' ≡ out = cc (h, k) in
          subst (Answers (modify c)) same (rw k at (process_modify-AnswersAll e1 c e.next_seq))
    ]
