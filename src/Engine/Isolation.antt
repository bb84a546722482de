-- ===== src/Engine/Isolation.antt =====
-- `Process` answers every command, one after the other, and leaves other symbols alone.
use order_book_matching_engi.Common.{
  ℕ, ◌≡◌, refl, subst, Option, some, List, [], ◌∷◌, ◌++◌, ◌>>=◌, All, arith,
}
use order_book_matching_engi.Common.Words.{IsU64, add64}
use order_book_matching_engi.Common.Keyed
use order_book_matching_engi.Types.Messages.{Command, Event, symbol_of}
use order_book_matching_engi.Types.Messages.Command.{new_order, cancel, modify}
use order_book_matching_engi.Engine.{Engine, process}
use order_book_matching_engi.Engine.Sequencing.{AreSequenced}
use order_book_matching_engi.Engine.Answers.{Answers, process-Answers}
use order_book_matching_engi.Engine.Books.{
  IsEngine, process_new_order-IsHandled, process_cancel-IsHandled, process_modify-IsHandled,
}

-- The quantity of a command is one of its type.
abbrev pub IsInRange : Command → Type 0
IsInRange (new_order c) = IsU64 c.quantity
IsInRange (cancel c) = Unit
IsInRange (modify c) = IsU64 c.new_quantity

counted-IsEngine : (e : Engine) (n : ℕ) → IsEngine e → IsEngine (record e { next_seq = n })
counted-IsEngine e n h = record { books = h.books }

-- `Process` returns on every command whose quantity is in range, of an engine whose books are well
-- formed and indexed. It gives the command the next sequence number, which all its events carry,
-- counts on by one, keeps all books well formed and indexed, and leaves the books of other symbols
-- as they were.
pub process_lem :
    (e : Engine) (cmd : Command)
    → IsEngine e
    → IsInRange cmd
    → (out : List Event) × (e' : Engine) × (process e cmd ≡ some (e.next_seq, out, e'))
      × IsEngine e'
      × (e'.next_seq ≡ add64 e.next_seq 1)
      × (Keyed.erase (symbol_of cmd) e'.books ≡ Keyed.erase (symbol_of cmd) e.books)
      × AreSequenced e.next_seq out
unfolding process symbol_of
process_lem e (new_order c) h u =
    let e1 = record e { next_seq = add64 e.next_seq 1 } in
    let k =
      process_new_order-IsHandled e1 c e.next_seq (counted-IsEngine e (add64 e.next_seq 1) h) u in
    (_, _, refl, k.engine, k.next_seq, k.others, k.sequenced)
process_lem e (cancel c) h u =
    let e1 = record e { next_seq = add64 e.next_seq 1 } in
    let (out, e', done, k) =
      process_cancel-IsHandled e1 c e.next_seq (counted-IsEngine e (add64 e.next_seq 1) h) in
    (out, e', ground arith, k.engine, k.next_seq, k.others, k.sequenced)
process_lem e (modify c) h u =
    let e1 = record e { next_seq = add64 e.next_seq 1 } in
    let (out, e', done, k) =
      process_modify-IsHandled e1 c e.next_seq (counted-IsEngine e (add64 e.next_seq 1) h) u in
    (out, e', ground arith, k.engine, k.next_seq, k.others, k.sequenced)

-- The commands of a journal or a queue, one after the other.
unfoldable pub run : Engine → List Command → Option (List Event × Engine)
run e [] = some ([], e)
run e (cmd ∷ cmds) = do
  (seq, out, e') ← process e cmd
  (rest, e'') ← run e' cmds
  some (out ++ rest, e'')

-- The events are one block for each command, in the commands' order: the answer to it and its
-- details, with the next sequence number each.
abbrev pub AreAnswered : ℕ → List Command → List Event → Type 0
AreAnswered seq [] out = out ≡ []
AreAnswered seq (cmd ∷ cmds) out =
    (block : List Event) × (more : List Event) × (out ≡ block ++ more)
    × Answers cmd block
    × AreSequenced seq block
    × AreAnswered (add64 seq 1) cmds more

-- Commands whose quantities are in range are all answered by an engine whose books are well formed
-- and indexed, and the books stay so. The events are one block for each command, in the commands'
-- order, and carry the sequence numbers from the engine's next on, one for each block. A block is one
-- event that accepts, cancels or modifies the command's order, by the command's kind, or rejects the
-- command, and behind it nothing but trades and level updates.
pub run_lem :
    (e : Engine) (cmds : List Command)
    → IsEngine e
    → All IsInRange cmds
    → (out : List Event) × (e' : Engine) × (run e cmds ≡ some (out, e'))
      × IsEngine e'
      × AreAnswered e.next_seq cmds out
unfolding run
run_lem e [] h u = ([], e, refl, h, refl)
run_lem e (cmd ∷ cmds) h u =
    let (out, e', done, k, next, _, sequenced) = process_lem e cmd h u.0 in
    let (rest, e'', more, k', answered) = run_lem e' cmds k u.1 in
    (
      out ++ rest,
      e'',
      ground arith,
      k',
      (
        out,
        rest,
        refl,
        process-Answers e e' cmd e.next_seq out done,
        sequenced,
        subst (λ n. AreAnswered n cmds rest) next answered,
      ),
    )
