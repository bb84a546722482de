-- ===== src/Journal/Crash.antt =====
-- Appending to a journal, also when `write` fails on the way, and reading it back.
use order_book_matching_engi.Common.{
  ℕ, zero, suc, ◌+◌, ◌≤◌, ◌<◌, ◌≡◌, refl, sym, ap, ◌∙◌, false, All, All-append, length,
  length-append, length-drop, take, drop, Option, none, some, List, [], ◌∷◌, ◌++◌, arith,
}
use order_book_matching_engi.Types.Messages.{Command, new_order, cancel, modify}
use order_book_matching_engi.Wire.{Bytes, write_u8, write_u32, write_u64, write_i64, push_bytes}
use order_book_matching_engi.Wire.Commands.{
  encode_command, encode_new_order, encode_cancel, encode_modify,
}
use order_book_matching_engi.Wire.RoundTrip.{IsCommand, decode_command-encode_command}
use order_book_matching_engi.Frames.{waiting, frame_message}
use order_book_matching_engi.Frames.Stream.{cut, cut_all_mono}
use order_book_matching_engi.Frames.RoundTrip.{
  IsBody, messages, cut_torn, cut_all-messages, length-frame_message, take-append-drop,
}
use order_book_matching_engi.Journal.{
  Appended, returned, threw, blocked, write_loop, append, commands, read_journal,
}
use order_book_matching_engi.Journal.Reading.{log_of, read_journal-log_of, encodings, journal_of}
use Prim.Native.Nat.add
use mathlib.Core.List.{append_assoc, append-nil}

-- Every command fits one frame.
pub encode_command-IsBody : (c : Command) → IsBody (encode_command c)
unfolding encode_command encode_new_order encode_cancel encode_modify write_u8 write_u32 write_u64
    write_i64 push_bytes
encode_command-IsBody (new_order c) = omega arith
encode_command-IsBody (cancel c) = omega arith
encode_command-IsBody (modify c) = omega arith

encodings-IsBody : (cs : List Command) → All IsBody (encodings cs)
encodings-IsBody [] = tt
encodings-IsBody (c ∷ cs) = (encode_command-IsBody c, encodings-IsBody cs)

log_of-encodings :
    (cs : List Command) → All IsCommand cs → log_of (encodings cs) false ≡ commands cs
unfolding log_of
log_of-encodings [] h = refl
log_of-encodings (c ∷ cs) h = ground (
  arith,
  decode_command-encode_command c [] h.0,
  append-nil (encode_command c),
  log_of-encodings cs h.1,
)

length-messages : (bodies : List Bytes) → length bodies ≤ length (messages bodies)
length-messages [] = omega arith
length-messages (body ∷ bodies) = omega (
  arith,
  length-append (frame_message body) (messages bodies),
  length-frame_message body,
  length-messages bodies,
)

-- A journal with a torn record behind it reads as its whole commands.
pub read_journal_torn :
    (cs : List Command) (tail : Bytes)
    → All IsCommand cs
    → (cut tail).0 ≡ waiting
    → read_journal (journal_of cs ++ tail) ≡ some (commands cs)
read_journal_torn cs tail h w =
    let file : Bytes = journal_of cs ++ tail in
    let (p, e, done) = read_journal-log_of file in
    let enough : suc (length (encodings cs)) ≤ suc (length file) =
      omega (arith, length-messages (encodings cs), length-append (journal_of cs) tail) in
    let whole =
      cut_all_mono _ (suc (length file)) file _
        (cut_all-messages (encodings cs) tail (encodings-IsBody cs) w) enough in
    let same : p ≡ record { frames = encodings cs; failed = false; rest = tail } = cc (e, whole) in
    done ∙ ap some (rw same (log_of-encodings cs h))

-- What `write` leaves: all the bytes, or a part of them short of the whole.
abbrev pub Writes : Bytes → Bytes → Appended → Type 0
Writes file bytes (returned f) = f ≡ file ++ bytes
Writes file bytes (threw f) = (k : ℕ) × (k < length bytes) × (f ≡ file ++ take k bytes)
Writes file bytes (blocked f) = (k : ℕ) × (k < length bytes) × (f ≡ file ++ take k bytes)

take-append-take : (n k : ℕ) (xs : Bytes) → take n xs ++ take k (drop n xs) ≡ take (n + k) xs
take-append-take zero k xs = rw (add.zero k)
take-append-take (suc n) zero [] = rw (add.suc n 0)
take-append-take (suc n) (suc k) [] = rw (add.suc n (suc k))
take-append-take (suc n) k (x ∷ xs) = rw (add.suc n k) (ap (◌∷◌ x) (take-append-take n k xs))

-- One call of `write` that takes `n` bytes, and what the calls behind it leave.
Writes-step :
    (file bytes : Bytes) (n : ℕ) (a : Appended)
    → Writes (file ++ take n bytes) (drop n bytes) a
    → Writes file bytes a
Writes-step file bytes n (returned f) h =
    h ∙ append_assoc file (take n bytes) (drop n bytes) ∙ ap (◌++◌ file) (take-append-drop n bytes)
Writes-step file bytes n (threw f) (k, short, e) = (
  n + k,
  omega (arith, length-drop n bytes),
  e
      ∙ append_assoc file (take n bytes) (take k (drop n bytes))
      ∙ ap (◌++◌ file) (take-append-take n k bytes),
)
Writes-step file bytes n (blocked f) (k, short, e) = (
  n + k,
  omega (arith, length-drop n bytes),
  e
      ∙ append_assoc file (take n bytes) (take k (drop n bytes))
      ∙ ap (◌++◌ file) (take-append-take n k bytes),
)

write_loop-Writes :
    (file bytes : Bytes) (calls : List (Option ℕ)) → Writes file bytes (write_loop file bytes calls)
unfolding write_loop
write_loop-Writes file [] calls = sym (append-nil file)
write_loop-Writes file (b ∷ left) [] = (0, omega arith, sym (append-nil file))
write_loop-Writes file (b ∷ left) (none ∷ calls) = (0, omega arith, sym (append-nil file))
write_loop-Writes file (b ∷ left) (some n ∷ calls) =
    Writes-step file (b ∷ left) n _
      (write_loop-Writes (file ++ take n (b ∷ left)) (drop n (b ∷ left)) calls)

-- How a journal that held `cs` reads after an append of `c`: with `c` exactly if it returned.
abbrev pub ReadsAs : List Command → Command → Appended → Type 0
ReadsAs cs c (returned f) = read_journal f ≡ some (commands (cs ++ (c ∷ [])))
ReadsAs cs c (threw f) = read_journal f ≡ some (commands cs)
ReadsAs cs c (blocked f) = read_journal f ≡ some (commands cs)

messages-snoc :
    (cs : List Command) (c : Command)
    → journal_of (cs ++ (c ∷ [])) ≡ journal_of cs ++ frame_message (encode_command c)
messages-snoc [] c = append-nil (frame_message (encode_command c))
messages-snoc (b ∷ cs) c =
    ap (◌++◌ (frame_message (encode_command b))) (messages-snoc cs c)
    ∙ sym (append_assoc (frame_message (encode_command b)) (journal_of cs) _)

All-snoc :
    (cs : List Command) (c : Command)
    → All IsCommand cs
    → IsCommand c
    → All IsCommand (cs ++ (c ∷ []))
All-snoc cs c h k = All-append IsCommand cs (c ∷ []) h (k, tt)

Writes-ReadsAs :
    (cs : List Command) (c : Command) (a : Appended)
    → All IsCommand cs
    → IsCommand c
    → Writes (journal_of cs) (frame_message (encode_command c)) a
    → ReadsAs cs c a
Writes-ReadsAs cs c (returned f) h k w =
    ap read_journal (w ∙ sym (messages-snoc cs c) ∙ sym (append-nil _))
    ∙ read_journal_torn (cs ++ (c ∷ [])) [] (All-snoc cs c h k) (unfold cut in refl)
Writes-ReadsAs cs c (threw f) h k (n, short, e) =
    ap read_journal e
    ∙ read_journal_torn cs _ h (cut_torn (encode_command c) n (encode_command-IsBody c) short)
Writes-ReadsAs cs c (blocked f) h k (n, short, e) =
    ap read_journal e
    ∙ read_journal_torn cs _ h (cut_torn (encode_command c) n (encode_command-IsBody c) short)

-- Whatever the calls of `write` return, a journal of commands whose fields are in range reads after
-- an append as those commands with the new one behind them if the append returned, and as those
-- commands alone if it threw or was cut off.
pub read_journal-append :
    (cs : List Command) (c : Command) (calls : List (Option ℕ))
    → All IsCommand cs
    → IsCommand c
    → ReadsAs cs c (append (journal_of cs) c calls)
unfolding append
read_journal-append cs c calls h k = Writes-ReadsAs cs c _ h k (write_loop-Writes _ _ calls)
