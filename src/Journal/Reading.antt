-- ===== src/Journal/Reading.antt =====
-- What is read back from a journal, whole or cut short by a crash.
use order_book_matching_engi.Common.{
  ℕ, zero, suc, ◌≡◌, refl, sym, ◌∙◌, Bool, true, false, length, none, some, List, [], ◌∷◌, arith,
}
use order_book_matching_engi.Types.Messages.{Command}
use order_book_matching_engi.Wire.{Bytes}
use order_book_matching_engi.Wire.Commands.{encode_command, decode_command}
use order_book_matching_engi.Frames.{
  FrameDecoder, new_decoder, feed, Outcome, waiting, too_long, frame, try_extract_frame,
}
use order_book_matching_engi.Frames.Stream.{add_frame-eq_some, cut, Parsed, cut_all, cut_all_ends}
use order_book_matching_engi.Frames.Pending.{
  cut_all_waiting, cut_all_too_long, cut_all_frame, IsDecoder, pending, feed_lem,
  try_extract_frame-cut,
}
use order_book_matching_engi.Frames.RoundTrip.{messages}
use order_book_matching_engi.Journal.{
  Log, commands, bad_length, undecodable, read_loop, read_journal,
}

-- The log that a parsed stream stands for: the first error in its order, or all commands.
unfoldable pub log_of : List Bytes → Bool → Log
log_of [] false = commands []
log_of [] true = bad_length
log_of (body ∷ bodies) failed = elim (decode_command body) [
  | none ↦ undecodable
  | some c ↦ elim (log_of bodies failed) [
    | commands cs ↦ commands (c ∷ cs)
    | bad_length ↦ bad_length
    | undecodable ↦ undecodable
  ]
]

module _ (fuel : ℕ) (d d' : FrameDecoder) where
  read_loop-waiting :
      try_extract_frame d ≡ (waiting, d') → read_loop (suc fuel) d ≡ some (commands [])
  unfolding read_loop
  read_loop-waiting e = ground arith

  read_loop-too_long :
      try_extract_frame d ≡ (too_long, d') → read_loop (suc fuel) d ≡ some bad_length
  unfolding read_loop
  read_loop-too_long e = ground arith

  -- A frame's body is decoded, and the rest of the log stands behind it.
  read_loop-frame :
      (body : Bytes) (bodies : List Bytes) (failed : Bool)
      → try_extract_frame d ≡ (frame body, d')
      → read_loop fuel d' ≡ some (log_of bodies failed)
      → read_loop (suc fuel) d ≡ some (log_of (body ∷ bodies) failed)
  unfolding read_loop log_of
  read_loop-frame body bodies failed e ih = ground arith

loop_step :
    (fuel : ℕ) (d : FrameDecoder) (o : Outcome) (d' : FrameDecoder) (p : Parsed)
    → try_extract_frame d ≡ (o, d')
    → cut (pending d) ≡ (o, pending d')
    → ((q : Parsed)
        → cut_all fuel (pending d') ≡ some q
        → read_loop fuel d' ≡ some (log_of q.frames q.failed))
    → cut_all (suc fuel) (pending d) ≡ some p
    → read_loop (suc fuel) d ≡ some (log_of p.frames p.failed)
loop_step fuel d waiting d' p e c ih h =
    let same : p ≡ record { frames = []; failed = false; rest = pending d' } =
      cc (h, cut_all_waiting fuel (pending d) (pending d') c) in
    rw same (unfold log_of in read_loop-waiting fuel d d' e)
loop_step fuel d too_long d' p e c ih h =
    let same : p ≡ record { frames = []; failed = true; rest = pending d' } =
      cc (h, cut_all_too_long fuel (pending d) (pending d') c) in
    rw same (unfold log_of in read_loop-too_long fuel d d' e)
loop_step fuel d (frame body) d' p e c ih h =
    let (q, inner, whole) =
      add_frame-eq_some body _ p (sym (cut_all_frame fuel (pending d) body (pending d') c) ∙ h) in
    rw whole (read_loop-frame fuel d d' body q.frames q.failed e (ih q inner))

-- The loop reads the log of the frames that its stream is cut into.
read_loop-log_of :
    (fuel : ℕ) (d : FrameDecoder) (p : Parsed)
    → IsDecoder d
    → cut_all fuel (pending d) ≡ some p
    → read_loop fuel d ≡ some (log_of p.frames p.failed)
read_loop-log_of zero d p h e = unfold cut_all in cc
read_loop-log_of (suc fuel) d p h e =
    let d' = (try_extract_frame d).1 in
    let (k, c) = try_extract_frame-cut d h in
    loop_step fuel d (try_extract_frame d).0 d' p refl (sym c) (λ q. read_loop-log_of fuel d' q k) e

-- Reading a file gives the log of the frames that its bytes are cut into, and never runs out of fuel.
pub read_journal-log_of :
    (file : Bytes)
    → (p : Parsed) × (cut_all (suc (length file)) file ≡ some p)
      × (read_journal file ≡ some (log_of p.frames p.failed))
unfolding read_journal
read_journal-log_of file =
    let (p, e) = cut_all_ends (suc (length file)) file (omega arith) in
    let (k, fed) = feed_lem new_decoder file (omega arith) in
    (p, e, read_loop-log_of (suc (length file)) (feed new_decoder file) p k (rw fed e))

abbrev pub encodings : List Command → List Bytes
encodings [] = []
encodings (c ∷ cs) = encode_command c ∷ encodings cs

-- The file that appends without a failure make.
abbrev pub journal_of : List Command → Bytes
journal_of cs = messages (encodings cs)
