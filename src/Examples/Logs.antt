-- ===== src/Examples/Logs.antt =====
-- The theorems on frames and journals at short streams.
use order_book_matching_engi.Common.{◌≡◌, refl, false, take, none, some, [], ◌∷◌, ◌++◌, arith}
use order_book_matching_engi.Types.Messages.{new_order}
use order_book_matching_engi.Wire.{or_bytes, push_bytes}
use order_book_matching_engi.Frames.{
  FrameDecoder, new_decoder, feed, compact, waiting, Drained, try_extract_frame, drain,
  frame_message,
}
use order_book_matching_engi.Frames.Stream.{cut, Parsed, cut_all}
use order_book_matching_engi.Frames.Pending.{
  IsDecoder, pending, view, try_extract_frame-cut, drain_ends, drain-feed,
}
use order_book_matching_engi.Frames.RoundTrip.{messages, cut_torn, cut_all-messages}
use order_book_matching_engi.Journal.{commands, read_journal, append}
use order_book_matching_engi.Journal.Reading.{journal_of, log_of, read_journal-log_of}
use order_book_matching_engi.Journal.Crash.{ReadsAs, read_journal_torn, read_journal-append}
use order_book_matching_engi.Examples.Codec.{bid, bid-IsNewOrder}

-- A consumed byte, a whole message of two bytes and a torn prefix.
abbrev half_read : FrameDecoder
half_read = record { buffer = 9 ∷ 2 ∷ 0 ∷ 0 ∷ 0 ∷ 7 ∷ 8 ∷ 1 ∷ []; read_offset = 1 }

try_extract_frame-cut_example :
    let (o, d') = try_extract_frame half_read in
    IsDecoder d' × ((o, pending d') ≡ cut (pending half_read))
try_extract_frame-cut_example = try_extract_frame-cut half_read (omega arith)

drain_ends_example :
    (r : Drained) × (drain 8 half_read ≡ some r)
    × IsDecoder r.decoder
    × (cut_all 8 (pending half_read) ≡ some (view r))
drain_ends_example = drain_ends half_read (omega arith)

drain-feed_example :
    (t : Drained) × (drain 4
        (feed new_decoder ((2 ∷ 0 ∷ 0 ∷ 0 ∷ 7 ∷ 8 ∷ 1 ∷ []) ++ (0 ∷ 0 ∷ 0 ∷ 5 ∷ [])))
      ≡ some t)
    × (t.frames ≡ (7 ∷ 8 ∷ []) ∷ (5 ∷ []) ∷ [])
    × (t.failed ≡ false)
    × (pending t.decoder ≡ [])
unfolding drain try_extract_frame feed compact or_bytes
drain-feed_example =
    drain-feed 2 2 new_decoder (2 ∷ 0 ∷ 0 ∷ 0 ∷ 7 ∷ 8 ∷ 1 ∷ []) (0 ∷ 0 ∷ 0 ∷ 5 ∷ [])
      (record {
        frames = (7 ∷ 8 ∷ []) ∷ [];
        failed = false;
        decoder = record { buffer = 1 ∷ []; read_offset = 0 };
      })
      (record {
        frames = (5 ∷ []) ∷ [];
        failed = false;
        decoder = record { buffer = []; read_offset = 0 };
      })
      (omega arith) refl refl refl

cut_torn_example : (cut (take 5 (frame_message (7 ∷ 8 ∷ [])))).0 ≡ waiting
unfolding frame_message push_bytes
cut_torn_example = cut_torn (7 ∷ 8 ∷ []) 5 (omega arith) (omega arith)

cut_all-messages_example :
    cut_all 3 (messages ((7 ∷ 8 ∷ []) ∷ [] ∷ []) ++ (1 ∷ 0 ∷ []))
    ≡ some (record { frames = (7 ∷ 8 ∷ []) ∷ [] ∷ []; failed = false; rest = 1 ∷ 0 ∷ [] })
unfolding cut
cut_all-messages_example =
    cut_all-messages ((7 ∷ 8 ∷ []) ∷ [] ∷ []) (1 ∷ 0 ∷ []) (omega arith, (omega arith, tt)) refl

read_journal-log_of_example :
    (p : Parsed) × (cut_all 8 (2 ∷ 0 ∷ 0 ∷ 0 ∷ 7 ∷ 8 ∷ 1 ∷ []) ≡ some p)
    × (read_journal (2 ∷ 0 ∷ 0 ∷ 0 ∷ 7 ∷ 8 ∷ 1 ∷ []) ≡ some (log_of p.frames p.failed))
read_journal-log_of_example = read_journal-log_of (2 ∷ 0 ∷ 0 ∷ 0 ∷ 7 ∷ 8 ∷ 1 ∷ [])

read_journal_torn_example :
    read_journal (journal_of (new_order bid ∷ []) ++ (54 ∷ 0 ∷ []))
    ≡ some (commands (new_order bid ∷ []))
unfolding cut
read_journal_torn_example =
    read_journal_torn (new_order bid ∷ []) (54 ∷ 0 ∷ []) (bid-IsNewOrder, tt) refl

read_journal-append_example :
    ReadsAs
      (new_order bid ∷ [])
      (new_order bid)
      (append (journal_of (new_order bid ∷ [])) (new_order bid) (some 10 ∷ none ∷ []))
read_journal-append_example =
    read_journal-append (new_order bid ∷ []) (new_order bid) (some 10 ∷ none ∷ [])
      (bid-IsNewOrder, tt) bid-IsNewOrder
