-- ===== src/V2/Tests.antt =====
-- v2_encoder.cpp and v2_decoder.cpp at concrete values.
use mathlib.Core.Option
use mathlib.Core.List.{flatten, flat_map, map}
use zmq.Base.{ℕ, ◌≡◌, ◌≢◌, refl, arith, Bool, true, false, leb, none, some, List, [], ◌∷◌, ◌++◌}
use zmq.Base.Int.{pos}
use zmq.Msg
use zmq.Msg.{Msg, init_content, set_flags}
use zmq.Encoder.{load_msg, encode_calls}
use zmq.Decoder.{Decoder, incomplete, failed, Errno}
use zmq.Decoder.Stream.{feed}
use zmq.V2.{Members, encoder_act, encoder, decoder}
use zmq.V2.Frame.{frame, received}
use zmq.V2.RoundTrip.{frame_header, act, msg, between, feed-too_large}
use zmq.Decoder.Pieces.{receive_pieces, receive_pieces-eq-feed}
use zmq.V2.Wire.{received_from, restarts, encode_calls-frame, receive_pieces-frames}
use zmq.V2.Rounds.{received_from-ne-none}

abbrev part : Msg
part = set_flags (init_content (7 ∷ 8 ∷ 9 ∷ [])) Msg.more

abbrev last_part : Msg
last_part = init_content []

abbrev memory : ℕ → Bool
memory n = leb n 1000

-- Two frames, cut in the middle of the first one's content.
abbrev pieces : List (List ℕ)
pieces = (1 ∷ 3 ∷ 7 ∷ []) ∷ [] ∷ (8 ∷ 9 ∷ 0 ∷ []) ∷ (0 ∷ []) ∷ []

encode_calls-frame_example :
    Option.bind (load_msg encoder_act encoder part) (λ e.
      encode_calls encoder_act
        ((false, 2) ∷ (true, 2) ∷ (false, 9) ∷ (false, 1) ∷ (false, 1) ∷ (true, 4) ∷ [])
        e)
    ≡ some (frame part, encoder)
unfolding encoder_act
encode_calls-frame_example =
    encode_calls-frame
      ((false, 2) ∷ (true, 2) ∷ (false, 9) ∷ (false, 1) ∷ (false, 1) ∷ (true, 4) ∷ []) part
      (omega arith) (omega arith)

receive_pieces-frames_example :
    (last : Msg) × (flags : ℕ) × (received_from (pos 100) memory pieces
      ≡ some
          (map received (part ∷ last_part ∷ []), incomplete, between (pos 100) memory flags last))
unfolding flatten flat_map encoder_act
receive_pieces-frames_example =
    receive_pieces-frames (pos 100) memory (part ∷ last_part ∷ []) pieces
      ((refl, omega arith, refl), ((refl, omega arith, refl), tt)) refl

feed-too_large_example :
    (d : Decoder Members) × (feed
        (act (pos 2) memory)
        (msg (pos 2) memory)
        (frame_header (pos 2) memory part ++ 7 ∷ [])
        (between (pos 2) memory 0 Msg.init)
      ≡ some ([], failed Errno.emsgsize, d))
feed-too_large_example = feed-too_large (pos 2) memory part Msg.init 0 (7 ∷ []) refl (omega arith)

received_from-ne-none_example :
    received_from (pos 100) memory ((2 ∷ 255 ∷ []) ∷ (255 ∷ 3 ∷ []) ∷ []) ≢ none
received_from-ne-none_example =
    received_from-ne-none (pos 100) memory ((2 ∷ 255 ∷ []) ∷ (255 ∷ 3 ∷ []) ∷ [])

receive_pieces-eq-feed_example :
    receive_pieces (act (pos 100) memory) Members.in_progress pieces decoder
    ≡ feed (act (pos 100) memory) Members.in_progress (flatten pieces) decoder
unfolding encoder_act
receive_pieces-eq-feed_example =
    receive_pieces-eq-feed (act (pos 100) memory) Members.in_progress (restarts (pos 100) memory)
      pieces decoder (omega arith)
