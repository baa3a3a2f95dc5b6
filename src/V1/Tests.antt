-- ===== src/V1/Tests.antt =====
-- v1_encoder.cpp and v1_decoder.cpp at concrete values.
use mathlib.Core.List.{flatten, flat_map, map}
use zmq.Base.{ℕ, ◌≡◌, refl, arith, Bool, leb, some, List, [], ◌∷◌}
use zmq.Base.Int.{pos}
use zmq.Msg
use zmq.Msg.{Msg, init_content, set_flags}
use zmq.Decoder.{incomplete}
use zmq.V1.{encoder_act}
use zmq.V1.Frame.{received}
use zmq.V1.RoundTrip.{between}
use zmq.V1.Wire.{received_from, receive_pieces-frames_v1}

abbrev part : Msg
part = set_flags (init_content (7 ∷ 8 ∷ 9 ∷ [])) Msg.more

abbrev last_part : Msg
last_part = init_content []

abbrev memory : ℕ → Bool
memory n = leb n 1000

-- Two frames, cut in the middle of the first one's content.
abbrev pieces : List (List ℕ)
pieces = (4 ∷ 1 ∷ 7 ∷ []) ∷ [] ∷ (8 ∷ 9 ∷ 1 ∷ []) ∷ (0 ∷ []) ∷ []

receive_pieces-frames_v1_example :
    (last : Msg) × (size : ℕ) × (received_from (pos 100) memory pieces
      ≡ some (map received (part ∷ last_part ∷ []), incomplete, between (pos 100) memory last size))
unfolding flatten flat_map encoder_act
receive_pieces-frames_v1_example =
    receive_pieces-frames_v1 (pos 100) memory (part ∷ last_part ∷ []) pieces
      ((refl, omega arith, refl), ((refl, omega arith, refl), tt)) refl
