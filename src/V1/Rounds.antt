-- ===== src/V1/Rounds.antt =====
-- v1_decoder.cpp: three rounds of the loop over the steps are enough.
use mathlib.Core.List.{flatten}
use zmq.Base.{ℕ, ◌≢◌, arith, Bool, none, List, ◌∙◌, sym}
use zmq.Base.Int.{ℤ}
use zmq.Msg.{Msg}
use zmq.Decoder.{Decoder, Turn, run_steps}
use zmq.Decoder.Pieces.{feed-ne-none, receive_pieces-eq-feed}
use zmq.V1.{Members, DecoderStep, decoder_act, decoder}
use zmq.V1.Wire.{received_from, restarts}

module _ (limit : ℤ) (alloc : ℕ → Bool) where
  abbrev act : Members → List ℕ → Turn Members
  act = decoder_act limit alloc

  at : DecoderStep → Msg → ℕ → List ℕ → ℕ → Decoder Members
  at step m size got n = record {
    next = record { step = step; in_progress = m; size = size };
    got = got;
    to_read = n;
  }

  three_rounds :
      (step : DecoderStep) (m : Msg) (size : ℕ) (got : List ℕ) (n : ℕ)
      → run_steps act 3 (at step m size got n) ≢ none
  unfolding at run_steps decoder_act
  three_rounds DecoderStep.flags_ready m size got n = ground arith
  three_rounds DecoderStep.one_byte_size_ready m size got n = ground arith
  three_rounds DecoderStep.eight_byte_size_ready m size got n = ground arith
  three_rounds DecoderStep.message_ready m size got n = ground arith

  -- Whatever bytes arrive, valid frames or not, and in whatever pieces: the decoder of ZMTP 1.0 never
  -- needs more
  -- rounds than it is given.
  pub received_from-ne-none_v1 : (ps : List (List ℕ)) → received_from limit alloc ps ≢ none
  unfolding at
  received_from-ne-none_v1 ps e =
      feed-ne-none act Members.in_progress
        (λ d. three_rounds d.next.step d.next.in_progress d.next.size d.got d.to_read) (flatten ps)
        decoder
        (sym (
            receive_pieces-eq-feed act Members.in_progress (restarts limit alloc) ps decoder
              (omega arith))
          ∙ e)
