-- ===== src/V2/Rounds.antt =====
-- v2_decoder.cpp: three rounds of the loop over the steps are enough.
use mathlib.Core.List.{flatten}
use zmq.Base.{ℕ, ◌≢◌, arith, Bool, none, List, ◌∙◌, sym}
use zmq.Base.Int.{ℤ}
use zmq.Msg.{Msg}
use zmq.Decoder.{Decoder, Turn, run_steps}
use zmq.Decoder.Pieces.{feed-ne-none, receive_pieces-eq-feed}
use zmq.V2.{Members, DecoderStep, decoder_act, decoder}
use zmq.V2.Wire.{received_from, restarts}

module _ (limit : ℤ) (alloc : ℕ → Bool) where
  abbrev act : Members → List ℕ → Turn Members
  act = decoder_act limit alloc

  at : DecoderStep → ℕ → Msg → List ℕ → ℕ → Decoder Members
  at step flags m got n = record {
    next = record { step = step; msg_flags = flags; in_progress = m };
    got = got;
    to_read = n;
  }

  three_rounds :
      (step : DecoderStep) (flags : ℕ) (m : Msg) (got : List ℕ) (n : ℕ)
      → run_steps act 3 (at step flags m got n) ≢ none
  unfolding at run_steps decoder_act
  three_rounds DecoderStep.flags_ready flags m got n = ground arith
  three_rounds DecoderStep.one_byte_size_ready flags m got n = ground arith
  three_rounds DecoderStep.eight_byte_size_ready flags m got n = ground arith
  three_rounds DecoderStep.message_ready flags m got n = ground arith

  -- Whatever bytes arrive, valid frames or not, and in whatever pieces: the decoder never needs more
  -- rounds than it is given.
  pub received_from-ne-none : (ps : List (List ℕ)) → received_from limit alloc ps ≢ none
  unfolding at
  received_from-ne-none ps e =
      feed-ne-none act Members.in_progress
        (λ d. three_rounds d.next.step d.next.msg_flags d.next.in_progress d.got d.to_read)
        (flatten ps) decoder
        (sym (
            receive_pieces-eq-feed act Members.in_progress (restarts limit alloc) ps decoder
              (omega arith))
          ∙ e)
