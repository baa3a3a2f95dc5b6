-- ===== src/Encoder.antt =====
-- zeromq-4.3.1/src/encoder.hpp: the base of the encoders, which fills buffers with the bytes of
-- messages. `T` is the type of the steps of a protocol, and `act` the bytes, the step and the flag
-- that a step passes to `next_step`; `pending` is the `_to_write` bytes at `_write_pos`, and
-- `in_progress` the message of `_in_progress`.
pub mod Laws
use mathlib.Core.Option
use zmq.Base.{
  ℕ, zero, suc, ◌+◌, ◌-◌, Bool, true, false, ◌&&◌, ◌==◌, ltb, leb, min, Option, none, some, List,
  [], ◌∷◌, ◌++◌, length, take, drop, if◌then◌else◌,
}
use zmq.Msg.{Msg}

-- The arguments of `next_step`.
pub record Scheduled (T : Type 0) : Type 0 where
  pub write : List ℕ
  pub next : T
  pub new_msg_flag : Bool

pub record Encoder (T : Type 0) : Type 0 where
  pub pending : List ℕ
  pub next : T
  pub new_msg_flag : Bool
  pub in_progress : Option Msg

module _ {T : Type 0} (act : T → Msg → Scheduled T) where
  abbrev pub next_step : Encoder T → Scheduled T → Encoder T
  next_step e s = record e { pending = s.write; next = s.next; new_msg_flag = s.new_msg_flag }

  -- `zmq_assert (in_progress () == NULL)`.
  unfoldable pub load_msg : Encoder T → Msg → Option (Encoder T)
  load_msg e m = elim e.in_progress [
    | none ↦ some (next_step (record e { in_progress = some m }) (act e.next m))
    | some _ ↦ none
  ]

  -- `while (pos < buffersize)`; `out` is what the buffer holds. `own` says that no buffer was given,
  -- so that a piece that fills it is returned without a copy. Each round writes a byte or runs a step:
  -- two rounds more than the buffer has bytes are enough (Laws).
  pub encode_loop : ℕ → Bool → ℕ → List ℕ → Msg → Encoder T → Option (List ℕ × Encoder T)
  encode_loop zero own size out m e = none
  encode_loop (suc fuel) own size out m e =
      let stepped = if length e.pending == 0 then next_step e (act e.next m) else e in
      let to_copy = min (length stepped.pending) (size - length out) in
      let later =
        encode_loop fuel own size (out ++ take to_copy stepped.pending) m
          (record stepped { pending = drop to_copy stepped.pending }) in
      if leb size (length out)
      then some (out, e)
      else if length e.pending == 0 && e.new_msg_flag
      then some (out, record e { in_progress = none })
      else if length out == 0 && own && leb size (length stepped.pending)
      then some (stepped.pending, record stepped { pending = [] })
      else later

  -- `own` is `*data_ == NULL`, and `size` the size of the buffer that is filled.
  pub encode : Bool → ℕ → Encoder T → Option (List ℕ × Encoder T)
  unfolding encode_loop
  encode own size e = elim e.in_progress [
    | none ↦ some ([], e)
    | some m ↦ encode_loop (size + 2) own size [] m e
  ]

  -- Calls of `encode` one after another, each with its `own` and `size`, and all that they return.
  pub encode_calls : List (Bool × ℕ) → Encoder T → Option (List ℕ × Encoder T)
  encode_calls [] e = some ([], e)
  encode_calls ((own, size) ∷ calls) e =
      Option.bind (encode own size e)
        (λ (out, e'). Option.map (λ (more, e''). (out ++ more, e'')) (encode_calls calls e'))
