-- ===== src/Decoder.antt =====
-- zeromq-4.3.1/src/decoder.hpp: the base of the decoders, which cuts the stream of bytes into the
-- pieces that the steps of a protocol ask for. `A` is the next step with the members of the derived
-- class, and `act` runs that step on the bytes that were read for it: what the source stores from
-- `_read_pos` on is kept as a list, `got`, so that it makes no difference whether the bytes are
-- copied or stay where they are in the buffer (`memcpy` or not, and `get_buffer`'s choice).
pub mod Split
pub mod Stream
pub mod Pieces
pub mod InPlace
use zmq.Msg.{Msg}
use zmq.Base.{
  ℕ, zero, suc, ◌+◌, ◌-◌, Bool, true, false, ◌==◌, leb, min, Option, none, some, List, [], ◌∷◌,
  ◌++◌, length, take, drop, if◌then◌else◌,
}

-- The errors of the decoders.
pub data Errno : Type 0 where
  emsgsize eproto enomem : Errno

-- What a step does: `next_step` with the count of bytes to read and the return code 0 or 1, or an
-- error, after which the same step is the next one.
pub data Turn (A : Type 0) : Type 0 where
  go : A → ℕ → Turn A
  ready : A → ℕ → Turn A
  fail : A → Errno → Turn A

-- The return codes 0, 1 and -1 of `decode`.
pub data Rc : Type 0 where
  incomplete complete : Rc
  failed : Errno → Rc

pub record Decoder (A : Type 0) : Type 0 where
  pub next : A
  pub got : List ℕ
  pub to_read : ℕ

module _ {A : Type 0} (act : A → List ℕ → Turn A) where
  abbrev pub next_step : A → ℕ → Decoder A
  next_step a n = record { next = a; got = []; to_read = n }

  -- `while (_to_read == 0)` with the steps. Three rounds are enough for the protocols: at most two
  -- steps follow one another without a byte (V1.Rounds and V2.Rounds). `none`: out of fuel.
  unfoldable pub run_steps : ℕ → Decoder A → Option (Rc × Decoder A)
  run_steps zero d = none
  run_steps (suc fuel) d = elim (d.to_read == 0) [
    | false ↦ some (incomplete, d)
    | true ↦ elim (act d.next d.got) [
      | go a n ↦ run_steps fuel (next_step a n)
      | ready a n ↦ some (complete, next_step a n)
      | fail a e ↦ some (failed e, record d { next = a })
    ]
  ]

  -- The bytes `xs` go to `_read_pos`.
  abbrev pub store : Decoder A → List ℕ → Decoder A
  store d xs = record d { got = d.got ++ xs; to_read = d.to_read - length xs }

  -- `if (rc != 0) return rc` after the steps; `k` goes on.
  abbrev pub resume :
      (Decoder A → Option (Rc × ℕ × Decoder A))
      → ℕ
      → Option (Rc × Decoder A)
      → Option (Rc × ℕ × Decoder A)
  resume k used none = none
  resume k used (some (incomplete, d)) = k d
  resume k used (some (complete, d)) = some (complete, used, d)
  resume k used (some (failed e, d)) = some (failed e, used, d)

  -- `while (bytes_used_ < size_)`, on the rest of the data. Each round uses a byte where something is
  -- to be read: as many rounds as bytes are enough.
  pub decode_loop : ℕ → ℕ → List ℕ → Decoder A → Option (Rc × ℕ × Decoder A)
  decode_loop zero used [] d = some (incomplete, used, d)
  decode_loop zero used (x ∷ xs) d = none
  decode_loop (suc fuel) used [] d = some (incomplete, used, d)
  decode_loop (suc fuel) used (x ∷ xs) d =
      let rest = x ∷ xs in
      let to_copy = min d.to_read (length rest) in
      resume (λ d'. decode_loop fuel (used + to_copy) (drop to_copy rest) d') (used + to_copy)
        (run_steps 3 (store d (take to_copy rest)))

  -- The branch for data that lie at `_read_pos` already; `zmq_assert (size_ <= _to_read)`.
  pub decode_in_place : List ℕ → Decoder A → Option (Rc × ℕ × Decoder A)
  decode_in_place xs d =
      if leb (length xs) d.to_read
      then resume (λ d'. some (incomplete, length xs, d')) (length xs) (run_steps 3 (store d xs))
      else none

  -- `in_place` is `data_ == _read_pos`.
  pub decode : Bool → List ℕ → Decoder A → Option (Rc × ℕ × Decoder A)
  unfolding decode_in_place decode_loop run_steps
  decode in_place xs d = if in_place then decode_in_place xs d else decode_loop (length xs) 0 xs d

  module _ (msg : A → Msg) where
    abbrev pub deliver :
        Msg → Option (List Msg × Rc × Decoder A) → Option (List Msg × Rc × Decoder A)
    deliver m none = none
    deliver m (some (ms, rc, d)) = some (m ∷ ms, rc, d)

    -- What the loop makes of a return of `decode`; `k` goes on with the rest.
    abbrev pub process :
        (ℕ → Decoder A → Option (List Msg × Rc × Decoder A))
        → Option (Rc × ℕ × Decoder A)
        → Option (List Msg × Rc × Decoder A)
    process k none = none
    process k (some (incomplete, used, d)) = some ([], incomplete, d)
    process k (some (complete, used, d)) = deliver (msg d.next) (k used d)
    process k (some (failed e, used, d)) = some ([], failed e, d)

    -- zeromq-4.3.1/src/stream_engine.cpp: the loop of `in_event` over what was read from the socket,
    -- with a session that takes every message. `msg` is the decoder's `msg ()`. Each round uses a
    -- byte: as many rounds as bytes are enough.
    pub receive : ℕ → List ℕ → Decoder A → Option (List Msg × Rc × Decoder A)
    receive zero [] d = some ([], incomplete, d)
    receive zero (x ∷ xs) d = none
    receive (suc fuel) [] d = some ([], incomplete, d)
    receive (suc fuel) (x ∷ xs) d =
        process (λ used d'. receive fuel (drop used (x ∷ xs)) d') (decode false (x ∷ xs) d)
