-- ===== src/Ypipe/Spec.antt =====
-- What a ypipe promises: items that the reader may take, whole messages that wait for a flush, and
-- the parts of a message that is not complete, each oldest first; and whether the reader is to be
-- woken up.
use mathlib.Core.Option
use zmq.Base.{
  Bool, true, false, not, Option, none, some, List, [], ◌∷◌, ◌++◌, drop_last, get_last?,
  if◌then◌else◌,
}

pub record View {ℓ} (A : Type ℓ) : Type ℓ where
  pub readable : List A
  pub complete : List A
  pub partial : List A
  pub asleep : Bool

module _ {ℓ} {A : Type ℓ} where
  -- The last part of a message completes it.
  unfoldable pub write : View A → A → Bool → View A
  write v a incomplete =
      if incomplete
      then record v { partial = v.partial ++ a ∷ [] }
      else record v { complete = v.complete ++ v.partial ++ a ∷ []; partial = [] }

  -- Takes back the last part of the incomplete message.
  unfoldable pub unwrite : View A → Option (A × View A)
  unwrite v =
      Option.map (λ a. (a, record v { partial = drop_last v.partial })) (get_last? v.partial)

  flush_items : View A → List A → Bool × View A
  flush_items v [] = (true, v)
  flush_items v (a ∷ as') =
      (not v.asleep, record v { readable = v.readable ++ a ∷ as'; complete = []; asleep = false })

  -- Publishes the whole messages; `false` if that is news to a sleeping reader.
  unfoldable pub flush : View A → Bool × View A
  unfolding flush_items
  flush v = flush_items v v.complete

  check_items : View A → List A → Bool × View A
  check_items v [] = (false, record v { asleep = true })
  check_items v (a ∷ _) = (true, v)

  -- A reader that finds nothing falls asleep.
  unfoldable pub check_read : View A → Bool × View A
  unfolding check_items
  check_read v = check_items v v.readable

  read_items : View A → List A → Option A × View A
  read_items v [] = (none, record v { asleep = true })
  read_items v (a ∷ rest) = (some a, record v { readable = rest })

  unfoldable pub read : View A → Option A × View A
  unfolding read_items
  read v = read_items v v.readable

-- The operations in a sequence, with what each returns.
pub data Op {ℓ} (A : Type ℓ) : Type ℓ where
  writes : A → Bool → Op A
  unwrites flushes check_reads reads : Op A

pub data Reply {ℓ} (A : Type ℓ) : Type ℓ where
  quiet : Reply A
  flag : Bool → Reply A
  item : Option A → Reply A

module _ {ℓ} {A : Type ℓ} where
  unwritten : View A → Option (A × View A) → Reply A × View A
  unwritten v none = (item none, v)
  unwritten v (some (a, v')) = (item (some a), v')

  unfoldable pub step : View A → Op A → Reply A × View A
  unfolding unwritten
  step v (writes a incomplete) = (quiet, write v a incomplete)
  step v unwrites = unwritten v (unwrite v)
  step v flushes = let (ok, v') = flush v in (flag ok, v')
  step v check_reads = let (ok, v') = check_read v in (flag ok, v')
  step v reads = let (out, v') = read v in (item out, v')

  unfoldable pub run : View A → List (Op A) → List (Reply A)
  run v [] = []
  run v (op ∷ ops) = let (reply, v') = step v op in reply ∷ run v' ops
