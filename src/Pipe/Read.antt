-- ===== src/Pipe/Read.antt =====
-- pipe.cpp: what a reader gets.
use zmq.Base.{
  ℕ, zero, suc, ◌≤◌, ◌<◌, ◌≡◌, ◌≢◌, refl, arith, Bool, true, false, Option, none, some, List, [],
  ◌∷◌, length, Option-cases, Bool-cases, inl, inr, length-take, take, ◌-◌, if◌then◌else◌,
}
use zmq.Msg.{Msg, is_delimiter, is_credential}
use zmq.Ypipe
use zmq.Ypipe.{Ypipe, back}
use zmq.Ypipe.Laws.{IsValid, read-IsValid}
use zmq.Ypipe.Refine.{view, read_refines, check_read_refines}
use zmq.Ypipe.Spec
use zmq.Ypipe.Spec.{View}
use zmq.Pipe.{
  Pipe, read, read_payload, check_read, process_delimiter, take_delimiter, may_read, count_read,
}

-- The first item that is no credential, and what is left behind it.
pub first_payload : View Msg → List Msg → Option Msg × View Msg
first_payload v [] = (none, record v { readable = []; asleep = true })
first_payload v (m ∷ rest) =
    if is_credential m then first_payload v rest else (some m, record v { readable = rest })

first_payload_skip :
    (v : View Msg) (ms ls : List Msg)
    → first_payload (record v { readable = ls }) ms ≡ first_payload v ms
unfolding first_payload
first_payload_skip v [] ls = refl
first_payload_skip v (m ∷ rest) ls = ground (arith, first_payload_skip v rest ls)

read_payload_refines :
    (fuel : ℕ) (q : Ypipe Msg) (ms : List Msg)
    → length ms < fuel
    → IsValid q
    → (view q).readable ≡ ms
    → let (out, r) = read_payload fuel q in (out, view r) ≡ first_payload (view q) ms
unfolding read_payload first_payload Spec.read
read_payload_refines zero q ms f h e = absurd (omega arith)
read_payload_refines (suc fuel) q [] f h e = ground (arith, read_refines q h)
read_payload_refines (suc fuel) q (m ∷ ms) f h e = elim (Bool-cases (is_credential m)) [
  | inl c ↦ ground (
    arith,
    read_refines q h,
    first_payload_skip (view q) ms ms,
    read_payload_refines fuel (Ypipe.read q).1 ms (omega arith) (read-IsValid q h),
  )
  | inr c ↦ ground (arith, read_refines q h)
]

first_payload-plain :
    (v : View Msg) (ms : List Msg) (m : Msg)
    → (first_payload v ms).0 ≡ some m
    → is_credential m ≡ false
unfolding first_payload
first_payload-plain v [] m e = ground arith
first_payload-plain v (n ∷ ms) m e = ground (arith, first_payload-plain v ms m)

length-readable : (q : Ypipe Msg) → length (view q).readable ≤ length q.queue
length-readable q = omega (arith, length-take (q.w - q.front) q.queue)

-- A message that `read` returns is the first one in the pipe that is no credential, exactly the
-- messages up to it are taken out, and it is no delimiter.
pub read_takes_first :
    (p q : Pipe) (m : Msg)
    → IsValid p.in_pipe
    → read p ≡ some (some m, q)
    → ((some m, view q.in_pipe) ≡ first_payload (view p.in_pipe) (view p.in_pipe).readable)
      × (is_delimiter m ≡ false)
      × (is_credential m ≡ false)
unfolding read
read_takes_first p q m h e =
    let fuel = suc (length p.in_pipe.queue) in
    let ms = (view p.in_pipe).readable in
    let enough : length ms < fuel = omega (arith, length-readable p.in_pipe) in
    let same = read_payload_refines fuel p.in_pipe ms enough h refl in
    let plain = first_payload-plain (view p.in_pipe) ms in
    elim (Option-cases (read_payload fuel p.in_pipe).0) [
      | inl n ↦ ground arith
      | inr (k, n) ↦ elim (Bool-cases (is_delimiter k)) [
        | inl d ↦
            elim (Option-cases
              (process_delimiter (record p { in_pipe = (read_payload fuel p.in_pipe).1 }))) [
                | inl f ↦ ground arith
                | inr (r, f) ↦ ground arith
              ]
        | inr d ↦
            let k_is : k ≡ m = ground arith in
            let pipe_is : q.in_pipe ≡ (read_payload fuel p.in_pipe).1 =
              unfold count_read in ground arith in
            ground (arith, same, plain m)
      ]
    ]

process_delimiter-ne-none : (p : Pipe) → may_read p.state ≡ true → process_delimiter p ≢ none
unfolding process_delimiter
process_delimiter-ne-none p h = ground arith

-- A ypipe that `check_read` finds ready stays ready, and has a front.
ready_again :
    (q : Ypipe Msg)
    → (Ypipe.check_read q).0 ≡ true
    → Ypipe.check_read (Ypipe.check_read q).1 ≡ (true, (Ypipe.check_read q).1)
unfolding Ypipe.check_read
ready_again q h = ground arith

take-nil : (n : ℕ) (ms : List Msg) → ms ≡ [] → take n ms ≡ []
take-nil zero ms e = refl
take-nil (suc n) [] e = refl
take-nil (suc n) (m ∷ ms) e = absurd (ground arith)

ready_queue :
    (q : Ypipe Msg) → IsValid q → (Ypipe.check_read q).0 ≡ true → (Ypipe.check_read q).1.queue ≢ []
unfolding Spec.check_read
ready_queue q v h e =
    let r = (Ypipe.check_read q).1 in
    ground (arith, check_read_refines q v, take-nil (r.w - r.front) r.queue e)

-- `zmq_assert (rc)` in `probe`, and `zmq_assert (ok)` where the delimiter is taken out: what was found
-- ready can be probed and read.
probe-read :
    (q : Ypipe Msg) (fn : Msg → Bool) (ms : List Msg)
    → q.queue ≡ ms
    → ms ≢ []
    → Ypipe.check_read q ≡ (true, q)
    → (b : Bool) × (Ypipe.probe q fn ≡ some (b, q)) × ((Ypipe.read q).0 ≢ none)
unfolding Ypipe.probe Ypipe.read
probe-read q fn [] e f c = absurd (f refl)
probe-read q fn (m ∷ ms) e f c = (fn m, rw (c, e) refl, rw (c, e) (ground arith))

take_delimiter-ne-none :
    (p : Pipe) → may_read p.state ≡ true → (Ypipe.read p.in_pipe).0 ≢ none → take_delimiter p ≢ none
unfolding take_delimiter
take_delimiter-ne-none p h r =
    ground (arith, process_delimiter-ne-none (record p { in_pipe = (Ypipe.read p.in_pipe).1 }) h)

-- No assertion fails in `read`, whatever the pipe holds.
pub read-ne-none : (p : Pipe) → read p ≢ none
unfolding read
read-ne-none p =
    let r : Pipe = record p {
      in_pipe = (read_payload (suc (length p.in_pipe.queue)) p.in_pipe).1;
    } in
    elim (Bool-cases (may_read p.state)) [
      | inl a ↦ ground (arith, process_delimiter-ne-none r a)
      | inr a ↦ ground arith
    ]

check_read-ne-none : (p : Pipe) → IsValid p.in_pipe → check_read p ≢ none
unfolding check_read
check_read-ne-none p v =
    let r = Ypipe.check_read p.in_pipe in
    let end : Pipe = record p { in_pipe = r.1 } in
    elim (Bool-cases (may_read p.state)) [
      | inl a ↦ elim (Bool-cases r.0) [
        | inl ready ↦
            let (b, probes, reads) =
              probe-read r.1 (λ m. is_delimiter m) r.1.queue refl (ready_queue p.in_pipe v ready)
                (ready_again p.in_pipe ready) in
            ground (arith, probes, take_delimiter-ne-none end a reads)
        | inr empty ↦ ground arith
      ]
      | inr a ↦ ground arith
    ]

-- No assertion fails in `read`, in `check_read`, and in the `probe` that it calls, at an end whose inbound
-- ypipe is valid.
pub reads_run_through : (p : Pipe) → IsValid p.in_pipe → (read p ≢ none) × (check_read p ≢ none)
reads_run_through p v = (read-ne-none p, check_read-ne-none p v)

-- A passive end has nothing to read.
pub read-inactive : (p : Pipe) → p.in_active ≡ false → read p ≡ some (none, p)
unfolding read
read-inactive p e = ground arith
