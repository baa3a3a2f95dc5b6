-- ===== src/Dist.antt =====
-- zeromq-4.3.1/src/dist.hpp and zeromq-4.3.1/src/dist.cpp: the distributor, which sends a message to all the
-- matching pipes. Pipes and their store are as in Lb. A result `none` of an operation is an access out
-- of range. Copies of a message share its content by reference counts, which are left out, and so is
-- the emptying of the message that was sent.
pub mod Inv
pub mod Places
pub mod GiveUp
pub mod Round
pub mod Send
pub mod Parts
pub mod Leave
mod Tests
use zmq.Base.{
  ℕ, zero, suc, ◌+◌, ◌-◌, Bool, true, false, not, ◌&&◌, ltb, leb, if◌then◌else◌, Option, none, some,
  get_elem?,
}
use zmq.Msg.{Msg, has_more}
use zmq.Pipe
use zmq.Array
use zmq.Array.{Array}
use zmq.Lb.{Store, put}

pub record Dist : Type 0 where
  pub pipes : Array
  pub matching : ℕ
  pub active : ℕ
  pub eligible : ℕ
  pub more : Bool

pub create : Dist
create = record { pipes = Array.empty; matching = 0; active = 0; eligible = 0; more = false }

pub attach : Dist → ℕ → Dist
attach d pipe =
    let pipes = Array.push_back d.pipes pipe in
    if d.more
    then record d {
      pipes = Array.swap pipes d.eligible (Array.size pipes - 1);
      eligible = d.eligible + 1;
    }
    else record d {
      pipes = Array.swap pipes d.active (Array.size pipes - 1);
      active = d.active + 1;
      eligible = d.eligible + 1;
    }

pub match_pipe : Dist → ℕ → Dist
match_pipe d pipe =
    let index = d.pipes.index pipe in
    if ltb index d.matching
    then d
    else if leb d.eligible index
    then d
    else record d { pipes = Array.swap d.pipes index d.matching; matching = d.matching + 1 }

abbrev pub unmatch : Dist → Dist
unmatch d = record d { matching = 0 }

-- The loop of `reverse_match`, from `i` on.
pub reverse_loop : ℕ → ℕ → Dist → Dist
reverse_loop zero i d = d
reverse_loop (suc rounds) i d =
    reverse_loop rounds (i + 1)
      (record d { pipes = Array.swap d.pipes i d.matching; matching = d.matching + 1 })

pub reverse_match : Dist → Dist
unfolding reverse_loop
reverse_match d = reverse_loop (d.eligible - d.matching) d.matching (unmatch d)

-- The pipe goes to the end of the first `n` of the array.
abbrev pub retreat : Array → ℕ → ℕ → Array
retreat pipes pipe n = Array.swap pipes (pipes.index pipe) (n - 1)

abbrev pub leave_matching : Dist → ℕ → Dist
leave_matching d pipe =
    if ltb (d.pipes.index pipe) d.matching
    then record d { pipes = retreat d.pipes pipe d.matching; matching = d.matching - 1 }
    else d

abbrev pub leave_active : Dist → ℕ → Dist
leave_active d pipe =
    if ltb (d.pipes.index pipe) d.active
    then record d { pipes = retreat d.pipes pipe d.active; active = d.active - 1 }
    else d

abbrev pub leave_eligible : Dist → ℕ → Dist
leave_eligible d pipe =
    if ltb (d.pipes.index pipe) d.eligible
    then record d { pipes = retreat d.pipes pipe d.eligible; eligible = d.eligible - 1 }
    else d

pub pipe_terminated : Dist → ℕ → Dist
pipe_terminated d pipe =
    let rest = leave_eligible (leave_active (leave_matching d pipe) pipe) pipe in
    record rest { pipes = Array.erase rest.pipes pipe }

-- `activated`, up to eligible and then up to active.
abbrev pub enter_eligible : Dist → ℕ → Dist
enter_eligible d pipe =
    if ltb d.eligible (Array.size d.pipes)
    then record d {
      pipes = Array.swap d.pipes (d.pipes.index pipe) d.eligible;
      eligible = d.eligible + 1;
    }
    else d

pub activated : Dist → ℕ → Dist
activated d pipe =
    let e = enter_eligible d pipe in
    if not e.more && ltb e.active (Array.size e.pipes)
    then record e { pipes = Array.swap e.pipes (e.eligible - 1) e.active; active = e.active + 1 }
    else e

-- What `write` does to the distributor when the pipe does not take the message.
pub give_up : Dist → ℕ → Dist
give_up d pipe =
    let out_of_matching = retreat d.pipes pipe d.matching in
    let out_of_active = retreat out_of_matching pipe d.active in
    record d {
      pipes = Array.swap out_of_active (d.active - 1) (d.eligible - 1);
      matching = d.matching - 1;
      active = d.active - 1;
      eligible = d.eligible - 1;
    }

pub write : Dist → Store → ℕ → Msg → Bool × Dist × Store
unfolding give_up
write d st pipe m =
    let (done, p) = Pipe.write (st pipe) m in
    if not done
    then (false, give_up d pipe, put st pipe p)
    else (true, d, put st pipe (if has_more m then p else Pipe.flush p))

-- The loop of `distribute`. Each round goes on to the next matching pipe or takes one out of them: as
-- many rounds as there are matching pipes are enough.
pub distribute_loop : ℕ → ℕ → Dist → Store → Msg → Option (Dist × Store)
unfolding write
distribute_loop zero i d st m = if ltb i d.matching then none else some (d, st)
distribute_loop (suc fuel) i d st m = elim (ltb i d.matching) [
  | false ↦ some (d, st)
  | true ↦ elim (get_elem? d.pipes.items i) [
    | none ↦ none
    | some pipe ↦
        let (done, d', st') = write d st pipe m in
        distribute_loop fuel (if done then i + 1 else i) d' st' m
  ]
]

pub distribute : Dist → Store → Msg → Option (Dist × Store)
unfolding distribute_loop
distribute d st m = distribute_loop d.matching 0 d st m

-- `_active = _eligible` after the last part, and `_more`.
abbrev pub sent : Msg → Dist → Dist
sent m d =
    if has_more m then record d { more = true } else record d { active = d.eligible; more = false }

abbrev pub after_distribute : Msg → Option (Dist × Store) → Option (Dist × Store)
after_distribute m none = none
after_distribute m (some (d, st)) = some (sent m d, st)

pub send_to_matching : Dist → Store → Msg → Option (Dist × Store)
unfolding distribute
send_to_matching d st m = after_distribute m (distribute d st m)

pub send_to_all : Dist → Store → Msg → Option (Dist × Store)
unfolding send_to_matching
send_to_all d st m = send_to_matching (record d { matching = d.active }) st m

-- The loop of `check_hwm`, from `i` on.
pub check_hwm_loop : ℕ → ℕ → Dist → Store → Option Bool
check_hwm_loop zero i d st = some true
check_hwm_loop (suc rounds) i d st = elim (get_elem? d.pipes.items i) [
  | none ↦ none
  | some pipe ↦ elim (Pipe.check_hwm (st pipe)) [
    | true ↦ check_hwm_loop rounds (i + 1) d st
    | false ↦ some false
  ]
]

pub check_hwm : Dist → Store → Option Bool
unfolding check_hwm_loop
check_hwm d st = check_hwm_loop d.matching 0 d st
