-- ===== src/Dist/Tests.antt =====
-- dist.cpp at concrete values.
use zmq.Base.{
  [], ◌∷◌, ℕ, zero, suc, ◌≡◌, ◌≢◌, refl, arith, true, false, ◌==◌, some, get_elem?, if◌then◌else◌,
}
use zmq.Base.Int.{pos}
use zmq.Msg.{Msg, init_content, has_more}
use zmq.Pipe.{pipepair}
use zmq.Array.{Array}
use zmq.Lb.{Store}
use zmq.Dist.{Dist, send_to_matching, pipe_terminated}
use zmq.Dist.Inv.{IsValid}
use zmq.Dist.Places.{IsIn, IsOut}
use zmq.Dist.Round.{Got}
use zmq.Dist.Send.{send_to_matching_lem}
use zmq.Dist.Parts.{SameParts}
use zmq.Dist.Leave.{pipe_terminated_lem}

-- Pipes 20 to 23: two match, the third can be sent to only from the next message on, and the last
-- one is full. Of the matching pipes, 20 has no room.
abbrev four_pipes : Array
four_pipes = record {
  items = 20 ∷ 21 ∷ 22 ∷ 23 ∷ [];
  index = λ k. if k == 20 then 0 else if k == 21 then 1 else if k == 22 then 2 else 3;
  failed = false;
}

abbrev half_sent : Dist
half_sent = record { pipes = four_pipes; matching = 2; active = 2; eligible = 3; more = true }

half_sent-IsValid : IsValid half_sent
half_sent-IsValid = record {
  indexed = record { index_is = λ i x e. at i e; intact = refl };
  matching_le = omega arith;
  active_le = omega arith;
  eligible_le = omega arith;
}
  where
    at : {x : ℕ} (i : ℕ) → get_elem? four_pipes.items i ≡ some x → four_pipes.index x ≡ i
    at zero e = ground arith
    at (suc zero) e = ground arith
    at (suc (suc zero)) e = ground arith
    at (suc (suc (suc zero))) e = ground arith
    at (suc (suc (suc (suc i)))) e = absurd (ground arith)

abbrev ends : Store
ends = λ k.
    if k == 20
    then record (pipepair (pos 2) (pos 2)).0 { out_active = false }
    else (pipepair (pos 2) (pos 2)).0

abbrev last_part : Msg
last_part = init_content (1 ∷ 2 ∷ [])

send_to_matching_lem_example :
    (d' : Dist) × (st' : Store) × (send_to_matching half_sent ends last_part ≡ some (d', st'))
    × IsValid d'
    × (d'.more ≡ has_more last_part)
    × (has_more last_part ≡ false → d'.active ≡ d'.eligible)
    × ((x : ℕ) → IsIn half_sent.pipes x half_sent.matching → Got last_part ends x d' st')
    × ((x : ℕ)
        → IsOut half_sent.pipes x half_sent.matching
        → (st' x ≡ ends x) × IsOut d'.pipes x d'.matching)
send_to_matching_lem_example = send_to_matching_lem half_sent ends last_part half_sent-IsValid

pipe_terminated_lem_example :
    let d' = pipe_terminated half_sent 21 in
    IsValid d' × IsOut d'.pipes 21 d'.eligible × ((x : ℕ) → x ≢ 21 → SameParts x half_sent d')
pipe_terminated_lem_example = pipe_terminated_lem half_sent 1 21 refl half_sent-IsValid
