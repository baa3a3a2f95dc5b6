-- ===== src/Wire/Tests.antt =====
-- wire.hpp at concrete values.
use zmq.Base.{◌≡◌, refl, arith, [], ◌∷◌, ◌++◌}
use zmq.Wire.{put_uint64, get_uint64}
use zmq.Wire.Laws.{get_uint64-put_uint64}

put_64 : put_uint64 0x0102030405060708 ≡ 1 ∷ 2 ∷ 3 ∷ 4 ∷ 5 ∷ 6 ∷ 7 ∷ 8 ∷ []
unfolding put_uint64
put_64 = refl

get_uint64-put_uint64_example :
    get_uint64 (put_uint64 0x0102030405060708 ++ 9 ∷ []) ≡ 0x0102030405060708
get_uint64-put_uint64_example = get_uint64-put_uint64 0x0102030405060708 (9 ∷ []) (omega arith)
