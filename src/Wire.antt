-- ===== src/Wire.antt =====
-- zeromq-4.3.1/src/wire.hpp: integers to and from network byte order. A `put` returns the bytes that the source
-- stores into its buffer, first byte first; a `get` takes the bytes of the buffer.
-- `>> k` is `/ 2 ^ k`, and `<< k` is `* 2 ^ k` where the operand is too small to lose a bit.
pub mod Laws
mod Tests
use zmq.Base.{ℕ, ◌*◌, ◌/◌, ◌^◌, bit_and, bit_or, List, [], ◌∷◌}

pub put_uint8 : ℕ → List ℕ
put_uint8 value = value ∷ []

-- A buffer shorter than the bytes that are read is never passed; its value is 0 here.
unfoldable pub get_uint8 : List ℕ → ℕ
get_uint8 [] = 0
get_uint8 (b0 ∷ _) = b0

pub put_uint16 : ℕ → List ℕ
put_uint16 value = bit_and (value / 2 ^ 8) 0xff ∷ bit_and value 0xff ∷ []

pub get_uint16 : List ℕ → ℕ
get_uint16 (b0 ∷ b1 ∷ _) = bit_or (b0 * 2 ^ 8) b1
get_uint16 _ = 0

pub put_uint32 : ℕ → List ℕ
put_uint32 value =
    bit_and (value / 2 ^ 24) 0xff
    ∷ bit_and (value / 2 ^ 16) 0xff
    ∷ bit_and (value / 2 ^ 8) 0xff
    ∷ bit_and value 0xff
    ∷ []

pub get_uint32 : List ℕ → ℕ
get_uint32 (b0 ∷ b1 ∷ b2 ∷ b3 ∷ _) =
    bit_or (bit_or (bit_or (b0 * 2 ^ 24) (b1 * 2 ^ 16)) (b2 * 2 ^ 8)) b3
get_uint32 _ = 0

unfoldable pub put_uint64 : ℕ → List ℕ
put_uint64 value =
    bit_and (value / 2 ^ 56) 0xff
    ∷ bit_and (value / 2 ^ 48) 0xff
    ∷ bit_and (value / 2 ^ 40) 0xff
    ∷ bit_and (value / 2 ^ 32) 0xff
    ∷ bit_and (value / 2 ^ 24) 0xff
    ∷ bit_and (value / 2 ^ 16) 0xff
    ∷ bit_and (value / 2 ^ 8) 0xff
    ∷ bit_and value 0xff
    ∷ []

unfoldable pub get_uint64 : List ℕ → ℕ
get_uint64 (b0 ∷ b1 ∷ b2 ∷ b3 ∷ b4 ∷ b5 ∷ b6 ∷ b7 ∷ _) =
    let w1 = bit_or (b0 * 2 ^ 56) (b1 * 2 ^ 48) in
    let w2 = bit_or w1 (b2 * 2 ^ 40) in
    let w3 = bit_or w2 (b3 * 2 ^ 32) in
    let w4 = bit_or w3 (b4 * 2 ^ 24) in
    let w5 = bit_or w4 (b5 * 2 ^ 16) in let w6 = bit_or w5 (b6 * 2 ^ 8) in bit_or w6 b7
get_uint64 _ = 0
