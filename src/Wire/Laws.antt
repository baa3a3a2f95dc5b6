-- ===== src/Wire/Laws.antt =====
-- wire.hpp: what is written is read back, and the other way round.
use zmq.Base.{ℕ, ◌+◌, ◌*◌, ◌/◌, ◌%◌, ◌^◌, ◌<◌, ◌≡◌, arith, bit_or, ◌∙◌}
use zmq.Base.{List, [], ◌∷◌, ◌++◌}
use zmq.Base.Bits.{bit_and_ff, bit_or-shift, two-pow-pos}
use native.Mathlib.Numerals.{towards_suc}
use zmq.Wire.{put_uint16, get_uint16, put_uint32, get_uint32, put_uint64, get_uint64}

-- A byte of the network.
abbrev pub IsByte : ℕ → Type 0
IsByte b = b < 256

-- The next byte of a word that is put together from the top.
or_byte :
    (k a b p : ℕ) → p ≡ 256 * 2 ^ k → IsByte b → bit_or (a * p) (b * 2 ^ k) ≡ (a * 256 + b) * 2 ^ k
or_byte k a b p e h =
    let r : 2 ^ (k + 8) ≡ 256 * 2 ^ k = simp towards_suc (omega arith) in
    let q : p ≡ 2 ^ (k + 8) = omega arith in
    let pos : 0 < 2 ^ k = two-pow-pos k in
    let below : b * 2 ^ k < 2 ^ (k + 8) = rw r (grind (arith, pos)) in
    rw (q, bit_or-shift (k + 8) a (b * 2 ^ k) below, r) (omega arith)

or_last : (a b : ℕ) → IsByte b → bit_or (a * 256) b ≡ a * 256 + b
or_last a b h = bit_or-shift 8 a b h

-- The word that eight bytes stand for, first byte highest.
abbrev big_endian : ℕ → ℕ → ℕ → ℕ → ℕ → ℕ → ℕ → ℕ → ℕ
big_endian b0 b1 b2 b3 b4 b5 b6 b7 =
    ((((((b0 * 256 + b1) * 256 + b2) * 256 + b3) * 256 + b4) * 256 + b5) * 256 + b6) * 256 + b7

get_uint64_sum :
    (b0 b1 b2 b3 b4 b5 b6 b7 : ℕ) (rest : List ℕ)
    → IsByte b1
    → IsByte b2
    → IsByte b3
    → IsByte b4
    → IsByte b5
    → IsByte b6
    → IsByte b7
    → get_uint64 (b0 ∷ b1 ∷ b2 ∷ b3 ∷ b4 ∷ b5 ∷ b6 ∷ b7 ∷ rest) ≡ big_endian b0 b1 b2 b3 b4 b5 b6 b7
unfolding get_uint64
get_uint64_sum b0 b1 b2 b3 b4 b5 b6 b7 rest h1 h2 h3 h4 h5 h6 h7 =
    let w1 = b0 * 256 + b1 in
    let w2 = w1 * 256 + b2 in
    let w3 = w2 * 256 + b3 in
    let w4 = w3 * 256 + b4 in
    let w5 = w4 * 256 + b5 in
    rw (
      or_byte 48 b0 b1 (2 ^ 56) (omega arith) h1,
      or_byte 40 w1 b2 (2 ^ 48) (omega arith) h2,
      or_byte 32 w2 b3 (2 ^ 40) (omega arith) h3,
      or_byte 24 w3 b4 (2 ^ 32) (omega arith) h4,
      or_byte 16 w4 b5 (2 ^ 24) (omega arith) h5,
      or_byte 8 w5 b6 (2 ^ 16) (omega arith) h6,
      or_last (w5 * 256 + b6) b7 h7,
    )

-- A 64-bit value that is written in network byte order, whatever follows it, is read back.
pub get_uint64-put_uint64 :
    (v : ℕ) (rest : List ℕ) → v < 2 ^ 64 → get_uint64 (put_uint64 v ++ rest) ≡ v
unfolding put_uint64
get_uint64-put_uint64 v rest h =
    rw
      (
        bit_and_ff (v / 2 ^ 56),
        bit_and_ff (v / 2 ^ 48),
        bit_and_ff (v / 2 ^ 40),
        bit_and_ff (v / 2 ^ 32),
        bit_and_ff (v / 2 ^ 24),
        bit_and_ff (v / 2 ^ 16),
        bit_and_ff (v / 2 ^ 8),
        bit_and_ff v,
      )
      (get_uint64_sum _ _ _ _ _ _ _ _ rest (omega arith) (omega arith) (omega arith) (omega arith)
          (omega arith) (omega arith) (omega arith)
        ∙ omega arith)

get_uint16-put_uint16 : (v : ℕ) (rest : List ℕ) → v < 2 ^ 16 → get_uint16 (put_uint16 v ++ rest) ≡ v
unfolding put_uint16 get_uint16
get_uint16-put_uint16 v rest h =
    rw (bit_and_ff (v / 2 ^ 8), bit_and_ff v) (or_last _ _ (omega arith) ∙ omega arith)

get_uint32-put_uint32 : (v : ℕ) (rest : List ℕ) → v < 2 ^ 32 → get_uint32 (put_uint32 v ++ rest) ≡ v
unfolding put_uint32 get_uint32
get_uint32-put_uint32 v rest h =
    let b0 = v / 2 ^ 24 % 256 in
    let b1 = v / 2 ^ 16 % 256 in
    let b2 = v / 2 ^ 8 % 256 in
    rw
      (
        bit_and_ff (v / 2 ^ 24),
        bit_and_ff (v / 2 ^ 16),
        bit_and_ff (v / 2 ^ 8),
        bit_and_ff v,
        or_byte 16 b0 b1 (2 ^ 24) (omega arith) (omega arith),
        or_byte 8 (b0 * 256 + b1) b2 (2 ^ 16) (omega arith) (omega arith),
        or_last ((b0 * 256 + b1) * 256 + b2) (v % 256) (omega arith),
      )
      (omega arith)

-- The 16-bit and the 32-bit value that are written in network byte order, whatever follows, are
-- read back.
pub get-put_short :
    (v w : ℕ) (rest : List ℕ)
    → v < 2 ^ 16
    → w < 2 ^ 32
    → (get_uint16 (put_uint16 v ++ rest) ≡ v) × (get_uint32 (put_uint32 w ++ rest) ≡ w)
get-put_short v w rest hv hw = (get_uint16-put_uint16 v rest hv, get_uint32-put_uint32 w rest hw)

-- Eight bytes that are read as a 64-bit value are what that value is written as, and the value fits
-- 64 bits: no two encodings stand for one value.
pub put_uint64-get_uint64 :
    (b0 b1 b2 b3 b4 b5 b6 b7 : ℕ)
    → IsByte b0
    → IsByte b1
    → IsByte b2
    → IsByte b3
    → IsByte b4
    → IsByte b5
    → IsByte b6
    → IsByte b7
    → let bytes : List ℕ = b0 ∷ b1 ∷ b2 ∷ b3 ∷ b4 ∷ b5 ∷ b6 ∷ b7 ∷ [] in
      (put_uint64 (get_uint64 bytes) ≡ bytes) × (get_uint64 bytes < 2 ^ 64)
unfolding put_uint64
put_uint64-get_uint64 b0 b1 b2 b3 b4 b5 b6 b7 h0 h1 h2 h3 h4 h5 h6 h7 =
    rw (get_uint64_sum b0 b1 b2 b3 b4 b5 b6 b7 [] h1 h2 h3 h4 h5 h6 h7)
      (simp bit_and_ff (ground arith), omega arith)
