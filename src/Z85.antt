-- ===== src/Z85.antt =====
-- zeromq-4.3.1/src/zmq_utils.cpp: the Z85 codec. Characters are numbers, a string is the list of its
-- characters before the terminator, and a result `none` is the return of NULL with EINVAL. The counters
-- of bytes and characters have 32 bits; here they do not wrap, which is the code as long as the string has
-- fewer than 2 ^ 32 characters. The theorems assume that.
pub mod Chars
pub mod RoundTrip
pub mod Strings
pub mod Accepted
pub mod Canonical
mod Tests
use mathlib.Core.List.{map}
use mathlib.Core.Option
use zmq.Base.{
  ℕ, zero, suc, ◌+◌, ◌-◌, ◌*◌, ◌/◌, ◌%◌, ◌^◌, Bool, true, false, ◌||◌, ◌==◌, ltb, leb, Option, none,
  some, List, [], ◌∷◌, ◌++◌, length, get_elem?, if◌then◌else◌,
}

-- `UINT32_MAX`.
abbrev pub uint32_max : ℕ
uint32_max = 2 ^ 32 - 1

-- The table `encoder`.
abbrev pub encoder : List ℕ
encoder =
    48 ∷ 49 ∷ 50 ∷ 51 ∷ 52 ∷ 53 ∷ 54 ∷ 55 ∷ 56 ∷ 57 ∷ 97 ∷ 98 ∷ 99 ∷ 100 ∷ 101 ∷ 102 ∷ 103 ∷ 104
    ∷ 105 ∷ 106 ∷ 107 ∷ 108 ∷ 109 ∷ 110 ∷ 111 ∷ 112 ∷ 113 ∷ 114 ∷ 115 ∷ 116 ∷ 117 ∷ 118 ∷ 119 ∷ 120
    ∷ 121 ∷ 122 ∷ 65 ∷ 66 ∷ 67 ∷ 68 ∷ 69 ∷ 70 ∷ 71 ∷ 72 ∷ 73 ∷ 74 ∷ 75 ∷ 76 ∷ 77 ∷ 78 ∷ 79 ∷ 80 ∷ 81
    ∷ 82 ∷ 83 ∷ 84 ∷ 85 ∷ 86 ∷ 87 ∷ 88 ∷ 89 ∷ 90 ∷ 46 ∷ 45 ∷ 58 ∷ 43 ∷ 61 ∷ 94 ∷ 33 ∷ 47 ∷ 42 ∷ 63
    ∷ 38 ∷ 60 ∷ 62 ∷ 40 ∷ 41 ∷ 91 ∷ 93 ∷ 123 ∷ 125 ∷ 64 ∷ 37 ∷ 36 ∷ 35 ∷ []

-- The table `decoder`.
abbrev pub decoder : List ℕ
decoder =
    255 ∷ 68 ∷ 255 ∷ 84 ∷ 83 ∷ 82 ∷ 72 ∷ 255 ∷ 75 ∷ 76 ∷ 70 ∷ 65 ∷ 255 ∷ 63 ∷ 62 ∷ 69 ∷ 0 ∷ 1 ∷ 2
    ∷ 3 ∷ 4 ∷ 5 ∷ 6 ∷ 7 ∷ 8 ∷ 9 ∷ 64 ∷ 255 ∷ 73 ∷ 66 ∷ 74 ∷ 71 ∷ 81 ∷ 36 ∷ 37 ∷ 38 ∷ 39 ∷ 40 ∷ 41
    ∷ 42 ∷ 43 ∷ 44 ∷ 45 ∷ 46 ∷ 47 ∷ 48 ∷ 49 ∷ 50 ∷ 51 ∷ 52 ∷ 53 ∷ 54 ∷ 55 ∷ 56 ∷ 57 ∷ 58 ∷ 59 ∷ 60
    ∷ 61 ∷ 77 ∷ 255 ∷ 78 ∷ 67 ∷ 255 ∷ 255 ∷ 10 ∷ 11 ∷ 12 ∷ 13 ∷ 14 ∷ 15 ∷ 16 ∷ 17 ∷ 18 ∷ 19 ∷ 20
    ∷ 21 ∷ 22 ∷ 23 ∷ 24 ∷ 25 ∷ 26 ∷ 27 ∷ 28 ∷ 29 ∷ 30 ∷ 31 ∷ 32 ∷ 33 ∷ 34 ∷ 35 ∷ 79 ∷ 255 ∷ 80 ∷ 255
    ∷ 255 ∷ []

-- An entry of a table; the indices are in range.
abbrev pub at : List ℕ → ℕ → ℕ
at table i = elim (get_elem? table i) [ none ↦ 0 | some c ↦ c ]

-- `while (divisor)`: the digits `value / divisor % base`. Six rounds are enough for both divisors, 85 ^ 4
-- and 256 ^ 3, which become 0 after five and four divisions.
unfoldable pub digits : ℕ → ℕ → ℕ → ℕ → List ℕ
digits base zero divisor value = []
digits base (suc fuel) divisor value = elim (divisor == 0) [
  | true ↦ []
  | false ↦ (value / divisor % base) ∷ digits base fuel (divisor / base) value
]

-- `while (byte_nbr < size_)`, on the rest of the data.
pub encode_loop : ℕ → ℕ → List ℕ → List ℕ
unfolding digits
encode_loop byte_nbr value [] = []
encode_loop byte_nbr value (b ∷ rest) =
    let value' = (value * 256 + b) % 2 ^ 32 in
    let full = (byte_nbr + 1) % 4 == 0 in
    let later = encode_loop (byte_nbr + 1) (if full then 0 else value') rest in
    (if full then map (at encoder) (digits 85 6 (85 * 85 * 85 * 85) value') else []) ++ later

pub encode : List ℕ → Option (List ℕ)
unfolding encode_loop
encode bytes = if length bytes % 4 == 0 then some (encode_loop 0 0 bytes) else none

-- The tests of a round of the decoder.
abbrev pub refuses : ℕ → ℕ → ℕ → ℕ → Bool
refuses value scaled index summand =
    ltb (uint32_max / 85) value
    || (leb 96 index || (summand == 255 || ltb (uint32_max - scaled) summand))

-- `while (string_[char_nbr])`, on the rest of the string, and the test after the loop. A round that
-- refuses its character ends the decoding, whatever the rest.
pub decode_loop : ℕ → ℕ → List ℕ → Option (List ℕ)
unfolding digits
decode_loop char_nbr value [] = if char_nbr % 5 == 0 then some [] else none
decode_loop char_nbr value (c ∷ rest) =
    let scaled = value * 85 % 2 ^ 32 in
    let index = (c + 256 - 32) % 256 in
    let summand = at decoder index in
    let value' = (scaled + summand) % 2 ^ 32 in
    let full = (char_nbr + 1) % 5 == 0 in
    let later = decode_loop (char_nbr + 1) (if full then 0 else value') rest in
    if refuses value scaled index summand
    then none
    else Option.map (λ out. (if full then digits 256 6 (256 * 256 * 256) value' else []) ++ out)
        later

pub decode : List ℕ → Option (List ℕ)
unfolding decode_loop
decode string = decode_loop 0 0 string
