-- ===== src/Z85/RoundTrip.antt =====
-- zmq_utils.cpp: what `zmq_z85_encode` writes, `zmq_z85_decode` reads back.
use mathlib.Core.List.{map}
use mathlib.Core.Option
use zmq.Base.{
  ℕ, ◌+◌, ◌*◌, ◌/◌, ◌%◌, ◌^◌, ◌<◌, ◌≡◌, refl, arith, Bool, true, false, ◌==◌, Option, none, some,
  List, [], ◌∷◌, ◌++◌, length, ap, ◌∙◌, if◌then◌else◌, All,
}
use zmq.Z85.{encoder, at, digits, encode_loop, encode, decode_loop, decode}
use zmq.Z85.Chars.{decode_digit}

map_nothing : (o : Option (List ℕ)) → Option.map (λ out. [] ++ out) o ≡ o
map_nothing none = refl
map_nothing (some out) = refl

-- A digit in the middle of a block, after which the value is `w`.
pub digit :
    (n value k w : ℕ) (rest : List ℕ)
    → k < 85
    → value * 85 + k ≡ w
    → w < 2 ^ 32
    → ((n + 1) % 5 == 0) ≡ false
    → decode_loop n value (at encoder k ∷ rest) ≡ decode_loop (n + 1) w rest
digit n value k w rest hk e fits middle =
    decode_digit n value k false rest hk (omega arith) middle
    ∙ map_nothing (decode_loop (n + 1) (value * 85 + k) rest)
    ∙ ap (λ (u : ℕ). decode_loop (n + 1) u rest) e

pub last_digit :
    (n value k w : ℕ) (rest : List ℕ)
    → k < 85
    → value * 85 + k ≡ w
    → w < 2 ^ 32
    → ((n + 1) % 5 == 0) ≡ true
    → decode_loop n value (at encoder k ∷ rest)
      ≡ Option.map (λ out. digits 256 6 (256 * 256 * 256) w ++ out) (decode_loop (n + 1) 0 rest)
last_digit n value k w rest hk e fits last =
    decode_digit n value k true rest hk (omega arith) last
    ∙ ap
        (λ (u : ℕ).
          Option.map (λ out. digits 256 6 (256 * 256 * 256) u ++ out) (decode_loop (n + 1) 0 rest))
        e

-- The five characters of a block give back its value.
decode_block :
    (n v : ℕ) (rest : List ℕ)
    → v < 2 ^ 32
    → n % 5 ≡ 0
    → decode_loop n 0 (map (at encoder) (digits 85 6 (85 * 85 * 85 * 85) v) ++ rest)
      ≡ Option.map
          (λ out. digits 256 6 (256 * 256 * 256) v ++ out)
          (decode_loop (n + 1 + 1 + 1 + 1 + 1) 0 rest)
unfolding digits
decode_block n v rest h start =
    digit n 0 (v / 52200625 % 85) (v / 52200625) _ (omega arith) (omega arith) (omega arith)
      (ground arith)
    ∙ digit (n + 1) (v / 52200625) (v / 614125 % 85) (v / 614125) _ (omega arith) (omega arith)
        (omega arith) (ground arith)
    ∙ digit (n + 1 + 1) (v / 614125) (v / 7225 % 85) (v / 7225) _ (omega arith) (omega arith)
        (omega arith) (ground arith)
    ∙ digit (n + 1 + 1 + 1) (v / 7225) (v / 85 % 85) (v / 85) _ (omega arith) (omega arith)
        (omega arith) (ground arith)
    ∙ last_digit (n + 1 + 1 + 1 + 1) (v / 85) (v / 1 % 85) v rest (omega arith) (omega arith) h
        (ground arith)

-- The big-endian value of four bytes.
abbrev pub word : ℕ → ℕ → ℕ → ℕ → ℕ
word a b c d = ((a * 256 + b) * 256 + c) * 256 + d

digits-word :
    (a b c d : ℕ)
    → a < 256
    → b < 256
    → c < 256
    → d < 256
    → digits 256 6 (256 * 256 * 256) (word a b c d) ≡ a ∷ b ∷ c ∷ d ∷ []
unfolding digits
digits-word a b c d ha hb hc hd =
    let v = word a b c d in
    let e1 : v / 16777216 % 256 ≡ a = omega arith in
    let e2 : v / 65536 % 256 ≡ b = omega arith in
    let e3 : v / 256 % 256 ≡ c = omega arith in
    let e4 : v / 1 % 256 ≡ d = omega arith in λ i. e1 i ∷ e2 i ∷ e3 i ∷ e4 i ∷ []

encode_round :
    (n value b w : ℕ) (full : Bool) (rest : List ℕ)
    → (value * 256 + b) % 2 ^ 32 ≡ w
    → ((n + 1) % 4 == 0) ≡ full
    → encode_loop n value (b ∷ rest)
      ≡ (if full then map (at encoder) (digits 85 6 (85 * 85 * 85 * 85) w) else [])
        ++ encode_loop (n + 1) (if full then 0 else w) rest
unfolding encode_loop
encode_round n value b w full rest e f =
    ap
      (λ (u : ℕ).
        (if (n + 1) % 4 == 0 then map (at encoder) (digits 85 6 (85 * 85 * 85 * 85) u) else [])
        ++ encode_loop (n + 1) (if (n + 1) % 4 == 0 then 0 else u) rest)
      e
    ∙ ap
        (λ g.
          (if g then map (at encoder) (digits 85 6 (85 * 85 * 85 * 85) w) else [])
          ++ encode_loop (n + 1) (if g then 0 else w) rest)
        f

-- Four bytes make a block.
pub encode_block :
    (n a b c d : ℕ) (rest : List ℕ)
    → a < 256
    → b < 256
    → c < 256
    → d < 256
    → n % 4 ≡ 0
    → encode_loop n 0 (a ∷ b ∷ c ∷ d ∷ rest)
      ≡ map (at encoder) (digits 85 6 (85 * 85 * 85 * 85) (word a b c d))
        ++ encode_loop (n + 1 + 1 + 1 + 1) 0 rest
encode_block n a b c d rest ha hb hc hd start =
    encode_round n 0 a a false _ (omega arith) (ground arith)
    ∙ encode_round (n + 1) a b (a * 256 + b) false _ (omega arith) (ground arith)
    ∙ encode_round (n + 1 + 1) (a * 256 + b) c ((a * 256 + b) * 256 + c) false _ (omega arith)
        (ground arith)
    ∙ encode_round (n + 1 + 1 + 1) ((a * 256 + b) * 256 + c) d (word a b c d) true rest
        (omega arith) (ground arith)

abbrev pub IsByte : ℕ → Type 0
IsByte b = b < 256

decode_loop-encode_loop :
    (bytes : List ℕ) (n m : ℕ)
    → n % 4 ≡ 0
    → m % 5 ≡ 0
    → All IsByte bytes
    → length bytes % 4 ≡ 0
    → decode_loop m 0 (encode_loop n 0 bytes) ≡ some bytes
decode_loop-encode_loop [] n m hn hm h e = unfold decode_loop in unfold encode_loop in ground arith
decode_loop-encode_loop (a ∷ []) n m hn hm h e = absurd (omega arith)
decode_loop-encode_loop (a ∷ b ∷ []) n m hn hm h e = absurd (omega arith)
decode_loop-encode_loop (a ∷ b ∷ c ∷ []) n m hn hm h e = absurd (omega arith)
decode_loop-encode_loop (a ∷ b ∷ c ∷ d ∷ rest) n m hn hm (ha, (hb, (hc, (hd, hr)))) e =
    let later =
      decode_loop-encode_loop rest (n + 1 + 1 + 1 + 1) (m + 1 + 1 + 1 + 1 + 1) (omega arith)
        (omega arith) hr (omega arith) in
    ap (λ s. decode_loop m 0 s) (encode_block n a b c d rest ha hb hc hd hn)
    ∙ decode_block m (word a b c d) (encode_loop (n + 1 + 1 + 1 + 1) 0 rest) (omega arith) hm
    ∙ ap (λ o. Option.map (λ out. digits 256 6 (256 * 256 * 256) (word a b c d) ++ out) o) later
    ∙ ap (λ xs. some (xs ++ rest)) (digits-word a b c d ha hb hc hd)

-- Bytes in a number that four divides, for which the encoded string is shorter than 2 ^ 32, are encoded,
-- and decoding the string gives them back.
pub decode-encode :
    (bytes : List ℕ)
    → All IsByte bytes
    → length bytes % 4 ≡ 0
    → length bytes * 5 < 2 ^ 34
    → Option.bind (encode bytes) (λ string. decode string) ≡ some bytes
unfolding encode decode Option.bind
decode-encode bytes h e bound =
    let whole : (length bytes % 4 == 0) ≡ true = ground arith in
    rw whole (decode_loop-encode_loop bytes 0 0 refl refl h e)
