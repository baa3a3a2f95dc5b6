-- ===== src/Z85/Strings.antt =====
-- zmq_utils.cpp: the strings that `zmq_z85_encode` writes.
use mathlib.Core.List.{map}
use zmq.Base.{
  ℕ, ◌+◌, ◌*◌, ◌/◌, ◌%◌, ◌^◌, ◌<◌, ◌≡◌, refl, arith, true, ◌&&◌, ◌==◌, ltb, some, List, [], ◌∷◌,
  ◌++◌, length, All,
}
use zmq.Z85.{encoder, at, digits, encode_loop, encode}
use zmq.Z85.Chars.{passes, passes_lem}
use zmq.Z85.RoundTrip.{IsByte, encode_block, word}

-- Printable, and so not the terminator.
abbrev pub IsPrintable : ℕ → Type 0
IsPrintable c = (32 < c) × (c < 127)

between_lem : (c : ℕ) → (ltb 32 c && ltb c 127) ≡ true → IsPrintable c
between_lem c h = (ground arith, ground arith)

encoder-IsPrintable : (k : ℕ) → k < 85 → IsPrintable (at encoder k)
unfolding passes
encoder-IsPrintable k h =
    between_lem (at encoder k)
      (passes_lem (λ (i : ℕ). ltb 32 (at encoder i) && ltb (at encoder i) 127) 85 k refl h)

-- The characters of a block, in front of others.
block-IsPrintable :
    (v : ℕ) (rest : List ℕ)
    → All IsPrintable rest
    → All IsPrintable (map (at encoder) (digits 85 6 (85 * 85 * 85 * 85) v) ++ rest)
unfolding digits
block-IsPrintable v rest h =
    let p = λ (q : ℕ). encoder-IsPrintable (q % 85) (omega arith) in
    (p (v / 52200625), (p (v / 614125), (p (v / 7225), (p (v / 85), (p (v / 1), h)))))

length_block :
    (v : ℕ) (rest : List ℕ)
    → length (map (at encoder) (digits 85 6 (85 * 85 * 85 * 85) v) ++ rest) ≡ 5 + length rest
unfolding digits
length_block v rest = omega arith

encode_loop-IsPrintable :
    (bytes : List ℕ) (n : ℕ)
    → n % 4 ≡ 0
    → All IsByte bytes
    → length bytes % 4 ≡ 0
    → (All IsPrintable (encode_loop n 0 bytes))
      × (length (encode_loop n 0 bytes) * 4 ≡ length bytes * 5)
encode_loop-IsPrintable [] n hn h e = unfold encode_loop in (tt, refl)
encode_loop-IsPrintable (a ∷ []) n hn h e = absurd (omega arith)
encode_loop-IsPrintable (a ∷ b ∷ []) n hn h e = absurd (omega arith)
encode_loop-IsPrintable (a ∷ b ∷ c ∷ []) n hn h e = absurd (omega arith)
encode_loop-IsPrintable (a ∷ b ∷ c ∷ d ∷ rest) n hn (ha, (hb, (hc, (hd, hr)))) e =
    let (printable, len) =
      encode_loop-IsPrintable rest (n + 1 + 1 + 1 + 1) (omega arith) hr (omega arith) in
    let later = encode_loop (n + 1 + 1 + 1 + 1) 0 rest in
    rw (encode_block n a b c d rest ha hb hc hd hn) (
      block-IsPrintable (word a b c d) later printable,
      omega (arith, length_block (word a b c d) later, len),
    )

-- Bytes in a number that four divides, for which the string is shorter than 2 ^ 32, are encoded as printable characters, none of which is the
-- terminator, five for every four bytes, as the assertion in the code has it.
pub encode-IsPrintable :
    (bytes : List ℕ)
    → All IsByte bytes
    → length bytes % 4 ≡ 0
    → length bytes * 5 < 2 ^ 34
    → (string : List ℕ) × (encode bytes ≡ some string)
      × (All IsPrintable string)
      × (length string * 4 ≡ length bytes * 5)
unfolding encode
encode-IsPrintable bytes h e bound =
    let whole : (length bytes % 4 == 0) ≡ true = ground arith in
    let (printable, len) = encode_loop-IsPrintable bytes 0 refl h e in
    (encode_loop 0 0 bytes, rw whole refl, printable, len)
