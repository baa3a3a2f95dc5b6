-- ===== src/Z85/Canonical.antt =====
-- zmq_utils.cpp: `zmq_z85_decode` reads only what `zmq_z85_encode` writes.
use mathlib.Core.List.{map}
use zmq.Base.{
  ℕ, ◌+◌, ◌*◌, ◌/◌, ◌%◌, ◌^◌, ◌<◌, ◌≡◌, refl, arith, true, ◌==◌, some, List, [], ◌∷◌, ◌++◌, length,
  ap, ◌∙◌, sym, All,
}
use zmq.Z85.{encoder, at, digits, encode_loop, encode, decode_loop, decode}
use zmq.Z85.RoundTrip.{IsByte, encode_block, word}
use zmq.Z85.Accepted.{middle_char, first_char, end_char, length-decoded}

-- The characters of five digits are those of the value that they make.
chars-value :
    (a b c d e : ℕ) (ca cb cc' cd ce : ℕ)
    → (a < 85) × (ca ≡ at encoder a)
    → (b < 85) × (cb ≡ at encoder b)
    → (c < 85) × (cc' ≡ at encoder c)
    → (d < 85) × (cd ≡ at encoder d)
    → (e < 85) × (ce ≡ at encoder e)
    → ca ∷ cb ∷ cc' ∷ cd ∷ ce ∷ []
      ≡ map
          (at encoder)
          (digits 85 6 (85 * 85 * 85 * 85) ((((a * 85 + b) * 85 + c) * 85 + d) * 85 + e))
unfolding digits
chars-value a b c d e ca cb cc' cd ce (ha, ea) (hb, eb) (hc, ec) (hd, ed) (he, ee) =
    let v = (((a * 85 + b) * 85 + c) * 85 + d) * 85 + e in
    let p1 : ca ≡ at encoder (v / 52200625 % 85) =
      ea ∙ ap (at encoder) {x = a} {y = v / 52200625 % 85} (omega arith) in
    let p2 : cb ≡ at encoder (v / 614125 % 85) =
      eb ∙ ap (at encoder) {x = b} {y = v / 614125 % 85} (omega arith) in
    let p3 : cc' ≡ at encoder (v / 7225 % 85) =
      ec ∙ ap (at encoder) {x = c} {y = v / 7225 % 85} (omega arith) in
    let p4 : cd ≡ at encoder (v / 85 % 85) =
      ed ∙ ap (at encoder) {x = d} {y = v / 85 % 85} (omega arith) in
    let p5 : ce ≡ at encoder (v / 1 % 85) =
      ee ∙ ap (at encoder) {x = e} {y = v / 1 % 85} (omega arith) in
    λ i. p1 i ∷ p2 i ∷ p3 i ∷ p4 i ∷ p5 i ∷ []

-- Five characters that are accepted are those of a value.
decoded_block :
    (n a b c d e : ℕ) (rest out : List ℕ)
    → n % 5 ≡ 0
    → All IsByte (a ∷ b ∷ c ∷ d ∷ e ∷ [])
    → decode_loop n 0 (a ∷ b ∷ c ∷ d ∷ e ∷ rest) ≡ some out
    → (v : ℕ) × (v < 2 ^ 32)
      × (a ∷ b ∷ c ∷ d ∷ e ∷ [] ≡ map (at encoder) (digits 85 6 (85 * 85 * 85 * 85) v))
      × (out' : List ℕ) × (decode_loop (n + 1 + 1 + 1 + 1 + 1) 0 rest ≡ some out')
      × (digits 256 6 (256 * 256 * 256) v ++ out' ≡ out)
decoded_block n a b c d e rest out hn (ha, (hb, (hc, (hd, (he, _))))) eq =
    let (ka, sa, ca, fa, ea) = first_char n a _ out ha (ground arith) eq in
    let (kb, sb, cb, fb, eb) = middle_char (n + 1) ka b _ out hb (ground arith) ea in
    let (kc, sc, cc', fc, ec) =
      middle_char (n + 1 + 1) (ka * 85 + kb) c _ out hc (ground arith) eb in
    let (kd, sd, cd, fd, ed) =
      middle_char (n + 1 + 1 + 1) ((ka * 85 + kb) * 85 + kc) d _ out hd (ground arith) ec in
    let (ke, se, ce, fe, out', later, whole) =
      end_char (n + 1 + 1 + 1 + 1) (((ka * 85 + kb) * 85 + kc) * 85 + kd) e rest out he
        (ground arith) ed in
    (
      (((ka * 85 + kb) * 85 + kc) * 85 + kd) * 85 + ke,
      omega arith,
      chars-value ka kb kc kd ke a b c d e (sa, ca) (sb, cb) (sc, cc') (sd, cd) (se, ce),
      out',
      later,
      whole,
    )

-- The four bytes of a value are encoded to its digits.
encode_value :
    (q v : ℕ) (out : List ℕ)
    → v < 2 ^ 32
    → q % 4 ≡ 0
    → encode_loop q 0 (digits 256 6 (256 * 256 * 256) v ++ out)
      ≡ map (at encoder) (digits 85 6 (85 * 85 * 85 * 85) v)
        ++ encode_loop (q + 1 + 1 + 1 + 1) 0 out
unfolding digits
encode_value q v out h hq =
    let a = v / 16777216 % 256 in
    let b = v / 65536 % 256 in
    let c = v / 256 % 256 in
    let d = v / 1 % 256 in
    encode_block q a b c d out (omega arith) (omega arith) (omega arith) (omega arith) hq
    ∙ ap
        (λ (w : ℕ).
          map (at encoder) (digits 85 6 (85 * 85 * 85 * 85) w)
          ++ encode_loop (q + 1 + 1 + 1 + 1) 0 out)
        {x = word a b c d} {y = v} (omega arith)

length_bytes :
    (v : ℕ) (out : List ℕ) → length (digits 256 6 (256 * 256 * 256) v ++ out) ≡ 4 + length out
unfolding digits
length_bytes v out = omega arith

decode_loop-nil :
    (n value : ℕ) (bytes : List ℕ) → n % 5 ≡ 0 → decode_loop n value [] ≡ some bytes → bytes ≡ []
unfolding decode_loop
decode_loop-nil n value bytes hn e =
    let whole : (n % 5 == 0) ≡ true = ground arith in
    let empty : decode_loop n value [] ≡ some [] = rw whole refl in cc

encode_loop-decode_loop :
    (string : List ℕ) (n q : ℕ) (bytes : List ℕ)
    → n % 5 ≡ 0
    → q % 4 ≡ 0
    → All IsByte string
    → decode_loop n 0 string ≡ some bytes
    → (encode_loop q 0 bytes ≡ string) × (length bytes % 4 ≡ 0)
encode_loop-decode_loop [] n q bytes hn hq h e =
    unfold encode_loop in rw (decode_loop-nil n 0 bytes hn e) (refl, refl)
encode_loop-decode_loop (a ∷ []) n q bytes hn hq h e =
    absurd (omega (arith, length-decoded (a ∷ []) n 0 bytes h e))
encode_loop-decode_loop (a ∷ b ∷ []) n q bytes hn hq h e =
    absurd (omega (arith, length-decoded (a ∷ b ∷ []) n 0 bytes h e))
encode_loop-decode_loop (a ∷ b ∷ c ∷ []) n q bytes hn hq h e =
    absurd (omega (arith, length-decoded (a ∷ b ∷ c ∷ []) n 0 bytes h e))
encode_loop-decode_loop (a ∷ b ∷ c ∷ d ∷ []) n q bytes hn hq h e =
    absurd (omega (arith, length-decoded (a ∷ b ∷ c ∷ d ∷ []) n 0 bytes h e))
encode_loop-decode_loop (a ∷ b ∷ c ∷ d ∷ e ∷ rest) n q bytes hn hq (ha, (hb, (hc, (hd, (he, hr)))))
      eq =
    let (v, fits, chars, out, later, whole) =
      decoded_block n a b c d e rest bytes hn (ha, (hb, (hc, (hd, (he, tt))))) eq in
    let (string, len) =
      encode_loop-decode_loop rest (n + 1 + 1 + 1 + 1 + 1) (q + 1 + 1 + 1 + 1) out (omega arith)
        (omega arith) hr later in
    (
      ap (λ xs. encode_loop q 0 xs) (sym whole)
          ∙ encode_value q v out fits hq
          ∙ ap (λ xs. map (at encoder) (digits 85 6 (85 * 85 * 85 * 85) v) ++ xs) string
          ∙ ap (λ cs. cs ++ rest) (sym chars),
      omega (arith, length_bytes v out, ap length whole, len),
    )

-- What is decoded without an error, from a string shorter than 2 ^ 32, is encoded to the same string again: no two strings stand for the
-- same bytes.
pub encode-decode :
    (string bytes : List ℕ)
    → All IsByte string
    → length string < 2 ^ 32
    → decode string ≡ some bytes
    → encode bytes ≡ some string
unfolding encode decode
encode-decode string bytes h bound e =
    let (same_string, len) = encode_loop-decode_loop string 0 0 bytes refl refl h e in
    let whole : (length bytes % 4 == 0) ≡ true = ground arith in rw whole (ap some same_string)
