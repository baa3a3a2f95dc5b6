-- ===== src/Z85/Accepted.antt =====
-- zmq_utils.cpp: the characters that `zmq_z85_decode` accepts, one after another.
use mathlib.Core.Option
use zmq.Base.{
  ℕ, ◌+◌, ◌-◌, ◌*◌, ◌%◌, ◌^◌, ◌<◌, ◌≡◌, inl, inr, refl, arith, true, false, ◌&&◌, ◌||◌, ◌==◌, ltb,
  Option, none, some, List, [], ◌∷◌, ◌++◌, length, ap, ◌∙◌, sym, Bool-cases, All,
}
use zmq.Z85.{encoder, decoder, at, digits, refuses, decode_loop}
use zmq.Z85.Chars.{passes, passes_lem, decode_round}
use zmq.Z85.RoundTrip.{IsByte, digit, last_digit}

-- Every entry of `decoder` but 255 leads back.
known :
    (i v e : ℕ)
    → (v == 255 || (ltb v 85 && e == i + 32)) ≡ true
    → (v == 255) ≡ false
    → (v < 85) × (e ≡ i + 32)
known i v e h n = (ground arith, ground arith)

encoder-decoder :
    (i : ℕ)
    → i < 96
    → (at decoder i == 255) ≡ false
    → (at decoder i < 85) × (at encoder (at decoder i) ≡ i + 32)
unfolding passes
encoder-decoder i h n =
    known i (at decoder i) (at encoder (at decoder i))
      (passes_lem
        (λ (j : ℕ).
          at decoder j == 255 || (ltb (at decoder j) 85 && at encoder (at decoder j) == j + 32))
        96 i refl h)
      n

-- What a round that goes on has tested.
tested :
    (value i k : ℕ)
    → refuses value (value * 85 % 2 ^ 32) i k ≡ false
    → (i < 96) × ((k == 255) ≡ false) × (value * 85 + k < 2 ^ 32)
tested value i k h = (ground arith, ground arith, ground arith)

refused :
    (n value c : ℕ) (rest : List ℕ)
    → let i = (c + 256 - 32) % 256 in
      refuses value (value * 85 % 2 ^ 32) i (at decoder i) ≡ true
      → decode_loop n value (c ∷ rest) ≡ none
refused n value c rest h = decode_round n value c rest ∙ rw h refl

-- A character that is accepted is that of a digit, for which there is room.
accepted_char :
    (n value c : ℕ) (rest out : List ℕ)
    → c < 256
    → decode_loop n value (c ∷ rest) ≡ some out
    → (k : ℕ) × (k < 85) × (c ≡ at encoder k) × (value * 85 + k < 2 ^ 32)
accepted_char n value c rest out h e =
    let i = (c + 256 - 32) % 256 in
    let k = at decoder i in
    elim (Bool-cases (refuses value (value * 85 % 2 ^ 32) i k)) [
      | inl out_of_range ↦ absurd (let r = refused n value c rest out_of_range in cc)
      | inr accepted ↦
          let (range, entry, fits) = tested value i k accepted in
          let (small, char) = encoder-decoder i range entry in
          let same_char : i + 32 ≡ c = omega arith in (k, small, sym (char ∙ same_char), fits)
    ]

from_map :
    (f : List ℕ → List ℕ) (o : Option (List ℕ)) (out : List ℕ)
    → Option.map f o ≡ some out
    → (out' : List ℕ) × (o ≡ some out') × (f out' ≡ out)
from_map f none out e = absurd cc
from_map f (some out') out e = (out', refl, cc)

-- A character in the middle of a block.
pub middle_char :
    (n value c : ℕ) (rest out : List ℕ)
    → c < 256
    → ((n + 1) % 5 == 0) ≡ false
    → decode_loop n value (c ∷ rest) ≡ some out
    → (k : ℕ) × (k < 85)
      × (c ≡ at encoder k)
      × (value * 85 + k < 2 ^ 32)
      × (decode_loop (n + 1) (value * 85 + k) rest ≡ some out)
middle_char n value c rest out h middle e =
    let (k, small, char, fits) = accepted_char n value c rest out h e in
    (
      k,
      small,
      char,
      fits,
      sym (digit n value k (value * 85 + k) rest small refl fits middle)
          ∙ ap (λ (x : ℕ). decode_loop n value (x ∷ rest)) (sym char)
          ∙ e,
    )

-- The first one.
pub first_char :
    (n c : ℕ) (rest out : List ℕ)
    → c < 256
    → ((n + 1) % 5 == 0) ≡ false
    → decode_loop n 0 (c ∷ rest) ≡ some out
    → (k : ℕ) × (k < 85)
      × (c ≡ at encoder k)
      × (k < 2 ^ 32)
      × (decode_loop (n + 1) k rest ≡ some out)
first_char n c rest out h middle e =
    let (k, small, char, fits, later) = middle_char n 0 c rest out h middle e in
    (k, small, char, omega arith, ap (λ (w : ℕ). decode_loop (n + 1) w rest) (omega arith) ∙ later)

-- The last character of a block.
pub end_char :
    (n value c : ℕ) (rest out : List ℕ)
    → c < 256
    → ((n + 1) % 5 == 0) ≡ true
    → decode_loop n value (c ∷ rest) ≡ some out
    → (k : ℕ) × (k < 85)
      × (c ≡ at encoder k)
      × (value * 85 + k < 2 ^ 32)
      × (out' : List ℕ) × (decode_loop (n + 1) 0 rest ≡ some out')
      × (digits 256 6 (256 * 256 * 256) (value * 85 + k) ++ out' ≡ out)
end_char n value c rest out h last e =
    let (k, small, char, fits) = accepted_char n value c rest out h e in
    let (out', later, whole) =
      from_map (λ xs. digits 256 6 (256 * 256 * 256) (value * 85 + k) ++ xs)
        (decode_loop (n + 1) 0 rest) out
        (sym (last_digit n value k (value * 85 + k) rest small refl fits last)
          ∙ ap (λ (x : ℕ). decode_loop n value (x ∷ rest)) (sym char)
          ∙ e) in
    (k, small, char, fits, out', later, whole)

-- A string ends with a block.
pub length-decoded :
    (string : List ℕ) (n value : ℕ) (out : List ℕ)
    → All IsByte string
    → decode_loop n value string ≡ some out
    → (n + length string) % 5 ≡ 0
length-decoded [] n value out h e = unfold decode_loop in ground arith
length-decoded (c ∷ rest) n value out (hc, hr) e = elim (Bool-cases ((n + 1) % 5 == 0)) [
  | inl last ↦
      let (k, small, char, fits, out', later, whole) = end_char n value c rest out hc last e in
      omega (arith, length-decoded rest (n + 1) 0 out' hr later)
  | inr middle ↦
      let (k, small, char, fits, later) = middle_char n value c rest out hc middle e in
      omega (arith, length-decoded rest (n + 1) (value * 85 + k) out hr later)
]
