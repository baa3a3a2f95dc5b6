-- ===== src/Z85/Chars.antt =====
-- zmq_utils.cpp: the two tables of the Z85 codec, and one round of its loops.
use mathlib.Core.Option
use zmq.Base.{
  ℕ, zero, suc, ◌+◌, ◌-◌, ◌*◌, ◌%◌, ◌^◌, ◌<◌, ◌≡◌, inl, inr, refl, arith, Bool, true, false, ◌&&◌,
  ◌==◌, ltb, Option, none, List, [], ◌∷◌, ◌++◌, ap, ◌∙◌, Bool-cases, if◌then◌else◌,
}
use zmq.Z85.{refuses, encoder, decoder, at, decode_loop, digits}

-- A test passes for every number below `n`.
unfoldable pub passes : (ℕ → Bool) → ℕ → Bool
passes test zero = true
passes test (suc n) = test n && passes test n

pub passes_lem : (test : ℕ → Bool) (n k : ℕ) → passes test n ≡ true → k < n → test k ≡ true
unfolding passes
passes_lem test zero k h lt = absurd (omega arith)
passes_lem test (suc n) k h lt = elim (Bool-cases (k == n)) [
  | inl e ↦ ground arith
  | inr e ↦ passes_lem test n k (ground arith) (ground arith)
]

-- Where the decoder looks up the character of the digit `k`.
abbrev pub index_of : ℕ → ℕ
index_of k = (at encoder k + 256 - 32) % 256

both : (i v k : ℕ) → (ltb i 96 && v == k) ≡ true → (i < 96) × (v ≡ k)
both i v k h = (ground arith, ground arith)

-- The tables are inverse to one another.
pub decoder-encoder : (k : ℕ) → k < 85 → (index_of k < 96) × (at decoder (index_of k) ≡ k)
unfolding passes
decoder-encoder k h =
    both (index_of k) (at decoder (index_of k)) k
      (passes_lem (λ (i : ℕ). ltb (index_of i) 96 && at decoder (index_of i) == i) 85 k refl h)

-- A round of the decoder, with what it reads and computes as plain numbers.
abbrev pub round : ℕ → ℕ → ℕ → ℕ → ℕ → Bool → List ℕ → Option (List ℕ)
round n value index summand value' full rest =
    if refuses value (value * 85 % 2 ^ 32) index summand
    then none
    else Option.map (λ out. (if full then digits 256 6 (256 * 256 * 256) value' else []) ++ out)
        (decode_loop (n + 1) (if full then 0 else value') rest)

pub decode_round :
    (n value c : ℕ) (rest : List ℕ)
    → let index = (c + 256 - 32) % 256 in
      let summand = at decoder index in
      decode_loop n value (c ∷ rest)
      ≡ round n value index summand
          ((value * 85 % 2 ^ 32 + summand) % 2 ^ 32)
          ((n + 1) % 5 == 0)
          rest
unfolding decode_loop
decode_round n value c rest = refl

accepted :
    (value i k : ℕ)
    → k < 85
    → i < 96
    → value * 85 + k < 2 ^ 32
    → (refuses value (value * 85 % 2 ^ 32) i k ≡ false)
      × ((value * 85 % 2 ^ 32 + k) % 2 ^ 32 ≡ value * 85 + k)
accepted value i k hk hi fits = (ground arith, omega arith)

accepted_round :
    (n value index summand value' : ℕ) (full : Bool) (rest : List ℕ)
    → refuses value (value * 85 % 2 ^ 32) index summand ≡ false
    → round n value index summand value' full rest
      ≡ Option.map
          (λ out. (if full then digits 256 6 (256 * 256 * 256) value' else []) ++ out)
          (decode_loop (n + 1) (if full then 0 else value') rest)
accepted_round n value index summand value' full rest h =
    ap
      (λ b.
        if b
        then none
        else Option.map (λ out. (if full then digits 256 6 (256 * 256 * 256) value' else []) ++ out)
            (decode_loop (n + 1) (if full then 0 else value') rest))
      h

-- A round on the character of the digit `k`.
pub decode_digit :
    (n value k : ℕ) (full : Bool) (rest : List ℕ)
    → k < 85
    → value * 85 + k < 2 ^ 32
    → ((n + 1) % 5 == 0) ≡ full
    → decode_loop n value (at encoder k ∷ rest)
      ≡ Option.map
          (λ out. (if full then digits 256 6 (256 * 256 * 256) (value * 85 + k) else []) ++ out)
          (decode_loop (n + 1) (if full then 0 else value * 85 + k) rest)
decode_digit n value k full rest hk fits e =
    let (range, entry) = decoder-encoder k hk in
    let (pass, sum) = accepted value (index_of k) k hk range fits in
    decode_round n value (at encoder k) rest
    ∙ ap
        (λ (s : ℕ).
          round n value (index_of k) s ((value * 85 % 2 ^ 32 + s) % 2 ^ 32) ((n + 1) % 5 == 0) rest)
        entry
    ∙ ap (λ (v : ℕ). round n value (index_of k) k v ((n + 1) % 5 == 0) rest) sum
    ∙ ap (λ f. round n value (index_of k) k (value * 85 + k) f rest) e
    ∙ accepted_round n value (index_of k) k (value * 85 + k) full rest pass
