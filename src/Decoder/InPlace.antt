-- ===== src/Decoder/InPlace.antt =====
-- decoder.hpp: the two branches of `decode`.
use zmq.Base.{
  ℕ, ◌+◌, ◌≤◌, ◌≡◌, arith, true, false, leb, min, List, [], ◌∷◌, length, take, drop, take-all,
  drop-all, ap, ◌∙◌, sym,
}
use zmq.Decoder.{Decoder, Turn, run_steps, store, resume, decode, decode_in_place, decode_loop}
use zmq.Decoder.Split.{decode_loop_step, decode_loop-nil, resume_ext}

module _ {A : Type 0} (act : A → List ℕ → Turn A) where
  -- Data of at least one byte that the decoder asks for, and of which there are no more than it asks
  -- for, are decoded to the same effect when they lie where the decoder reads them (zero copy) and when
  -- they are copied there.
  pub decode_in_place-eq :
      (x : ℕ) (xs : List ℕ) (d : Decoder A)
      → length (x ∷ xs) ≤ d.to_read
      → decode act true (x ∷ xs) d ≡ decode act false (x ∷ xs) d
  unfolding decode decode_in_place
  decode_in_place-eq x xs d h =
      let bytes = x ∷ xs in
      let n = length bytes in
      let whole : n ≡ min d.to_read n = ground arith in
      let fits : leb n d.to_read ≡ true = ground arith in
      let k = λ (rest : List ℕ) (d' : Decoder A). decode_loop act (length xs) n rest d' in
      rw fits (
        resume_ext act _ (k []) n (run_steps act 3 (store act d bytes))
          (λ d' e. sym (decode_loop-nil act (length xs) n d'))
        ∙ sym (
            decode_loop_step act (length xs) 0 n bytes d (omega arith) whole
            ∙ ap
                (λ (used : ℕ).
                  resume act (λ d'. decode_loop act (length xs) used (drop n bytes) d') used
                    (run_steps act 3 (store act d (take n bytes))))
                {x = 0 + n} {y = n} (omega arith)
            ∙ ap (λ ys. resume act (k (drop n bytes)) n (run_steps act 3 (store act d ys)))
                (take-all n bytes (omega arith))
            ∙ ap (λ rest. resume act (k rest) n (run_steps act 3 (store act d bytes)))
                (drop-all n bytes (omega arith))))
