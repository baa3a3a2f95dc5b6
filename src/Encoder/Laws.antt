-- ===== src/Encoder/Laws.antt =====
-- encoder.hpp: what `encode` returns.
use mathlib.Core.Option
use zmq.Base.{
  ℕ, zero, suc, ◌+◌, ◌-◌, ◌≤◌, ◌<◌, ◌≡◌, ◌⊎◌, inl, inr, refl, arith, Bool, true, false, ◌&&◌, ◌==◌,
  leb, min, none, some, List, [], ◌∷◌, ◌++◌, length, take, drop, if◌then◌else◌, Bool-cases, ap, ◌∙◌,
  sym, All, append_assoc, append-nil, length-append, length-take, length-drop, take-append-drop,
}
use zmq.Msg.{Msg}
use zmq.Encoder.{Encoder, encode_calls, Scheduled, next_step, encode_loop, encode}

-- Every buffer has room for a byte.
abbrev pub HaveRoom : List (Bool × ℕ) → Type 0
HaveRoom = All (λ (own, size). 0 < size)

-- `ahead t m` is what the steps from `t` on write of the message `m`, and a step that does not end
-- the message writes something.
module _ {T : Type 0} (act : T → Msg → Scheduled T) (ahead : T → Msg → List ℕ) (home : T) where
  pub record IsProtocol : Type 0 where
    pub ends : (t : T) (m : Msg) → (act t m).new_msg_flag ≡ true → ahead t m ≡ (act t m).write
    pub goes_on :
        (t : T) (m : Msg)
        → (act t m).new_msg_flag ≡ false
        → (ahead t m ≡ (act t m).write ++ ahead (act t m).next m) × (0 < length (act t m).write)
    pub comes_home : (t : T) (m : Msg) → ((act t m).new_msg_flag ≡ false) ⊎ ((act t m).next ≡ home)

  -- After the end of a message the next step is the first one.
  abbrev pub AtHome : Encoder T → Type 0
  AtHome e = (e.new_msg_flag ≡ false) ⊎ (e.next ≡ home)

  -- The bytes of the message that are still to be written.
  abbrev pub todo : Encoder T → Msg → List ℕ
  todo e m = e.pending ++ (if e.new_msg_flag then [] else ahead e.next m)

  -- Either the message is still in progress, or all of it is written.
  abbrev pub Remains : Encoder T → Msg → Type 0
  Remains e m =
      (e.in_progress ≡ some m)
      ⊎ ((e.in_progress ≡ none) × (e.pending ≡ []) × (e.new_msg_flag ≡ true))

  abbrev stepped : Encoder T → Msg → Encoder T
  stepped e m = if length e.pending == 0 then next_step act e (act e.next m) else e

  length-zero : (xs : List ℕ) → length xs ≡ 0 → xs ≡ []
  length-zero [] h = refl
  length-zero (x ∷ xs) h = absurd (omega arith)

  module _ (p : IsProtocol) where
    -- The step at the end of a piece does not change what is to be written.
    todo-next_step :
        (e : Encoder T) (m : Msg)
        → e.pending ≡ []
        → e.new_msg_flag ≡ false
        → (todo (next_step act e (act e.next m)) m ≡ todo e m)
          × ((0 < length (act e.next m).write) ⊎ ((act e.next m).new_msg_flag ≡ true))
    todo-next_step e m empty n = elim (Bool-cases (act e.next m).new_msg_flag) [
      | inl f ↦
          (rw (f, n, empty) (append-nil (act e.next m).write ∙ sym (p.ends e.next m f)), inr f)
      | inr f ↦
          let (whole, some_bytes) = p.goes_on e.next m f in
          (rw (f, n, empty) (sym whole), inl some_bytes)
    ]

    todo-stepped :
        (e : Encoder T) (m : Msg)
        → (length e.pending == 0 && e.new_msg_flag) ≡ false
        → (todo (stepped e m) m ≡ todo e m)
          × ((0 < length (stepped e m).pending) ⊎ ((stepped e m).new_msg_flag ≡ true))
          × ((stepped e m).in_progress ≡ e.in_progress)
          × (AtHome e → AtHome (stepped e m))
    todo-stepped e m h = elim (Bool-cases (length e.pending == 0)) [
      | inr c ↦ rw c (refl, inl (ground arith), refl, λ w. w)
      | inl c ↦
          let (same_bytes, moves) =
            todo-next_step e m (length-zero e.pending (ground arith)) (ground arith) in
          rw c (same_bytes, moves, refl, λ w. p.comes_home e.next m)
    ]

    -- Writing a part of a piece.
    todo-drop :
        (e : Encoder T) (m : Msg) (n : ℕ)
        → take n e.pending ++ todo (record e { pending = drop n e.pending }) m ≡ todo e m
    todo-drop e m n =
        sym (append_assoc (take n e.pending) (drop n e.pending) _)
        ∙ ap (λ xs. xs ++ (if e.new_msg_flag then [] else ahead e.next m))
            (take-append-drop n e.pending)

    -- What `encode` does with the message in progress.
    abbrev pub Encoded : Encoder T → Msg → Bool → ℕ → List ℕ → List ℕ × Encoder T → Type 0
    Encoded e m own size before (out, e') =
        (out ++ todo e' m ≡ before ++ todo e m)
        × Remains e' m
        × ((own ≡ true) ⊎ (length out ≤ size))
        × ((size ≤ length out) ⊎ (e'.in_progress ≡ none))
        × AtHome e'

    -- A piece that fills the buffer is returned as it is.
    encode_loop_whole :
        (fuel : ℕ) (own : Bool) (size : ℕ) (out : List ℕ) (m : Msg) (e : Encoder T)
        → leb size (length out) ≡ false
        → (length e.pending == 0 && e.new_msg_flag) ≡ false
        → (length out == 0 && own && leb size (length (stepped e m).pending)) ≡ true
        → encode_loop act (suc fuel) own size out m e
          ≡ some ((stepped e m).pending, record (stepped e m) { pending = [] })
    unfolding encode_loop
    encode_loop_whole fuel own size out m e c1 c2 c3 = rw (c1, c2, c3)

    encode_loop_copy :
        (fuel : ℕ) (own : Bool) (size : ℕ) (out : List ℕ) (m : Msg) (e : Encoder T)
        → leb size (length out) ≡ false
        → (length e.pending == 0 && e.new_msg_flag) ≡ false
        → (length out == 0 && own && leb size (length (stepped e m).pending)) ≡ false
        → let n = min (length (stepped e m).pending) (size - length out) in
          encode_loop act (suc fuel) own size out m e
          ≡ encode_loop act fuel own size
              (out ++ take n (stepped e m).pending)
              m
              (record (stepped e m) { pending = drop n (stepped e m).pending })
    unfolding encode_loop
    encode_loop_copy fuel own size out m e c1 c2 c3 = rw (c1, c2, c3)

    -- Enough rounds: one for each byte of room, one for a step that writes nothing, one for the end.
    abbrev Enough : ℕ → ℕ → List ℕ → Encoder T → Type 0
    Enough fuel size out e =
        (size - length out + 2 ≤ fuel)
        ⊎ ((length e.pending ≡ 0) × (e.new_msg_flag ≡ true) × (0 < fuel))

    copied-Enough :
        (fuel size n : ℕ) (out : List ℕ) (s : Encoder T)
        → n ≡ min (length s.pending) (size - length out)
        → length out < size
        → size - length out + 2 ≤ suc fuel
        → (0 < length s.pending) ⊎ (s.new_msg_flag ≡ true)
        → (length (out ++ take n s.pending) ≤ size)
          × Enough fuel size (out ++ take n s.pending) (record s { pending = drop n s.pending })
    copied-Enough fuel size n out s e room f moves =
        let grown = length-append {0} out (take n s.pending) in
        let taken = length-take {0} n s.pending in
        let left = length-drop {0} n s.pending in
        (
          omega arith,
          elim (Bool-cases (leb 1 (length s.pending))) [
            | inl c ↦ let pos : 0 < length s.pending = ground arith in inl (omega arith)
            | inr c ↦
                let nothing : length s.pending ≡ 0 = ground arith in
                inr (omega arith, ground arith, omega arith)
          ],
        )

    encode_loop-Encoded :
        (fuel : ℕ) (own : Bool) (size : ℕ) (out : List ℕ) (m : Msg) (e : Encoder T)
        → e.in_progress ≡ some m
        → AtHome e
        → length out ≤ size
        → Enough fuel size out e
        → (r : List ℕ × Encoder T) × (encode_loop act fuel own size out m e ≡ some r)
          × Encoded e m own size out r
    encode_loop-Encoded zero own size out m e i w room f = absurd (omega arith)
    encode_loop-Encoded (suc fuel) own size out m e i w room f =
        elim (Bool-cases (leb size (length out))) [
          | inl full ↦ (
            (out, e),
            unfold encode_loop in rw full,
            (refl, inl i, inr room, inl (ground arith), w),
          )
          | inr c1 ↦ elim (Bool-cases (length e.pending == 0 && e.new_msg_flag)) [
            | inl done ↦ (
              (out, record e { in_progress = none }),
              unfold encode_loop in rw (c1, done),
              (
                refl,
                inr (refl, length-zero e.pending (ground arith), ground arith),
                inr room,
                inr refl,
                w,
              ),
            )
            | inr c2 ↦
                let s = stepped e m in
                let (same_bytes, moves, kept, home') = todo-stepped e m c2 in
                let n = min (length s.pending) (size - length out) in
                let out' = out ++ take n s.pending in
                let e' : Encoder T = record s { pending = drop n s.pending } in
                let below : length out < size = ground arith in
                let (within, enough) =
                  copied-Enough fuel size n out s refl below (ground arith) moves in
                let later = encode_loop-Encoded fuel own size out' m e' (kept ∙ i) (home' w) in
                elim (Bool-cases (length out == 0 && own && leb size (length s.pending))) [
                  | inl c3 ↦
                      let empty = length-zero out (ground arith) in
                      (
                        (s.pending, record s { pending = [] }),
                        encode_loop_whole fuel own size out m e c1 c2 c3,
                        (
                          rw empty same_bytes,
                          inl (kept ∙ i),
                          inl (ground arith),
                          inl (ground arith),
                          home' w,
                        ),
                      )
                  | inr c3 ↦
                      let regroup =
                        append_assoc out (take n s.pending) (todo e' m)
                        ∙ ap (λ (xs : List ℕ). out ++ xs) (todo-drop s m n ∙ same_bytes) in
                      let (r, done, (bytes, a, b, c, d)) = later within enough in
                      (
                        r,
                        encode_loop_copy fuel own size out m e c1 c2 c3 ∙ done,
                        (bytes ∙ regroup, a, b, c, d),
                      )
                ]
          ]
        ]

    encode-busy :
        (own : Bool) (size : ℕ) (m : Msg) (e : Encoder T)
        → e.in_progress ≡ some m
        → encode act own size e ≡ encode_loop act (size + 2) own size [] m e
    unfolding encode
    encode-busy own size m e i = ground arith

    encode-idle :
        (own : Bool) (size : ℕ) (e : Encoder T)
        → e.in_progress ≡ none
        → encode act own size e ≡ some ([], e)
    unfolding encode
    encode-idle own size e i = ground arith

    encode_calls_step :
        (own : Bool) (size : ℕ) (calls : List (Bool × ℕ)) (out more : List ℕ) (e e' e'' : Encoder T)
        → encode act own size e ≡ some (out, e')
        → encode_calls act calls e' ≡ some (more, e'')
        → encode_calls act ((own, size) ∷ calls) e ≡ some (out ++ more, e'')
    unfolding encode_calls Option.bind
    encode_calls_step own size calls out more e e' e'' done later = rw done (rw later)

    -- `encode` with a message in progress.
    pub encode-Encoded :
        (own : Bool) (size : ℕ) (m : Msg) (e : Encoder T)
        → e.in_progress ≡ some m
        → AtHome e
        → (r : List ℕ × Encoder T) × (encode act own size e ≡ some r) × Encoded e m own size [] r
    encode-Encoded own size m e i w =
        rw (encode-busy own size m e i)
          (encode_loop-Encoded (size + 2) own size [] m e i w (omega arith) (inl (omega arith)))

    encode_calls-idle :
        (calls : List (Bool × ℕ)) (e : Encoder T)
        → e.in_progress ≡ none
        → encode_calls act calls e ≡ some ([], e)
    unfolding encode_calls
    encode_calls-idle [] e i = refl
    encode_calls-idle ((own, size) ∷ calls) e i =
        encode_calls_step own size calls [] [] e e e (encode-idle own size e i)
          (encode_calls-idle calls e i)

    -- As many calls as bytes, and one more, give all of the message, however large the buffers are.
    pub encode_calls-todo :
        (calls : List (Bool × ℕ)) (m : Msg) (e : Encoder T)
        → e.in_progress ≡ some m
        → AtHome e
        → HaveRoom calls
        → length (todo e m) < length calls
        → (e' : Encoder T) × (encode_calls act calls e ≡ some (todo e m, e'))
          × (e'.in_progress ≡ none)
          × (e'.pending ≡ [])
          × (e'.new_msg_flag ≡ true)
          × (e'.next ≡ home)
    unfolding encode_calls
    encode_calls-todo [] m e i w h lt = absurd (omega arith)
    encode_calls-todo ((own, size) ∷ calls) m e i w (pos, h) lt =
        let ((out, e1), done, (bytes, remains, within, moved, w1)) =
          encode-Encoded own size m e i w in
        let split = length-append {0} out (todo e1 m) in
        let total = ap (length {A = ℕ}) bytes in
        elim remains [
          | inl going ↦
              let some_bytes : size ≤ length out = ground (arith, moved) in
              let (e', later, a, b, c, d) = encode_calls-todo calls m e1 going w1 h (omega arith) in
              (
                e',
                encode_calls_step own size calls out (todo e1 m) e e1 e' done later
                    ∙ ap (λ (xs : List ℕ). some (xs, e')) bytes,
                a,
                b,
                c,
                d,
              )
          | inr (stopped, empty, flag) ↦
              let no_more : todo e1 m ≡ [] = rw (empty, flag) in
              (
                e1,
                encode_calls_step own size calls out [] e e1 e1 done
                      (encode_calls-idle calls e1 stopped)
                    ∙ ap (λ (xs : List ℕ). some (xs, e1))
                        (ap (λ (xs : List ℕ). out ++ xs) (sym no_more) ∙ bytes),
                stopped,
                empty,
                flag,
                ground (arith, w1),
              )
        ]
