-- ===== src/Decoder/Pieces.antt =====
-- stream_engine.cpp: a stream that arrives in pieces.
use mathlib.Core.List.{flatten}
use zmq.Base.{
  ℕ, ◌<◌, ◌≡◌, ◌≢◌, refl, arith, Option, none, some, List, [], ◌∷◌, length, ap, ◌∙◌, sym,
}
use zmq.Msg.{Msg}
use zmq.Decoder.{
  Decoder, Turn, ready, Rc, incomplete, complete, failed, run_steps, store, receive, deliver,
}
use zmq.Decoder.Split.{run_steps-incomplete}
use zmq.Decoder.Stream.{
  Fed, feed, after_step, and_then, feed-append, receive-eq-feed, run_steps-complete,
}

module _ {A : Type 0} (act : A → List ℕ → Turn A) (msg : A → Msg) where
  -- The calls of `in_event` for the pieces in which the bytes arrive, up to an error.
  pub receive_pieces : List (List ℕ) → Decoder A → Fed act msg
  receive_pieces [] d = some ([], incomplete, d)
  receive_pieces (p ∷ ps) d =
      and_then act msg (receive act msg (length p) p d) (λ d'. receive_pieces ps d')

  deliver-ne-none : (m : Msg) (o : Fed act msg) → o ≢ none → deliver act msg m o ≢ none
  deliver-ne-none m none h e = h refl
  deliver-ne-none m (some (ms, rc, d)) h e = cc

  -- Where the rounds suffice for every step, they suffice for all the bytes.
  pub feed-ne-none :
      ((d : Decoder A) → run_steps act 3 d ≢ none)
      → (xs : List ℕ) (d : Decoder A) → feed act msg xs d ≢ none
  unfolding feed
  feed-ne-none h [] d = λ e. cc
  feed-ne-none h (x ∷ xs) d =
      from (run_steps act 3 (store act d (x ∷ []))) (h (store act d (x ∷ [])))
        (λ d'. feed-ne-none h xs d')
    where
      from :
          (r : Option (Rc × Decoder A))
          → r ≢ none
          → ((d' : Decoder A) → feed act msg xs d' ≢ none)
          → after_step act msg (λ d'. feed act msg xs d') r ≢ none
      from none n ih = λ e. n refl
      from (some (incomplete, d')) n ih = ih d'
      from (some (complete, d')) n ih = deliver-ne-none (msg d'.next) (feed act msg xs d') (ih d')
      from (some (failed x', d')) n ih = λ e. cc

-- Every step asks for at least one byte after a message.
module _ {A : Type 0} (act : A → List ℕ → Turn A) (msg : A → Msg)
    (restarts : (a b : A) (xs : List ℕ) (n : ℕ) → act a xs ≡ ready b n → 0 < n) where
  abbrev IsLive : Fed act msg → Type 0
  IsLive none = Unit
  IsLive (some (ms, incomplete, d)) = 0 < d.to_read
  IsLive (some (ms, complete, d)) = Unit
  IsLive (some (ms, failed e, d)) = Unit

  deliver-IsLive : (m : Msg) (o : Fed act msg) → IsLive o → IsLive (deliver act msg m o)
  deliver-IsLive m none h = tt
  deliver-IsLive m (some (ms, incomplete, d)) h = h
  deliver-IsLive m (some (ms, complete, d)) h = tt
  deliver-IsLive m (some (ms, failed e, d)) h = tt

  feed-IsLive : (xs : List ℕ) (d : Decoder A) → 0 < d.to_read → IsLive (feed act msg xs d)
  unfolding feed
  feed-IsLive [] d live = live
  feed-IsLive (x ∷ xs) d live =
      from (run_steps act 3 (store act d (x ∷ []))) refl (λ d' l. feed-IsLive xs d' l)
    where
      from :
          (r : Option (Rc × Decoder A))
          → run_steps act 3 (store act d (x ∷ [])) ≡ r
          → ((d' : Decoder A) → 0 < d'.to_read → IsLive (feed act msg xs d'))
          → IsLive (after_step act msg (λ d'. feed act msg xs d') r)
      from none e h = tt
      from (some (incomplete, d')) e h = h d' (run_steps-incomplete act 3 _ d' e)
      from (some (complete, d')) e h =
          deliver-IsLive (msg d'.next) (feed act msg xs d')
            (h d' (run_steps-complete act msg restarts 3 _ d' e))
      from (some (failed x', d')) e h = tt

  and_then_ext :
      (o : Fed act msg) (k k' : Decoder A → Fed act msg)
      → IsLive o
      → ((d : Decoder A) → 0 < d.to_read → k d ≡ k' d)
      → and_then act msg o k ≡ and_then act msg o k'
  and_then_ext none k k' l h = refl
  and_then_ext (some ([], incomplete, d)) k k' l h = h d l
  and_then_ext (some ([], complete, d)) k k' l h = refl
  and_then_ext (some ([], failed e, d)) k k' l h = refl
  and_then_ext (some (m ∷ ms, incomplete, d)) k k' l h =
      ap (deliver act msg m) (and_then_ext (some (ms, incomplete, d)) k k' l h)
  and_then_ext (some (m ∷ ms, complete, d)) k k' l h =
      ap (deliver act msg m) (and_then_ext (some (ms, complete, d)) k k' l h)
  and_then_ext (some (m ∷ ms, failed e, d)) k k' l h =
      ap (deliver act msg m) (and_then_ext (some (ms, failed e, d)) k k' l h)

  -- However the bytes are cut into pieces, the same messages, the same state and the same error
  -- come out as when the decoder is handed one byte after another.
  pub receive_pieces-eq-feed :
      (ps : List (List ℕ)) (d : Decoder A)
      → 0 < d.to_read
      → receive_pieces act msg ps d ≡ feed act msg (flatten ps) d
  unfolding receive_pieces flatten
  receive_pieces-eq-feed [] d live = unfold feed in refl
  receive_pieces-eq-feed (p ∷ ps) d live =
      ap (λ o. and_then act msg o (λ d'. receive_pieces act msg ps d'))
        (receive-eq-feed act msg restarts (length p) p d live (omega arith))
      ∙ and_then_ext (feed act msg p d) _ _ (feed-IsLive p d live)
          (λ d' l. receive_pieces-eq-feed ps d' l)
      ∙ sym (feed-append act msg p (flatten ps) d)
