-- ===== src/Yqueue/Linked.antt =====
-- yqueue.hpp: the chunks of a queue, linked in both directions.
use zmq.Base.{
  ℕ, ◌+◌, ◌-◌, ◌≤◌, ◌<◌, ◌≡◌, ◌≢◌, refl, sym, ap, ◌∙◌, arith, true, false, ◌==◌, Option, none, some,
  inl, inr, if◌then◌else◌, Bool-cases,
}
use zmq.Yqueue.{Chunk, Heap, put}

-- The chunk `i` of the chunks `lo` to `hi`, at the address `addr i`.
pub record Link {ℓ} {A : Type ℓ} (h : Heap A) (lo hi : ℕ) (addr : ℕ → ℕ) (val : ℕ → ℕ → A) (i : ℕ)
    : Type ℓ where
  pub chunk : Chunk A
  pub at : h (addr i) ≡ some chunk
  pub values : chunk.values ≡ val i
  pub to_next : i < hi → chunk.next ≡ some (addr (i + 1))
  pub to_prev : lo < i → chunk.prev ≡ some (addr (i - 1))

pub record IsLinked {ℓ} {A : Type ℓ} (h : Heap A) (lo hi : ℕ) (addr : ℕ → ℕ) (val : ℕ → ℕ → A)
    : Type ℓ where
  pub link : (i : ℕ) → lo ≤ i → i ≤ hi → Link h lo hi addr val i
  pub apart : (i k : ℕ) → lo ≤ i → i ≤ hi → lo ≤ k → k ≤ hi → addr i ≡ addr k → i ≡ k

-- No chunk of the queue is at `a`.
abbrev pub IsOutside : ℕ → ℕ → (ℕ → ℕ) → ℕ → Type 0
IsOutside lo hi addr a = (i : ℕ) → lo ≤ i → i ≤ hi → addr i ≢ a

chunk_or {ℓ} : {A : Type ℓ} → Chunk A → Option (Chunk A) → Chunk A
chunk_or ch none = ch
chunk_or ch (some d) = d

pub some_injective {ℓ} : {A : Type ℓ} {ch d : Chunk A} → some ch ≡ some d → ch ≡ d
unfolding chunk_or
some_injective {ch = ch} e = ap (chunk_or ch) e

pub put-same {ℓ} : {A : Type ℓ} (a : ℕ) (v : Option (Chunk A)) (h : Heap A) → put a v h a ≡ v
put-same a v h = let e : (a == a) ≡ true = ground arith in rw e refl

pub put-other {ℓ} :
    {A : Type ℓ} (a x : ℕ) (v : Option (Chunk A)) (h : Heap A) → a ≢ x → put a v h x ≡ h x
put-other a x v h n = let e : (a == x) ≡ false = ground (arith, n) in rw e refl

module _ {ℓ} {A : Type ℓ} (h : Heap A) (lo hi : ℕ) (addr : ℕ → ℕ) (val : ℕ → ℕ → A) where
  -- A change outside the queue.
  pub IsLinked-put :
      (a : ℕ) (v : Option (Chunk A))
      → IsOutside lo hi addr a
      → IsLinked h lo hi addr val
      → IsLinked (put a v h) lo hi addr val
  IsLinked-put a v out l = record {
    link = λ i b c.
        let x = l.link i b c in
        record {
          chunk = x.chunk;
          at = put-other a (addr i) v h (λ p. out i b c (sym p)) ∙ x.at;
          values = x.values;
          to_next = x.to_next;
          to_prev = x.to_prev;
        };
    apart = l.apart;
  }

  -- The first chunk is left behind, and the chunk `b` behind it loses its pointer to it.
  pub IsLinked-drop_first :
      (ch : Chunk A)
      → lo < hi
      → h (addr (lo + 1)) ≡ some ch
      → IsLinked h lo hi addr val
      → IsLinked (put (addr (lo + 1)) (some (record ch { prev = none })) h) (lo + 1) hi addr val
  IsLinked-drop_first ch m e l = record {
    link = λ i b c. elim (Bool-cases (lo + 1 == i)) [
      | inl same ↦
          let here : addr (lo + 1) ≡ addr i = ap addr (ground arith) in
          let x = l.link i (omega arith) c in
          let is_ch : ch ≡ x.chunk = some_injective (sym e ∙ ap h here ∙ x.at) in
          record {
            chunk = record ch { prev = none };
            at =
                ap (put (addr (lo + 1)) (some (record ch { prev = none })) h) (sym here)
                ∙ put-same (addr (lo + 1)) (some (record ch { prev = none })) h;
            values = ap (λ k. k.values) is_ch ∙ x.values;
            to_next = λ s. ap (λ k. k.next) is_ch ∙ x.to_next s;
            to_prev = λ s. absurd (ground arith);
          }
      | inr other ↦
          let x = l.link i (omega arith) c in
          record {
            chunk = x.chunk;
            at =
                put-other (addr (lo + 1)) (addr i) (some (record ch { prev = none })) h (λ p.
                  ground (arith, l.apart (lo + 1) i (omega arith) (omega arith) (omega arith) c p))
                ∙ x.at;
            values = x.values;
            to_next = x.to_next;
            to_prev = λ s. x.to_prev (omega arith);
          }
    ];
    apart = λ i k b c d f. l.apart i k (omega arith) c (omega arith) f;
  }

  -- The last chunk is freed, and the chunk in front of it loses its pointer to it.
  pub IsLinked-drop_last :
      (ch : Chunk A)
      → lo < hi
      → h (addr (hi - 1)) ≡ some ch
      → IsLinked h lo hi addr val
      → IsLinked
          (put (addr (hi - 1)) (some (record ch { next = none })) (put (addr hi) none h))
          lo
          (hi - 1)
          addr
          val
  IsLinked-drop_last ch m e l = record {
    link = λ i b c. elim (Bool-cases (hi - 1 == i)) [
      | inl same ↦
          let here : addr (hi - 1) ≡ addr i = ap addr (ground arith) in
          let x = l.link i b (omega arith) in
          let is_ch : ch ≡ x.chunk = some_injective (sym e ∙ ap h here ∙ x.at) in
          let v : Option (Chunk A) = some (record ch { next = none }) in
          record {
            chunk = record ch { next = none };
            at =
                ap (put (addr (hi - 1)) v (put (addr hi) none h)) (sym here)
                ∙ put-same (addr (hi - 1)) v (put (addr hi) none h);
            values = ap (λ k. k.values) is_ch ∙ x.values;
            to_next = λ s. absurd (ground arith);
            to_prev = λ s. ap (λ k. k.prev) is_ch ∙ x.to_prev s;
          }
      | inr other ↦
          let x = l.link i b (omega arith) in
          record {
            chunk = x.chunk;
            at =
                put-other (addr (hi - 1)) (addr i) (some (record ch { next = none }))
                  (put (addr hi) none h)
                  (λ p.
                    ground
                      (arith, l.apart (hi - 1) i (omega arith) (omega arith) b (omega arith) p))
                ∙ put-other (addr hi) (addr i) none h (λ p.
                  ground (arith, l.apart hi i (omega arith) (omega arith) b (omega arith) p))
                ∙ x.at;
            values = x.values;
            to_next = λ s. x.to_next (omega arith);
            to_prev = x.to_prev;
          }
    ];
    apart = λ i k b c d f. l.apart i k b (omega arith) d (omega arith);
  }

-- One chunk more.
abbrev pub with_last {ℓ} : {B : Type ℓ} → ℕ → B → (ℕ → B) → ℕ → B
with_last k b f = λ i. if k == i then b else f i

pub with_last-same {ℓ} : {B : Type ℓ} (k : ℕ) (b : B) (f : ℕ → B) → with_last k b f k ≡ b
with_last-same k b f = let e : (k == k) ≡ true = ground arith in rw e refl

pub with_last-other {ℓ} :
    {B : Type ℓ} (k i : ℕ) (b : B) (f : ℕ → B) → k ≢ i → with_last k b f i ≡ f i
with_last-other k i b f n = let e : (k == i) ≡ false = ground (arith, n) in rw e refl

module _ {ℓ} {A : Type ℓ} (h : Heap A) (lo hi : ℕ) (addr : ℕ → ℕ) (val : ℕ → ℕ → A) where
  -- The chunk `s` at `c` is linked behind the last one, `e`.
  pub IsLinked-append :
      (c : ℕ) (e s : Chunk A)
      → lo ≤ hi
      → IsOutside lo hi addr c
      → h (addr hi) ≡ some e
      → IsLinked h lo hi addr val
      → IsLinked
          (put c
            (some (record s { prev = some (addr hi) }))
            (put (addr hi) (some (record e { next = some c })) h))
          lo
          (hi + 1)
          (with_last (hi + 1) c addr)
          (with_last (hi + 1) s.values val)
  IsLinked-append c e s m out he l =
      let addr' = with_last (hi + 1) c addr in
      let new : Option (Chunk A) = some (record s { prev = some (addr hi) }) in
      let end : Option (Chunk A) = some (record e { next = some c }) in
      let h' = put (addr hi) end h in
      record {
        link = λ i b d. elim (Bool-cases (hi + 1 == i)) [
          | inl same ↦
              let is : hi + 1 ≡ i = ground arith in
              record {
                chunk = record s { prev = some (addr hi) };
                at =
                    ap (put c new h') (ap addr' (sym is) ∙ with_last-same (hi + 1) c addr)
                    ∙ put-same c new h';
                values = sym (
                    ap (with_last (hi + 1) s.values val) (sym is)
                    ∙ with_last-same (hi + 1) s.values val);
                to_next = λ q. absurd (omega (arith, is));
                to_prev = λ q.
                    let before : hi ≡ i - 1 = omega (arith, is) in
                    ap some (
                      sym (with_last-other (hi + 1) hi c addr (λ p. omega (arith, p)))
                      ∙ ap addr' before);
              }
          | inr other ↦
              let old : i ≤ hi = ground (arith, d, other) in
              let kept : addr' i ≡ addr i =
                with_last-other (hi + 1) i c addr (λ p. omega (arith, p)) in
              let kept_val : with_last (hi + 1) s.values val i ≡ val i =
                with_last-other (hi + 1) i s.values val (λ p. omega (arith, p)) in
              let before : lo < i → addr (i - 1) ≡ addr' (i - 1) =
                λ _. sym (with_last-other (hi + 1) (i - 1) c addr (λ p. omega (arith, p))) in
              let x = l.link i b old in
              let away : (put c new h') (addr' i) ≡ h' (addr i) =
                ap (put c new h') kept ∙ put-other c (addr i) new h' (λ p. out i b old (sym p)) in
              elim (Bool-cases (hi == i)) [
                | inl last ↦
                    let is : hi ≡ i = ground arith in
                    let is_e : e ≡ x.chunk =
                      some_injective (sym he ∙ ap (λ k. h (addr k)) is ∙ x.at) in
                    record {
                      chunk = record e { next = some c };
                      at = away ∙ ap (λ k. h' (addr k)) (sym is) ∙ put-same (addr hi) end h;
                      values = ap (λ k. k.values) is_e ∙ x.values ∙ sym kept_val;
                      to_next = λ q.
                          ap some
                            (sym (with_last-same (hi + 1) c addr) ∙ ap (λ k. addr' (k + 1)) is);
                      to_prev = λ q. ap (λ k. k.prev) is_e ∙ x.to_prev q ∙ ap some (before q);
                    }
                | inr inner ↦ record {
                  chunk = x.chunk;
                  at =
                      away
                      ∙ put-other (addr hi) (addr i) end h
                          (λ p. ground (arith, l.apart hi i m (omega arith) b old p))
                      ∙ x.at;
                  values = x.values ∙ sym kept_val;
                  to_next = λ q.
                      x.to_next (ground arith)
                      ∙ ap some
                          (sym (with_last-other (hi + 1) (i + 1) c addr (λ p. ground (arith, p))));
                  to_prev = λ q. x.to_prev q ∙ ap some (before q);
                }
              ]
        ];
        apart = λ i k b d b' d' f. ground (arith, f, out i b, out k b', l.apart i k b);
      }

  -- The content of the chunk `b` changes.
  pub IsLinked-write :
      (b : ℕ) (ch : Chunk A) (v : ℕ → A)
      → lo ≤ b
      → b ≤ hi
      → h (addr b) ≡ some ch
      → IsLinked h lo hi addr val
      → IsLinked (put (addr b) (some (record ch { values = v })) h) lo hi addr (with_last b v val)
  IsLinked-write b ch v m m' e l =
      let new : Option (Chunk A) = some (record ch { values = v }) in
      record {
        link = λ i c d. elim (Bool-cases (b == i)) [
          | inl same ↦
              let is : b ≡ i = ground arith in
              let x = l.link i c d in
              let is_ch : ch ≡ x.chunk = some_injective (sym e ∙ ap (λ k. h (addr k)) is ∙ x.at) in
              record {
                chunk = record ch { values = v };
                at = ap (λ k. put (addr b) new h (addr k)) (sym is) ∙ put-same (addr b) new h;
                values = sym (ap (with_last b v val) (sym is) ∙ with_last-same b v val);
                to_next = λ q. ap (λ k. k.next) is_ch ∙ x.to_next q;
                to_prev = λ q. ap (λ k. k.prev) is_ch ∙ x.to_prev q;
              }
          | inr other ↦
              let x = l.link i c d in
              record {
                chunk = x.chunk;
                at =
                    put-other (addr b) (addr i) new h (λ p. ground (arith, l.apart b i m m' c d p))
                    ∙ x.at;
                values = x.values ∙ sym (with_last-other b i v val (λ p. ground (arith, p)));
                to_next = x.to_next;
                to_prev = x.to_prev;
              }
        ];
        apart = l.apart;
      }
