-- ===== src/Sha256/Update.antt =====
-- crates/slopium-manifest/src/sha256.rs: `update` keeps the full blocks of the message compressed and
-- the rest of it in the buffer.
use slopium.Base.{
  length-append, ℕ, ◌-◌, min, ◌≤◌, ◌<◌, ◌≡◌, inl, inr, refl, sym, ◌∙◌, ap, subst, List, [], ◌∷◌,
  ◌++◌, ltb, ltb→lt, length, arith, Bool-cases, append_assoc, append-nil,
}
use slopium.Sha256.{
  take, drop, Sha256, initial_state, compress, copy_at, absorb, fill, count_bytes, update,
}
use slopium.Sha256.Blocks.{
  take-drop, length-take, length-drop, take_all, take-copy_at, length-copy_at, concat,
  concat-append, concat-one, compress_all, compress_all-append, AreFull-append, Holds, absorb-Holds,
}

length_zero : (xs : List ℕ) → length xs ≡ 0 → xs ≡ []
length_zero [] h = refl
length_zero (x ∷ xs) h = absurd (omega arith)

-- The buffer is begun, and bytes are added to it.
module _ (s : Sha256) (message bytes : List ℕ) (h : Holds s message) where
  abbrev front : List ℕ
  front = take (min (64 - s.buffered) (length bytes)) bytes

  abbrev behind : List ℕ
  behind = drop (min (64 - s.buffered) (length bytes)) bytes

  length-front : length front ≡ min (64 - s.buffered) (length bytes)
  length-front = omega (arith, length-take (min (64 - s.buffered) (length bytes)) bytes)

  buffered-fill : (fill s bytes).buffered ≡ length (h.tail ++ front)
  unfolding fill
  buffered-fill = omega (arith, length-append h.tail front, length-front, h.buffered)

  waiting-fill : take (length (h.tail ++ front)) (fill s bytes).buffer ≡ h.tail ++ front
  unfolding fill
  waiting-fill =
      subst (λ n. take (length (h.tail ++ front)) (copy_at s.buffer n front) ≡ h.tail ++ front)
        (sym h.buffered) (take-copy_at s.buffer h.tail front h.waiting)

  size-fill : length (fill s bytes).buffer ≡ 64
  unfolding fill
  size-fill =
      length-copy_at s.buffer front s.buffered
        (omega (arith, length-front, h.buffered, h.short, h.size))
      ∙ h.size

  state-fill : (fill s bytes).state ≡ compress_all initial_state h.blocks
  unfolding fill
  state-fill = h.state

  content-fill : concat h.blocks ++ (h.tail ++ front) ++ behind ≡ message ++ bytes
  content-fill =
      append_assoc (concat h.blocks) (h.tail ++ front) behind
      ∙ ap (λ xs. concat h.blocks ++ xs) (append_assoc h.tail front behind)
      ∙ sym (append_assoc (concat h.blocks) h.tail (front ++ behind))
      ∙ ap (λ xs. xs ++ (front ++ behind)) h.content
      ∙ ap (λ xs. message ++ xs) (take-drop (min (64 - s.buffered) (length bytes)) bytes)

  -- The buffer is not full yet.
  short-Holds : (fill s bytes).buffered < 64 → Holds (fill s bytes) (message ++ bytes)
  short-Holds lt =
      let none_left : behind ≡ [] = length_zero behind (
        omega (
          arith,
          length-drop (min (64 - s.buffered) (length bytes)) bytes,
          buffered-fill,
          length-append h.tail front,
          length-front,
          h.buffered,
          h.short,
        )) in
      record {
        blocks = h.blocks;
        tail = h.tail ++ front;
        content =
            sym (append-nil (concat h.blocks ++ (h.tail ++ front)))
            ∙ ap (λ xs. concat h.blocks ++ (h.tail ++ front) ++ xs) (sym none_left)
            ∙ content-fill;
        full = h.full;
        state = state-fill;
        short = subst (λ n. n < 64) buffered-fill lt;
        buffered = buffered-fill;
        waiting = waiting-fill;
        size = size-fill;
      }

  -- The buffer is full: it is a block.
  abbrev drained : Sha256
  drained = record (fill s bytes) {
    state = compress (fill s bytes).state (fill s bytes).buffer;
    buffered = 0;
  }

  full-Holds :
      64 ≤ (fill s bytes).buffered
      → Holds (absorb (length behind) drained behind) (message ++ bytes)
  full-Holds le =
      let whole : length (h.tail ++ front) ≡ 64 =
        omega
          (arith, buffered-fill, length-append h.tail front, length-front, h.buffered, h.short) in
      let block : (fill s bytes).buffer ≡ h.tail ++ front =
        sym (
          take_all (length (h.tail ++ front)) (fill s bytes).buffer
            (omega (arith, whole, size-fill)))
        ∙ waiting-fill in
      let same : concat (h.blocks ++ (h.tail ++ front) ∷ []) ++ behind ≡ message ++ bytes =
        ap (λ xs. xs ++ behind)
          (concat-append h.blocks ((h.tail ++ front) ∷ [])
            ∙ ap (λ xs. concat h.blocks ++ xs) (concat-one (h.tail ++ front)))
        ∙ content-fill in
      subst (Holds (absorb (length behind) drained behind)) same (
        absorb-Holds (length behind) drained behind (h.blocks ++ (h.tail ++ front) ∷ [])
          (omega arith) (AreFull-append h.blocks (h.tail ++ front) h.full whole)
          (ap (λ st. compress st (fill s bytes).buffer) state-fill
            ∙ ap (compress (compress_all initial_state h.blocks)) block
            ∙ sym (compress_all-append initial_state h.blocks (h.tail ++ front)))
          size-fill)

counted-Holds :
    (s : Sha256) (message bytes : List ℕ) → Holds s message → Holds (count_bytes s bytes) message
counted-Holds s message bytes h = record {
  blocks = h.blocks;
  tail = h.tail;
  content = h.content;
  full = h.full;
  state = h.state;
  short = h.short;
  buffered = h.buffered;
  waiting = h.waiting;
  size = h.size;
}

-- The buffer is empty.
empty-Holds :
    (s : Sha256) (message bytes : List ℕ)
    → Holds s message
    → s.buffered ≡ 0
    → Holds (absorb (length bytes) s bytes) (message ++ bytes)
empty-Holds s message bytes h e =
    let no_tail : h.tail ≡ [] = length_zero h.tail (omega (arith, h.buffered)) in
    let whole : concat h.blocks ≡ message =
      sym (append-nil (concat h.blocks))
      ∙ ap (λ xs. concat h.blocks ++ xs) (sym no_tail)
      ∙ h.content in
    subst (λ xs. Holds (absorb (length bytes) s bytes) (xs ++ bytes)) whole
      (absorb-Holds (length bytes) s bytes h.blocks (omega arith) h.full h.state h.size)

pub update-Holds :
    (s : Sha256) (message bytes : List ℕ)
    → Holds s message
    → Holds (update s bytes) (message ++ bytes)
unfolding update
update-Holds s0 message bytes h0 =
    let s = count_bytes s0 bytes in
    let h = counted-Holds s0 message bytes h0 in
    elim (Bool-cases (ltb 0 s0.buffered)) [
      | inr q ↦ rw (q, update) (empty-Holds s message bytes h (ground arith))
      | inl q ↦ elim (Bool-cases (ltb (fill s bytes).buffered 64)) [
        | inl p ↦
            rw (q, update, p) (short-Holds s message bytes h (ltb→lt (fill s bytes).buffered 64 p))
        | inr p ↦
            let le : 64 ≤ (fill s bytes).buffered = ground arith in
            rw (q, update, p) (full-Holds s message bytes h le)
      ]
    ]
