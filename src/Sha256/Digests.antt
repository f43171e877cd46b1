-- ===== src/Sha256/Digests.antt =====
-- crates/slopium-manifest/src/sha256.rs: the digest of a message that comes in pieces.
use slopium.Base.{
  length-append, ℕ, zero, suc, ◌+◌, ◌*◌, ◌-◌, ◌%◌, ◌/◌, ◌^◌, min, ◌≤◌, ◌<◌, ◌≡◌, ◌≢◌, inl, inr,
  refl, sym, ◌∙◌, ap, subst, Option, some, List, [], ◌∷◌, ◌++◌, ltb, leb, ◌==◌, if◌then◌else◌,
  length, replicate, arith, Bool-cases, append_assoc, append-nil,
}
use slopium.Sha256.{
  take, drop, Sha256, new, initial_state, compress, copy_at, keep_rest, absorb, fill, count_bytes,
  update, be_bytes, pad_zeros, words_bytes, finish,
}
use slopium.Sha256.Blocks.{
  concat, concat-append, concat-one, compress_all, compress_all-append, AreFull, AreFull-append,
  length-concat, Holds, new-Holds,
}
use slopium.Sha256.Update.{update-Holds}

absorb-byte_length :
    (n : ℕ) (s : Sha256) (rest : List ℕ) → (absorb n s rest).byte_length ≡ s.byte_length
unfolding absorb keep_rest
absorb-byte_length zero s rest = refl
absorb-byte_length (suc n) s rest = elim (Bool-cases (leb 64 (length rest))) [
  | inl q ↦
      rw (q, absorb)
        (absorb-byte_length n (record s { state = compress s.state (take 64 rest) }) (drop 64 rest))
  | inr q ↦ rw (q, absorb) refl
]

update-byte_length :
    (s : Sha256) (bytes : List ℕ)
    → (update s bytes).byte_length ≡ (s.byte_length + length bytes) % 2 ^ 64
unfolding update fill
update-byte_length s bytes = elim (Bool-cases (ltb 0 s.buffered)) [
  | inr q ↦ rw (q, update) (absorb-byte_length (length bytes) (count_bytes s bytes) bytes)
  | inl q ↦ elim (Bool-cases (ltb (fill (count_bytes s bytes) bytes).buffered 64)) [
    | inl p ↦ rw (q, update, p) refl
    | inr p ↦
        rw (q, update, p)
          (absorb-byte_length (length (drop (min (64 - s.buffered) (length bytes)) bytes))
            (record (fill (count_bytes s bytes) bytes) {
              state =
                  compress (fill (count_bytes s bytes) bytes).state
                    (fill (count_bytes s bytes) bytes).buffer;
              buffered = 0;
            })
            (drop (min (64 - s.buffered) (length bytes)) bytes))
  ]
]

-- The bytes in the buffer, by the length of the message.
Holds-buffered :
    (s : Sha256) (message : List ℕ) → Holds s message → s.buffered ≡ length message % 64
Holds-buffered s message h =
    let all = ap length h.content in
    let sum = length-append (concat h.blocks) h.tail in
    let whole = length-concat h.blocks h.full in
    let short = h.short in let kept = h.buffered in omega arith

-- The rounds of the padding that are left.
abbrev left : ℕ → ℕ
left buffered = if leb buffered 56 then 56 - buffered else 120 - buffered

-- The padding ends with 56 bytes in the buffer.
record Pads (s : Sha256) (message : List ℕ) (o : Option Sha256) : Type 0 where
  after : Sha256
  zeros_added : ℕ
  returns : o ≡ some after
  few : zeros_added ≤ left s.buffered
  holds : Holds after (message ++ replicate zeros_added 0)
  ends : after.buffered ≡ 56

left_next :
    (n buffered next : ℕ)
    → buffered ≡ n % 64
    → next ≡ (n + 1) % 64
    → buffered ≢ 56
    → suc (left next) ≡ left buffered
left_next n b c h k ne = ground arith

pad_zeros-Pads :
    (fuel : ℕ) (s : Sha256) (message : List ℕ)
    → Holds s message
    → left s.buffered < fuel
    → Pads s message (pad_zeros fuel s)
unfolding pad_zeros
pad_zeros-Pads zero s message h lt = absurd (omega arith)
pad_zeros-Pads (suc fuel) s message h lt = elim (Bool-cases (s.buffered == 56)) [
  | inl q ↦
      let at : s.buffered ≡ 56 = ground arith in
      rw (q, pad_zeros)
        (record {
          after = s;
          zeros_added = 0;
          returns = refl;
          few = omega arith;
          holds = subst (Holds s) (sym (append-nil message)) h;
          ends = at;
        })
  | inr q ↦
      let next = update s (0 ∷ []) in
      let held = update-Holds s message (0 ∷ []) h in
      let ne : s.buffered ≢ 56 = λ e. ground arith in
      let fewer =
        left_next (length message) s.buffered next.buffered (Holds-buffered s message h)
          (Holds-buffered next (message ++ 0 ∷ []) held
            ∙ ap (λ n. n % 64) (length-append message (0 ∷ [])))
          ne in
      let r = pad_zeros-Pads fuel next (message ++ 0 ∷ []) held (omega arith) in
      let bound = r.few in
      rw (q, pad_zeros)
        (record {
          after = r.after;
          zeros_added = suc r.zeros_added;
          returns = r.returns;
          few = omega arith;
          holds =
              subst (Holds r.after) (append_assoc message (0 ∷ []) (replicate r.zeros_added 0))
                r.holds;
          ends = r.ends;
        })
]

length-be_bytes : (count n : ℕ) → length (be_bytes count n) ≡ count
unfolding be_bytes
length-be_bytes zero n = refl
length-be_bytes (suc count) n = omega (
  arith,
  length-append (be_bytes count (n / 256)) (n % 256 ∷ []),
  length-be_bytes count (n / 256),
)

drop_all : (n : ℕ) (xs : List ℕ) → length xs ≤ n → drop n xs ≡ []
unfolding drop
drop_all zero [] h = refl
drop_all zero (x ∷ xs) h = absurd (omega arith)
drop_all (suc n) [] h = refl
drop_all (suc n) (x ∷ xs) h = drop_all n xs (omega arith)

-- The blocks of a message: it is followed by a byte with the first bit set, zeros up to the last 8
-- bytes of a block, and its length in bits.
pub record ArePadded (message : List ℕ) (blocks : List (List ℕ)) : Type 0 where
  pub zeros : ℕ
  pub few : zeros < 64
  pub full : AreFull blocks
  pub content :
      concat blocks
      ≡ message ++ 128 ∷ [] ++ replicate zeros 0 ++ be_bytes 8 ((length message * 8) % 2 ^ 64)

-- The digest by the blocks.
abbrev pub digest_of : List (List ℕ) → List ℕ
digest_of blocks = words_bytes (compress_all initial_state blocks)

abbrev pub HasDigest : List ℕ → Option (List ℕ) → Type 0
HasDigest message o =
    (blocks : List (List ℕ)) × ArePadded message blocks × (o ≡ some (digest_of blocks))

-- The last block, behind 56 bytes of the message and its padding.
last_block :
    (p : Sha256) (message : List ℕ) (h : Holds p message) (bits : ℕ)
    → p.buffered ≡ 56
    → copy_at p.buffer 56 (be_bytes 8 bits) ≡ h.tail ++ be_bytes 8 bits
unfolding copy_at
last_block p message h bits e =
    let size : length h.tail ≡ 56 = sym h.buffered ∙ e in
    let bytes = be_bytes 8 bits in
    let none_left : drop (56 + length bytes) p.buffer ≡ [] =
      drop_all (56 + length bytes) p.buffer (omega (arith, length-be_bytes 8 bits, h.size)) in
    ap (λ xs. take 56 p.buffer ++ (bytes ++ xs)) none_left
    ∙ ap (λ xs. take 56 p.buffer ++ xs) (append-nil bytes)
    ∙ ap (λ xs. xs ++ bytes) (subst (λ n. take n p.buffer ≡ h.tail) size h.waiting)

left_short : (b : ℕ) → b < 64 → left b < 64
left_short b h = ground arith

-- `finish`, once the padding is in the buffer.
module _ (s : Sha256) (message : List ℕ) (held : Holds s message)
    (counted : s.byte_length ≡ length message % 2 ^ 64) where
  abbrev opened : Sha256
  opened = update s (128 ∷ [])

  opened-Pads : Pads opened (message ++ 128 ∷ []) (pad_zeros 64 opened)
  opened-Pads =
      let h = update-Holds s message (128 ∷ []) held in
      let b = Holds-buffered opened (message ++ 128 ∷ []) h in
      pad_zeros-Pads 64 opened (message ++ 128 ∷ []) h
        (left_small (length (message ++ 128 ∷ [])) opened.buffered b)
    where
      left_small : (n b : ℕ) → b ≡ n % 64 → left b < 64
      left_small n b h = ground arith

  abbrev bits : ℕ
  bits = (s.byte_length * 8) % 2 ^ 64

  bits_lem : bits ≡ (length message * 8) % 2 ^ 64
  bits_lem = omega (arith, counted)

  abbrev last : List ℕ
  last = opened-Pads.holds.tail ++ be_bytes 8 bits

  abbrev all_blocks : List (List ℕ)
  all_blocks = opened-Pads.holds.blocks ++ last ∷ []

  all_blocks-ArePadded : ArePadded message all_blocks
  all_blocks-ArePadded =
      let h = opened-Pads.holds in
      let n = opened-Pads.zeros_added in
      let size : length h.tail ≡ 56 = sym h.buffered ∙ opened-Pads.ends in
      let whole : length last ≡ 64 =
        omega (arith, length-append h.tail (be_bytes 8 bits), length-be_bytes 8 bits) in
      record {
        zeros = n;
        few = omega (
          arith,
          opened-Pads.few,
          left_short opened.buffered (
              omega (
                arith,
                Holds-buffered opened (message ++ 128 ∷ [])
                    (update-Holds s message (128 ∷ []) held),
              )),
        );
        full = AreFull-append h.blocks last h.full whole;
        content =
            concat-append h.blocks (last ∷ [])
            ∙ ap (λ xs. concat h.blocks ++ xs) (concat-one last)
            ∙ sym (append_assoc (concat h.blocks) h.tail (be_bytes 8 bits))
            ∙ ap (λ xs. xs ++ be_bytes 8 bits) h.content
            ∙ ap (λ b. message ++ 128 ∷ [] ++ replicate n 0 ++ be_bytes 8 b) bits_lem;
      }

  finish-HasDigest : HasDigest message (finish s)
  unfolding finish
  finish-HasDigest =
      let p = opened-Pads.after in
      let h = opened-Pads.holds in
      let block =
        last_block p (message ++ 128 ∷ [] ++ replicate opened-Pads.zeros_added 0) h bits
          opened-Pads.ends in
      (
        all_blocks,
        all_blocks-ArePadded,
        rw (opened-Pads.returns, finish)
            (ap (λ xs. some (words_bytes xs))
              (ap (λ b. compress p.state b) block
                ∙ ap (λ st. compress st last) h.state
                ∙ sym (compress_all-append initial_state h.blocks last))),
      )

-- The calls of `update` one after the other.
unfoldable pub update_all : Sha256 → List (List ℕ) → Sha256
update_all s [] = s
update_all s (c ∷ cs) = update_all (update s c) cs

record Fed (s : Sha256) (message : List ℕ) : Type 0 where
  held : Holds s message
  counted : s.byte_length ≡ length message % 2 ^ 64

update-Fed : (s : Sha256) (message c : List ℕ) → Fed s message → Fed (update s c) (message ++ c)
update-Fed s message c h = record {
  held = update-Holds s message c h.held;
  counted =
      update-byte_length s c
      ∙ wrapped s.byte_length (length message) (length c) (length (message ++ c)) h.counted
          (length-append message c);
}
  where
    wrapped : (b m c n : ℕ) → b ≡ m % 2 ^ 64 → n ≡ m + c → (b + c) % 2 ^ 64 ≡ n % 2 ^ 64
    wrapped b m c n h k = omega arith

update_all-Fed :
    (chunks : List (List ℕ)) (s : Sha256) (message : List ℕ)
    → Fed s message
    → Fed (update_all s chunks) (message ++ concat chunks)
unfolding update_all concat
update_all-Fed [] s message h = subst (Fed s) (sym (append-nil message)) h
update_all-Fed (c ∷ cs) s message h =
    subst (Fed (update_all (update s c) cs)) (append_assoc message c (concat cs))
      (update_all-Fed cs (update s c) (message ++ c) (update-Fed s message c h))

-- However a message is cut into pieces, the hasher that is updated with one piece after the other
-- finishes, with the words of the state after all blocks of the padded message have been compressed
-- in turn. The padded message is the message, a byte 128, fewer than 64 zeros and the number of
-- its bits modulo 2^64 in 8 bytes, and is cut into blocks of 64 bytes.
pub finish-update_all-HasDigest :
    (chunks : List (List ℕ)) → HasDigest (concat chunks) (finish (update_all new chunks))
finish-update_all-HasDigest chunks =
    let fed = update_all-Fed chunks new [] (record { held = new-Holds; counted = omega arith }) in
    finish-HasDigest (update_all new chunks) (concat chunks) fed.held fed.counted
