-- ===== src/Sha256/Blocks.antt =====
-- crates/slopium-manifest/src/sha256.rs: blocks of bytes, and what the loop of `update` does with them.
use slopium.Base.{
  length-append, ℕ, zero, suc, ◌+◌, ◌*◌, ◌-◌, min, ◌≤◌, ◌<◌, ◌≡◌, inl, inr, refl, sym, ◌∙◌, ap,
  subst, List, [], ◌∷◌, ◌++◌, leb, leb→le, length, arith, Bool-cases, append_assoc, append-nil, All,
}
use slopium.Sha256.{take, drop, Sha256, new, initial_state, compress, copy_at, keep_rest, absorb}

pub take-drop : (n : ℕ) (xs : List ℕ) → take n xs ++ drop n xs ≡ xs
unfolding take drop
take-drop zero xs = refl
take-drop (suc n) [] = refl
take-drop (suc n) (x ∷ xs) = ap (λ ys. x ∷ ys) (take-drop n xs)

pub length-take : (n : ℕ) (xs : List ℕ) → length (take n xs) ≡ min n (length xs)
unfolding take
length-take zero xs = omega arith
length-take (suc n) [] = omega arith
length-take (suc n) (x ∷ xs) = omega (arith, length-take n xs)

pub length-drop : (n : ℕ) (xs : List ℕ) → length (drop n xs) ≡ length xs - n
unfolding drop
length-drop zero xs = omega arith
length-drop (suc n) [] = omega arith
length-drop (suc n) (x ∷ xs) = omega (arith, length-drop n xs)

pub take_all : (n : ℕ) (xs : List ℕ) → length xs ≤ n → take n xs ≡ xs
unfolding take
take_all zero [] h = refl
take_all zero (x ∷ xs) h = absurd (omega arith)
take_all (suc n) [] h = refl
take_all (suc n) (x ∷ xs) h = ap (λ ys. x ∷ ys) (take_all n xs (omega arith))

take-front : (xs ys : List ℕ) → take (length xs) (xs ++ ys) ≡ xs
unfolding take
take-front [] ys = refl
take-front (x ∷ xs) ys = ap (λ zs. x ∷ zs) (take-front xs ys)

-- What stands in the buffer up to the end of the bytes that are copied in.
pub take-copy_at :
    (buffer tail bytes : List ℕ)
    → take (length tail) buffer ≡ tail
    → take (length (tail ++ bytes)) (copy_at buffer (length tail) bytes) ≡ tail ++ bytes
unfolding copy_at
take-copy_at buffer tail bytes h =
    let behind = drop (length tail + length bytes) buffer in
    ap (λ xs. take (length (tail ++ bytes)) (xs ++ (bytes ++ behind))) h
    ∙ ap (take (length (tail ++ bytes))) (sym (append_assoc tail bytes behind))
    ∙ take-front (tail ++ bytes) behind

pub length-copy_at :
    (buffer bytes : List ℕ) (start : ℕ)
    → start + length bytes ≤ length buffer
    → length (copy_at buffer start bytes) ≡ length buffer
unfolding copy_at
length-copy_at buffer bytes start h =
    let one = length-append (take start buffer) (bytes ++ drop (start + length bytes) buffer) in
    let two = length-append bytes (drop (start + length bytes) buffer) in
    let three = length-take start buffer in
    let four = length-drop (start + length bytes) buffer in omega arith

unfoldable pub concat : List (List ℕ) → List ℕ
concat [] = []
concat (b ∷ bs) = b ++ concat bs

pub concat-append : (cs bs : List (List ℕ)) → concat (cs ++ bs) ≡ concat cs ++ concat bs
unfolding concat
concat-append [] bs = refl
concat-append (c ∷ cs) bs =
    ap (λ xs. c ++ xs) (concat-append cs bs) ∙ sym (append_assoc c (concat cs) (concat bs))

pub concat-one : (b : List ℕ) → concat (b ∷ []) ≡ b
unfolding concat
concat-one b = append-nil b

-- The state after the blocks, one compressed after the other.
unfoldable pub compress_all : List ℕ → List (List ℕ) → List ℕ
compress_all state [] = state
compress_all state (b ∷ bs) = compress_all (compress state b) bs

pub compress_all-append :
    (state : List ℕ) (bs : List (List ℕ)) (b : List ℕ)
    → compress_all state (bs ++ b ∷ []) ≡ compress (compress_all state bs) b
unfolding compress_all
compress_all-append state [] b = refl
compress_all-append state (x ∷ bs) b = compress_all-append (compress state x) bs b

abbrev pub AreFull : List (List ℕ) → Type 0
AreFull bs = All (λ b. length b ≡ 64) bs

pub AreFull-append :
    (bs : List (List ℕ)) (b : List ℕ) → AreFull bs → length b ≡ 64 → AreFull (bs ++ b ∷ [])
AreFull-append [] b h e = (e, tt)
AreFull-append (x ∷ bs) b h e = (h.0, AreFull-append bs b h.1 e)

pub length-concat : (bs : List (List ℕ)) → AreFull bs → length (concat bs) ≡ 64 * length bs
unfolding concat
length-concat [] h = omega arith
length-concat (b ∷ bs) h = omega (arith, length-append b (concat bs), length-concat bs h.1, h.0)

-- The hasher has taken in the message: blocks of 64 bytes and a rest.
pub record Holds (s : Sha256) (message : List ℕ) : Type 0 where
  pub blocks : List (List ℕ)
  pub tail : List ℕ
  pub content : concat blocks ++ tail ≡ message
  pub full : AreFull blocks
  pub state : s.state ≡ compress_all initial_state blocks
  pub short : length tail < 64
  pub buffered : s.buffered ≡ length tail
  pub waiting : take (length tail) s.buffer ≡ tail
  pub size : length s.buffer ≡ 64

pub new-Holds : Holds new []
unfolding concat compress_all take
new-Holds = record {
  blocks = [];
  tail = [];
  content = refl;
  full = tt;
  state = refl;
  short = omega arith;
  buffered = refl;
  waiting = refl;
  size = refl;
}

-- The bytes that are left over go to the front of the buffer.
keep_rest-Holds :
    (s : Sha256) (rest : List ℕ) (blocks : List (List ℕ))
    → AreFull blocks
    → s.state ≡ compress_all initial_state blocks
    → length s.buffer ≡ 64
    → length rest < 64
    → Holds (keep_rest s rest) (concat blocks ++ rest)
unfolding keep_rest take
keep_rest-Holds s rest blocks full state size short = record {
  blocks = blocks;
  tail = rest;
  content = refl;
  full = full;
  state = state;
  short = short;
  buffered = refl;
  waiting = take-copy_at s.buffer [] rest refl;
  size = length-copy_at s.buffer rest 0 (omega arith) ∙ size;
}

pub absorb-Holds :
    (n : ℕ) (s : Sha256) (rest : List ℕ) (blocks : List (List ℕ))
    → length rest ≤ n
    → AreFull blocks
    → s.state ≡ compress_all initial_state blocks
    → length s.buffer ≡ 64
    → Holds (absorb n s rest) (concat blocks ++ rest)
unfolding absorb
absorb-Holds zero s rest blocks fuel full state size =
    keep_rest-Holds s rest blocks full state size (omega arith)
absorb-Holds (suc n) s rest blocks fuel full state size = elim (Bool-cases (leb 64 (length rest))) [
  | inr q ↦
      let short : length rest < 64 = ground arith in
      rw (q, absorb) (keep_rest-Holds s rest blocks full state size short)
  | inl q ↦
      let enough : 64 ≤ length rest = leb→le 64 (length rest) q in
      let block = take 64 rest in
      let whole : length block ≡ 64 = omega (arith, length-take 64 rest) in
      let same : concat (blocks ++ block ∷ []) ++ drop 64 rest ≡ concat blocks ++ rest =
        ap (λ xs. xs ++ drop 64 rest)
          (concat-append blocks (block ∷ []) ∙ ap (λ xs. concat blocks ++ xs) (concat-one block))
        ∙ append_assoc (concat blocks) block (drop 64 rest)
        ∙ ap (λ xs. concat blocks ++ xs) (take-drop 64 rest) in
      let next = record s { state = compress s.state block } in
      rw (q, absorb)
        (subst (Holds (absorb n next (drop 64 rest))) same (
          absorb-Holds n next (drop 64 rest) (blocks ++ block ∷ [])
            (omega (arith, length-drop 64 rest)) (AreFull-append blocks block full whole)
            (ap (λ st. compress st block) state
              ∙ sym (compress_all-append initial_state blocks block))
            size))
]
