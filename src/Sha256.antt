-- ===== src/Sha256.antt =====
-- crates/slopium-manifest/src/sha256.rs: the digest. A byte and a word are numbers; a `u32` and the
-- `u64` of the length wrap around.
pub mod Blocks
pub mod Update
pub mod Digests
pub mod Hex
use slopium.Base.{
  ℕ, zero, suc, ◌+◌, ◌*◌, ◌-◌, ◌/◌, ◌%◌, ◌^◌, min, Bool, true, false, Option, none, some, List, [],
  ◌∷◌, ◌++◌, ltb, leb, ◌==◌, if◌then◌else◌, length, get_or, replicate,
}
use Prim.Native.Nat.{bit_and, bit_xor}

abbrev pub round_constants : List ℕ
round_constants =
    1116352408 ∷ 1899447441 ∷ 3049323471 ∷ 3921009573 ∷ 961987163 ∷ 1508970993 ∷ 2453635748
    ∷ 2870763221 ∷ 3624381080 ∷ 310598401 ∷ 607225278 ∷ 1426881987 ∷ 1925078388 ∷ 2162078206
    ∷ 2614888103 ∷ 3248222580 ∷ 3835390401 ∷ 4022224774 ∷ 264347078 ∷ 604807628 ∷ 770255983
    ∷ 1249150122 ∷ 1555081692 ∷ 1996064986 ∷ 2554220882 ∷ 2821834349 ∷ 2952996808 ∷ 3210313671
    ∷ 3336571891 ∷ 3584528711 ∷ 113926993 ∷ 338241895 ∷ 666307205 ∷ 773529912 ∷ 1294757372
    ∷ 1396182291 ∷ 1695183700 ∷ 1986661051 ∷ 2177026350 ∷ 2456956037 ∷ 2730485921 ∷ 2820302411
    ∷ 3259730800 ∷ 3345764771 ∷ 3516065817 ∷ 3600352804 ∷ 4094571909 ∷ 275423344 ∷ 430227734
    ∷ 506948616 ∷ 659060556 ∷ 883997877 ∷ 958139571 ∷ 1322822218 ∷ 1537002063 ∷ 1747873779
    ∷ 1955562222 ∷ 2024104815 ∷ 2227730452 ∷ 2361852424 ∷ 2428436474 ∷ 2756734187 ∷ 3204031479
    ∷ 3329325298 ∷ []

abbrev pub initial_state : List ℕ
initial_state =
    1779033703 ∷ 3144134277 ∷ 1013904242 ∷ 2773480762 ∷ 1359893119 ∷ 2600822924 ∷ 528734635
    ∷ 1541459225 ∷ []

unfoldable pub take : ℕ → List ℕ → List ℕ
take zero xs = []
take (suc n) [] = []
take (suc n) (x ∷ xs) = x ∷ take n xs

unfoldable pub drop : ℕ → List ℕ → List ℕ
drop zero xs = xs
drop (suc n) [] = []
drop (suc n) (x ∷ xs) = drop n xs

pub record Sha256 : Type 0 where
  pub state : List ℕ
  pub buffer : List ℕ
  pub buffered : ℕ
  pub byte_length : ℕ

abbrev pub new : Sha256
new = record { state = initial_state; buffer = replicate 64 0; buffered = 0; byte_length = 0 }

abbrev pub wrap : ℕ → ℕ
wrap n = n % 2 ^ 32

unfoldable pub rotate_right : ℕ → ℕ → ℕ
rotate_right x n = x / 2 ^ n + (x % 2 ^ n) * 2 ^ (32 - n)

abbrev pub xor3 : ℕ → ℕ → ℕ → ℕ
xor3 a b c = bit_xor (bit_xor a b) c

-- `u32::from_be_bytes` at the index.
unfoldable pub word_at : List ℕ → ℕ → ℕ
word_at block index =
    ((get_or block (index * 4) 0 * 256 + get_or block (index * 4 + 1) 0) * 256
        + get_or block (index * 4 + 2) 0)
      * 256
    + get_or block (index * 4 + 3) 0

unfoldable pub block_words : List ℕ → ℕ → ℕ → List ℕ
unfolding word_at
block_words block zero index = []
block_words block (suc count) index = word_at block index ∷ block_words block count (index + 1)

-- `schedule[index]`, where `index` words are there.
unfoldable pub next_word : List ℕ → ℕ
unfolding rotate_right
next_word schedule =
    let index = length schedule in
    let previous = get_or schedule (index - 15) 0 in
    let ahead = get_or schedule (index - 2) 0 in
    let s0 = xor3 (rotate_right previous 7) (rotate_right previous 18) (previous / 2 ^ 3) in
    let s1 = xor3 (rotate_right ahead 17) (rotate_right ahead 19) (ahead / 2 ^ 10) in
    wrap (get_or schedule (index - 16) 0 + s0 + get_or schedule (index - 7) 0 + s1)

unfoldable pub extend : ℕ → List ℕ → List ℕ
unfolding next_word
extend zero schedule = schedule
extend (suc count) schedule = extend count (schedule ++ next_word schedule ∷ [])

pub record Working : Type 0 where
  pub a : ℕ
  pub b : ℕ
  pub c : ℕ
  pub d : ℕ
  pub e : ℕ
  pub f : ℕ
  pub g : ℕ
  pub h : ℕ

-- One round, with its constant and its word.
unfoldable pub mix : ℕ → ℕ → Working → Working
unfolding rotate_right
mix constant word w =
    let s1 = xor3 (rotate_right w.e 6) (rotate_right w.e 11) (rotate_right w.e 25) in
    let choose = bit_xor (bit_and w.e w.f) (bit_and (2 ^ 32 - 1 - w.e) w.g) in
    let temp1 = wrap (w.h + s1 + choose + constant + word) in
    let s0 = xor3 (rotate_right w.a 2) (rotate_right w.a 13) (rotate_right w.a 22) in
    let majority = xor3 (bit_and w.a w.b) (bit_and w.a w.c) (bit_and w.b w.c) in
    let temp2 = wrap (s0 + majority) in
    record {
      a = wrap (temp1 + temp2);
      b = w.a;
      c = w.b;
      d = w.c;
      e = wrap (w.d + temp1);
      f = w.e;
      g = w.f;
      h = w.g;
    }

unfoldable pub mix_all : List ℕ → List ℕ → Working → Working
unfolding mix
mix_all (k ∷ ks) (word ∷ words) w = mix_all ks words (mix k word w)
mix_all _ _ w = w

unfoldable pub add_words : List ℕ → List ℕ → List ℕ
add_words (x ∷ xs) (y ∷ ys) = wrap (x + y) ∷ add_words xs ys
add_words _ _ = []

-- `compress`, on the words of the state.
unfoldable pub compress : List ℕ → List ℕ → List ℕ
unfolding block_words extend mix_all add_words
compress state block =
    let schedule = extend 48 (block_words block 16 0) in
    let w = mix_all round_constants schedule (record {
      a = get_or state 0 0;
      b = get_or state 1 0;
      c = get_or state 2 0;
      d = get_or state 3 0;
      e = get_or state 4 0;
      f = get_or state 5 0;
      g = get_or state 6 0;
      h = get_or state 7 0;
    }) in
    add_words state (w.a ∷ w.b ∷ w.c ∷ w.d ∷ w.e ∷ w.f ∷ w.g ∷ w.h ∷ [])

-- `buffer[start..start + bytes.len()].copy_from_slice(bytes)`.
unfoldable pub copy_at : List ℕ → ℕ → List ℕ → List ℕ
unfolding take drop
copy_at buffer start bytes = take start buffer ++ (bytes ++ drop (start + length bytes) buffer)

unfoldable pub keep_rest : Sha256 → List ℕ → Sha256
unfolding copy_at
keep_rest s rest = record s { buffer = copy_at s.buffer 0 rest; buffered = length rest }

-- `while rest.len() >= 64`, and what is left over; each turn takes bytes away.
unfoldable pub absorb : ℕ → Sha256 → List ℕ → Sha256
unfolding compress keep_rest take drop
absorb zero s rest = keep_rest s rest
absorb (suc fuel) s rest =
    let later = absorb fuel (record s { state = compress s.state (take 64 rest) }) (drop 64 rest) in
    if leb 64 (length rest) then later else keep_rest s rest

-- The bytes that go into a buffer that has begun to fill.
unfoldable pub fill : Sha256 → List ℕ → Sha256
unfolding copy_at take
fill s bytes =
    let n = min (64 - s.buffered) (length bytes) in
    record s { buffer = copy_at s.buffer s.buffered (take n bytes); buffered = s.buffered + n }

abbrev pub count_bytes : Sha256 → List ℕ → Sha256
count_bytes s bytes = record s { byte_length = (s.byte_length + length bytes) % 2 ^ 64 }

unfoldable pub update : Sha256 → List ℕ → Sha256
unfolding fill absorb
update s0 bytes =
    let s = count_bytes s0 bytes in
    if ltb 0 s.buffered
    then (let filled = fill s bytes in
        let rest = drop (min (64 - s.buffered) (length bytes)) bytes in
        if ltb filled.buffered 64
        then filled
        else absorb (length rest)
            (record filled { state = compress filled.state filled.buffer; buffered = 0 }) rest)
    else absorb (length bytes) s bytes

-- `to_be_bytes`, of so many bytes.
unfoldable pub be_bytes : ℕ → ℕ → List ℕ
be_bytes zero n = []
be_bytes (suc count) n = be_bytes count (n / 256) ++ n % 256 ∷ []

-- `while self.buffered != 56`; `none` means that the fuel ran out.
unfoldable pub pad_zeros : ℕ → Sha256 → Option Sha256
unfolding update
pad_zeros zero s = none
pad_zeros (suc fuel) s =
    let later = pad_zeros fuel (update s (0 ∷ [])) in if s.buffered == 56 then some s else later

unfoldable pub words_bytes : List ℕ → List ℕ
unfolding be_bytes
words_bytes [] = []
words_bytes (w ∷ ws) = be_bytes 4 w ++ words_bytes ws

unfoldable pub finish : Sha256 → Option (List ℕ)
unfolding pad_zeros update copy_at be_bytes words_bytes compress
finish s =
    let bit_length = (s.byte_length * 8) % 2 ^ 64 in
    elim (pad_zeros 64 (update s (128 ∷ []))) [
      | none ↦ none
      | some p ↦ some (words_bytes (compress p.state (copy_at p.buffer 56 (be_bytes 8 bit_length))))
    ]

unfoldable pub sha256 : List ℕ → Option (List ℕ)
unfolding update finish
sha256 bytes = finish (update new bytes)
