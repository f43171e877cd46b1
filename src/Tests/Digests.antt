-- ===== src/Tests/Digests.antt =====
-- The theorems on crates/slopium-manifest/src/sha256.rs at `abc` in two pieces.
use slopium.Base.{ℕ, zero, suc, ◌≡◌, refl, some, List, [], ◌∷◌, replicate, arith, All, ◌<◌}
use slopium.Sha256.{new, finish, sha256}
use slopium.Sha256.Blocks.{concat}
use slopium.Sha256.Digests.{update_all, HasDigest, finish-update_all-HasDigest}
use slopium.Sha256.Hex.{display, digest, parse_digest, parse_digest-display}

abbrev pieces : List (List ℕ)
pieces = (97 ∷ []) ∷ (98 ∷ 99 ∷ []) ∷ []

finish-update_all-HasDigest_example : HasDigest (concat pieces) (finish (update_all new pieces))
finish-update_all-HasDigest_example = finish-update_all-HasDigest pieces

sha256_test :
    sha256 (97 ∷ 98 ∷ 99 ∷ [])
    ≡ some (
        186 ∷ 120 ∷ 22 ∷ 191 ∷ 143 ∷ 1 ∷ 207 ∷ 234 ∷ 65 ∷ 65 ∷ 64 ∷ 222 ∷ 93 ∷ 174 ∷ 34 ∷ 35 ∷ 176
        ∷ 3 ∷ 97 ∷ 163 ∷ 150 ∷ 23 ∷ 122 ∷ 156 ∷ 180 ∷ 16 ∷ 255 ∷ 97 ∷ 242 ∷ 0 ∷ 21 ∷ 173 ∷ [])
unfolding sha256
sha256_test = refl

bytes-All : (n : ℕ) → All (λ b. b < 256) (replicate n 171)
bytes-All zero = tt
bytes-All (suc n) = (omega arith, bytes-All n)

parse_digest-display_example : parse_digest (display (replicate 32 171)) ≡ digest (replicate 32 171)
parse_digest-display_example = parse_digest-display (replicate 32 171) refl (bytes-All 32)

abbrev signs : ℕ → List ℕ
signs zero = []
signs (suc n) = 43 ∷ 48 ∷ signs n

-- A plus sign stands for a digit.
plus_sign_test : parse_digest (signs 32) ≡ digest (replicate 32 0)
unfolding parse_digest
plus_sign_test = refl
