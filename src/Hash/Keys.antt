-- ===== src/Hash/Keys.antt =====
-- What the two tables rely on: a hashed name is 64 hexadecimal digits, and names differ where
-- digests do.
use distributed_systems_afsv.Base.{
  ℕ, ◌*◌, ◌/◌, ◌%◌, ◌<◌, ◌≡◌, ◌≢◌, [], ◌∷◌, arith, Bytes, length, All,
}
use distributed_systems_afsv.Hash.{Sha256, hex_digit, hex_string, c_str, hash_path}

-- The shape of a key in both persistent tables: 64 bytes, none of them a line break.
pub record IsKey (k : Bytes) : Type 0 where
  pub size : length k ≡ 64
  pub one_line : All (λ c. c ≢ b'\n') k

pub length-hex_string : (bs : Bytes) → length (hex_string bs) ≡ 2 * length bs
unfolding hex_string
length-hex_string [] = omega arith
length-hex_string (b ∷ bs) = omega (arith, length-hex_string bs)

hex_digit-ne : (n : ℕ) → n < 16 → hex_digit n ≢ b'\n'
unfolding hex_digit
hex_digit-ne n h = ground arith

hex_string-one_line : (bs : Bytes) → All (λ b. b < 256) bs → All (λ c. c ≢ b'\n') (hex_string bs)
unfolding hex_string
hex_string-one_line [] h = tt
hex_string-one_line (b ∷ bs) h =
    let hi = hex_digit-ne (b / 16) (omega arith) in
    let lo = hex_digit-ne (b % 16) (omega arith) in (hi, (lo, hex_string-one_line bs h.1))

hex_digit_injective : (m n : ℕ) → m < 16 → n < 16 → hex_digit m ≡ hex_digit n → m ≡ n
unfolding hex_digit
hex_digit_injective m n p q h = ground arith

-- Two digests that print alike are equal.
pub hex_string_injective :
    (a b : Bytes)
    → All (λ x. x < 256) a
    → All (λ x. x < 256) b
    → hex_string a ≡ hex_string b
    → a ≡ b
unfolding hex_string
hex_string_injective [] [] p q h = cc
hex_string_injective [] (y ∷ b) p q h = cc
hex_string_injective (x ∷ a) [] p q h = cc
hex_string_injective (x ∷ a) (y ∷ b) p q h =
    let hi = hex_digit_injective (x / 16) (y / 16) (omega arith) (omega arith) (cc) in
    let lo = hex_digit_injective (x % 16) (y % 16) (omega arith) (omega arith) (cc) in
    let same : x ≡ y = omega (arith, hi, lo) in cc (same, hex_string_injective a b p.1 q.1 (cc))

module _ (sha : Sha256) where
  -- The hashed name of every path has 64 bytes, none of them a line break, which is what the
  -- loaders of both tables assert and rely on.
  pub hash_path-IsKey : (path : Bytes) → IsKey (hash_path sha path)
  unfolding hash_path
  hash_path-IsKey path = record {
    size = omega (arith, length-hex_string, sha.digest_length (c_str path));
    one_line = hex_string-one_line _ (sha.digest_bytes (c_str path));
  }

  -- Two paths have one hashed name only if SHA-256 gives them one digest, each read up to its
  -- first zero byte.
  pub hash_path-eq-digest :
      (p q : Bytes)
      → hash_path sha p ≡ hash_path sha q
      → sha.digest (c_str p) ≡ sha.digest (c_str q)
  unfolding hash_path
  hash_path-eq-digest p q h =
      hex_string_injective _ _ (sha.digest_bytes (c_str p)) (sha.digest_bytes (c_str q)) h
