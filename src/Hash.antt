-- ===== src/Hash.antt =====
-- `hashpath` and `cachepath` of afs_client.cc, and `hashFilepath` of afs_server.cc: the name of a
-- cached file is the SHA-256 digest of its path in lower-case hexadecimal.
pub mod Keys
use distributed_systems_afsv.Base.{
  ℕ, ◌+◌, ◌-◌, ◌/◌, ◌%◌, ◌<◌, ◌≡◌, [], ◌∷◌, ◌++◌, ltb, ◌==◌, if◌then◌else◌, Bytes, length, All,
}

-- OpenSSL's SHA-256, of which the program needs only the shape of a digest.
pub record Sha256 : Type 0 where
  pub digest : Bytes → Bytes
  pub digest_length : (m : Bytes) → length (digest m) ≡ 32
  pub digest_bytes : (m : Bytes) → All (λ b. b < 256) (digest m)

-- A hexadecimal digit as `std::hex` prints it.
unfoldable pub hex_digit : ℕ → ℕ
hex_digit n = if ltb n 10 then b'0' + n else b'a' + (n - 10)

-- The loop over the digest: `setw(2)` and `setfill('0')` give each byte two digits.
unfoldable pub hex_string : Bytes → Bytes
unfolding hex_digit
hex_string [] = []
hex_string (b ∷ bs) = hex_digit (b / 16) ∷ hex_digit (b % 16) ∷ hex_string bs

-- The part of a buffer that `strlen` counts.
unfoldable pub c_str : Bytes → Bytes
c_str [] = []
c_str (c ∷ cs) = if c == 0 then [] else c ∷ c_str cs

module _ (sha : Sha256) where
  unfoldable pub hash_path : Bytes → Bytes
  hash_path rel_path = hex_string (sha.digest (c_str rel_path))

  unfoldable pub cache_path : Bytes → Bytes → Bytes
  unfolding hash_path
  cache_path cache_root rel_path = cache_root ++ hash_path rel_path

  -- The server hashes the whole string, `filepath.size()` bytes of it.
  unfoldable pub hash_file_path : Bytes → Bytes
  hash_file_path file_path = hex_string (sha.digest file_path)
