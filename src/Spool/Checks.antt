-- ===== src/Spool/Checks.antt =====
-- What the spool takes from Go's standard library: the CRC32C of hash/crc32 (the Castagnoli table)
-- and the SHA-256 of crypto/sha256. Only the size of their results is assumed, never that two
-- inputs have different sums.
use gasworks.Prelude.{ℕ, ◌<◌, ◌≡◌, List, length}
use gasworks.Spool.Bytes.{IsBytes}

pub record Checks : Type 0 where
  -- crc32.Checksum(b, castagnoli), a uint32
  pub crc32c : List ℕ → ℕ
  pub crc32c_lt : (b : List ℕ) → crc32c b < 4294967296
  -- sha256.Sum256(b), a [32]byte
  pub sha256 : List ℕ → List ℕ
  pub length-sha256 : (b : List ℕ) → length (sha256 b) ≡ 32
  pub sha256-IsBytes : (b : List ℕ) → IsBytes (sha256 b)
