-- ===== src/Spool/Sidecar.antt =====
-- recover.go: the checksummed `identity` and `ack` sidecars. A file that was read is one of three:
-- absent, there with its bytes, or unreadable (any other error of os.ReadFile).
pub mod RoundTrip
use gasworks.Prelude.{
  ℕ, ◌+◌, ◌-◌, Bool, false, true, not, ◌||◌, List, ◌++◌, Option, none, some, Result, ok, err, ltb,
  ◌==◌, if◌then◌else◌, length, take,
}
use gasworks.Word.{slt}
use gasworks.Spool.Bytes.{put_be, get_be, slice}
use gasworks.Spool.Sealed.{with_crc}
use gasworks.Spool.Checks.{Checks}

-- "OID1"
abbrev pub identity_magic : ℕ
identity_magic = 0x4F494431

-- "OAK1"
abbrev pub ack_magic : ℕ
ack_magic = 0x4F414B31

abbrev pub max_source_id_len : ℕ
max_source_id_len = 128

-- ErrChecksumMismatch, and what os.ReadFile reports
pub data SidecarError : Type 0 where
  checksum_mismatch read_failed : SidecarError

pub data FileRead : Type 0 where
  absent : FileRead
  content : List ℕ → FileRead
  unreadable : FileRead

pub record Identity : Type 0 where
  pub source_id : List ℕ
  pub format_version : ℕ  -- uint32

module _ (c : Checks) where
  unfoldable pub encode_identity : Identity → List ℕ
  encode_identity i = with_crc c (
      put_be 4 identity_magic
      ++ put_be 4 i.format_version
      ++ put_be 2 (length i.source_id)
      ++ i.source_id)

  unfoldable pub decode_identity : List ℕ → Result SidecarError Identity
  decode_identity d =
      let id_len = get_be (slice 8 2 d) in
      let total = 10 + id_len + 4 in
      if ltb (length d) 14
      then err checksum_mismatch
      else if not (get_be (slice 0 4 d) == identity_magic)
      then err checksum_mismatch
      else if id_len == 0 || ltb max_source_id_len id_len || not (length d == total)
      then err checksum_mismatch
      else if not (c.crc32c (take (total - 4) d) == get_be (slice (total - 4) 4 d))
      then err checksum_mismatch
      else ok (record { source_id = slice 10 id_len d; format_version = get_be (slice 4 4 d) })

  -- `ok none` when there is no file
  unfoldable pub read_identity : FileRead → Result SidecarError (Option Identity)
  read_identity absent = ok none
  read_identity (content d) = elim (decode_identity d) [ ok i ↦ ok (some i) | err e ↦ err e ]
  read_identity unreadable = err read_failed

  unfoldable pub encode_ack : ℕ → List ℕ
  encode_ack through = with_crc c (put_be 4 ack_magic ++ put_be 8 through)

  unfoldable pub decode_ack : List ℕ → Result SidecarError ℕ
  decode_ack d =
      if not (length d == 16)
      then err checksum_mismatch
      else if not (get_be (slice 0 4 d) == ack_magic)
      then err checksum_mismatch
      else if not (c.crc32c (take 12 d) == get_be (slice 12 4 d))
      then err checksum_mismatch
      else if slt (get_be (slice 4 8 d)) 0
      then err checksum_mismatch
      else ok (get_be (slice 4 8 d))

  -- `readAck` with its bool dropped: an absent file reads as 0, which is what every caller takes.
  unfoldable pub read_ack : FileRead → Result SidecarError ℕ
  read_ack absent = ok 0
  read_ack (content d) = decode_ack d
  read_ack unreadable = err read_failed
