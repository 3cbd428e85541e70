-- ===== src/Tests/Data.antt =====
-- Test data: checksums, frames and a segment.
use gasworks.Prelude.{ℕ, ◌%◌, ◌<◌, List, [], ◌∷◌, arith}
use gasworks.Spool.Bytes.{put_be, get_be, length-put_be, put_be-IsBytes}
use gasworks.Spool.Checks.{Checks}
use gasworks.Spool.Frame.{Frame}
use gasworks.Spool.Sidecar.{Identity}
use gasworks.Spool.Segment.{SegmentHeader}

pub toy_crc_lt : (b : List ℕ) → get_be b % 4294967296 < 4294967296
toy_crc_lt b = omega arith

-- The last 4 bytes for a CRC, the last 32 for a hash.
abbrev pub toy : Checks
toy = record {
  crc32c = λ b. get_be b % 4294967296;
  crc32c_lt = toy_crc_lt;
  sha256 = λ b. put_be 32 (get_be b);
  length-sha256 = λ b. length-put_be 32 (get_be b);
  sha256-IsBytes = λ b. put_be-IsBytes 32 (get_be b);
}

abbrev pub frame_seven : Frame
frame_seven = record { sequence = 7; flags = 0; payload = 123 ∷ 125 ∷ []; sha256 = put_be 32 31613 }

abbrev pub frame_eight : Frame
frame_eight = record { sequence = 8; flags = 0; payload = 91 ∷ 93 ∷ []; sha256 = put_be 32 23389 }

abbrev pub source : Identity
source = record { source_id = 115 ∷ 49 ∷ []; format_version = 1 }

abbrev pub header_seven : SegmentHeader
header_seven = record {
  format_version = 1;
  first_sequence = 7;
  creation_time = 1700000000000000000;
  source_id = 115 ∷ 49 ∷ [];
}
