-- ===== src/Spool/Segment/Header.antt =====
-- The segment header is read back as it was written, whatever follows it.
use gasworks.Prelude.{
  ℕ, ◌+◌, ◌-◌, ◌≤◌, ◌<◌, ◌≡◌, refl, sym, ap, ◌∙◌, List, ◌++◌, append_assoc, ok, arith, length, take,
  take-append_length, drop-append_length, length-append,
}
use gasworks.Word.{IsInt64}
use gasworks.Spool.Bytes.{put_be, get_be, slice, get_be-put_be}
use gasworks.Spool.Sealed.{with_crc, length-with_crc, take-with_crc, crc-with_crc}
use gasworks.Spool.Checks.{Checks}
use gasworks.Spool.Sidecar.{max_source_id_len}
use gasworks.Spool.Segment.{
  SegmentHeader, segment_magic, encode_segment_header, decode_segment_header,
}

-- What a segment header can hold.
pub record IsStorable (h : SegmentHeader) : Type 0 where
  pub nonempty : 1 ≤ length h.source_id
  pub bounded : length h.source_id ≤ max_source_id_len
  pub version : h.format_version < 4294967296
  pub first : IsInt64 h.first_sequence
  pub time : IsInt64 h.creation_time

id_read :
    (p id x rest : List ℕ) → length p ≡ 26 → slice 26 (length id) (((p ++ id) ++ x) ++ rest) ≡ id
id_read p id x rest h =
    rw
      (
        append_assoc (p ++ id) x rest,
        append_assoc p id (x ++ rest),
        drop-append_length 26 p (id ++ (x ++ rest)) h,
      )
      (take-append_length _ id _ refl)

module _ (c : Checks) where
  -- The header without its checksum.
  abbrev pub header_body : SegmentHeader → List ℕ
  header_body h =
      put_be 4 segment_magic
      ++ put_be 4 h.format_version
      ++ put_be 8 h.first_sequence
      ++ put_be 8 h.creation_time
      ++ put_be 2 (length h.source_id)
      ++ h.source_id

  abbrev pub header_bytes : SegmentHeader → List ℕ
  header_bytes h = with_crc c (header_body h)

  length-header_body : (h : SegmentHeader) → length (header_body h) ≡ 26 + length h.source_id
  unfolding put_be
  length-header_body h = omega arith

  pub length-header_bytes : (h : SegmentHeader) → length (header_bytes h) ≡ 30 + length h.source_id
  length-header_bytes h = omega (arith, length-with_crc c (header_body h), length-header_body h)

  pub encode_segment_header-IsStorable :
      (h : SegmentHeader) → IsStorable h → encode_segment_header c h ≡ ok (header_bytes h)
  unfolding encode_segment_header
  encode_segment_header-IsStorable h s = ground arith

  decode_segment_header-ok :
      (d : List ℕ) (n : ℕ) (h : SegmentHeader)
      → 1 ≤ n
      → n ≤ max_source_id_len
      → 30 + n ≤ length d
      → get_be (slice 24 2 d) ≡ n
      → get_be (slice 0 4 d) ≡ segment_magic
      → c.crc32c (take (26 + n) d) ≡ get_be (slice (26 + n) 4 d)
      → get_be (slice 4 4 d) ≡ h.format_version
      → get_be (slice 8 8 d) ≡ h.first_sequence
      → get_be (slice 16 8 d) ≡ h.creation_time
      → slice 26 n d ≡ h.source_id
      → decode_segment_header c d ≡ ok (h, 30 + n)
  unfolding decode_segment_header
  decode_segment_header-ok d n h h1 h2 hl hn hm hc hv hf ht hi =
      let e : 26 + n + 4 - 4 ≡ 26 + n = omega arith in rw (hn, e) (ground arith)

  -- Whatever follows it, the bytes of a storable segment header decode to that header and to
  -- their length.
  pub decode_segment_header-encode_segment_header :
      (h : SegmentHeader) (rest : List ℕ)
      → IsStorable h
      → decode_segment_header c (header_bytes h ++ rest) ≡ ok (h, length (header_bytes h))
  unfolding put_be
  decode_segment_header-encode_segment_header h rest s =
      decode_segment_header-ok (header_bytes h ++ rest) (length h.source_id) h s.nonempty s.bounded
        (omega (arith, length-append (header_bytes h) rest, length-header_bytes h))
        (get_be-put_be 2 (length h.source_id) (omega (arith, s.bounded)))
        (get_be-put_be 4 segment_magic (omega arith))
        (ap c.crc32c (take-with_crc c (header_body h) rest _ (length-header_body h))
          ∙ sym (crc-with_crc c (header_body h) rest _ (length-header_body h)))
        (get_be-put_be 4 h.format_version s.version) (get_be-put_be 8 h.first_sequence s.first)
        (get_be-put_be 8 h.creation_time s.time)
        (id_read
          (put_be 4 segment_magic
            ++ put_be 4 h.format_version
            ++ put_be 8 h.first_sequence
            ++ put_be 8 h.creation_time
            ++ put_be 2 (length h.source_id))
          h.source_id (put_be 4 (c.crc32c (header_body h))) rest refl)
      ∙ ap (λ n. ok (h, n)) (sym (length-header_bytes h))
