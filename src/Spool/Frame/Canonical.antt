-- ===== src/Spool/Frame/Canonical.antt =====
-- What `DecodeFrame` accepts is what `EncodeFrame` writes: the encoding is canonical.
use gasworks.Prelude.{
  ℕ, ◌+◌, ◌≤◌, ◌<◌, ◌≡◌, refl, sym, ap, ap₂, ◌∙◌, true, false, List, [], ◌∷◌, ◌++◌, Bool, not, ltb,
  ◌==◌, ==_iff, if◌then◌else◌, subst, ok, arith, length, take, drop, get_or, slice-pair, list_eq,
  list_eq_iff, length-take, length-drop, All-take, All-drop,
}
use gasworks.Word.{slt}
use gasworks.Spool.Bytes.{
  IsByte, IsBytes, put_be, get_be, slice, put_be-slice, append-slice, get_be-lt,
}
use gasworks.Spool.Checks.{Checks}
use gasworks.Spool.Frame.{
  Frame, Decoded, frame_ok, frame_incomplete, frame_corrupt, header_prefix, frame_body,
  encode_frame, decode_frame, decode_body, frame_magic, sequence_max, max_frame_payload,
}
use gasworks.Spool.Frame.Header.{IsHeader}
use gasworks.Spool.Frame.RoundTrip.{IsEncodable, encode_frame-IsEncodable}

-- The ladders of tests, read backwards.
header_tests :
    (short crc magic version len large low : Bool) (body : Decoded) (f : Frame) (n : ℕ)
    → (if short
        then frame_incomplete
        else if not crc
        then frame_corrupt
        else if not magic
        then frame_corrupt
        else if not version
        then frame_corrupt
        else if not len
        then frame_corrupt
        else if large
        then frame_corrupt
        else if low
        then frame_corrupt
        else body)
      ≡ frame_ok f n
    → (short ≡ false)
      × (crc ≡ true)
      × (magic ≡ true)
      × (version ≡ true)
      × (len ≡ true)
      × (large ≡ false)
      × (low ≡ false)
      × (body ≡ frame_ok f n)
header_tests short crc magic version len large low body f n h = ground arith

body_tests :
    (short crc sha : Bool) (g : Frame) (k : ℕ) (f : Frame) (n : ℕ)
    → (if short
        then frame_incomplete
        else if not crc
        then frame_corrupt
        else if not sha
        then frame_corrupt
        else frame_ok g k)
      ≡ frame_ok f n
    → (short ≡ false) × (crc ≡ true) × (sha ≡ true) × ((g ≡ f) × (k ≡ n))
body_tests short crc sha g k f n h = ground arith

not_ltb→le : (a b : ℕ) → ltb a b ≡ false → b ≤ a
not_ltb→le a b h = ground arith

-- A positive int64 is at most the largest one.
signed_top : (s : ℕ) → s < 18446744073709551616 → slt s 1 ≡ false → slt sequence_max s ≡ false
signed_top s h p = ground arith

module _ (c : Checks) where
  -- What an accepted frame has passed, `m` being the payload length in its header.
  record IsFrame (d : List ℕ) (f : Frame) (n m : ℕ) : Type 0 where
    header : IsHeader c d f.sequence m
    size : n ≡ 60 + m
    fits : 60 + m ≤ length d
    crc : c.crc32c (take (56 + m) d) ≡ get_be (slice (56 + m) 4 d)
    payload : f.payload ≡ slice 56 m d
    flags : f.flags ≡ get_or d 5 0
    sha : c.sha256 f.payload ≡ slice 20 32 d

  IsHeader-inv :
      (d : List ℕ) (f : Frame) (n : ℕ)
      → decode_frame c d ≡ frame_ok f n
      → IsHeader c d (get_be (slice 12 8 d)) (get_be (slice 8 4 d))
        × (decode_body c d (get_be (slice 12 8 d)) (get_be (slice 8 4 d)) ≡ frame_ok f n)
  unfolding decode_frame
  IsHeader-inv d f n h =
      let (long, crc, magic, version, header_len, small, positive, body) =
        header_tests (ltb (length d) 56) (c.crc32c (take 52 d) == get_be (slice 52 4 d))
          (get_be (slice 0 4 d) == frame_magic) (get_or d 4 0 == 2) (get_be (slice 6 2 d) == 56)
          (ltb max_frame_payload (get_be (slice 8 4 d))) (slt (get_be (slice 12 8 d)) 1) _ f n h in
      (
        record {
          long = not_ltb→le (length d) 56 long;
          crc = (==_iff _ _).0 crc;
          magic = (==_iff _ _).0 magic;
          version = (==_iff _ _).0 version;
          header_len = (==_iff _ _).0 header_len;
          payload_len = refl;
          small = not_ltb→le max_frame_payload _ small;
          sequence = refl;
          positive = positive;
        },
        body,
      )

  body-inv :
      (d : List ℕ) (seq m : ℕ) (f : Frame) (n : ℕ)
      → decode_body c d seq m ≡ frame_ok f n
      → IsHeader c d seq m
      → IsFrame d f n m
  unfolding decode_body
  body-inv d seq m f n h header =
      let (long, crc, sha, done) =
        body_tests (ltb (length d) (56 + m + 4))
          (c.crc32c (take (56 + m) d) == get_be (slice (56 + m) 4 d))
          (list_eq (c.sha256 (slice 56 m d)) (slice 20 32 d)) _ (56 + m + 4) f n h in
      record {
        header = subst (λ s. IsHeader c d s m) (ap (λ (g : Frame). g.sequence) done.0) header;
        size = sym done.1 ∙ omega arith;
        fits =
            let l : 56 + m + 4 ≤ length d = not_ltb→le (length d) (56 + m + 4) long in omega arith;
        crc = (==_iff _ _).0 crc;
        payload = sym (ap (λ (g : Frame). g.payload) done.0);
        flags = sym (ap (λ (g : Frame). g.flags) done.0);
        sha = ap (λ (g : Frame). c.sha256 g.payload) (sym done.0) ∙ (list_eq_iff _ _).0 sha;
      }

  -- An accepted frame has at least 60 bytes.
  pub decode_frame_size :
      (d : List ℕ) (f : Frame) (n : ℕ) → decode_frame c d ≡ frame_ok f n → 60 ≤ n
  decode_frame_size d f n h =
      let (header, body) = IsHeader-inv d f n h in
      let good = body-inv d _ _ f n body header in omega (arith, good.size)

  module _ (d : List ℕ) (f : Frame) (n m : ℕ) (good : IsFrame d f n m) (bytes : IsBytes d) where
    long : 60 + m ≤ length d
    long = good.fits

    length-payload : length f.payload ≡ m
    length-payload =
        ap length good.payload ∙ omega (arith, length-take m (drop 56 d), length-drop 56 d, long)

    version_flags : (2 ∷ f.flags ∷ []) ≡ slice 4 2 d
    version_flags =
        ap₂ (λ (v w : ℕ). v ∷ w ∷ []) (sym good.header.version) good.flags
        ∙ sym (slice-pair 4 d 0 (omega (arith, long)))

    prefix_rebuilt : header_prefix c f ≡ take 52 d
    unfolding header_prefix
    prefix_rebuilt =
        append-slice d 20 32 _ _
          (append-slice d 12 8 _ _
            (append-slice d 8 4 _ _
              (append-slice d 6 2 _ _
                (append-slice d 4 2 _ _
                  (put_be-slice 0 4 frame_magic d good.header.magic (omega (arith, long)) bytes)
                  version_flags)
                (put_be-slice 6 2 56 d good.header.header_len (omega (arith, long)) bytes))
              (put_be-slice 8 4 (length f.payload) d (good.header.payload_len ∙ sym length-payload)
                (omega (arith, long)) bytes))
            (put_be-slice 12 8 f.sequence d good.header.sequence (omega (arith, long)) bytes))
          good.sha

    body_rebuilt : frame_body c f ≡ take (56 + m) d
    unfolding frame_body
    body_rebuilt =
        append-slice d 56 m _ _
          (append-slice d 52 4 _ _ prefix_rebuilt (
            put_be-slice 52 4 _ d (sym good.header.crc ∙ ap c.crc32c (sym prefix_rebuilt))
              (omega (arith, long)) bytes))
          good.payload

    frame_rebuilt : (frame_body c f ++ put_be 4 (c.crc32c (frame_body c f))) ≡ take n d
    frame_rebuilt =
        append-slice d (56 + m) 4 _ _ body_rebuilt (
          put_be-slice (56 + m) 4 _ d (sym good.crc ∙ ap c.crc32c (sym body_rebuilt))
            (omega (arith, long)) bytes)
        ∙ ap (λ k. take k d) (omega (arith, good.size))

    sequence-lt : f.sequence < 18446744073709551616
    sequence-lt = rw (← good.header.sequence) (
        get_be-lt 8 (slice 12 8 d)
          (omega (arith, length-take 8 (drop 12 d), length-drop 12 d, long))
          (All-take IsByte 8 (drop 12 d) (All-drop IsByte 12 d bytes)))

    encodable : IsEncodable f
    encodable = record {
      positive = good.header.positive;
      in_range = signed_top f.sequence sequence-lt good.header.positive;
      small = omega (arith, length-payload, good.header.small);
    }

  -- Whatever `DecodeFrame` accepts at the front of a byte slice is, byte for byte, what
  -- `EncodeFrame` writes for the frame that it returned; the length that it returned lies within
  -- the slice.
  pub encode_frame-decode_frame :
      (d : List ℕ) (f : Frame) (n : ℕ)
      → IsBytes d
      → decode_frame c d ≡ frame_ok f n
      → (encode_frame c f ≡ ok (take n d)) × (n ≤ length d)
  encode_frame-decode_frame d f n bytes h =
      let (header, body) = IsHeader-inv d f n h in
      let good = body-inv d _ _ f n body header in
      (
        encode_frame-IsEncodable c f (encodable d f n _ good bytes)
            ∙ ap ok (frame_rebuilt d f n _ good bytes),
        omega (arith, good.size, good.fits),
      )
