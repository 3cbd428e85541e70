-- ===== src/Tests/Frames.antt =====
-- The frame codec and the sidecar codecs.
use gasworks.Prelude.{
  ℕ, ◌≤◌, ◌≡◌, ◌<◌, All-append, refl, List, [], ◌∷◌, ◌++◌, ok, arith, length, take,
}
use gasworks.Spool.Bytes.{IsByte, IsBytes, get_be}
use gasworks.Spool.Frame.{frame_ok, frame_incomplete, encode_frame, decode_frame}
use gasworks.Spool.Frame.RoundTrip.{
  frame_bytes, length-frame_bytes, frame_bytes-IsBytes, decode_frame-encode_frame,
}
use gasworks.Spool.Frame.TornTail.{decode_frame-take}
use gasworks.Spool.Frame.Canonical.{encode_frame-decode_frame}
use gasworks.Tests.Data.{toy, frame_seven}

abbrev bytes_seven : List ℕ
bytes_seven = frame_bytes toy frame_seven

encoded_seven : encode_frame toy frame_seven ≡ ok bytes_seven
unfolding encode_frame
encoded_seven = refl

decode_frame-encode_frame_example :
    decode_frame toy (bytes_seven ++ 1 ∷ 2 ∷ []) ≡ frame_ok frame_seven (length bytes_seven)
unfolding get_be
decode_frame-encode_frame_example =
    decode_frame-encode_frame toy frame_seven bytes_seven (1 ∷ 2 ∷ []) (omega arith) encoded_seven

length_seven : 57 < length bytes_seven
length_seven = omega (arith, length-frame_bytes toy frame_seven)

seven-IsBytes : IsBytes bytes_seven
seven-IsBytes = frame_bytes-IsBytes toy frame_seven (omega arith) (omega arith, (omega arith, tt))

decode_frame-take_example : decode_frame toy (take 57 bytes_seven) ≡ frame_incomplete
decode_frame-take_example =
    decode_frame-take toy frame_seven bytes_seven 57 (omega arith) encoded_seven length_seven

encode_frame-decode_frame_example :
    (encode_frame toy frame_seven ≡ ok (take (length bytes_seven) (bytes_seven ++ 1 ∷ 2 ∷ [])))
    × (length bytes_seven ≤ length (bytes_seven ++ 1 ∷ 2 ∷ []))
encode_frame-decode_frame_example =
    encode_frame-decode_frame toy (bytes_seven ++ 1 ∷ 2 ∷ []) frame_seven (length bytes_seven)
      (All-append IsByte bytes_seven (1 ∷ 2 ∷ []) seven-IsBytes (omega arith, (omega arith, tt)))
      decode_frame-encode_frame_example
