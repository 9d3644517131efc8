-- ===== src/Rtp/Jpeg/Delivery.antt =====
-- A picture from its packets to the file that is delivered.
use libnx.Common.{
  ℕ, ◌*◌, ◌^◌, ◌≤◌, ◌<◌, ◌==◌, ◌≡◌, ◌≢◌, refl, ap, ◌∙◌, Bool, true, false, List, [], ◌∷◌, some,
  arith, length, ◌||◌, All,
}
use libnx.Codec.Jpeg.{parse_jpeg_frame_info}
use libnx.Rtp.Types.{Bytes, RtpHeaderView}
use libnx.Rtp.H264.Depacketizer.{Output}
use libnx.Rtp.Jpeg.Depacketizer.{
  RtpJpegDepacketizer, build_jpeg_frame, finish_frame, is_file, switch_frame, effective_type,
  chosen_tables,
}
use libnx.Rtp.Jpeg.Size.{parse-write_file}
use libnx.Rtp.Jpeg.Fragments.{Picture, packets_from, joined, receive, receive-picture, header_at}

-- A frame that is complete, and a JPEG file with a picture of this size.
pub record IsPicture (width height : ℕ) (o : Output) : Type 0 where
  pub is_complete : o.complete ≡ true
  pub is_key : o.keyframe ≡ true
  pub has_size :
      parse_jpeg_frame_info o.frame
      ≡ some (record { width = width; height = height; precision = 8; num_components = 3 })

finish_frame-IsPicture :
    (s : RtpJpegDepacketizer) (quant_data f : Bytes)
    → 0 < s.current_header.width
    → s.current_header.width < 256
    → 0 < s.current_header.height
    → s.current_header.height < 256
    → is_file s.scan_data ≡ false
    → IsPicture
        (s.current_header.width * 8)
        (s.current_header.height * 8)
        (finish_frame s quant_data f).1
unfolding finish_frame build_jpeg_frame
finish_frame-IsPicture s quant_data f w w' h h' no_file =
    let sized : s.current_header.width * 8 == 0 || s.current_header.height * 8 == 0 ≡ false =
      ground arith in
    let (s', type) = effective_type s s.current_header.type in
    record {
      is_complete = refl;
      is_key = refl;
      has_size =
          rw (no_file, sized)
            (parse-write_file s' s.current_header type (chosen_tables s quant_data) w w' h h');
    }

-- From any state, the packets of a picture with a size, cut into fragments with some bytes in each,
-- sent in order under one time stamp and with the marker on the last, end in a complete key frame, in
-- which parse_jpeg_frame_info finds the size of the picture. The type is 5 at most, the quality factor
-- is below 128, the scan data stays below 2 ^ 24 bytes and is not a JPEG file itself.
pub receive-IsPicture :
    (p : Picture) (s : RtpJpegDepacketizer) (header : RtpHeaderView) (g : Bytes) (gs : List Bytes)
    (f : Bytes) (k : Bool)
    → p.type ≤ 5
    → p.q < 128
    → 0 < p.width
    → p.width < 256
    → 0 < p.height
    → p.height < 256
    → length (joined (g ∷ gs)) < 2 ^ 24
    → All (λ (x : Bytes). x ≢ []) (g ∷ gs)
    → is_file (joined (g ∷ gs)) ≡ false
    → IsPicture (p.width * 8) (p.height * 8) (receive s header (packets_from p 0 (g ∷ gs)) f k).1
receive-IsPicture p s header g gs f k plain_type plain_q w w' h h' small some_bytes no_file =
    rw (receive-picture p s header g gs f k plain_type plain_q small some_bytes) (
      finish_frame-IsPicture
        (record (switch_frame s header.timestamp) {
          scan_data = joined (g ∷ gs);
          current_header = header_at p 0;
          frame_started = true;
        })
        [] f w w' h h' no_file)

-- The packets of a picture that has the width 0 in its header, as a picture wider than 2040 has, make
-- process_packet say that a frame is complete, and the frame is what the caller's buffer held before.
-- The packets are cut and sent in the same way, the type is 5 at most, the quality factor is below 128,
-- the scan data stays below 2 ^ 24 bytes and is not a JPEG file itself.
pub receive-no_width :
    (p : Picture) (s : RtpJpegDepacketizer) (header : RtpHeaderView) (g : Bytes) (gs : List Bytes)
    (f : Bytes) (k : Bool)
    → p.type ≤ 5
    → p.q < 128
    → p.width ≡ 0
    → length (joined (g ∷ gs)) < 2 ^ 24
    → All (λ (x : Bytes). x ≢ []) (g ∷ gs)
    → is_file (joined (g ∷ gs)) ≡ false
    → (receive s header (packets_from p 0 (g ∷ gs)) f k).1
      ≡ record { complete = true; frame = f; keyframe = true }
unfolding finish_frame build_jpeg_frame
receive-no_width p s header g gs f k plain_type plain_q w small some_bytes no_file =
    ap (λ r. r.1) (receive-picture p s header g gs f k plain_type plain_q small some_bytes)
    ∙ rw (no_file, w) refl
