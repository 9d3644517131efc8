-- ===== src/Rtp/Jpeg/Fragments.antt =====
-- The fragments of a picture, sent as RFC 2435 asks, and received by `process_packet`.
use libnx.Common.{
  ℕ, suc, ◌+◌, ◌-◌, ◌*◌, ◌/◌, ◌%◌, ◌^◌, ◌≤◌, ◌<◌, ◌==◌, ◌≡◌, refl, sym, ap, ◌∙◌, Bool, true, false,
  List, [], ◌∷◌, ◌++◌, arith, append_assoc, append-nil, length, length-append, length-replicate,
  replicate, take-append, drop, drop_all, bit_or, bit_and, ltb, leb, if◌then◌else◌, All, ◌≢◌,
}
use libnx.Common.Bits.{bit_or-fields, bit_and-mask}
use libnx.Rtp.Types.{Bytes, RtpHeaderView}
use libnx.Rtp.H264.Depacketizer.{Output}
use libnx.Rtp.Jpeg.Depacketizer.{
  RtpJpegDepacketizer, JpegHeader, process_packet, parse_jpeg_header, after_header,
  after_restart_header, after_quant_header, read_restart_header, read_quant_header, take_fragment,
  start_frame, add_scan_data, place, finish_frame, switch_frame, incomplete,
}

-- What the main headers of a picture's packets have in common.
pub record Picture : Type 0 where
  pub type : ℕ
  pub q : ℕ
  pub width : ℕ
  pub height : ℕ

abbrev pub header_at : Picture → ℕ → JpegHeader
header_at p offset = record {
  type_specific = 0;
  fragment_offset = offset;
  type = p.type;
  q = p.q;
  width = p.width;
  height = p.height;
}

-- A packet's payload: the offset in three bytes, and the fragment behind the header.
abbrev pub packet_at : Picture → ℕ → Bytes → Bytes
packet_at p offset fragment =
    0
    ∷ offset / 2 ^ 16
    ∷ offset / 2 ^ 8 % 2 ^ 8
    ∷ offset % 2 ^ 8
    ∷ p.type
    ∷ p.q
    ∷ p.width
    ∷ p.height
    ∷ fragment

abbrev pub packets_from : Picture → ℕ → List Bytes → List Bytes
packets_from p offset [] = []
packets_from p offset (f ∷ fs) = packet_at p offset f ∷ packets_from p (offset + length f) fs

abbrev pub joined : List Bytes → Bytes
joined [] = []
joined (f ∷ fs) = f ++ joined fs

-- `process_packet` of the payloads in turn, with the marker on the last.
unfoldable pub receive :
    RtpJpegDepacketizer → RtpHeaderView → List Bytes → Bytes → Bool → RtpJpegDepacketizer × Output
receive s header [] out_frame out_keyframe = incomplete s out_frame out_keyframe
receive s header (p ∷ []) out_frame out_keyframe =
    process_packet s (record header { marker = true }) p out_frame out_keyframe
receive s header (p ∷ p' ∷ ps) out_frame out_keyframe =
    let (s', o) = process_packet s (record header { marker = false }) p out_frame out_keyframe in
    receive s' header (p' ∷ ps) o.frame o.keyframe

-- The rest of the packets, from the result of a call on.
abbrev go_on :
    RtpHeaderView → List Bytes → RtpJpegDepacketizer × Output → RtpJpegDepacketizer × Output
go_on header ps (s, o) = receive s header ps o.frame o.keyframe

offset_bytes :
    (n : ℕ)
    → n < 2 ^ 24
    → bit_or (bit_or (n / 2 ^ 16 * 2 ^ 16) (n / 2 ^ 8 % 2 ^ 8 * 2 ^ 8)) (n % 2 ^ 8) ≡ n
offset_bytes n h =
    let high = bit_or-fields 16 (n / 2 ^ 16) (n / 2 ^ 8 % 2 ^ 8 * 2 ^ 8) (omega arith) in
    let low = bit_or-fields 8 (n / 2 ^ 8) (n % 2 ^ 8) (omega arith) in
    let same : n / 2 ^ 16 * 2 ^ 16 + n / 2 ^ 8 % 2 ^ 8 * 2 ^ 8 ≡ n / 2 ^ 8 * 2 ^ 8 = omega arith in
    rw (high, same) (omega (arith, low))

-- A fragment right behind the scan data is appended to it.
place-append : (scan fragment : Bytes) → place scan (length scan) fragment ≡ scan ++ fragment
unfolding place
place-append scan fragment =
    let zeros : Bytes = replicate (length scan + length fragment - length scan) 0 in
    let n : length zeros ≡ length scan + length fragment - length scan =
      length-replicate (length scan + length fragment - length scan) 0 in
    let front = take-append scan zeros (length scan) refl in
    let nothing : drop (length scan + length fragment) (scan ++ zeros) ≡ [] =
      drop_all (scan ++ zeros) (length scan + length fragment)
        (omega (arith, length-append scan zeros)) in
    rw (front, nothing, append-nil fragment) refl

switch_again :
    (s : RtpJpegDepacketizer) (timestamp : ℕ)
    → s.last_timestamp ≡ timestamp
    → switch_frame s timestamp ≡ record s { last_timestamp = timestamp }
unfolding switch_frame
switch_again s timestamp e =
    let same : timestamp == s.last_timestamp ≡ true = ground arith in rw same (ground arith)

last_timestamp-switch :
    (s : RtpJpegDepacketizer) (timestamp : ℕ)
    → (switch_frame s timestamp).last_timestamp ≡ timestamp
unfolding switch_frame
last_timestamp-switch s timestamp = refl

-- A type without restart markers, and a quality factor without tables.
module _ (p : Picture) (plain_type : p.type ≤ 5) (plain_q : p.q < 128) where
  -- Nothing stands between the main header and the fragment.
  plain_packet :
      (s : RtpJpegDepacketizer) (header : RtpHeaderView) (offset : ℕ) (fragment f : Bytes)
      (k : Bool)
      → offset < 2 ^ 24
      → process_packet s header (packet_at p offset fragment) f k
        ≡ take_fragment
            (switch_frame s header.timestamp)
            header.marker
            (header_at p offset)
            []
            fragment
            f
            k
  unfolding process_packet parse_jpeg_header after_header read_restart_header after_restart_header
      read_quant_header after_quant_header
  plain_packet s header offset fragment f k h =
      let long : ltb (suc (suc (suc (suc (suc (suc (suc (suc (length fragment))))))))) 8 ≡ false =
        ground arith in
      let known : ltb 5 (bit_and p.type 63) ≡ false = ground (arith, bit_and-mask 6 p.type) in
      let no_restart : leb 64 p.type ≡ false = ground arith in
      let no_tables : leb 128 p.q ≡ false = ground arith in
      rw (long, known, no_restart, offset_bytes offset h, no_tables) refl

  -- The state in which the scan data so far is `scan`.
  abbrev gathered : RtpJpegDepacketizer → ℕ → Bytes → RtpJpegDepacketizer
  gathered s timestamp scan = record (switch_frame s timestamp) {
    scan_data = scan;
    current_header = header_at p 0;
    frame_started = true;
  }

  switch-gathered :
      (s : RtpJpegDepacketizer) (timestamp : ℕ) (scan : Bytes)
      → switch_frame (gathered s timestamp scan) timestamp ≡ gathered s timestamp scan
  switch-gathered s timestamp scan =
      let e = last_timestamp-switch s timestamp in
      switch_again (gathered s timestamp scan) timestamp e
      ∙ ap (λ t. record (gathered s timestamp scan) { last_timestamp = t }) (sym e)

  added :
      (t : RtpJpegDepacketizer) (hdr : JpegHeader) (fragment : Bytes)
      → fragment ≢ []
      → hdr.fragment_offset ≡ length t.scan_data
      → add_scan_data t hdr fragment ≡ record t { scan_data = t.scan_data ++ fragment }
  unfolding add_scan_data
  added t hdr [] some_bytes at_end = absurd (some_bytes refl)
  added t hdr (b ∷ bs) some_bytes at_end = rw (at_end, place-append t.scan_data (b ∷ bs)) refl

  -- What the first packet of a picture leads to, from any state.
  start-first :
      (s : RtpJpegDepacketizer) (timestamp : ℕ)
      → start_frame (switch_frame s timestamp) (header_at p 0) ≡ gathered s timestamp []
  unfolding start_frame
  start-first s timestamp = refl

  start-later :
      (t : RtpJpegDepacketizer) (offset : ℕ) → 0 < offset → start_frame t (header_at p offset) ≡ t
  unfolding start_frame
  start-later t offset positive = ground arith

  -- The call for a fragment that comes right behind what was gathered.
  take-next :
      (t t' : RtpJpegDepacketizer) (marker : Bool) (offset : ℕ) (fragment f : Bytes) (k : Bool)
      → start_frame t (header_at p offset) ≡ t'
      → t'.frame_started ≡ true
      → fragment ≢ []
      → offset ≡ length t'.scan_data
      → take_fragment t marker (header_at p offset) [] fragment f k ≡ (
          if marker
          then finish_frame (record t' { scan_data = t'.scan_data ++ fragment }) [] f
          else incomplete (record t' { scan_data = t'.scan_data ++ fragment }) f k)
  unfolding take_fragment
  take-next t t' marker offset fragment f k start started some_bytes at_end =
      rw (start, added t' (header_at p offset) fragment some_bytes at_end, started) refl

  -- A call for a fragment behind `scan`, in the state that gathered it.
  next_packet :
      (s : RtpJpegDepacketizer) (header : RtpHeaderView) (scan fragment f : Bytes) (k : Bool)
      → 0 < length scan
      → length scan < 2 ^ 24
      → fragment ≢ []
      → process_packet
          (gathered s header.timestamp scan)
          header
          (packet_at p (length scan) fragment)
          f
          k
        ≡ (if header.marker
            then finish_frame (gathered s header.timestamp (scan ++ fragment)) [] f
            else incomplete (gathered s header.timestamp (scan ++ fragment)) f k)
  next_packet s header scan fragment f k positive small some_bytes =
      plain_packet (gathered s header.timestamp scan) header (length scan) fragment f k small
      ∙ take-next _ (gathered s header.timestamp scan) header.marker (length scan) fragment f k
          (ap (λ t. start_frame t (header_at p (length scan)))
              (switch-gathered s header.timestamp scan)
            ∙ start-later (gathered s header.timestamp scan) (length scan) positive)
          refl some_bytes refl

  first_packet :
      (s : RtpJpegDepacketizer) (header : RtpHeaderView) (fragment f : Bytes) (k : Bool)
      → fragment ≢ []
      → process_packet s header (packet_at p 0 fragment) f k ≡ (
          if header.marker
          then finish_frame (gathered s header.timestamp fragment) [] f
          else incomplete (gathered s header.timestamp fragment) f k)
  first_packet s header fragment f k some_bytes =
      plain_packet s header 0 fragment f k (omega arith)
      ∙ take-next _ (gathered s header.timestamp []) header.marker 0 fragment f k
          (start-first s header.timestamp) refl some_bytes refl

  later_packets :
      (s : RtpJpegDepacketizer) (header : RtpHeaderView) (scan g : Bytes) (gs : List Bytes)
      (f : Bytes) (k : Bool)
      → 0 < length scan
      → length scan + length (joined (g ∷ gs)) < 2 ^ 24
      → All (λ (x : Bytes). x ≢ []) (g ∷ gs)
      → receive
          (gathered s header.timestamp scan)
          header
          (packets_from p (length scan) (g ∷ gs))
          f
          k
        ≡ finish_frame (gathered s header.timestamp (scan ++ joined (g ∷ gs))) [] f
  unfolding receive
  later_packets s header scan g [] f k positive small (some_bytes, _) =
      next_packet s (record header { marker = true }) scan g f k positive (omega arith) some_bytes
      ∙ rw (append-nil g) refl
  later_packets s header scan g (g' ∷ gs) f k positive small (some_bytes, others) =
      let size = length-append scan g in
      let all = length-append g (joined (g' ∷ gs)) in
      ap (go_on header (packets_from p (length scan + length g) (g' ∷ gs))) (
        next_packet s (record header { marker = false }) scan g f k positive (omega arith)
          some_bytes)
      ∙ ap
          (λ n.
            receive (gathered s header.timestamp (scan ++ g)) header (packets_from p n (g' ∷ gs)) f
              k)
          (sym size)
      ∙ later_packets s header (scan ++ g) g' gs f k (omega arith) (omega arith) others
      ∙ ap (λ t. finish_frame (gathered s header.timestamp t) [] f)
          (append_assoc scan g (joined (g' ∷ gs)))

-- From any state, the packets of a picture that is cut into fragments with some bytes in each, sent in
-- order under one time stamp and with the marker on the last, end in the building of the picture from
-- its whole scan data. The type is 5 at most and the quality factor below 128, and the scan data stays
-- below 2 ^ 24 bytes.
pub receive-picture :
    (p : Picture) (s : RtpJpegDepacketizer) (header : RtpHeaderView) (g : Bytes) (gs : List Bytes)
    (f : Bytes) (k : Bool)
    → p.type ≤ 5
    → p.q < 128
    → length (joined (g ∷ gs)) < 2 ^ 24
    → All (λ (x : Bytes). x ≢ []) (g ∷ gs)
    → receive s header (packets_from p 0 (g ∷ gs)) f k
      ≡ finish_frame
          (record (switch_frame s header.timestamp) {
            scan_data = joined (g ∷ gs);
            current_header = header_at p 0;
            frame_started = true;
          })
          []
          f
unfolding receive
receive-picture p s header g [] f k plain_type plain_q small (some_bytes, _) =
    first_packet p plain_type plain_q s (record header { marker = true }) g f k some_bytes
    ∙ rw (append-nil g) refl
receive-picture p s header [] (g' ∷ gs) f k plain_type plain_q small (some_bytes, others) =
    absurd (some_bytes refl)
receive-picture p s header (b ∷ bs) (g' ∷ gs) f k plain_type plain_q small (some_bytes, others) =
    let all = length-append (b ∷ bs) (joined (g' ∷ gs)) in
    let from_start : 0 + length (b ∷ bs) ≡ length (b ∷ bs) = omega arith in
    ap (go_on header (packets_from p (0 + length (b ∷ bs)) (g' ∷ gs))) (
      first_packet p plain_type plain_q s (record header { marker = false }) (b ∷ bs) f k
        some_bytes)
    ∙ ap
        (λ n.
          receive (gathered p plain_type plain_q s header.timestamp (b ∷ bs)) header
            (packets_from p n (g' ∷ gs)) f k)
        from_start
    ∙ later_packets p plain_type plain_q s header (b ∷ bs) g' gs f k (omega arith) (omega arith)
        others
