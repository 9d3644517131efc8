-- ===== src/Rtp/Receiver.antt =====
-- RtpReceiver::handle_rtp_packet and the setters (nxnet/rtp/rtp_receiver.cpp). The depacketizer is any
-- class derived from RtpDepacketizer: a state type `D` with its `process_packet`, where `none` is
-- undefined behaviour. The calls of the two callbacks are listed, newest last; a frame is what its
-- buffer holds when the callback is called. A frame buffer from the pool is empty. Without a
-- depacketizer all calls are given the one buffer `passthrough_buffer`, which each of them overwrites.
pub mod Tracking
pub mod Mismatch
pub mod Passthrough
mod Tests
use libnx.Common.{
  ℕ, ◌+◌, ◌-◌, ◌%◌, ◌^◌, ◌==◌, Bool, true, false, not, ◌&&◌, List, [], ◌∷◌, ◌++◌, Option, none,
  some, length, ltb, leb, if◌then◌else◌,
}
use libnx.Rtp.Types.{Bytes, Expected, ok, unexpected, RtpHeaderView, RtpStatistics}
use libnx.Rtp.Packet.{parse_header_and_payload}
use libnx.Rtp.H264.Depacketizer.{Output, ◌>>=◌}

pub record RtpReceiver (D : Type 0) : Type 0 where
  pub depacketizer : Option D
  pub has_frame_callback : Bool
  pub frames : List (Bytes × ℕ × Bool)
  pub statistics : RtpStatistics
  pub expected_seq : ℕ
  pub seq_initialized : Bool
  pub expected_pt : ℕ
  pub pt_initialized : Bool
  pub pt_mismatch_frames : ℕ
  pub last_mismatch_timestamp : ℕ
  pub pt_mismatch_reported : Bool
  pub has_mismatch_callback : Bool
  pub mismatch_reports : List (ℕ × ℕ)
  pub passthrough_buffer : Option Bytes

abbrev pub pt_mismatch_threshold : ℕ
pt_mismatch_threshold = 3

abbrev pub construct : (D : Type 0) → RtpReceiver D
construct D = record {
  depacketizer = none;
  has_frame_callback = false;
  frames = [];
  statistics = record {
    packets_received = 0;
    packets_lost = 0;
    packets_out_of_order = 0;
    bytes_received = 0;
  };
  expected_seq = 0;
  seq_initialized = false;
  expected_pt = 0;
  pt_initialized = false;
  pt_mismatch_frames = 0;
  last_mismatch_timestamp = 0;
  pt_mismatch_reported = false;
  has_mismatch_callback = false;
  mismatch_reports = [];
  passthrough_buffer = none;
}

-- The counts of the statistics are `uint64_t`.
module _ {D : Type 0} where
  abbrev pub set_depacketizer : RtpReceiver D → Option D → RtpReceiver D
  set_depacketizer r d = record r { depacketizer = d }

  abbrev pub set_frame_callback : RtpReceiver D → RtpReceiver D
  set_frame_callback r = record r { has_frame_callback = true }

  abbrev pub set_expected_payload_type : RtpReceiver D → ℕ → RtpReceiver D
  set_expected_payload_type r pt = record r { expected_pt = pt; pt_initialized = true }

  abbrev pub set_payload_type_mismatch_callback : RtpReceiver D → RtpReceiver D
  set_payload_type_mismatch_callback r = record r { has_mismatch_callback = true }

  abbrev pub mismatches : RtpReceiver D → RtpHeaderView → Bool
  mismatches r header = r.pt_initialized && not (header.payload_type == r.expected_pt)

  -- The body of `if (m_pt_initialized && header.payload_type != m_expected_pt)`.
  unfoldable pub note_mismatch : RtpReceiver D → RtpHeaderView → RtpReceiver D
  note_mismatch r header =
      let r' : RtpReceiver D =
        if header.timestamp == r.last_mismatch_timestamp then r else record r {
          last_mismatch_timestamp = header.timestamp;
          pt_mismatch_frames = (r.pt_mismatch_frames + 1) % 2 ^ 32;
        } in
      if not r'.pt_mismatch_reported
        && (leb pt_mismatch_threshold r'.pt_mismatch_frames && r'.has_mismatch_callback)
      then record r' {
        pt_mismatch_reported = true;
        mismatch_reports = r'.mismatch_reports ++ ((r'.expected_pt, header.payload_type) ∷ []);
      }
      else r'

  -- `diff` as the `uint16_t` behind the `int16_t`: it is positive below 2^15.
  unfoldable pub track_sequence : RtpReceiver D → ℕ → RtpReceiver D
  track_sequence r sequence_number =
      let diff = (sequence_number + 2 ^ 16 - r.expected_seq) % 2 ^ 16 in
      let next = (sequence_number + 1) % 2 ^ 16 in
      let statistics = r.statistics in
      if not r.seq_initialized
      then record r { seq_initialized = true; expected_seq = next }
      else if diff == 0
      then record r { expected_seq = next }
      else if ltb diff (2 ^ 15)
      then record r {
        statistics = record statistics { packets_lost = (statistics.packets_lost + diff) % 2 ^ 64 };
        expected_seq = next;
      }
      else record r {
        statistics = record statistics {
          packets_out_of_order = (statistics.packets_out_of_order + 1) % 2 ^ 64;
        };
        expected_seq = next;
      }

  -- `m_statistics.packets_received++; m_statistics.bytes_received += data.size();`
  unfoldable pub count_packet : RtpReceiver D → ℕ → RtpReceiver D
  count_packet r size =
      let statistics = r.statistics in
      record r {
        statistics = record statistics {
          packets_received = (statistics.packets_received + 1) % 2 ^ 64;
          bytes_received = (statistics.bytes_received + size) % 2 ^ 64;
        };
      }

  unfoldable pub call_frame_callback : RtpReceiver D → Bytes → ℕ → Bool → RtpReceiver D
  call_frame_callback r frame timestamp keyframe = record r {
    frames = r.frames ++ ((frame, timestamp, keyframe) ∷ []);
  }

module _ {D : Type 0}
    (process_packet : D → RtpHeaderView → Bytes → Bytes → Bool → Option (D × Output)) where
  unfoldable pub depacketize :
      RtpReceiver D → Option D → RtpHeaderView → Bytes → Option (RtpReceiver D)
  unfolding call_frame_callback
  depacketize r none header payload =
      let r' : RtpReceiver D = record r { passthrough_buffer = some payload } in
      some (call_frame_callback r' payload header.timestamp false)
  depacketize r (some d) header payload = do
    (d', o) ← process_packet d header payload [] false
    let r' : RtpReceiver D = record r { depacketizer = some d' }
    some (if o.complete then call_frame_callback r' o.frame header.timestamp o.keyframe else r')

  unfoldable pub receive : RtpReceiver D → ℕ → RtpHeaderView → Bytes → Option (RtpReceiver D)
  unfolding note_mismatch count_packet track_sequence depacketize
  receive r size header payload =
      if mismatches r header
      then some (note_mismatch r header)
      else let r' : RtpReceiver D = track_sequence (count_packet r size) header.sequence_number in
        if r'.has_frame_callback then depacketize r' r'.depacketizer header payload else some r'

  unfoldable pub handle_rtp_packet : RtpReceiver D → Bytes → Option (RtpReceiver D)
  unfolding receive
  handle_rtp_packet r packet = elim (parse_header_and_payload packet) [
    | ok (header, payload) ↦ receive r (length packet) header payload
    | unexpected e ↦ some r
  ]

  unfoldable pub handle_all : RtpReceiver D → List Bytes → Option (RtpReceiver D)
  unfolding handle_rtp_packet
  handle_all r [] = some r
  handle_all r (packet ∷ packets) = do r' ← handle_rtp_packet r packet; handle_all r' packets
