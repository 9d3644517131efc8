-- ===== src/Rtp/Receiver/Tests.antt =====
-- Receivers and packets for the theorems on the receiver.
use libnx.Common.{◌≡◌, refl, List, [], ◌∷◌, none, some, arith, true}
use libnx.Rtp.Types.{Bytes}
use libnx.Rtp.FrameBuffer.{cleared}
use libnx.Rtp.FrameBuffer.Packets.{finished}
use libnx.Rtp.Packetizer.{RtpPacketizer}
use libnx.Rtp.Samples.{g711_packetize, payload_limit}
use libnx.Rtp.Samples.Stream.{Views, joined}
use libnx.Rtp.H264.Depacketizer.{RtpH264Depacketizer, process_packet}
use libnx.Rtp.Receiver.{
  RtpReceiver, construct, set_frame_callback, set_expected_payload_type,
  set_payload_type_mismatch_callback, handle_all,
}
use libnx.Rtp.Receiver.Mismatch.{ReportsOnce, Returns, handle_all-ReportsOnce}
use libnx.Rtp.Receiver.Passthrough.{IsPassthrough, HandedOn, g711_packetize-received}
use libnx.Rtp.Packetizer.Header.{IsPacketizer}

abbrev fresh : RtpReceiver RtpH264Depacketizer
fresh =
    set_payload_type_mismatch_callback
      (set_expected_payload_type (set_frame_callback (construct RtpH264Depacketizer)) 8)

abbrev running : RtpReceiver RtpH264Depacketizer
running = record fresh { seq_initialized = true; expected_seq = 20 }

abbrev sender : RtpPacketizer
sender = record {
  ssrc = 7;
  payload_type = 8;
  sequence_number = 65535;
  max_payload_size = 3;
  current_ext = none;
}

abbrev samples : Bytes
samples = 1 ∷ 2 ∷ 3 ∷ 4 ∷ 5 ∷ 6 ∷ 7 ∷ []

sender-IsPacketizer : IsPacketizer sender
sender-IsPacketizer = record {
  ssrc_fits = omega arith;
  sequence_fits = omega arith;
  payload_fits = omega arith;
  ext_fits = tt;
}

fresh-IsPassthrough : IsPassthrough sender fresh
fresh-IsPassthrough = record {
  passes = refl;
  listens = refl;
  accepts = refl;
  awaits = λ e. ground arith;
}

g711_packetize-received_example :
    (packets : List Bytes) × (views : Views) × (p : RtpPacketizer) × (r : RtpReceiver
      RtpH264Depacketizer)
    × (g711_packetize sender samples 160 cleared ≡ some (p, finished packets))
    × (handle_all process_packet fresh packets ≡ some r)
    × HandedOn fresh views r
    × (joined views ≡ samples)
g711_packetize-received_example =
    g711_packetize-received process_packet sender samples 160 fresh sender-IsPacketizer
      (omega arith) (unfold payload_limit in omega arith) (ground arith) fresh-IsPassthrough

fresh-ReportsOnce : ReportsOnce fresh
fresh-ReportsOnce = (λ e. refl, omega arith)

handle_all-ReportsOnce_example :
    Returns ReportsOnce (handle_all process_packet fresh ((0x80 ∷ []) ∷ samples ∷ []))
handle_all-ReportsOnce_example =
    handle_all-ReportsOnce process_packet fresh ((0x80 ∷ []) ∷ samples ∷ []) fresh-ReportsOnce
