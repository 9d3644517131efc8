-- ===== src/Rtp/Samples/Tests.antt =====
-- A packetizer and a frame for the theorems on packets, frame buffers and the sample packetizers.
use libnx.Common.{◌≤◌, ◌≡◌, ◌≢◌, arith, [], ◌∷◌, none, some, true}
use libnx.Rtp.Types.{Bytes, ok}
use libnx.Rtp.Packet.{parse}
use libnx.Rtp.Extension.{content_bytes}
use libnx.Rtp.FrameBuffer.{cleared}
use libnx.Rtp.Packetizer.{RtpPacketizer}
use libnx.Rtp.Packetizer.Header.{IsPacketizer, packet_bytes, packet_read}
use libnx.Rtp.Packetizer.RoundTrip.{parse-packet_bytes}
use libnx.Rtp.Samples.{payload_limit, raw_packetize, g711_packetize}
use libnx.Rtp.Samples.Stream.{Delivery}
use libnx.Rtp.Samples.Delivery.{
  same_time, sample_time, raw_packetize-delivers, g711_packetize-delivers,
}

abbrev pub sender : RtpPacketizer
sender = record {
  ssrc = 7;
  payload_type = 8;
  sequence_number = 65535;
  max_payload_size = 3;
  current_ext = none;
}

abbrev pub with_extension : RtpPacketizer
with_extension = record sender {
  current_ext = some (record { elements = record { id = 1; value = 5 ∷ [] } ∷ [] });
}

abbrev pub samples : Bytes
samples = 1 ∷ 2 ∷ 3 ∷ 4 ∷ 5 ∷ 6 ∷ 7 ∷ []

pub sender-IsPacketizer : IsPacketizer sender
sender-IsPacketizer = record {
  ssrc_fits = omega arith;
  sequence_fits = omega arith;
  payload_fits = omega arith;
  ext_fits = tt;
}

with_extension-IsPacketizer : IsPacketizer with_extension
with_extension-IsPacketizer = record {
  ssrc_fits = omega arith;
  sequence_fits = omega arith;
  payload_fits = omega arith;
  ext_fits = unfold content_bytes in omega arith;
}

pub some_samples : samples ≢ []
some_samples = ground arith

pub room : 1 ≤ payload_limit sender
room = unfold payload_limit in omega arith

raw_packetize-delivers_example :
    Delivery same_time
      (payload_limit sender)
      sender
      160
      samples
      (raw_packetize sender samples 160 cleared)
raw_packetize-delivers_example =
    raw_packetize-delivers sender samples 160 sender-IsPacketizer (omega arith) room some_samples

g711_packetize-delivers_example :
    Delivery sample_time
      (payload_limit sender)
      sender
      160
      samples
      (g711_packetize sender samples 160 cleared)
g711_packetize-delivers_example =
    g711_packetize-delivers sender samples 160 sender-IsPacketizer (omega arith) room some_samples

parse-packet_bytes_example :
    parse (packet_bytes with_extension true 99 samples)
    ≡ ok (packet_read with_extension true 99 samples)
parse-packet_bytes_example =
    parse-packet_bytes with_extension true 99 samples with_extension-IsPacketizer (omega arith)
