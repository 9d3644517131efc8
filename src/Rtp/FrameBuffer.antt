-- ===== src/Rtp/FrameBuffer.antt =====
-- RtpFrameBuffer (nxnet/rtp/rtp_frame_buffer.h): the packets of one frame in one buffer, with the
-- offset of each. The field `data` is called `bytes` here. Reserving capacity has no effect on it.
pub mod Packets
use libnx.Common.{ℕ, suc, ◌+◌, ◌-◌, ◌/◌, ◌%◌, ◌^◌, List, [], ◌∷◌, ◌++◌, length, get_or, take, drop}
use libnx.Common.{ltb, if◌then◌else◌, bit_and}
use libnx.Rtp.Types.{Bytes}

pub record RtpFrameBuffer : Type 0 where
  pub bytes : Bytes
  pub packet_offsets : List ℕ

-- The buffer that `clear` leaves.
abbrev pub cleared : RtpFrameBuffer
cleared = record { bytes = []; packet_offsets = [] }

unfoldable pub packet_count : RtpFrameBuffer → ℕ
packet_count b = if ltb 1 (length b.packet_offsets) then length b.packet_offsets - 1 else 0

unfoldable pub packet : RtpFrameBuffer → ℕ → Bytes
packet b i =
    take (get_or b.packet_offsets (suc i) 0 - get_or b.packet_offsets i 0)
      (drop (get_or b.packet_offsets i 0) b.bytes)

unfoldable pub begin_packet : RtpFrameBuffer → RtpFrameBuffer
begin_packet b = record b { packet_offsets = b.packet_offsets ++ (length b.bytes % 2 ^ 32 ∷ []) }

unfoldable pub finalize : RtpFrameBuffer → RtpFrameBuffer
finalize b = record b { packet_offsets = b.packet_offsets ++ (length b.bytes % 2 ^ 32 ∷ []) }

unfoldable pub append_byte : RtpFrameBuffer → ℕ → RtpFrameBuffer
append_byte b byte = record b { bytes = b.bytes ++ (byte ∷ []) }

unfoldable pub append : RtpFrameBuffer → Bytes → RtpFrameBuffer
append b more = record b { bytes = b.bytes ++ more }

unfoldable pub append_u16_be : RtpFrameBuffer → ℕ → RtpFrameBuffer
append_u16_be b value = record b {
  bytes = b.bytes ++ (value / 2 ^ 8 % 256 ∷ bit_and value 0xff % 256 ∷ []);
}

unfoldable pub append_u32_be : RtpFrameBuffer → ℕ → RtpFrameBuffer
append_u32_be b value = record b {
  bytes =
      b.bytes
      ++ (value / 2 ^ 24 % 256
          ∷ value / 2 ^ 16 % 256
          ∷ value / 2 ^ 8 % 256
          ∷ bit_and value 0xff % 256
          ∷ []);
}
