-- ===== src/Rtp/Packet/Tests.antt =====
-- Packets for the theorems on the parser.
use libnx.Common.{◌≡◌, [], ◌∷◌}
use libnx.Rtp.Types.{Bytes, map_ok}
use libnx.Rtp.Packet.{parse, parse_header_and_payload}
use libnx.Rtp.Packet.Agreement.{view_of, parse-agrees}

-- One CSRC, an extension of one word, a payload of two bytes and one byte of padding.
abbrev datagram : Bytes
datagram =
    0xb1 ∷ 0xe0 ∷ 0 ∷ 1 ∷ 0 ∷ 0 ∷ 0 ∷ 2 ∷ 0 ∷ 0 ∷ 0 ∷ 3 ∷ 0 ∷ 0 ∷ 0 ∷ 4 ∷ 0xbe ∷ 0xde ∷ 0 ∷ 1 ∷ 0x10
    ∷ 9 ∷ 0 ∷ 0 ∷ 5 ∷ 6 ∷ 1 ∷ []

parse-agrees_example : map_ok view_of (parse datagram) ≡ parse_header_and_payload datagram
parse-agrees_example = parse-agrees datagram
