-- ===== src/Rtp/Packet/Bounds.antt =====
-- Where the parsers' offsets lie.
use libnx.Common.{ℕ, ◌≤◌, ◌≡◌, Bool, true, false, length}
use libnx.Common.{arith}
use libnx.Rtp.Types.{Bytes, ok}
use libnx.Rtp.Packet.{skip_extension, payload_end}

pub skip_extension-bounds :
    (x : Bool) (d : Bytes) (offset end : ℕ)
    → offset ≤ length d
    → skip_extension x d offset ≡ ok end
    → (offset ≤ end) × (end ≤ length d)
unfolding skip_extension
skip_extension-bounds false d offset end h e = ground arith
skip_extension-bounds true d offset end h e = ground arith

pub payload_end-bounds :
    (x : Bool) (d : Bytes) (offset end : ℕ)
    → offset ≤ length d
    → payload_end x d offset ≡ ok end
    → (offset ≤ end) × (end ≤ length d)
unfolding payload_end
payload_end-bounds false d offset end h e = ground arith
payload_end-bounds true d offset end h e = ground arith
