-- ===== src/Record/Types.antt =====
-- The data of a recording (nxcore/record/record.h). A time stamp is a number of milliseconds since 1970
-- that is not negative, and stays below 2^63. A derived entry of the C++ hierarchy is a constructor of
-- `EntryFields`, which fixes the type byte of the base.
use libnx.Common.{ℕ, ◌*◌, ◌/◌, ◌%◌, ◌^◌, ◌==◌, Bool, not, List, [], Option, none, bit_and, bit_or}
use libnx.Rtp.Types.{Bytes}

-- `BlockType`, and `EntryType` with the same values
abbrev pub kind_video : ℕ
kind_video = 1

abbrev pub kind_audio : ℕ
kind_audio = 2

abbrev pub kind_userdata : ℕ
kind_userdata = 3

-- `VideoFrameType::kIFrame`
abbrev pub i_frame : ℕ
i_frame = 1

-- `BlockFlags::kHasKeyFrame`
abbrev pub has_key_frame : ℕ
has_key_frame = 2

pub record VideoFields : Type 0 where
  pub codec_type : ℕ
  pub frame_type : ℕ
  pub reserved : Bytes
  pub payload_size : ℕ

pub record AudioFields : Type 0 where
  pub codec_type : ℕ
  pub channels : ℕ
  pub bit_depth : ℕ
  pub sample_rate : ℕ
  pub payload_size : ℕ

pub record UserFields : Type 0 where
  pub data_type : ℕ
  pub reserved : Bytes
  pub payload_size : ℕ

pub data EntryFields : Type 0 where
  video : VideoFields → EntryFields
  audio : AudioFields → EntryFields
  userdata : UserFields → EntryFields

pub record BlockEntry : Type 0 where
  pub archive_type : ℕ
  pub header_size : ℕ
  pub timestamp : ℕ
  pub fields : EntryFields

-- The type byte.
abbrev pub entry_kind : EntryFields → ℕ
entry_kind (video f) = kind_video
entry_kind (audio f) = kind_audio
entry_kind (userdata f) = kind_userdata

pub record BlockEntryBuffer : Type 0 where
  pub entry : BlockEntry
  pub payload : Option Bytes
  pub pressure_flags : ℕ

pub record BlockHeader : Type 0 where
  pub flags : ℕ
  pub length : ℕ
  pub start_timestamp : ℕ
  pub end_timestamp : ℕ

-- A block has no header where it is the default value of the type. The pointers into `serialized` are
-- the values they point at.
pub record DataBlock : Type 0 where
  pub header : Option BlockHeader
  pub entries : List BlockEntry
  pub serialized : Bytes

abbrev pub empty_block : DataBlock
empty_block = record { header = none; entries = []; serialized = [] }

pub record IndexEntry : Type 0 where
  pub flags : ℕ
  pub timestamp : ℕ
  pub offset : ℕ

pub record SegmentHeader : Type 0 where
  pub version : ℕ
  pub channel_id : ℕ
  pub extension_header_size : ℕ

-- `index_flags::encode`, on 32 bits
unfoldable pub encode : ℕ → ℕ → ℕ → ℕ
encode block_flags entry_type codec_type =
    bit_or (bit_or (bit_and block_flags 0xffff) (entry_type * 2 ^ 16 % 2 ^ 32))
      (codec_type * 2 ^ 24 % 2 ^ 32)

-- `index_flags::block_flags`, `entry_type` and `codec_type`
unfoldable pub block_flags_of : ℕ → ℕ
block_flags_of flags = bit_and flags 0xffff

unfoldable pub entry_type_of : ℕ → ℕ
entry_type_of flags = bit_and flags 0xff0000 / 2 ^ 16 % 2 ^ 8

unfoldable pub codec_type_of : ℕ → ℕ
codec_type_of flags = bit_and flags 0xff000000 / 2 ^ 24 % 2 ^ 8

unfoldable pub has_extended_info : ℕ → Bool
has_extended_info flags = not (bit_and flags (bit_or 0xff0000 0xff000000) == 0)
