-- ===== src/Record/BlockBuilder.antt =====
-- BlockBuilder (nxcore/record/block_builder.cpp, block_builder.h) and BasicBlockBuilderOptions
-- (block_builder_options.h). The virtual methods of the options are the fields of `Options`; the calls
-- of `on_entry_rejected` are listed in `rejections`. `std::sort` is the parameter `sort`, which gets the
-- entries as they arrived. The clock is an argument. The pool that the buffer of a block comes from does
-- not show in the block. `none` stands for a copy that leaves an entry or the buffer.
-- `pending_bytes` has 64 bits, and is not wrapped here.
pub mod Block
pub mod Batch
pub mod Adding
pub mod Entries
mod Tests
use libnx.Common.{
  ℕ, ◌+◌, ◌*◌, ◌/◌, ◌%◌, ◌^◌, ◌==◌, Bool, true, false, not, ◌&&◌, ◌||◌, List, [], ◌∷◌, ◌++◌, Option,
  none, some, map, length, ltb, leb, if◌then◌else◌, bit_or,
}
use libnx.Rtp.Types.{Bytes}
use libnx.Rtp.Extension.{is_empty}
use libnx.Record.Types.{
  EntryFields, video, audio, userdata, AudioFields, BlockEntry, BlockEntryBuffer, BlockHeader,
  DataBlock, empty_block, i_frame, has_key_frame,
}
use libnx.Record.Layout.{copied_header, block_header_bytes, end_magic_bytes}

pub record Context : Type 0 where
  pub start_timestamp : ℕ
  pub end_timestamp : ℕ
  pub pending_count : ℕ
  pub pending_bytes : ℕ
  pub contains_keyframe : Bool
  pub last_activity_time : ℕ

-- `Context::clear`, which keeps the time of the last activity
abbrev pub clear : Context → Context
clear ctx = record {
  start_timestamp = 0;
  end_timestamp = 0;
  pending_count = 0;
  pending_bytes = 0;
  contains_keyframe = false;
  last_activity_time = ctx.last_activity_time;
}

pub record Options : Type 0 where
  pub is_finished : Context → Bool
  pub should_finalize_before_add : Context → ℕ → ℕ → Bool
  pub should_accept_entry : Context → ℕ → Bool

pub record BlockBuilder : Type 0 where
  pub blocks : List DataBlock
  pub pending_entries : List BlockEntryBuffer
  pub ctx : Context
  pub rejections : List (ℕ × ℕ)

unfoldable pub construct : ℕ → BlockBuilder
construct now = record {
  blocks = [];
  pending_entries = [];
  ctx = record {
    start_timestamp = 0;
    end_timestamp = 0;
    pending_count = 0;
    pending_bytes = 0;
    contains_keyframe = false;
    last_activity_time = now;
  };
  rejections = [];
}

abbrev pub bytes_per_sample : AudioFields → ℕ
bytes_per_sample f = f.bit_depth / 8 * f.channels

unfoldable pub audio_duration : AudioFields → ℕ
audio_duration f =
    if ltb 0 f.sample_rate && ltb 0 f.payload_size && ltb 0 (bytes_per_sample f)
    then f.payload_size / bytes_per_sample f * 1000 / f.sample_rate
    else 0

unfoldable pub calculate_entry_end_timestamp : BlockEntry → ℕ
unfolding audio_duration
calculate_entry_end_timestamp e = elim e.fields [
  | video f ↦ e.timestamp
  | audio f ↦ e.timestamp + audio_duration f
  | userdata f ↦ e.timestamp
]

abbrev pub payload_bytes : Option Bytes → Bytes
payload_bytes none = []
payload_bytes (some payload) = payload

-- The size of an entry as `pending_bytes` and `entries_size` count it.
abbrev pub entry_size : BlockEntryBuffer → ℕ
entry_size e = e.entry.header_size + length (payload_bytes e.payload) % 2 ^ 32

unfoldable pub is_keyframe : BlockEntry → Bool
is_keyframe e = elim e.fields [
  | video f ↦ f.frame_type == i_frame
  | audio f ↦ false
  | userdata f ↦ false
]

unfoldable pub entries_size : List BlockEntryBuffer → ℕ
entries_size [] = 0
entries_size (e ∷ es) = entry_size e + entries_size es

unfoldable pub pressure_flags_of : ℕ → List BlockEntryBuffer → ℕ
pressure_flags_of flags [] = flags
pressure_flags_of flags (e ∷ es) =
    pressure_flags_of (if e.pressure_flags == 0 then flags else bit_or flags e.pressure_flags) es

-- What the copying loop writes behind the header of the block.
unfoldable pub copied_entries : List BlockEntryBuffer → Option Bytes
copied_entries [] = some []
copied_entries (e ∷ es) =
    let rest = copied_entries es in
    elim (copied_header e.entry) [
      | none ↦ none
      | some header ↦ elim rest [
        | none ↦ none
        | some more ↦ some (header ++ (payload_bytes e.payload ++ more))
      ]
    ]

abbrev pub total_size : List BlockEntryBuffer → ℕ
total_size es = (28 + entries_size es % 2 ^ 32 + 2) % 2 ^ 32

abbrev pub block_header : Context → List BlockEntryBuffer → BlockHeader
block_header ctx es = record {
  flags = pressure_flags_of (if ctx.contains_keyframe then has_key_frame else 0) es;
  length = total_size es;
  start_timestamp = ctx.start_timestamp;
  end_timestamp = ctx.end_timestamp;
}

-- The block of the sorted entries; the two asserts that a header has a size, which are empty in a
-- release, are left out. A buffer of another size than what is copied into it is an overrun.
unfoldable pub make_block : Context → List BlockEntryBuffer → Option DataBlock
make_block ctx es = elim (copied_entries es) [
  | none ↦ none
  | some content ↦
      let header = block_header ctx es in
      let bytes = block_header_bytes header ++ (content ++ end_magic_bytes) in
      if total_size es == length bytes
      then some
          (record { header = some header; entries = map (λ e. e.entry) es; serialized = bytes })
      else none
]

-- From the first entry of a block on: the entry is counted and appended.
unfoldable pub append_entry : BlockEntryBuffer → BlockBuilder → BlockBuilder
append_entry e b =
    let start : ℕ =
      if is_empty b.pending_entries then e.entry.timestamp else b.ctx.start_timestamp in
    let end : ℕ = if is_empty b.pending_entries then e.entry.timestamp else b.ctx.end_timestamp in
    let entry_end = calculate_entry_end_timestamp e.entry in
    record b {
      pending_entries = b.pending_entries ++ (e ∷ []);
      ctx = record {
        start_timestamp = start;
        end_timestamp = if ltb end entry_end then entry_end else end;
        pending_count = length (b.pending_entries ++ (e ∷ []));
        pending_bytes = b.ctx.pending_bytes + entry_size e;
        contains_keyframe = is_keyframe e.entry || b.ctx.contains_keyframe;
        last_activity_time = b.ctx.last_activity_time;
      };
    }

unfoldable pub touch : ℕ → BlockBuilder → BlockBuilder
touch now b = record b { ctx = record (b.ctx) { last_activity_time = now } }

module _ (sort : List BlockEntryBuffer → List BlockEntryBuffer) where
  unfoldable pub finalize_current_block : BlockBuilder → Option BlockBuilder
  finalize_current_block b =
      if is_empty b.pending_entries
      then some (record b { ctx = clear b.ctx })
      else elim (make_block b.ctx (sort b.pending_entries)) [
        | none ↦ none
        | some block ↦ some (record b {
          blocks = b.blocks ++ (block ∷ []);
          pending_entries = [];
          ctx = clear b.ctx;
        })
      ]

  module _ (options : Options) where
    -- The two finalizations around it.
    unfoldable pub finalize_before : BlockEntryBuffer → BlockBuilder → Option BlockBuilder
    finalize_before e b =
        if not (is_empty b.pending_entries)
          && options.should_finalize_before_add b.ctx e.entry.timestamp
              (calculate_entry_end_timestamp e.entry)
        then finalize_current_block b
        else some b

    unfoldable pub finalize_after : BlockBuilder → Option BlockBuilder
    finalize_after b = if options.is_finished b.ctx then finalize_current_block b else some b

    -- `none` in the place of the entry is a null pointer.
    unfoldable pub add_entry : ℕ → Option BlockEntryBuffer → BlockBuilder → Option BlockBuilder
    unfolding touch
    add_entry now none b = some b
    add_entry now (some e) b =
        let b1 = touch now b in
        if not (options.should_accept_entry b1.ctx e.entry.timestamp)
        then some (record b1 {
          rejections = b1.rejections ++ ((e.entry.timestamp, b1.ctx.start_timestamp) ∷ []);
        })
        else elim (finalize_before e b1) [
          | none ↦ none
          | some b2 ↦ finalize_after (append_entry e b2)
        ]

unfoldable pub pop_block : BlockBuilder → DataBlock × BlockBuilder
pop_block b = elim b.blocks [
  | [] ↦ (empty_block, b)
  | block ∷ rest ↦ (block, record b { blocks = rest })
]

abbrev pub get_block_count : BlockBuilder → ℕ
get_block_count b = length b.blocks

-- The three tests of BasicBlockBuilderOptions that derived classes may replace.
abbrev pub should_finish_on_duration : ℕ → Context → Bool
should_finish_on_duration max_duration ctx =
    leb (max_duration + ctx.start_timestamp) ctx.end_timestamp

abbrev pub should_finish_on_size : ℕ → Context → Bool
should_finish_on_size max_size ctx = leb max_size ctx.pending_bytes

abbrev pub should_finish_on_count : ℕ → Context → Bool
should_finish_on_count max_entry_count ctx = leb max_entry_count ctx.pending_count

-- BasicBlockBuilderOptions; the tests on signed differences are written as tests on sums.
unfoldable pub basic_options : ℕ → ℕ → ℕ → Bool → Options
basic_options max_duration max_size max_entry_count reject_past_entries = record {
  is_finished = λ ctx.
      not (ctx.pending_count == 0)
      && (should_finish_on_duration max_duration ctx
          || (should_finish_on_size max_size ctx || should_finish_on_count max_entry_count ctx));
  should_finalize_before_add = λ ctx entry_start entry_end.
      not (ctx.pending_count == 0) && leb (max_duration + ctx.start_timestamp) entry_end;
  should_accept_entry = λ ctx entry_timestamp.
      not reject_past_entries || ctx.pending_count == 0 || leb ctx.start_timestamp entry_timestamp;
}
