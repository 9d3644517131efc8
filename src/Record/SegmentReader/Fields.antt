-- ===== src/Record/SegmentReader/Fields.antt =====
-- The fields of an entry read back, and the entry.
use libnx.Common.{
  ℕ, ◌+◌, ◌^◌, ◌<◌, ◌≤◌, ◌≡◌, refl, ap, ap₂, ◌∙◌, sym, ◌∷◌, ◌++◌, arith, length, length-append,
  take, drop-append, ltb, ◌==◌, if◌then◌else◌,
}
use libnx.Rtp.Types.{Bytes}
use libnx.Record.Types.{
  BlockEntry, EntryFields, VideoFields, AudioFields, UserFields, video, audio, userdata, entry_kind,
  i_frame,
}
use libnx.Record.Layout.{le_bytes, entry_bytes, fields_bytes}
use libnx.Record.Layout.Codec.{le_number, le_number-le_bytes}
use libnx.Record.SegmentRepairer.{number_at}
use libnx.Record.SegmentReader.{
  SegmentReader, ReadFrameResult, Outcome, value, error, unexpected_eof, no_frame, read_entry_rest,
  read_entry_from_block, video_result, audio_result,
}
use libnx.Record.SegmentReader.Entries.{left, forth, read-left, left-forth, read_derived-left}

-- The frame that is read of an entry.
abbrev pub frame_of : ℕ → EntryFields → Bytes → ReadFrameResult
frame_of t (video f) payload = record (no_frame 1 t) {
  is_keyframe = f.frame_type == i_frame;
  video_codec = f.codec_type;
  frame_type = f.frame_type;
  payload = payload;
}
frame_of t (audio f) payload = record (no_frame 2 t) {
  audio_codec = f.codec_type;
  sample_rate = f.sample_rate;
  channels = f.channels;
  payload = payload;
}
frame_of t (userdata f) payload = record (no_frame 3 t) { payload = payload }

-- The numbers of the fields fit, and the reserved bytes are as many as in the struct.
abbrev pub FitsFields : EntryFields → ℕ → Type 0
FitsFields (video f) size =
    (length f.reserved ≡ 2) × ((f.payload_size ≡ size) × (f.payload_size < 2 ^ 32))
FitsFields (audio f) size =
    (f.sample_rate < 2 ^ 32) × ((f.payload_size ≡ size) × (f.payload_size < 2 ^ 32))
FitsFields (userdata f) size =
    (length f.reserved ≡ 3) × ((f.payload_size ≡ size) × (f.payload_size < 2 ^ 32))

abbrev pub fields_size : EntryFields → ℕ
fields_size (video f) = 8
fields_size (audio f) = 11
fields_size (userdata f) = 8

one_byte : (b : ℕ) (bs : Bytes) → number_at 0 1 (b ∷ bs) ≡ b
unfolding number_at le_number
one_byte b bs = omega arith

second_byte : (a b : ℕ) (bs : Bytes) → number_at 1 1 (a ∷ b ∷ bs) ≡ b
unfolding number_at le_number
second_byte a b bs = omega arith

-- A number of four bytes behind the reserved ones.
behind_reserved :
    (reserved : Bytes) (n k : ℕ)
    → length reserved ≡ k
    → n < 2 ^ 32
    → number_at k 4 (reserved ++ le_bytes 4 n) ≡ n
unfolding number_at le_bytes
behind_reserved reserved n k size small =
    ap (λ t. le_number (take 4 t)) (drop-append reserved (le_bytes 4 n) k (sym size))
    ∙ le_number-le_bytes 4 n small

length-fields_bytes :
    (fields : EntryFields) (size : ℕ)
    → FitsFields fields size
    → length (fields_bytes fields) ≡ fields_size fields
unfolding fields_bytes le_bytes
length-fields_bytes (video f) size fits =
    let r = fits.0 in omega (arith, length-append f.reserved (le_bytes 4 f.payload_size), r)
length-fields_bytes (audio f) size fits = refl
length-fields_bytes (userdata f) size fits =
    let r = fits.0 in omega (arith, length-append f.reserved (le_bytes 4 f.payload_size), r)

video_result-fields :
    (t : ℕ) (codec frame : ℕ) (more : Bytes)
    → video_result (no_frame 1 t) (codec ∷ frame ∷ more) ≡ record (no_frame 1 t) {
      is_keyframe = frame == i_frame;
      video_codec = codec;
      frame_type = frame;
    }
video_result-fields t codec frame more =
    ap₂
      (λ c f. record (no_frame 1 t) { is_keyframe = f == i_frame; video_codec = c; frame_type = f })
      (one_byte codec (frame ∷ more)) (second_byte codec frame more)

video_size :
    (f : VideoFields) (size : ℕ)
    → FitsFields (video f) size
    → number_at 4 4 (fields_bytes (video f)) ≡ size
unfolding fields_bytes number_at
video_size f size fits = behind_reserved f.reserved f.payload_size 2 fits.0 fits.1.1 ∙ fits.1.0

user_size :
    (f : UserFields) (size : ℕ)
    → FitsFields (userdata f) size
    → number_at 4 4 (fields_bytes (userdata f)) ≡ size
unfolding fields_bytes number_at
user_size f size fits = behind_reserved f.reserved f.payload_size 3 fits.0 fits.1.1 ∙ fits.1.0

audio_size :
    (f : AudioFields) (size : ℕ)
    → FitsFields (audio f) size
    → number_at 7 4 (fields_bytes (audio f)) ≡ size
unfolding fields_bytes number_at le_bytes
audio_size f size fits = le_number-le_bytes 4 f.payload_size fits.1.1 ∙ fits.1.0

audio_result-fields :
    (t : ℕ) (f : AudioFields) (size : ℕ)
    → FitsFields (audio f) size
    → audio_result (no_frame 2 t) (fields_bytes (audio f)) ≡ record (no_frame 2 t) {
      audio_codec = f.codec_type;
      sample_rate = f.sample_rate;
      channels = f.channels;
    }
unfolding fields_bytes number_at le_bytes
audio_result-fields t f size fits =
    let more : Bytes = f.bit_depth ∷ (le_bytes 4 f.sample_rate ++ le_bytes 4 f.payload_size) in
    ap₂
      (λ c n. record (no_frame 2 t) {
        audio_codec = c;
        sample_rate = le_number (le_bytes 4 f.sample_rate);
        channels = n;
      })
      (one_byte f.codec_type (f.channels ∷ more)) (second_byte f.codec_type f.channels more)
    ∙ ap
        (λ n. record (no_frame 2 t) {
          audio_codec = f.codec_type;
          sample_rate = n;
          channels = f.channels;
        })
        (le_number-le_bytes 4 f.sample_rate fits.0)

read_entry_rest-left :
    (fields : EntryFields) (t : ℕ) (payload rest : Bytes) (s : SegmentReader)
    → FitsFields fields (length payload)
    → left s ≡ fields_bytes fields ++ (payload ++ rest)
    → read_entry_rest (entry_kind fields) (fields_size fields + 12) t s
      ≡ (value (frame_of t fields payload), forth (length payload) (forth (fields_size fields) s))
unfolding read_entry_rest fields_bytes
read_entry_rest-left (video f) t payload rest s fits p =
    let more : Bytes = f.reserved ++ le_bytes 4 f.payload_size in
    let extra : Bytes = f.codec_type ∷ f.frame_type ∷ more in
    read_derived-left s 8 8 4 (video_result (no_frame 1 t)) extra payload rest p
      (length-fields_bytes (video f) (length payload) fits) (omega arith)
      (video_size f (length payload) fits) refl
    ∙ ap
        (λ (r : ReadFrameResult).
          (value (record r { payload = payload }), forth (length payload) (forth 8 s)))
        (video_result-fields t f.codec_type f.frame_type more)
read_entry_rest-left (audio f) t payload rest s fits p =
    let extra : Bytes = fields_bytes (audio f) in
    read_derived-left s 11 11 7 (audio_result (no_frame 2 t)) extra payload rest p
      (length-fields_bytes (audio f) (length payload) fits) (omega arith)
      (audio_size f (length payload) fits) refl
    ∙ ap
        (λ (r : ReadFrameResult).
          (value (record r { payload = payload }), forth (length payload) (forth 11 s)))
        (audio_result-fields t f (length payload) fits)
read_entry_rest-left (userdata f) t payload rest s fits p =
    read_derived-left s 8 8 4 (λ extra. no_frame 3 t) (fields_bytes (userdata f)) payload rest p
      (length-fields_bytes (userdata f) (length payload) fits) (omega arith)
      (user_size f (length payload) fits) refl

base_bytes : ℕ → ℕ → ℕ → ℕ → Bytes
base_bytes kind archive size t = kind ∷ archive ∷ (le_bytes 2 size ++ le_bytes 8 t)

entry_header :
    (size t kind archive : ℕ)
    → size < 2 ^ 16
    → t < 2 ^ 64
    → let base = base_bytes kind archive size t in
      (number_at 0 1 base ≡ kind) × ((number_at 2 2 base ≡ size) × (number_at 4 8 base ≡ t))
unfolding base_bytes number_at le_bytes
entry_header size t kind archive small time = (
  one_byte kind (archive ∷ (le_bytes 2 size ++ le_bytes 8 t)),
  (le_number-le_bytes 2 size small, le_number-le_bytes 8 t time),
)

fields_size-small : (fields : EntryFields) → fields_size fields ≤ 11
fields_size-small (video f) = omega arith
fields_size-small (audio f) = omega arith
fields_size-small (userdata f) = omega arith

-- `read_entry_from_block` at an entry that was copied with its payload: the frame is read back, and the
-- stream stands behind it.
pub read_entry_from_block-left :
    (e : BlockEntry) (payload rest : Bytes) (s : SegmentReader)
    → e.header_size ≡ fields_size e.fields + 12
    → e.timestamp < 2 ^ 64
    → FitsFields e.fields (length payload)
    → left s ≡ entry_bytes e ++ (payload ++ rest)
    → read_entry_from_block s ≡ (
      value (frame_of e.timestamp e.fields payload),
      forth (length payload) (forth (fields_size e.fields) (forth 12 s)),
    )
unfolding read_entry_from_block entry_bytes base_bytes le_bytes
read_entry_from_block-left e payload rest s size small fits p =
    let base = base_bytes (entry_kind e.fields) e.archive_type e.header_size e.timestamp in
    let more : Bytes = fields_bytes e.fields ++ (payload ++ rest) in
    let s1 = forth 12 s in
    let h =
      entry_header e.header_size e.timestamp (entry_kind e.fields) e.archive_type
        (omega (arith, size, fields_size-small e.fields)) small in
    let done : Bytes × SegmentReader → Outcome ReadFrameResult × SegmentReader = λ t.
      if ltb (length t.0) 12
      then (error unexpected_eof, t.1)
      else read_entry_rest (number_at 0 1 t.0) (number_at 2 2 t.0) (number_at 4 8 t.0) t.1 in
    ap done (read-left s base more 12 p refl)
    ∙ (ap (λ k. read_entry_rest k (number_at 2 2 base) (number_at 4 8 base) s1) h.0
        ∙ (ap (λ n. read_entry_rest (entry_kind e.fields) n (number_at 4 8 base) s1) (h.1.0 ∙ size)
            ∙ (ap (λ t. read_entry_rest (entry_kind e.fields) (fields_size e.fields + 12) t s1)
                  h.1.1
                ∙ read_entry_rest-left e.fields e.timestamp payload rest s1 fits
                    (left-forth s base more 12 p refl))))

pub length-entry_bytes :
    (e : BlockEntry) (size : ℕ)
    → FitsFields e.fields size
    → length (entry_bytes e) ≡ 12 + fields_size e.fields
unfolding entry_bytes le_bytes
length-entry_bytes e size fits = omega (arith, length-fields_bytes e.fields size fits)
