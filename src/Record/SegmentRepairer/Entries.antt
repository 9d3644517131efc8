-- ===== src/Record/SegmentRepairer/Entries.antt =====
-- The index entry that the scan makes of a block is the one that the segment builder made.
use libnx.Common.{
  ℕ, ◌+◌, ◌-◌, ◌^◌, ◌<◌, ◌≤◌, ◌≡◌, refl, ap, ◌∙◌, false, ◌&&◌, ◌||◌, List, [], ◌∷◌, ◌++◌, arith,
  length, length-append, append_assoc, bit_and, All, ltb, leb, ◌==◌, if◌then◌else◌, map,
}
use libnx.Rtp.Types.{Bytes}
use libnx.Record.Types.{
  BlockEntry, BlockEntryBuffer, EntryFields, video, audio, userdata, entry_kind, has_key_frame,
  encode,
}
use libnx.Record.Layout.{le_bytes, block_header_bytes, end_magic_bytes, entry_bytes, fields_bytes}
use libnx.Record.Layout.Codec.{le_number, le_number-le_bytes, length-block_header_bytes}
use libnx.Record.BlockBuilder.{Context, payload_bytes, entries_size, block_header}
use libnx.Record.BlockBuilder.Block.{IsFormed, content, total_size-fits}
use libnx.Record.SegmentBuilder.{index_of, index_flags, codec_of}
use libnx.Record.SegmentRepairer.{number_at, scanned_index, extract_entry_info}
use libnx.Record.SegmentRepairer.Scanning.{
  number_at-behind, FitsHeader, around, in_block, block-Stands,
}

-- The reserved fields have the lengths of the C++ arrays.
abbrev pub HasReserved : EntryFields → Type 0
HasReserved (video f) = length f.reserved ≡ 2
HasReserved (audio f) = Unit
HasReserved (userdata f) = length f.reserved ≡ 3

abbrev least_header : EntryFields → ℕ
least_header (video f) = 20
least_header (audio f) = 23
least_header (userdata f) = 20

length-entry_bytes :
    (a h t : ℕ) (fields : EntryFields)
    → HasReserved fields
    → length
        (entry_bytes (record { archive_type = a; header_size = h; timestamp = t; fields = fields }))
      ≡ least_header fields
unfolding entry_bytes fields_bytes le_bytes
length-entry_bytes a h t (video f) r =
    omega (arith, length-append f.reserved (le_bytes 4 f.payload_size), r)
length-entry_bytes a h t (audio f) r = refl
length-entry_bytes a h t (userdata f) r =
    omega (arith, length-append f.reserved (le_bytes 4 f.payload_size), r)

header_size-formed :
    (e : BlockEntryBuffer)
    → IsFormed e
    → HasReserved e.entry.fields
    → e.entry.header_size ≡ least_header e.entry.fields
header_size-formed e formed r =
    formed.header
    ∙ length-entry_bytes e.entry.archive_type e.entry.header_size e.entry.timestamp e.entry.fields r

record ReadsEntry (e : BlockEntry) (bytes : Bytes) : Type 0 where
  kind : number_at 0 1 bytes ≡ entry_kind e.fields
  header_size : number_at 2 2 bytes ≡ e.header_size
  codec : number_at 12 1 bytes ≡ codec_of e.fields

entry_bytes-ReadsEntry :
    (a h t : ℕ) (fields : EntryFields) (rest : Bytes)
    → h < 2 ^ 16
    → let e : BlockEntry = record {
      archive_type = a;
      header_size = h;
      timestamp = t;
      fields = fields;
    } in
      ReadsEntry e (entry_bytes e ++ rest)
unfolding entry_bytes fields_bytes le_bytes number_at le_number
entry_bytes-ReadsEntry a h t (video f) rest small = record {
  kind = refl;
  header_size = le_number-le_bytes 2 h small;
  codec = omega arith;
}
entry_bytes-ReadsEntry a h t (audio f) rest small = record {
  kind = refl;
  header_size = le_number-le_bytes 2 h small;
  codec = omega arith;
}
entry_bytes-ReadsEntry a h t (userdata f) rest small = record {
  kind = refl;
  header_size = le_number-le_bytes 2 h small;
  codec = omega arith;
}

-- What is read of an entry whose header is whole.
extract-read :
    (e : BlockEntry) (start end : ℕ) (file : Bytes)
    → number_at start 1 file ≡ entry_kind e.fields
    → number_at (start + 2) 2 file ≡ least_header e.fields
    → number_at (start + 12) 1 file ≡ codec_of e.fields
    → 12 ≤ end - start
    → start + 12 ≤ length file
    → extract_entry_info start end file ≡ (entry_kind e.fields, codec_of e.fields)
unfolding extract_entry_info
extract-read e start end file kind size codec room inside =
    let a : ltb (end - start) 12 ≡ false = ground (arith, room) in
    let b : ltb (length file) (start + 12) ≡ false = ground (arith, inside) in
    simp (a, b, kind, size, codec) (ap (λ c. (entry_kind e.fields, c)) (next e.fields))
  where
    next :
        (fields : EntryFields)
        → (if (((entry_kind fields == 1) && leb 20 (least_header fields))
              || (((entry_kind fields == 2) && leb 23 (least_header fields))
                  || ((entry_kind fields == 3) && leb 20 (least_header fields))))
            then codec_of fields
            else 0)
          ≡ codec_of fields
    next (video f) = refl
    next (audio f) = refl
    next (userdata f) = refl

least_header-bounds : (f : EntryFields) → (20 ≤ least_header f) × (least_header f ≤ 23)
least_header-bounds (video f) = (omega arith, omega arith)
least_header-bounds (audio f) = (omega arith, omega arith)
least_header-bounds (userdata f) = (omega arith, omega arith)

module _ (pre rest : Bytes) (ctx : Context) (e : BlockEntryBuffer) (es : List BlockEntryBuffer)
    (formed : All IsFormed (e ∷ es)) (fits : 30 + entries_size (e ∷ es) < 2 ^ 32)
    (header_fits : FitsHeader (block_header ctx (e ∷ es)))
    (reserved : HasReserved e.entry.fields) where
  -- What stands behind the header of the first entry.
  abbrev behind_entry : Bytes
  behind_entry = ((payload_bytes e.payload ++ content es) ++ end_magic_bytes) ++ rest

  in_entry :
      (k w : ℕ)
      → number_at (length pre + 28 + k) w (around pre ctx (e ∷ es) rest)
        ≡ number_at k w (entry_bytes e.entry ++ behind_entry)
  unfolding content
  in_entry k w =
      let hb = block_header_bytes (block_header ctx (e ∷ es)) in
      let more : Bytes = payload_bytes e.payload ++ content es in
      let behind : Bytes = ((entry_bytes e.entry ++ more) ++ end_magic_bytes) ++ rest in
      let there : length pre + 28 + k ≡ length pre + (28 + k) = omega arith in
      let size : 28 + k ≡ length hb + k =
        omega (arith, length-block_header_bytes (block_header ctx (e ∷ es))) in
      ap (λ n. number_at n w (around pre ctx (e ∷ es) rest)) there
      ∙ (in_block pre rest ctx (e ∷ es) formed fits header_fits (28 + k) w
          ∙ (ap (λ n. number_at n w (hb ++ behind)) size
              ∙ (number_at-behind hb behind k w
                  ∙ ap (number_at k w) (
                      ap (λ t. t ++ rest) (append_assoc (entry_bytes e.entry) more end_magic_bytes)
                      ∙ append_assoc (entry_bytes e.entry) (more ++ end_magic_bytes) rest))))

  pub scanned_index-block :
      scanned_index (length pre) (block_header ctx (e ∷ es)) (around pre ctx (e ∷ es) rest)
      ≡ index_of (length pre) (block_header ctx (e ∷ es)) (map (λ x. x.entry) (e ∷ es))
  unfolding scanned_index index_of index_flags entries_size
  scanned_index-block =
      let h = block_header ctx (e ∷ es) in
      let file = around pre ctx (e ∷ es) rest in
      let stands = block-Stands pre rest ctx (e ∷ es) formed fits header_fits in
      let size = header_size-formed e formed.0 reserved in
      let (least, most) = least_header-bounds e.entry.fields in
      let reads =
        entry_bytes-ReadsEntry e.entry.archive_type e.entry.header_size e.entry.timestamp
          e.entry.fields behind_entry (omega (arith, size, most)) in
      let total = total_size-fits (e ∷ es) fits in
      let at_start : length pre + 28 ≡ length pre + 28 + 0 = omega arith in
      let info =
        extract-read e.entry (length pre + 28) (length pre + h.length - 2) file
          (ap (λ n. number_at n 1 file) at_start ∙ (in_entry 0 1 ∙ reads.kind))
          (in_entry 2 2 ∙ (reads.header_size ∙ size)) (in_entry 12 1 ∙ reads.codec)
          (omega (arith, total, size, least)) (omega (arith, total, size, least, stands.whole)) in
      ap
        (λ (p : ℕ × ℕ).
          if bit_and h.flags has_key_frame == 0
          then []
          else record {
            flags = encode h.flags p.0 p.1;
            timestamp = h.start_timestamp;
            offset = length pre;
          }
            ∷ [])
        info
