-- ===== src/Record/SegmentRepairer/Restoring.antt =====
-- The scan of a file, and the file that the repair leaves.
use libnx.Common.{
  ◌+◌, ◌*◌, ◌≤◌, ◌≡◌, ◌≢◌, refl, ap, ap₂, ◌∙◌, sym, true, false, not, List, [], ◌∷◌, ◌++◌, none,
  arith, length, length-append, append_assoc, append-nil, take, take-append, All, ltb, ◌==◌,
  if◌then◌else◌,
}
use libnx.Rtp.Types.{Bytes}
use libnx.Rtp.Extension.{is_empty}
use libnx.Record.Types.{DataBlock, IndexEntry, SegmentHeader}
use libnx.Record.Layout.{segment_header_bytes, footer_bytes, le_bytes}
use libnx.Record.Layout.Codec.{le_number, length-segment_header_bytes}
use libnx.Record.SegmentBuilder.{invalid_block, file_open_failed}
use libnx.Record.SegmentBuilder.Closing.{if_false}
use libnx.Record.SegmentBuilder.Format.{
  blocks_bytes, index_of_blocks, index_bytes, open_content, segment_file,
}
use libnx.Record.SegmentRepairer.{
  FooterStatus, footer_valid, footer_missing, footer_corrupted, check_footer, ScanResult, Scan,
  scanned, scan_failed, block_at, scan_loop, scan_blocks, number_at, write_footer_at,
  repair_scanned, repair_segment, Repair, repair, repair_failed, unrepaired,
}
use libnx.Record.SegmentRepairer.Repairing.{IsBuilt, built-Found, scan_loop-ScansTo}

length-blocks_bytes : (bs : List DataBlock) → All IsBuilt bs → length bs ≤ length (blocks_bytes bs)
unfolding blocks_bytes
length-blocks_bytes [] built = omega arith
length-blocks_bytes (b ∷ bs) built =
    let f = built-Found b [] [] built.0 in
    let least = f.least in
    omega (arith, length-append b.serialized (blocks_bytes bs), length-blocks_bytes bs built.1)

cut_torn :
    (c torn : Bytes)
    → (if ltb (length c) (length (c ++ torn)) then take (length c) (c ++ torn) else c ++ torn) ≡ c
cut_torn c [] =
    let here : ltb (length c) (length (c ++ [])) ≡ false = ground (arith, length-append c []) in
    simp here (append-nil c)
cut_torn c (x ∷ torn) =
    let beyond : ltb (length c) (length (c ++ (x ∷ torn))) ≡ true =
      ground (arith, length-append c (x ∷ torn)) in
    simp beyond (take-append c (x ∷ torn) (length c) refl)

-- The file of a segment that was not closed: its blocks, and what is left of a further one.
abbrev pub torn_file : SegmentHeader → List DataBlock → Bytes → Bytes
torn_file header bs torn = open_content header bs ++ torn

header_magic :
    (header : SegmentHeader) (rest : Bytes)
    → number_at 0 2 (segment_header_bytes header ++ rest) ≡ 0xfff0
unfolding segment_header_bytes le_bytes number_at le_number
header_magic header rest = refl

header_extension :
    (header : SegmentHeader) (rest : Bytes)
    → header.extension_header_size ≡ 0
    → number_at 16 4 (segment_header_bytes header ++ rest) ≡ 0
unfolding segment_header_bytes le_bytes number_at le_number
header_extension header rest plain = ap (λ n. le_number (le_bytes 4 n)) plain

-- The result of the scan of such a file.
record ScansFile (header : SegmentHeader) (bs : List DataBlock) (torn : Bytes) : Type 0 where
  result : ScanResult
  scans : scan_blocks (torn_file header bs torn) ≡ scanned result
  count : result.block_count ≡ length bs
  indices : result.indices ≡ index_of_blocks 20 bs
  end : result.valid_end_offset ≡ (if is_empty bs then 0 else length (open_content header bs))

scan_blocks-ScansFile :
    (header : SegmentHeader) (bs : List DataBlock) (torn : Bytes)
    → header.extension_header_size ≡ 0
    → All IsBuilt bs
    → block_at (length (open_content header bs)) (torn_file header bs torn) ≡ none
    → ScansFile header bs torn
unfolding scan_blocks
scan_blocks-ScansFile header bs torn plain built stop =
    let file = torn_file header bs torn in
    let head = segment_header_bytes header in
    let head_size = length-segment_header_bytes header in
    let rest = blocks_bytes bs ++ torn in
    let p : file ≡ head ++ rest = append_assoc head (blocks_bytes bs) torn in
    let magic : number_at 0 2 file ≡ 0xfff0 = ap (number_at 0 2) p ∙ header_magic header rest in
    let extension : number_at 16 4 file ≡ 0 =
      ap (number_at 16 4) p ∙ (header_extension header rest plain) in
    let size : length file ≡ 20 + length rest =
      ap length p ∙ omega (arith, length-append head rest, head_size) in
    let long : ltb (length file) 20 ≡ false = ground (arith, size) in
    let start : ScanResult = record {
      channel_id = number_at 8 8 file;
      start_timestamp = 0;
      end_timestamp = 0;
      block_count = 0;
      valid_end_offset = 0;
      indices = [];
    } in
    let from_blocks : Scan =
      scanned (scan_loop (length file) (20 + number_at 16 4 file) file start) in
    let content_size : length (open_content header bs) ≡ length head + length (blocks_bytes bs) =
      length-append head (blocks_bytes bs) in
    let loop =
      scan_loop-ScansTo bs head torn file (length file) start built
        (omega (arith, size, length-append (blocks_bytes bs) torn, length-blocks_bytes bs built)) p
        (ap (λ n. block_at n file) (sym content_size) ∙ stop) in
    let first : 20 + number_at 16 4 file ≡ length head = omega (arith, extension, head_size) in
    record {
      result = scan_loop (length file) (length head) file start;
      scans =
          if_false (scan_failed file_open_failed)
            (if not (number_at 0 2 file == 0xfff0) then scan_failed invalid_block else from_blocks)
            long
          ∙ (if_false (scan_failed invalid_block) from_blocks (ap (λ n. not (n == 0xfff0)) magic)
              ∙ ap (λ n. scanned (scan_loop (length file) n file start)) first);
      count = omega (arith, loop.count);
      indices = loop.indices ∙ ap (λ n. index_of_blocks n bs) head_size;
      end = loop.end ∙ ap (λ n. if is_empty bs then 0 else n) (sym content_size);
    }

some_length : (bs : List DataBlock) → is_empty bs ≡ false → (length bs == 0) ≡ false
some_length [] e = absurd (ground arith)
some_length (b ∷ bs) e = ground arith

-- A file that was torn: blocks of the builder behind the header, and then something that is not a whole
-- block. Where its end does not look like a footer, `repair_segment` leaves the file that closing the
-- segment behind those blocks would have left, with the same index and footer.
pub repair_segment-torn_file :
    (header : SegmentHeader) (bs : List DataBlock) (torn : Bytes)
    → header.extension_header_size ≡ 0
    → is_empty bs ≡ false
    → All IsBuilt bs
    → block_at (length (open_content header bs)) (torn_file header bs torn) ≡ none
    → check_footer (torn_file header bs torn) ≢ footer_valid
    → (repair_segment (torn_file header bs torn)).1 ≡ segment_file header bs
unfolding repair_segment repair_scanned write_footer_at
repair_segment-torn_file header bs torn plain some_block built stop no_footer =
    status (check_footer file) refl
  where
    file : Bytes
    file = torn_file header bs torn

    v : ScansFile header bs torn
    v = scan_blocks-ScansFile header bs torn plain built stop

    end : v.result.valid_end_offset ≡ length (open_content header bs)
    end = v.end ∙ if_false 0 (length (open_content header bs)) some_block

    indices : List IndexEntry
    indices = index_of_blocks 20 bs

    done : Repair × Bytes
    done = (
      repair (record {
        repaired = true;
        channel_id = v.result.channel_id;
        start_timestamp = v.result.start_timestamp;
        end_timestamp = v.result.end_timestamp;
        block_count = v.result.block_count;
        file_size = v.result.valid_end_offset + 22 * length v.result.indices + 16;
        indices = v.result.indices;
      }),
      write_footer_at v.result.valid_end_offset v.result.indices file,
    )

    some_count : (v.result.block_count == 0) ≡ false
    some_count = ap (λ n. n == 0) v.count ∙ some_length bs some_block

    written : (repair_scanned (scan_blocks file) file).1 ≡ segment_file header bs
    written =
        ap (λ s. (repair_scanned s file).1) v.scans
        ∙ (ap (λ (r : Repair × Bytes). r.1)
              (if_false (repair_failed invalid_block, file) done some_count)
            ∙ (ap₂ (λ n is. write_footer_at n is file) end v.indices
                ∙ (ap (λ c. c ++ (index_bytes indices ++ footer_bytes (length indices)))
                      (cut_torn (open_content header bs) torn)
                    ∙ sym (
                        append_assoc (open_content header bs) (index_bytes indices)
                          (footer_bytes (length indices))))))

    status :
        (s : FooterStatus)
        → check_footer file ≡ s
        → (elim s as (λ x. Repair × Bytes) [
          | footer_valid ↦ (repair unrepaired, file)
          | footer_missing ↦ repair_scanned (scan_blocks file) file
          | footer_corrupted ↦ repair_scanned (scan_blocks file) file
        ]).1
          ≡ segment_file header bs
    status footer_valid e = absurd (no_footer e)
    status footer_missing e = written
    status footer_corrupted e = written
