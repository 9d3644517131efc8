-- ===== src/Record/SegmentBuilder/Appending.antt =====
-- What `write_block` does on a system where every call succeeds.
use libnx.Common.{
  ◌+◌, ◌≡◌, ap, ◌∙◌, sym, inl, inr, Bool, true, false, not, List, [], ◌∷◌, ◌++◌, Option, none, some,
  length, if◌then◌else◌, Bool-cases, subst₂,
}
use libnx.Rtp.Types.{Bytes}
use libnx.Rtp.Extension.{is_empty}
use libnx.Record.Types.{BlockHeader, DataBlock}
use libnx.Record.FileStream.{File, without_file, is_open}
use libnx.Record.SegmentBuilder.{
  Options, Context, SegmentBuilder, RecordErrc, WriteResult, failed, invalid_block, empty_block,
  close_current_segment, prepared, rotated, create_new_segment, check_and_rotate_segment,
  prepare_segment, write_block,
}
use libnx.Record.SegmentBuilder.Format.{segment_file}
use libnx.Record.SegmentBuilder.Closing.{
  if_true, if_false, quiet, IsOpen, close_current_segment-IsClosed,
}
use libnx.Record.SegmentBuilder.Writing.{Appends, Appends-via, append_block-Appends}
use libnx.Record.SegmentBuilder.Creating.{
  wanted_path, chosen_path, Creates, create_new_segment-Creates,
}

module _ (options : Options) (has_parent : Bytes → Bool) (h : BlockHeader) (block : DataBlock)
    (has_header : block.header ≡ some h) (filled : is_empty block.serialized ≡ false) where
  write_block-prepared :
      (s : SegmentBuilder)
      → write_block options has_parent block s
        ≡ prepared options h block (prepare_segment options has_parent h block s)
  unfolding write_block
  write_block-prepared s =
      ap
        (λ (o : Option BlockHeader). elim o as (λ x. WriteResult × SegmentBuilder) [
          | none ↦ (failed invalid_block, s)
          | some k ↦
              if is_empty block.serialized
              then (failed empty_block, s)
              else prepared options k block (prepare_segment options has_parent k block s)
        ])
        has_header
      ∙ if_false (failed empty_block, s)
          (prepared options h block (prepare_segment options has_parent h block s)) filled

  created-Appends :
      (s : SegmentBuilder) (files : List File)
      → Creates options has_parent h.start_timestamp s files
      → Appends options block
          (prepared options h block (create_new_segment options has_parent h.start_timestamp s))
          (without_file (chosen_path options h.start_timestamp s) files)
          []
  unfolding prepared
  created-Appends s files c = Appends-via (ap (prepared options h block) c.result) (
      append_block-Appends options h block has_header c.after
        (without_file (chosen_path options h.start_timestamp s) files) [] c.open_now)

  -- The first block: where no file is open and no call fails, a block is written to a new file, which
  -- takes the place of one of that path.
  pub write_block-first :
      (s : SegmentBuilder) (files : List File)
      → s.file ≡ quiet files none
      → is_empty (wanted_path options h.start_timestamp s) ≡ false
      → is_empty (chosen_path options h.start_timestamp s) ≡ false
      → Appends options block
          (write_block options has_parent block s)
          (without_file (chosen_path options h.start_timestamp s) files)
          []
  unfolding prepare_segment
  write_block-first s files p named chosen =
      let closed : is_open s.file ≡ false = ap is_open p in
      Appends-via
        (write_block-prepared s
          ∙ ap
              (λ (o : Bool). prepared options h block (
                if not o
                then create_new_segment options has_parent h.start_timestamp s
                else check_and_rotate_segment options has_parent block s))
              closed)
        (created-Appends s files
          (create_new_segment-Creates options has_parent h.start_timestamp s files p named chosen))

  -- The context that the options see before a block is written.
  abbrev pub simulated : SegmentBuilder → Context
  simulated s = record {
    start_timestamp = s.ctx.start_timestamp;
    end_timestamp = h.end_timestamp;
    block_count = s.ctx.block_count + 1;
    file_size = s.ctx.file_size + length block.serialized;
  }

  prepare_segment-open :
      (s : SegmentBuilder)
      → is_open s.file ≡ true
      → prepare_segment options has_parent h block s ≡ (
          if options.should_finish_segment (simulated s)
          then rotated options (
              create_new_segment options has_parent h.start_timestamp
                (close_current_segment options s))
          else (none, s))
  unfolding prepare_segment check_and_rotate_segment
  prepare_segment-open s opened =
      if_false (create_new_segment options has_parent h.start_timestamp s)
        (check_and_rotate_segment options has_parent block s) (ap not opened)
      ∙ ap
          (λ (o : Option BlockHeader). elim o as (λ x. Option RecordErrc × SegmentBuilder) [
            | none ↦ (some invalid_block, s)
            | some k ↦
                if options.should_finish_segment (record {
                  start_timestamp = s.ctx.start_timestamp;
                  end_timestamp = k.end_timestamp;
                  block_count = s.ctx.block_count + 1;
                  file_size = s.ctx.file_size + length block.serialized;
                })
                then rotated options (
                    create_new_segment options has_parent k.start_timestamp
                      (close_current_segment options s))
                else (none, s)
          ])
          has_header

  -- The segment files on the disk and the blocks of the open one, before a block is written.
  abbrev pub files_before : SegmentBuilder → List File → List DataBlock → List File
  files_before s files bs =
      if options.should_finish_segment (simulated s)
      then without_file (chosen_path options h.start_timestamp (close_current_segment options s)) (
          files
          ++ (record {
            path = s.current_path;
            content = segment_file options.create_segment_header bs;
          }
              ∷ []))
      else files

  abbrev pub blocks_before : SegmentBuilder → List DataBlock → List DataBlock
  blocks_before s bs = if options.should_finish_segment (simulated s) then [] else bs

  -- A block that is written to an open segment, where no call fails: it goes behind the blocks that are
  -- there or, where the options say that the segment would be finished with it, is the first of a new
  -- file, and the open one is complete on the disk, unless the new one takes its place.
  pub write_block-Appends :
      (s : SegmentBuilder) (files : List File) (bs : List DataBlock)
      → IsOpen options s files bs
      → is_empty (wanted_path options h.start_timestamp (close_current_segment options s)) ≡ false
      → is_empty (chosen_path options h.start_timestamp (close_current_segment options s)) ≡ false
      → Appends options block
          (write_block options has_parent block s)
          (files_before s files bs)
          (blocks_before s bs)
  unfolding prepared rotated
  write_block-Appends s files bs v named chosen =
      let t = h.start_timestamp in
      let s' = close_current_segment options s in
      let done : List File =
        files
        ++ (record {
          path = s.current_path;
          content = segment_file options.create_segment_header bs;
        }
            ∷ []) in
      let c =
        create_new_segment-Creates options has_parent t s' done
          (close_current_segment-IsClosed options s files bs v).file named chosen in
      let rotation = rotated options (create_new_segment options has_parent t s') in
      let start =
        write_block-prepared s
        ∙ ap (prepared options h block) (prepare_segment-open s (ap is_open v.file)) in
      elim (Bool-cases (options.should_finish_segment (simulated s))) [
        | inl y ↦
            subst₂ (Appends options block (write_block options has_parent block s))
              (sym (if_true _ files y)) (sym (if_true [] bs y))
              (Appends-via
                (start
                  ∙ ap (prepared options h block)
                      (if_true rotation (none, s) y ∙ ap (rotated options) c.result))
                (append_block-Appends options h block has_header c.after
                  (without_file (chosen_path options t s') done) [] c.open_now))
        | inr n ↦
            subst₂ (Appends options block (write_block options has_parent block s))
              (sym (if_false _ files n)) (sym (if_false [] bs n))
              (Appends-via (start ∙ ap (prepared options h block) (if_false rotation (none, s) n))
                (append_block-Appends options h block has_header s files bs v))
      ]
