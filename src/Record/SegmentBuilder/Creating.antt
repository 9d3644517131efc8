-- ===== src/Record/SegmentBuilder/Creating.antt =====
-- A new segment file, and what `write_block` does, on a system where every call succeeds.
use libnx.Common.{
  ℕ, ◌≡◌, refl, ap, ◌∙◌, sym, inl, inr, Bool, true, false, List, [], ◌∷◌, ◌++◌, Option, none, some,
  arith, length-append, append-nil, ◌-◌, if◌then◌else◌, Bool-cases,
}
use libnx.Rtp.Types.{Bytes}
use libnx.Rtp.Extension.{is_empty}
use libnx.Record.Layout.{segment_header_bytes}
use libnx.Record.Layout.Codec.{length-segment_header_bytes}
use libnx.Record.FileStream.{
  FileStream, File, next_call, open_truncate, without_file, exists, is_open,
}
use libnx.Record.SegmentBuilder.{
  Options, SegmentBuilder, RecordErrc, header_write_failed, file_open_failed, on_file,
  close_current_segment, header_synced, header_written, file_opened, directory_made,
  write_segment_header, create_new_segment, next_free,
}
use libnx.Record.SegmentBuilder.Format.{blocks_bytes, index_of_blocks}
use libnx.Record.SegmentBuilder.Closing.{
  if_true, if_false, quiet, IsOpen, write_struct-quiet, sync_to_disk-quiet,
}

-- A builder that has no file open, over those files.
pub record IsIdle (s : SegmentBuilder) (files : List File) : Type 0 where
  pub file : s.file ≡ quiet files none
  pub reset : s.unflushed_blocks ≡ 0

-- The path that `create_new_segment` takes at that time.
abbrev pub wanted_path : Options → ℕ → SegmentBuilder → Bytes
wanted_path options t s = options.make_segment_path t (options.get_next_sequence s.ctx)

unfoldable pub chosen_path : Options → ℕ → SegmentBuilder → Bytes
chosen_path options t s =
    let wanted = options.get_next_sequence s.ctx in
    options.make_segment_path t (
      if exists (wanted_path options t s) s.file
      then next_free options (999 - wanted) t wanted s.file
      else wanted)

module _ (options : Options) (has_parent : Bytes → Bool) (t : ℕ) where
  -- A new segment: `create_new_segment` succeeds, and its file holds the header.
  pub record Creates (s : SegmentBuilder) (files : List File) : Type 0 where
    pub after : SegmentBuilder
    pub result : create_new_segment options has_parent t s ≡ (none, after)
    pub open_now : IsOpen options after (without_file (chosen_path options t s) files) []
    pub path : after.current_path ≡ chosen_path options t s

  directory_made-quiet :
      (path : Bytes) (sequence : ℕ) (s : SegmentBuilder) (files : List File)
      → s.file ≡ quiet files none
      → directory_made options t path sequence (true, s) ≡ (
        none,
        record s {
          file = quiet (without_file path files) (
              some (record {
                path = path;
                content = segment_header_bytes options.create_segment_header;
              }));
          current_path = path;
          current_sequence = sequence;
          ctx = record { start_timestamp = t; end_timestamp = t; block_count = 0; file_size = 20 };
          index_entries = [];
        },
      )
  unfolding directory_made file_opened header_written header_synced open_truncate next_call
      write_segment_header
  directory_made-quiet path sequence s files p =
      let files' = without_file path files in
      let header = segment_header_bytes options.create_segment_header in
      let empty : File = record { path = path; content = [] } in
      let s1 : SegmentBuilder = record s { file = quiet files' (some empty) } in
      let full : File = record { path = path; content = header } in
      let s2 : SegmentBuilder = record s { file = quiet files' (some full) } in
      ap
        (λ (x : FileStream).
          file_opened options t path sequence
            (on_file (open_truncate path) (record s { file = x })))
        p
      ∙ (ap
            (λ (r : Bool × FileStream). header_written options t path sequence (
              if r.0
              then (none, record s1 { file = r.1 })
              else (some header_write_failed, record s1 { file = r.1 })))
            (write_struct-quiet files' empty header)
          ∙ ap (header_synced options t path sequence)
              (sync_to_disk-quiet options s2 files' full refl))

  -- The directory of the path.
  directory-quiet :
      (path : Bytes) (s : SegmentBuilder) (files : List File)
      → s.file ≡ quiet files none
      → (if has_parent path then on_file next_call s else (true, s)) ≡ (true, s)
  unfolding next_call
  directory-quiet path s files p =
      let made : on_file next_call s ≡ (true, s) =
        ap (λ (x : FileStream). let (ok, file) = next_call x in (ok, record s { file = file })) p
        ∙ ap (λ (x : FileStream). (true, record s { file = x })) (sym p) in
      elim (Bool-cases (has_parent path)) [
        | inl y ↦ if_true (on_file next_call s) (true, s) y ∙ made
        | inr n ↦ if_false (on_file next_call s) (true, s) n
      ]

  pub create_new_segment-Creates :
      (s : SegmentBuilder) (files : List File)
      → s.file ≡ quiet files none
      → is_empty (wanted_path options t s) ≡ false
      → is_empty (chosen_path options t s) ≡ false
      → Creates s files
  unfolding create_new_segment chosen_path blocks_bytes index_of_blocks
  create_new_segment-Creates s files p named chosen =
      let wanted = options.get_next_sequence s.ctx in
      let conflict = exists (wanted_path options t s) s.file in
      let sequence : ℕ =
        if conflict then next_free options (999 - wanted) t wanted s.file else wanted in
      let path = options.make_segment_path t sequence in
      let noted : SegmentBuilder = record s {
        conflicts = s.conflicts ++ ((wanted_path options t s, t, sequence) ∷ []);
      } in
      let s1 : SegmentBuilder = if conflict then noted else s in
      let p1 : s1.file ≡ quiet files none = elim (Bool-cases conflict) [
        | inl y ↦ ap (λ (x : SegmentBuilder). x.file) (if_true noted s y) ∙ p
        | inr n ↦ ap (λ (x : SegmentBuilder). x.file) (if_false noted s n) ∙ p
      ] in
      let closed : is_open s1.file ≡ false = ap is_open p1 in
      let start : SegmentBuilder → Option RecordErrc × SegmentBuilder = λ x.
        directory_made options t path sequence
          (if has_parent path then on_file next_call x else (true, x)) in
      record {
        after = _;
        result =
            if_false (some file_open_failed, s)
              (start (if is_open s1.file then close_current_segment options s1 else s1)) named
            ∙ (ap start (if_false (close_current_segment options s1) s1 closed)
                ∙ (ap (directory_made options t path sequence) (directory-quiet path s1 files p1)
                    ∙ directory_made-quiet path sequence s1 files p1));
        open_now = record {
          file =
              ap (λ c. quiet (without_file path files) (some (record { path = path; content = c })))
                (sym (append-nil (segment_header_bytes options.create_segment_header)));
          named = chosen;
          indices = refl;
          size = omega (
            arith,
            length-append (segment_header_bytes options.create_segment_header) [],
            length-segment_header_bytes options.create_segment_header,
          );
          count = refl;
        };
        path = refl;
      }
