-- ===== src/Record/SegmentBuilder/Closing.antt =====
-- An open segment on a system where every call succeeds, and what closing it leaves.
use libnx.Common.{
  ℕ, ◌+◌, ◌*◌, ◌≡◌, refl, ap, ◌∙◌, sym, Bool, true, false, List, [], ◌∷◌, ◌++◌, Option, none, some,
  arith, length, length-append, append_assoc, append-nil, ◌==◌, ==_iff, if◌then◌else◌,
}
use libnx.Rtp.Types.{Bytes}
use libnx.Rtp.Extension.{is_empty}
use libnx.Record.Types.{DataBlock, IndexEntry, SegmentHeader}
use libnx.Record.Layout.{index_entry_bytes, footer_bytes}
use libnx.Record.Layout.Codec.{length-index_entry_bytes, length-footer_bytes}
use libnx.Record.FileStream.{
  FileStream, File, write_struct, write, flush, next_call, close, is_open,
}
use libnx.Record.SegmentBuilder.{
  Options, Context, SegmentBuilder, DataSyncLevel, sync_none, sync_normal, sync_full, RecordErrc,
  on_file, write_entries, write_segment_footer, sync_to_disk, close_current_segment,
  cleared_context, sync_at, flushed, finish_segment, reset_state,
}
use libnx.Record.SegmentBuilder.Format.{index_of_blocks, index_bytes, open_content, segment_file}

-- A stream over those files, with no call that fails.
abbrev pub quiet : List File → Option File → FileStream
quiet files opened = record { os = record { files = files; outcomes = [] }; opened = opened }

-- The file of the path `path` is open and holds the blocks `bs`, and the rest of the state says so.
pub record IsOpen (options : Options) (s : SegmentBuilder) (files : List File) (bs : List DataBlock)
    : Type 0 where
  pub file :
      s.file
      ≡ quiet files (
          some (record {
            path = s.current_path;
            content = open_content options.create_segment_header bs;
          }))
  pub named : is_empty s.current_path ≡ false
  pub indices : s.index_entries ≡ index_of_blocks 20 bs
  pub size : s.ctx.file_size ≡ length (open_content options.create_segment_header bs)
  pub count : s.ctx.block_count ≡ length bs

module _ {A : Type 0} {c : Bool} (x y : A) where
  pub if_true : c ≡ true → (if c then x else y) ≡ x
  if_true p = simp p refl

  pub if_false : c ≡ false → (if c then x else y) ≡ y
  if_false p = simp p refl

same_length : (n : ℕ) → (n == n) ≡ true
same_length n = (==_iff n n).1 refl

pub write_struct-quiet :
    (files : List File) (f : File) (bytes : Bytes)
    → write_struct bytes (quiet files (some f))
      ≡ (true, quiet files (some (record f { content = f.content ++ bytes })))
unfolding write_struct write
write_struct-quiet files f bytes = simp (same_length (length bytes)) refl

write_entries-quiet :
    (es : List IndexEntry) (s : SegmentBuilder) (files : List File) (f : File)
    → s.file ≡ quiet files (some f)
    → write_entries es s ≡ (
      true,
      record s { file = quiet files (some (record f { content = f.content ++ index_bytes es })) },
    )
unfolding write_entries index_bytes
write_entries-quiet [] s files f p =
    rw (append-nil f.content) (ap (λ (x : FileStream). (true, record s { file = x })) p)
write_entries-quiet (e ∷ es) s files f p =
    let g : File = record f { content = f.content ++ index_entry_bytes e } in
    simp (p, write_struct-quiet files f (index_entry_bytes e))
      (write_entries-quiet es (record s { file = quiet files (some g) }) files g refl
        ∙ ap
            (λ (c : Bytes).
              (true, record s { file = quiet files (some (record f { content = c })) }))
            (append_assoc f.content (index_entry_bytes e) (index_bytes es)))

-- The state behind the footer.
abbrev footed : List File → File → SegmentBuilder → SegmentBuilder
footed files f s = record s {
  file = quiet files (
      some (record f {
        content =
            (f.content ++ index_bytes s.index_entries) ++ footer_bytes (length s.index_entries);
      }));
  ctx = record (s.ctx) { file_size = s.ctx.file_size + 22 * length s.index_entries + 16 };
}

write_segment_footer-quiet :
    (s : SegmentBuilder) (files : List File) (f : File)
    → s.file ≡ quiet files (some f)
    → write_segment_footer s ≡ (none, footed files f s)
unfolding write_segment_footer
write_segment_footer-quiet s files f p =
    let es = s.index_entries in
    let g : File = record f { content = f.content ++ index_bytes es } in
    let opened : is_open s.file ≡ true = ap is_open p in
    simp
      (
        opened,
        write_entries-quiet es s files f p,
        write_struct-quiet files g (footer_bytes (length es)),
      )
      refl

flush-quiet :
    (s : SegmentBuilder) (files : List File) (f : File)
    → s.file ≡ quiet files (some f)
    → on_file flush s ≡ (true, s)
unfolding flush next_call
flush-quiet s files f p = simp p (ap (λ (x : FileStream). (true, record s { file = x })) (sym p))

sync_at-quiet :
    (l : DataSyncLevel) (s : SegmentBuilder) (files : List File) (f : File)
    → s.file ≡ quiet files (some f)
    → sync_at l s ≡ (none, s)
unfolding sync_at
sync_at-quiet sync_none s files f p = refl
sync_at-quiet sync_normal s files f p = refl
sync_at-quiet sync_full s files f p = ap flushed (flush-quiet s files f p)

pub sync_to_disk-quiet :
    (options : Options) (s : SegmentBuilder) (files : List File) (f : File)
    → s.file ≡ quiet files (some f)
    → sync_to_disk options s ≡ (none, s)
unfolding sync_to_disk
sync_to_disk-quiet options s files f p =
    let opened : is_open s.file ≡ true = ap is_open p in
    simp opened (sync_at-quiet options.data_sync_level s files f p)

-- What `close_current_segment` leaves of an open segment: the file is complete, the owner has been told
-- of it, and the builder is as if it were new.
pub record IsClosed (options : Options) (s s' : SegmentBuilder) (files : List File)
    (bs : List DataBlock) : Type 0 where
  pub file :
      s'.file
      ≡ quiet
          (files
            ++ (record {
              path = s.current_path;
              content = segment_file options.create_segment_header bs;
            }
                ∷ []))
          none
  pub reported :
      (ctx : Context) × ((s'.finished
          ≡ s.finished
            ++ (record { path = s.current_path; ctx = ctx; indices = index_of_blocks 20 bs } ∷ []))
        × ((ctx.file_size ≡ length (segment_file options.create_segment_header bs))
            × (ctx.block_count ≡ length bs)))
  pub reset :
      (s'.ctx ≡ cleared_context)
      × ((s'.index_entries ≡ []) × ((s'.current_path ≡ []) × (s'.unflushed_blocks ≡ 0)))

length-index_bytes : (es : List IndexEntry) → length (index_bytes es) ≡ 22 * length es
unfolding index_bytes
length-index_bytes [] = refl
length-index_bytes (e ∷ es) = omega (
  arith,
  length-append (index_entry_bytes e) (index_bytes es),
  length-index_entry_bytes e,
  length-index_bytes es,
)

abbrev file_of : Options → SegmentBuilder → List DataBlock → File
file_of options s bs = record {
  path = s.current_path;
  content = open_content options.create_segment_header bs;
}

close-open :
    (options : Options) (s : SegmentBuilder) (files : List File) (bs : List DataBlock)
    → IsOpen options s files bs
    → close_current_segment options s
      ≡ reset_state (finish_segment (footed files (file_of options s bs) s))
unfolding close_current_segment
close-open options s files bs v =
    let f = file_of options s bs in
    let opened : is_open s.file ≡ true = ap is_open v.file in
    let g : File = record f {
      content = (f.content ++ index_bytes s.index_entries) ++ footer_bytes (length s.index_entries);
    } in
    simp opened (
      ap
        (λ (r : Option RecordErrc × SegmentBuilder).
          reset_state (finish_segment (sync_to_disk options r.1).1))
        (write_segment_footer-quiet s files f v.file)
      ∙ ap (λ (r : Option RecordErrc × SegmentBuilder). reset_state (finish_segment r.1))
          (sync_to_disk-quiet options (footed files f s) files g refl))

length-segment_file :
    (header : SegmentHeader) (bs : List DataBlock)
    → length (segment_file header bs)
      ≡ length (open_content header bs) + 22 * length (index_of_blocks 20 bs) + 16
length-segment_file header bs =
    let es = index_of_blocks 20 bs in
    omega (
      arith,
      length-append (open_content header bs ++ index_bytes es) (footer_bytes (length es)),
      length-append (open_content header bs) (index_bytes es),
      length-index_bytes es,
      length-footer_bytes (length es),
    )

-- Closing an open segment where no call fails: the file on the disk is the segment file of the blocks,
-- header, blocks, index and footer; `on_segment_finished` gets its path, its size, the number of its
-- blocks and the index; and the builder is as a new one.
pub close_current_segment-IsClosed :
    (options : Options) (s : SegmentBuilder) (files : List File) (bs : List DataBlock)
    → IsOpen options s files bs
    → IsClosed options s (close_current_segment options s) files bs
unfolding close finish_segment reset_state
close_current_segment-IsClosed options s files bs v =
    let header = options.create_segment_header in
    let es = index_of_blocks 20 bs in
    let size : s.ctx.file_size + 22 * length s.index_entries + 16
        ≡ length (segment_file header bs) =
      simp (v.indices, v.size) (sym (length-segment_file header bs)) in
    simp (close-open options s files bs v) (record {
      file = simp v.indices refl;
      reported = (
        record (s.ctx) { file_size = s.ctx.file_size + 22 * length s.index_entries + 16 },
        (simp (v.indices, v.named) refl, (size, v.count)),
      );
      reset = (refl, (refl, (refl, refl)));
    })
