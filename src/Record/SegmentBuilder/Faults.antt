-- ===== src/Record/SegmentBuilder/Faults.antt =====
-- Names that are taken, and writes that end early.
use libnx.Common.{
  ℕ, zero, suc, ◌+◌, ◌-◌, ◌≤◌, ◌≡◌, refl, ap, sym, ◌⊎◌, inl, inr, true, false, List, [], ◌∷◌, ◌++◌,
  none, some, arith, length, take, leb, if◌then◌else◌, Bool-cases, subst,
}
use libnx.Record.Types.{BlockHeader, DataBlock}
use libnx.Record.FileStream.{FileStream, File, exists, write, tell, is_open}
use libnx.Record.SegmentBuilder.{
  Options, SegmentBuilder, sync_none, WriteResult, wrote, failed, file_write_failed, index_of,
  next_free, append_block, block_written, block_synced, sync_to_disk, sync_at,
}
use libnx.Record.SegmentBuilder.Closing.{if_true, if_false}
use libnx.Record.SegmentBuilder.Creating.{wanted_path, chosen_path}

-- From a sequence number on, the loop stops at a free name or at the last number.
next_free-stops :
    (options : Options) (t left sequence : ℕ) (file : FileStream)
    → let found = next_free options left t sequence file in
      (exists (options.make_segment_path t found) file ≡ false) ⊎ (found ≡ left + sequence)
unfolding next_free
next_free-stops options t zero sequence file = inr (omega arith)
next_free-stops options t (suc left) sequence file =
    let rest = next_free options left t (sequence + 1) file in
    let Stops : ℕ → Type 0 = λ found.
      (exists (options.make_segment_path t found) file ≡ false) ⊎ (found ≡ suc left + sequence) in
    elim (Bool-cases (exists (options.make_segment_path t sequence) file)) [
      | inl taken ↦
          subst Stops (sym (if_true rest sequence taken))
            (elim (next_free-stops options t left (sequence + 1) file) [
              | inl free ↦ inl free
              | inr last ↦ inr (omega (arith, last))
            ])
      | inr free ↦ subst Stops (sym (if_false rest sequence free)) (inl free)
    ]

-- The path of a new segment is not taken, unless it is the one with the number 999: the file of that
-- name is then opened to be truncated.
pub chosen_path-free :
    (options : Options) (t : ℕ) (s : SegmentBuilder)
    → options.get_next_sequence s.ctx ≤ 999
    → (exists (chosen_path options t s) s.file ≡ false)
      ⊎ (chosen_path options t s ≡ options.make_segment_path t 999)
unfolding chosen_path
chosen_path-free options t s h =
    let wanted = options.get_next_sequence s.ctx in
    let found = next_free options (999 - wanted) t wanted s.file in
    let Free : ℕ → Type 0 = λ n.
      (exists (options.make_segment_path t n) s.file ≡ false)
      ⊎ (options.make_segment_path t n ≡ options.make_segment_path t 999) in
    elim (Bool-cases (exists (wanted_path options t s) s.file)) [
      | inl taken ↦
          subst Free (sym (if_true found wanted taken))
            (elim (next_free-stops options t (999 - wanted) wanted s.file) [
              | inl free ↦ inl free
              | inr last ↦
                  let is_last : found ≡ 999 = omega (arith, last) in
                  inr (ap (options.make_segment_path t) is_last)
            ])
      | inr free ↦ subst Free (sym (if_false found wanted free)) (inl free)
    ]

-- A result that claims the whole block, of which the file got `n` bytes.
record ClaimsAll (block : DataBlock) (s : SegmentBuilder) (f : File) (n : ℕ)
    (r : WriteResult × SegmentBuilder) : Type 0 where
  pub result : r.0 ≡ wrote (length block.serialized)
  pub size : r.1.ctx.file_size ≡ s.ctx.file_size + length block.serialized
  pub content : r.1.file.opened ≡ some (record f { content = f.content ++ take n block.serialized })

-- The sync behind it changes nothing of that.
unsynced :
    (options : Options) (h : BlockHeader) (block : DataBlock) (s2 s : SegmentBuilder) (f : File)
    (n : ℕ)
    → options.data_sync_level ≡ sync_none
    → is_open s2.file ≡ true
    → ClaimsAll block s f n (wrote (length block.serialized), s2)
    → ClaimsAll block s f n (block_synced options block (sync_to_disk options s2))
unfolding sync_to_disk sync_at block_synced
unsynced options h block s2 s f n level opened c =
    simp (opened, level) (record { result = refl; size = c.size; content = c.content })

-- A `write` of the operating system that takes only `n` bytes of a block, where nothing is synced:
-- `append_block` returns the size of the whole block and adds it to the size of the file.
append_block-ClaimsAll :
    (options : Options) (h : BlockHeader) (block : DataBlock) (s : SegmentBuilder)
    (files : List File) (f : File) (n : ℕ)
    → options.data_sync_level ≡ sync_none
    → s.file ≡ record { os = record { files = files; outcomes = some n ∷ [] }; opened = some f }
    → ClaimsAll block s f n (append_block options h block s)
unfolding append_block write tell block_written
append_block-ClaimsAll options h block s files f n level p =
    let g : File = record f { content = f.content ++ take n block.serialized } in
    let s2 : SegmentBuilder = record s {
      file = record { os = record { files = files; outcomes = [] }; opened = some g };
      ctx = record {
        start_timestamp = s.ctx.start_timestamp;
        end_timestamp = h.end_timestamp;
        block_count = s.ctx.block_count + 1;
        file_size = s.ctx.file_size + length block.serialized;
      };
      index_entries = s.index_entries ++ index_of (length f.content) h block.entries;
      unflushed_blocks = s.unflushed_blocks + 1;
    } in
    let now = block_synced options block (sync_to_disk options s2) in
    let not_now : WriteResult × SegmentBuilder = (wrote (length block.serialized), s2) in
    let e : append_block options h block s
        ≡ (if leb options.sync_blocks (s.unflushed_blocks + 1) then now else not_now) =
      ap
        (λ (file : FileStream). elim (tell file) as (λ x. WriteResult × SegmentBuilder) [
          | none ↦ (failed file_write_failed, s)
          | some offset ↦ block_written options h block offset s (write block.serialized file)
        ])
        p in
    let claims : ClaimsAll block s f n not_now = record {
      result = refl;
      size = refl;
      content = refl;
    } in
    let Claims : WriteResult × SegmentBuilder → Type 0 = ClaimsAll block s f n in
    subst Claims (sym e) (elim (Bool-cases (leb options.sync_blocks (s.unflushed_blocks + 1))) [
      | inl due ↦
          subst Claims (sym (if_true now not_now due))
            (unsynced options h block s2 s f n level refl claims)
      | inr later ↦ subst Claims (sym (if_false now not_now later)) claims
    ])
