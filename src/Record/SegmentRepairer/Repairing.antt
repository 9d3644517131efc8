-- ===== src/Record/SegmentRepairer/Repairing.antt =====
-- A segment that was not closed is repaired to the file that closing it would have left.
use libnx.Common.{
  ℕ, zero, suc, ◌+◌, ◌^◌, ◌<◌, ◌≤◌, ◌≡◌, refl, ap, ◌∙◌, sym, List, [], ◌∷◌, ◌++◌, Option, none,
  some, arith, length, length-append, append_assoc, append-nil, All, if◌then◌else◌, subst,
}
use libnx.Rtp.Types.{Bytes}
use libnx.Rtp.Extension.{is_empty}
use libnx.Record.Types.{BlockHeader, BlockEntryBuffer, DataBlock, IndexEntry}
use libnx.Record.BlockBuilder.{Context, entries_size, block_header}
use libnx.Record.BlockBuilder.Block.{IsFormed, block, length-block_bytes, total_size-fits}
use libnx.Record.SegmentBuilder.{index_of}
use libnx.Record.SegmentBuilder.Format.{blocks_bytes, index_of_blocks}
use libnx.Record.SegmentRepairer.{ScanResult, block_at, scanned_index, add_block, scan_loop}
use libnx.Record.SegmentRepairer.Scanning.{FitsHeader, block_at-block}
use libnx.Record.SegmentRepairer.Entries.{HasReserved, scanned_index-block}

-- A block that the block builder makes of entries whose headers are whole, with numbers that fit.
pub record IsBuilt (b : DataBlock) : Type 0 where
  pub ctx : Context
  pub first : BlockEntryBuffer
  pub others : List BlockEntryBuffer
  pub is_block : b ≡ block ctx (first ∷ others)
  pub formed : All IsFormed (first ∷ others)
  pub fits : 30 + entries_size (first ∷ others) < 2 ^ 32
  pub header_fits : FitsHeader (block_header ctx (first ∷ others))
  pub reserved : HasReserved first.entry.fields

-- What the scan finds of a block behind `pre`.
pub record Found (b : DataBlock) (pre rest : Bytes) : Type 0 where
  pub header : BlockHeader
  pub is_header : b.header ≡ some header
  pub found : block_at (length pre) (pre ++ (b.serialized ++ rest)) ≡ some header
  pub size : header.length ≡ length b.serialized
  pub least : 30 ≤ length b.serialized
  pub index :
      scanned_index (length pre) header (pre ++ (b.serialized ++ rest))
      ≡ index_of (length pre) header b.entries

pub built-Found : (b : DataBlock) (pre rest : Bytes) → IsBuilt b → Found b pre rest
built-Found b pre rest v =
    let es = v.first ∷ v.others in
    let size = length-block_bytes v.ctx es v.formed in
    subst (λ b. Found b pre rest) (sym v.is_block)
      (record {
        header = block_header v.ctx es;
        is_header = refl;
        found = block_at-block pre rest v.ctx es v.formed v.fits v.header_fits;
        size = total_size-fits es v.fits ∙ sym size;
        least = omega (arith, size);
        index =
            scanned_index-block pre rest v.ctx v.first v.others v.formed v.fits v.header_fits
              v.reserved;
      })

-- What the scan of the blocks `bs` from `offset` on adds to a result.
pub record ScansTo (r : ScanResult) (bs : List DataBlock) (offset : ℕ) (s : ScanResult)
    : Type 0 where
  pub count : s.block_count ≡ r.block_count + length bs
  pub indices : s.indices ≡ r.indices ++ index_of_blocks offset bs
  pub end :
      s.valid_end_offset
      ≡ (if is_empty bs then r.valid_end_offset else offset + length (blocks_bytes bs))

module _ (offset : ℕ) (file : Bytes) (r : ScanResult) (fuel : ℕ) where
  scan_stop : block_at offset file ≡ none → scan_loop (suc fuel) offset file r ≡ r
  unfolding scan_loop
  scan_stop e =
      ap
        (λ (o : Option BlockHeader). elim o as (λ x. ScanResult) [
          | none ↦ r
          | some h ↦ scan_loop fuel (offset + h.length) file (add_block offset h file r)
        ])
        e

  scan_next :
      (h : BlockHeader)
      → block_at offset file ≡ some h
      → scan_loop (suc fuel) offset file r
        ≡ scan_loop fuel (offset + h.length) file (add_block offset h file r)
  unfolding scan_loop
  scan_next h e =
      ap
        (λ (o : Option BlockHeader). elim o as (λ x. ScanResult) [
          | none ↦ r
          | some h ↦ scan_loop fuel (offset + h.length) file (add_block offset h file r)
        ])
        e

ending :
    (bs : List DataBlock) (size start later : ℕ) (bytes : Bytes)
    → start + size ≡ later
    → later ≡ start + length bytes
    → (if is_empty bs then start + size else later + length (blocks_bytes bs))
      ≡ start + length (bytes ++ blocks_bytes bs)
unfolding blocks_bytes
ending [] size start later bytes e f = omega (arith, length-append bytes [], e, f)
ending (b ∷ bs) size start later bytes e f =
    omega (arith, length-append bytes (b.serialized ++ blocks_bytes bs), f)

pub scan_loop-ScansTo :
    (bs : List DataBlock) (pre torn file : Bytes) (fuel : ℕ) (r : ScanResult)
    → All IsBuilt bs
    → length bs < fuel
    → file ≡ pre ++ (blocks_bytes bs ++ torn)
    → block_at (length pre + length (blocks_bytes bs)) file ≡ none
    → ScansTo r bs (length pre) (scan_loop fuel (length pre) file r)
unfolding blocks_bytes index_of_blocks
scan_loop-ScansTo [] pre torn file zero r built more p stop = absurd (omega arith)
scan_loop-ScansTo [] pre torn file (suc fuel) r built more p stop =
    let here : length pre + 0 ≡ length pre = omega arith in
    let none_here : block_at (length pre) file ≡ none =
      ap (λ n. block_at n file) (sym here) ∙ stop in
    subst (ScansTo r [] (length pre)) (sym (scan_stop (length pre) file r fuel none_here))
      (record { count = omega arith; indices = sym (append-nil r.indices); end = refl })
scan_loop-ScansTo (b ∷ bs) pre torn file zero r built more p stop = absurd (omega arith)
scan_loop-ScansTo (b ∷ bs) pre torn file (suc fuel) r built more p stop =
    let rest = blocks_bytes bs ++ torn in
    let f = built-Found b pre rest built.0 in
    let q : file ≡ pre ++ (b.serialized ++ rest) =
      p ∙ ap (λ t. pre ++ t) (append_assoc b.serialized (blocks_bytes bs) torn) in
    let q' : file ≡ (pre ++ b.serialized) ++ rest = q ∙ sym (append_assoc pre b.serialized rest) in
    let at : block_at (length pre) file ≡ some f.header = ap (block_at (length pre)) q ∙ f.found in
    let next : length pre + f.header.length ≡ length (pre ++ b.serialized) =
      omega (arith, f.size, length-append pre b.serialized) in
    let behind : length pre + length (b.serialized ++ blocks_bytes bs)
        ≡ length (pre ++ b.serialized) + length (blocks_bytes bs) =
      omega (arith, length-append pre b.serialized, length-append b.serialized (blocks_bytes bs)) in
    let r' = add_block (length pre) f.header file r in
    let ih =
      scan_loop-ScansTo bs (pre ++ b.serialized) torn file fuel r' built.1 (omega arith) q'
        (ap (λ n. block_at n file) (sym behind) ∙ stop) in
    let start : scan_loop (suc fuel) (length pre) file r
        ≡ scan_loop fuel (length (pre ++ b.serialized)) file r' =
      scan_next (length pre) file r fuel f.header at ∙ ap (λ n. scan_loop fuel n file r') next in
    let first : List IndexEntry = elim b.header as (λ x. List IndexEntry) [
      | none ↦ []
      | some h ↦ index_of (length pre) h b.entries
    ] in
    let indexed : scanned_index (length pre) f.header file ≡ first =
      ap (scanned_index (length pre) f.header) q
      ∙ (f.index
          ∙ sym (
              ap
                (λ (o : Option BlockHeader). elim o as (λ x. List IndexEntry) [
                  | none ↦ []
                  | some h ↦ index_of (length pre) h b.entries
                ])
                f.is_header)) in
    let others = index_of_blocks (length (pre ++ b.serialized)) bs in
    subst (ScansTo r (b ∷ bs) (length pre)) (sym start) (record {
      count = omega (arith, ih.count);
      indices =
          ih.indices
          ∙ (append_assoc r.indices (scanned_index (length pre) f.header file) others
              ∙ ap (λ t. r.indices ++ t)
                  (ap (λ t. t ++ others) indexed
                    ∙ ap (λ n. first ++ index_of_blocks n bs) (length-append pre b.serialized)));
      end =
          ih.end
          ∙ ending bs f.header.length (length pre) (length (pre ++ b.serialized)) b.serialized next
              (length-append pre b.serialized);
    })
