-- ===== src/Record/BlockBuilder/Adding.antt =====
-- The state that the operations keep, and that no entry is lost.
use libnx.Common.{
  ℕ, ◌+◌, ◌^◌, ◌<◌, ◌≤◌, ◌≡◌, ◌⊎◌, inl, inr, refl, sym, ap, ◌∙◌, true, false, ◌||◌, List, [], ◌∷◌,
  ◌++◌, Option, some, map, arith, length, append_assoc, append-nil, All, All-append, ltb,
  if◌then◌else◌, Bool-cases,
}
use mathlib.Core.List.{Permᴰ}
use mathlib.Core.List.Permᴰ
use libnx.Rtp.Extension.{is_empty}
use libnx.Record.Types.{BlockEntry, BlockEntryBuffer, BlockHeader, DataBlock}
use libnx.Record.BlockBuilder.{
  Context, BlockBuilder, clear, entries_size, is_keyframe, block_header,
  calculate_entry_end_timestamp, finalize_current_block, append_entry,
}
use libnx.Record.BlockBuilder.Block.{
  IsFormed, block, length-block_bytes, total_size-fits, make_block-formed,
}
use libnx.Record.BlockBuilder.Batch.{
  All-perm, map-perm, any_keyframe, entries_size-perm, entries_size-append, any_keyframe-append,
}

-- The length in the header is that of the bytes, and the two time stamps bound every entry.
pub record IsSound (b : DataBlock) : Type 0 where
  pub header : BlockHeader
  pub is_header : b.header ≡ some header
  pub size : header.length ≡ length b.serialized
  pub lower : All (λ (e : BlockEntry). header.start_timestamp ≤ e.timestamp) b.entries
  pub upper :
      All (λ (e : BlockEntry). calculate_entry_end_timestamp e ≤ header.end_timestamp) b.entries

abbrev StartsBy : ℕ → BlockEntryBuffer → Type 0
StartsBy start e = start ≤ e.entry.timestamp

abbrev EndsBy : ℕ → BlockEntryBuffer → Type 0
EndsBy end e = calculate_entry_end_timestamp e.entry ≤ end

-- The context is that of the pending entries, and the blocks that wait are sound.
pub record IsBuilder (b : BlockBuilder) : Type 0 where
  pub formed : All IsFormed b.pending_entries
  pub counted : b.ctx.pending_count ≡ length b.pending_entries
  pub sized : b.ctx.pending_bytes ≡ entries_size b.pending_entries
  pub keyed : b.ctx.contains_keyframe ≡ any_keyframe b.pending_entries
  pub lower : All (StartsBy b.ctx.start_timestamp) b.pending_entries
  pub upper : All (EndsBy b.ctx.end_timestamp) b.pending_entries
  pub blocks : All IsSound b.blocks

All-map :
    {A B : Type 0} (P : B → Type 0) (f : A → B) (xs : List A)
    → All (λ x. P (f x)) xs
    → All P (map f xs)
All-map P f [] h = tt
All-map P f (x ∷ xs) h = (h.0, All-map P f xs h.1)

All-weaken :
    {A : Type 0} (P Q : A → Type 0) → ((x : A) → P x → Q x) → (xs : List A) → All P xs → All Q xs
All-weaken P Q f [] h = tt
All-weaken P Q f (x ∷ xs) h = (f x h.0, All-weaken P Q f xs h.1)

-- The entries of a queue of blocks, and all that the builder holds, the pending ones last.
unfoldable pub entries_of_blocks : List DataBlock → List BlockEntry
entries_of_blocks [] = []
entries_of_blocks (b ∷ bs) = b.entries ++ entries_of_blocks bs

abbrev pub entries_of : BlockBuilder → List BlockEntry
entries_of b = entries_of_blocks b.blocks ++ map (λ e. e.entry) b.pending_entries

entries_of_blocks-append :
    (bs : List DataBlock) (b : DataBlock)
    → entries_of_blocks (bs ++ (b ∷ [])) ≡ entries_of_blocks bs ++ b.entries
unfolding entries_of_blocks
entries_of_blocks-append [] b = append-nil b.entries
entries_of_blocks-append (x ∷ bs) b =
    ap (λ t. x.entries ++ t) (entries_of_blocks-append bs b)
    ∙ sym (append_assoc x.entries (entries_of_blocks bs) b.entries)

block-IsSound :
    (ctx : Context) (es : List BlockEntryBuffer)
    → All IsFormed es
    → 30 + entries_size es < 2 ^ 32
    → All (StartsBy ctx.start_timestamp) es
    → All (EndsBy ctx.end_timestamp) es
    → IsSound (block ctx es)
block-IsSound ctx es formed fits lower upper = record {
  header = block_header ctx es;
  is_header = refl;
  size = total_size-fits es fits ∙ sym (length-block_bytes ctx es formed);
  lower = All-map (λ (e : BlockEntry). ctx.start_timestamp ≤ e.timestamp) (λ e. e.entry) es lower;
  upper =
      All-map (λ (e : BlockEntry). calculate_entry_end_timestamp e ≤ ctx.end_timestamp)
        (λ e. e.entry) es upper;
}

-- What holds of the result `r` of an operation that brings in the entries `more`.
pub record Keeps (b : BlockBuilder) (more : List BlockEntry) (r : Option BlockBuilder)
    : Type 0 where
  pub after : BlockBuilder
  pub returns : r ≡ some after
  pub sound : IsBuilder after
  pub kept : Permᴰ (entries_of after) (entries_of b ++ more)

pub lower-append :
    (es : List BlockEntryBuffer) (e : BlockEntryBuffer) (start : ℕ)
    → All (StartsBy start) es
    → (is_empty es ≡ true) ⊎ (start ≤ e.entry.timestamp)
    → All (StartsBy (if is_empty es then e.entry.timestamp else start)) (es ++ (e ∷ []))
lower-append [] e start h c = (omega arith, tt)
lower-append (x ∷ es) e start h c =
    All-append (StartsBy start) (x ∷ es) (e ∷ []) h (ground arith, tt)

pub upper-append :
    (es : List BlockEntryBuffer) (e : BlockEntryBuffer) (end : ℕ)
    → All (EndsBy end) es
    → let end' : ℕ = if is_empty es then e.entry.timestamp else end in
      let last = calculate_entry_end_timestamp e.entry in
      All (EndsBy (if ltb end' last then last else end')) (es ++ (e ∷ []))
upper-append [] e end h = (ground arith, tt)
upper-append (x ∷ es) e end h =
    let last = calculate_entry_end_timestamp e.entry in
    let end' : ℕ = if ltb end last then last else end in
    All-append (EndsBy end') (x ∷ es) (e ∷ [])
      (All-weaken (EndsBy end) (EndsBy end') (λ y p. ground arith) (x ∷ es) h) (ground arith, tt)

-- A new entry behind those that are pending.
pub append_entry-IsBuilder :
    (e : BlockEntryBuffer) (b : BlockBuilder)
    → IsFormed e
    → (is_empty b.pending_entries ≡ true) ⊎ (b.ctx.start_timestamp ≤ e.entry.timestamp)
    → IsBuilder b
    → IsBuilder (append_entry e b)
unfolding append_entry
append_entry-IsBuilder e b formed starts v = record {
  formed = All-append IsFormed b.pending_entries (e ∷ []) v.formed (formed, tt);
  counted = refl;
  sized = omega (arith, entries_size-append b.pending_entries e, v.sized);
  keyed =
      ap (λ k. is_keyframe e.entry || k) v.keyed ∙ sym (any_keyframe-append b.pending_entries e);
  lower = lower-append b.pending_entries e b.ctx.start_timestamp v.lower starts;
  upper = upper-append b.pending_entries e b.ctx.end_timestamp v.upper;
  blocks = v.blocks;
}

empty→nil : (es : List BlockEntryBuffer) → is_empty es ≡ true → es ≡ []
empty→nil [] e = refl
empty→nil (x ∷ es) e = absurd (ground arith)

nil→All : (P : BlockEntryBuffer → Type 0) (es : List BlockEntryBuffer) → es ≡ [] → All P es
nil→All P [] e = tt
nil→All P (x ∷ es) e = absurd (ground arith)

module _ (sort : List BlockEntryBuffer → List BlockEntryBuffer)
    (sort-Perm : (es : List BlockEntryBuffer) → Permᴰ (sort es) es) where
  sorted : (P : BlockEntryBuffer → Type 0) (es : List BlockEntryBuffer) → All P es → All P (sort es)
  sorted P es h = All-perm P (Permᴰ.symm (sort-Perm es)) h

  abbrev finalized : BlockBuilder → BlockBuilder
  finalized b = record b {
    blocks = b.blocks ++ (block b.ctx (sort b.pending_entries) ∷ []);
    pending_entries = [];
    ctx = clear b.ctx;
  }

  finalized-IsBuilder :
      (b : BlockBuilder)
      → IsBuilder b
      → 30 + entries_size b.pending_entries < 2 ^ 32
      → IsBuilder (finalized b)
  unfolding any_keyframe entries_size
  finalized-IsBuilder b v fits =
      let es = b.pending_entries in
      let fits' : 30 + entries_size (sort es) < 2 ^ 32 =
        omega (arith, entries_size-perm (sort-Perm es)) in
      record {
        formed = tt;
        counted = refl;
        sized = refl;
        keyed = refl;
        lower = tt;
        upper = tt;
        blocks = All-append IsSound b.blocks _ v.blocks (
          block-IsSound b.ctx (sort es) (sorted IsFormed es v.formed) fits'
              (sorted (StartsBy b.ctx.start_timestamp) es v.lower)
              (sorted (EndsBy b.ctx.end_timestamp) es v.upper),
          tt,
        );
      }

  finalized-kept : (b : BlockBuilder) → Permᴰ (entries_of (finalized b)) (entries_of b ++ [])
  finalized-kept b =
      let es = b.pending_entries in
      rw
        (
          append-nil (entries_of b),
          entries_of_blocks-append b.blocks (block b.ctx (sort es)),
          append-nil (entries_of_blocks b.blocks ++ map (λ e. e.entry) (sort es)),
        )
        (Permᴰ.append_left (entries_of_blocks b.blocks) (map-perm (λ e. e.entry) (sort-Perm es)))

  finalize-full :
      (b : BlockBuilder)
      → IsBuilder b
      → 30 + entries_size b.pending_entries < 2 ^ 32
      → is_empty b.pending_entries ≡ false
      → finalize_current_block sort b ≡ some (finalized b)
  unfolding finalize_current_block
  finalize-full b v fits full =
      let es = b.pending_entries in
      let fits' : 30 + entries_size (sort es) < 2 ^ 32 =
        omega (arith, entries_size-perm (sort-Perm es)) in
      ground (arith, make_block-formed b.ctx (sort es) (sorted IsFormed es v.formed) fits')

  finalize-empty :
      (b : BlockBuilder)
      → IsBuilder b
      → b.pending_entries ≡ []
      → (k : Keeps b [] (finalize_current_block sort b)) × (k.after.pending_entries ≡ [])
  unfolding finalize_current_block any_keyframe entries_size
  finalize-empty b v p =
      let after : BlockBuilder = record b { ctx = clear b.ctx } in
      (
        record {
          after = after;
          returns = simp p refl;
          sound = record {
            formed = v.formed;
            counted = simp p refl;
            sized = simp p refl;
            keyed = simp p refl;
            lower = nil→All (StartsBy 0) b.pending_entries p;
            upper = nil→All (EndsBy 0) b.pending_entries p;
            blocks = v.blocks;
          };
          kept = rw (append-nil (entries_of b)) (Permᴰ.refl (entries_of b));
        },
        p,
      )

  -- A finalization brings nothing in, and leaves no entry pending.
  pub finalize-Keeps :
      (b : BlockBuilder)
      → IsBuilder b
      → 30 + entries_size b.pending_entries < 2 ^ 32
      → (k : Keeps b [] (finalize_current_block sort b)) × (k.after.pending_entries ≡ [])
  finalize-Keeps b v fits = elim (Bool-cases (is_empty b.pending_entries)) [
    | inl e ↦ finalize-empty b v (empty→nil b.pending_entries e)
    | inr e ↦ (
      record {
        after = finalized b;
        returns = finalize-full b v fits e;
        sound = finalized-IsBuilder b v fits;
        kept = finalized-kept b;
      },
      refl,
    )
  ]
