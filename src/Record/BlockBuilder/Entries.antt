-- ===== src/Record/BlockBuilder/Entries.antt =====
-- What `add_entry`, `flush` and `pop_block` keep.
use libnx.Common.{
  ℕ, ◌+◌, ◌^◌, ◌<◌, ◌≤◌, ◌≡◌, ◌⊎◌, inl, inr, refl, sym, ap, ◌∙◌, Bool, true, not, ◌&&◌, List, [],
  ◌∷◌, ◌++◌, Option, none, some, map, arith, length, append_assoc, append-nil, if◌then◌else◌,
  Bool-cases, subst, All,
}
use mathlib.Core.List.{Permᴰ}
use mathlib.Core.List.Permᴰ
use libnx.Rtp.Extension.{is_empty}
use libnx.Record.Types.{BlockEntry, BlockEntryBuffer, DataBlock, empty_block}
use libnx.Record.BlockBuilder.{
  Context, Options, BlockBuilder, entry_size, entries_size, append_entry,
  calculate_entry_end_timestamp, finalize_before, finalize_after, touch, add_entry, pop_block,
  basic_options,
}
use libnx.Record.BlockBuilder.Block.{IsFormed}
use libnx.Record.BlockBuilder.Batch.{entries_size-append}
use libnx.Record.BlockBuilder.Adding.{
  IsBuilder, Keeps, IsSound, entries_of, entries_of_blocks, append_entry-IsBuilder, finalize-Keeps,
}

map-append_one :
    (es : List BlockEntryBuffer) (e : BlockEntryBuffer)
    → map (λ x. x.entry) (es ++ (e ∷ [])) ≡ map (λ x. x.entry) es ++ (e.entry ∷ [])
map-append_one [] e = refl
map-append_one (x ∷ es) e = ap (λ t. x.entry ∷ t) (map-append_one es e)

entries_of-append_entry :
    (e : BlockEntryBuffer) (b : BlockBuilder)
    → entries_of (append_entry e b) ≡ entries_of b ++ (e.entry ∷ [])
unfolding append_entry
entries_of-append_entry e b =
    ap (λ t. entries_of_blocks b.blocks ++ t) (map-append_one b.pending_entries e)
    ∙ sym (
        append_assoc (entries_of_blocks b.blocks) (map (λ x. x.entry) b.pending_entries)
          (e.entry ∷ []))

empty_of_length : (es : List BlockEntryBuffer) → length es ≡ 0 → is_empty es ≡ true
empty_of_length [] h = refl
empty_of_length (x ∷ es) h = absurd (omega arith)

touch-IsBuilder : (now : ℕ) (b : BlockBuilder) → IsBuilder b → IsBuilder (touch now b)
unfolding touch
touch-IsBuilder now b v = record {
  formed = v.formed;
  counted = v.counted;
  sized = v.sized;
  keyed = v.keyed;
  lower = v.lower;
  upper = v.upper;
  blocks = v.blocks;
}

-- The state in which the entry `e` can be appended.
record Ready (e : BlockEntryBuffer) (b : BlockBuilder) (r : Option BlockBuilder) : Type 0 where
  keeps : Keeps b [] r
  starts :
      (is_empty keeps.after.pending_entries ≡ true)
      ⊎ (keeps.after.ctx.start_timestamp ≤ e.entry.timestamp)
  small : entries_size keeps.after.pending_entries ≤ entries_size b.pending_entries

abbrev unchanged : (b : BlockBuilder) → IsBuilder b → Keeps b [] (some b)
unchanged b v = record {
  after = b;
  returns = refl;
  sound = v;
  kept = rw (append-nil (entries_of b)) (Permᴰ.refl (entries_of b));
}

-- The options accept an entry into a block that is not empty only from its start on.
abbrev pub RejectsPast : Options → Type 0
RejectsPast options =
    (ctx : Context) (timestamp : ℕ)
    → options.should_accept_entry ctx timestamp ≡ true
    → (ctx.pending_count ≡ 0) ⊎ (ctx.start_timestamp ≤ timestamp)

pub basic_options-RejectsPast :
    (duration size count : ℕ) → RejectsPast (basic_options duration size count true)
unfolding basic_options
basic_options-RejectsPast duration size count ctx timestamp h = ground arith

abbrev via :
    {b : BlockBuilder} {more : List BlockEntry} {r r' : Option BlockBuilder}
    → r' ≡ r
    → Keeps b more r
    → Keeps b more r'
via e k = record { after = k.after; returns = e ∙ k.returns; sound = k.sound; kept = k.kept }

nothing_more : {xs ys : List BlockEntry} → Permᴰ xs (ys ++ []) → Permᴰ xs ys
nothing_more {xs} {ys} p = subst (λ t. Permᴰ xs t) (append-nil ys) p

size-append_entry :
    (e : BlockEntryBuffer) (b : BlockBuilder)
    → entries_size (append_entry e b).pending_entries
      ≡ entries_size b.pending_entries + entry_size e
unfolding append_entry
size-append_entry e b = entries_size-append b.pending_entries e

-- What an entry brings in.
unfoldable pub offered : Options → ℕ → BlockEntryBuffer → BlockBuilder → List BlockEntry
offered options now e b =
    if options.should_accept_entry (touch now b).ctx e.entry.timestamp then e.entry ∷ [] else []

module _ (sort : List BlockEntryBuffer → List BlockEntryBuffer)
    (sort-Perm : (es : List BlockEntryBuffer) → Permᴰ (sort es) es) (options : Options) where
  finalize_before-Ready :
      (e : BlockEntryBuffer) (b : BlockBuilder)
      → (is_empty b.pending_entries ≡ true) ⊎ (b.ctx.start_timestamp ≤ e.entry.timestamp)
      → IsBuilder b
      → 30 + entries_size b.pending_entries < 2 ^ 32
      → Ready e b (finalize_before sort options e b)
  unfolding finalize_before entries_size
  finalize_before-Ready e b starts v fits =
      let asked : Bool =
        not (is_empty b.pending_entries)
        && options.should_finalize_before_add b.ctx e.entry.timestamp
            (calculate_entry_end_timestamp e.entry) in
      let (k, done) = finalize-Keeps sort sort-Perm b v fits in
      elim (Bool-cases asked) [
        | inl y ↦ record {
          keeps = via (simp y refl) k;
          starts = inl (simp done refl);
          small = simp done (ground arith);
        }
        | inr n ↦ record {
          keeps = via (simp n refl) (unchanged b v);
          starts = starts;
          small = omega arith;
        }
      ]

  finalize_after-Keeps :
      (b : BlockBuilder)
      → IsBuilder b
      → 30 + entries_size b.pending_entries < 2 ^ 32
      → Keeps b [] (finalize_after sort options b)
  unfolding finalize_after
  finalize_after-Keeps b v fits = elim (Bool-cases (options.is_finished b.ctx)) [
    | inl y ↦ via (simp y refl) (finalize-Keeps sort sort-Perm b v fits).0
    | inr n ↦ via (simp n refl) (unchanged b v)
  ]

  -- An entry that is accepted.
  accepted-Keeps :
      (e : BlockEntryBuffer) (b : BlockBuilder)
      → IsFormed e
      → (is_empty b.pending_entries ≡ true) ⊎ (b.ctx.start_timestamp ≤ e.entry.timestamp)
      → IsBuilder b
      → 30 + (entries_size b.pending_entries + entry_size e) < 2 ^ 32
      → Keeps b (e.entry ∷ []) (elim (finalize_before sort options e b) [
        | none ↦ none
        | some b2 ↦ finalize_after sort options (append_entry e b2)
      ])
  accepted-Keeps e b formed starts v fits =
      let ready = finalize_before-Ready e b starts v (omega arith) in
      let b2 = ready.keeps.after in
      let b3 = append_entry e b2 in
      let sound = append_entry-IsBuilder e b2 formed ready.starts ready.keeps.sound in
      let last =
        finalize_after-Keeps b3 sound (omega (arith, size-append_entry e b2, ready.small)) in
      record {
        after = last.after;
        returns = simp ready.keeps.returns last.returns;
        sound = last.sound;
        kept = Permᴰ.trans (nothing_more last.kept) (
            rw (entries_of-append_entry e b2)
              (Permᴰ.append_right (e.entry ∷ []) (nothing_more ready.keeps.kept)));
      }

  -- Where the options accept an entry into a block with entries only from the start of the block on,
  -- `add_entry` returns if the entries are formed and their block fits 32 bits. It keeps the state sound
  -- and loses and invents nothing: the entries in the blocks and the pending ones are, in some order,
  -- those from before with the new one, or without it where the options do not accept it.
  pub add_entry-Keeps :
      (now : ℕ) (e : BlockEntryBuffer) (b : BlockBuilder)
      → RejectsPast options
      → IsFormed e
      → IsBuilder b
      → 30 + (entries_size b.pending_entries + entry_size e) < 2 ^ 32
      → Keeps b (offered options now e b) (add_entry sort options now (some e) b)
  unfolding add_entry touch offered
  add_entry-Keeps now e b rejects formed v fits =
      let b1 = touch now b in
      let v1 = touch-IsBuilder now b v in
      elim (Bool-cases (options.should_accept_entry b1.ctx e.entry.timestamp)) [
        | inl y ↦
            let starts : (is_empty b.pending_entries ≡ true)
                ⊎ (b.ctx.start_timestamp ≤ e.entry.timestamp) =
              elim (rejects b1.ctx e.entry.timestamp y) [
                | inl none_pending ↦
                    inl (empty_of_length b.pending_entries (sym v.counted ∙ none_pending))
                | inr later ↦ inr later
              ] in
            let k = accepted-Keeps e b1 formed starts v1 fits in
            record {
              after = k.after;
              returns = simp y k.returns;
              sound = k.sound;
              kept = simp y k.kept;
            }
        | inr n ↦ record {
          after = record b1 {
            rejections = b1.rejections ++ ((e.entry.timestamp, b1.ctx.start_timestamp) ∷ []);
          };
          returns = simp n refl;
          sound = record {
            formed = v.formed;
            counted = v.counted;
            sized = v.sized;
            keyed = v.keyed;
            lower = v.lower;
            upper = v.upper;
            blocks = v.blocks;
          };
          kept = simp n (unchanged b v).kept;
        }
      ]

-- What holds of the block `out` that is taken out of the builder `b`, which is `b'` then: the entries of
-- the block are the first that the builder held.
pub record Pops (b b' : BlockBuilder) (out : DataBlock) : Type 0 where
  pub sound : IsBuilder b'
  pub entries : out.entries ++ entries_of b' ≡ entries_of b
  pub block : (b.blocks ≡ []) ⊎ IsSound out

-- `pop_block` hands out the sound block that has waited longest, or the empty block where none waits.
pub pop_block-Pops : (b : BlockBuilder) → IsBuilder b → Pops b (pop_block b).1 (pop_block b).0
unfolding pop_block entries_of_blocks
pop_block-Pops b v = next b.blocks refl
  where
    popped : List DataBlock → DataBlock × BlockBuilder
    popped [] = (empty_block, b)
    popped (block ∷ rest) = (block, record b { blocks = rest })

    next : (bs : List DataBlock) → b.blocks ≡ bs → Pops b (popped bs).1 (popped bs).0
    next [] e = record { sound = v; entries = refl; block = inl e }
    next (block ∷ rest) e =
        let (sound, more) : IsSound block × All IsSound rest = subst (All IsSound) e v.blocks in
        record {
          sound = record {
            formed = v.formed;
            counted = v.counted;
            sized = v.sized;
            keyed = v.keyed;
            lower = v.lower;
            upper = v.upper;
            blocks = more;
          };
          entries =
              sym (
                append_assoc block.entries (entries_of_blocks rest)
                  (map (λ x. x.entry) b.pending_entries))
              ∙ ap (λ bs. entries_of_blocks bs ++ map (λ x. x.entry) b.pending_entries) (sym e);
          block = inr sound;
        }
