-- ===== src/Record/BlockBuilder/Tests.antt =====
-- Concrete runs: an I-frame and then an earlier audio entry, with blocks of two entries.
use libnx.Common.{refl, inl, inr, true, List, [], ◌∷◌, some, arith, leb, if◌then◌else◌, Bool-cases}
use mathlib.Core.List.{Permᴰ}
use mathlib.Core.List.Permᴰ
use libnx.Record.Types.{video, audio, BlockEntryBuffer}
use libnx.Record.Layout.{entry_bytes, fields_bytes, le_bytes}
use libnx.Record.BlockBuilder.{
  BlockBuilder, Options, basic_options, add_entry, entries_size, is_keyframe,
  calculate_entry_end_timestamp,
}
use libnx.Record.BlockBuilder.Block.{IsFormed}
use libnx.Record.BlockBuilder.Batch.{any_keyframe}
use libnx.Record.BlockBuilder.Adding.{IsBuilder, Keeps}
use libnx.Record.BlockBuilder.Entries.{offered, add_entry-Keeps, basic_options-RejectsPast}

abbrev pub frame : BlockEntryBuffer
frame = record {
  entry = record {
    archive_type = 0;
    header_size = 20;
    timestamp = 1000;
    fields =
        video (record { codec_type = 1; frame_type = 1; reserved = 0 ∷ 0 ∷ []; payload_size = 3 });
  };
  payload = some (1 ∷ 2 ∷ 3 ∷ []);
  pressure_flags = 0;
}

abbrev pub sound : BlockEntryBuffer
sound = record {
  entry = record {
    archive_type = 0;
    header_size = 23;
    timestamp = 1010;
    fields = audio (record {
      codec_type = 3;
      channels = 1;
      bit_depth = 16;
      sample_rate = 1000;
      payload_size = 4;
    });
  };
  payload = some (4 ∷ 5 ∷ 6 ∷ 7 ∷ []);
  pressure_flags = 0;
}

-- A stable sort by time stamps in the place of `std::sort`.
abbrev insert : BlockEntryBuffer → List BlockEntryBuffer → List BlockEntryBuffer
insert e [] = e ∷ []
insert e (x ∷ xs) =
    let rest = insert e xs in
    if leb e.entry.timestamp x.entry.timestamp then e ∷ x ∷ xs else x ∷ rest

abbrev pub insertion_sort : List BlockEntryBuffer → List BlockEntryBuffer
insertion_sort [] = []
insertion_sort (e ∷ es) = insert e (insertion_sort es)

insert-Perm : (e : BlockEntryBuffer) (es : List BlockEntryBuffer) → Permᴰ (insert e es) (e ∷ es)
insert-Perm e [] = Permᴰ.refl (e ∷ [])
insert-Perm e (x ∷ xs) = elim (Bool-cases (leb e.entry.timestamp x.entry.timestamp)) [
  | inl y ↦ simp y (Permᴰ.refl (e ∷ x ∷ xs))
  | inr n ↦ simp n (Permᴰ.trans (Permᴰ.cons refl (insert-Perm e xs)) (Permᴰ.swap refl refl))
]

pub insertion_sort-Perm : (es : List BlockEntryBuffer) → Permᴰ (insertion_sort es) es
insertion_sort-Perm [] = Permᴰ.nil
insertion_sort-Perm (e ∷ es) =
    Permᴰ.trans (insert-Perm e (insertion_sort es)) (Permᴰ.cons refl (insertion_sort-Perm es))

abbrev options : Options
options = basic_options 10000 4096 2 true

abbrev one_frame : BlockBuilder
one_frame = record {
  blocks = [];
  pending_entries = frame ∷ [];
  ctx = record {
    start_timestamp = 1000;
    end_timestamp = 1000;
    pending_count = 1;
    pending_bytes = 23;
    contains_keyframe = true;
    last_activity_time = 5;
  };
  rejections = [];
}

frame-IsFormed : IsFormed frame
unfolding entry_bytes fields_bytes le_bytes
frame-IsFormed = record { header = refl; payload = omega arith }

sound-IsFormed : IsFormed sound
unfolding entry_bytes fields_bytes le_bytes
sound-IsFormed = record { header = refl; payload = omega arith }

one_frame-IsBuilder : IsBuilder one_frame
unfolding entries_size any_keyframe is_keyframe calculate_entry_end_timestamp
one_frame-IsBuilder = record {
  formed = (frame-IsFormed, tt);
  counted = refl;
  sized = refl;
  keyed = refl;
  lower = (omega arith, tt);
  upper = (omega arith, tt);
  blocks = tt;
}

add_entry-Keeps_example :
    Keeps one_frame
      (offered options 9 sound one_frame)
      (add_entry insertion_sort options 9 (some sound) one_frame)
unfolding entries_size
add_entry-Keeps_example =
    add_entry-Keeps insertion_sort insertion_sort-Perm options 9 sound one_frame
      (basic_options-RejectsPast 10000 4096 2) sound-IsFormed one_frame-IsBuilder (omega arith)
