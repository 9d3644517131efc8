-- ===== src/Record/FileStream.antt =====
-- FileStream (nxcore/file/file_stream_posix.cpp, file_stream.h) for a file that is written, over a small
-- operating system: the files on the disk, and what the next calls of it will do. The stream of an open
-- file stands at its end, since it was opened to be truncated; `lseek` on it does not fail.
use libnx.Common.{
  ℕ, ◌==◌, Bool, true, false, ◌&&◌, ◌||◌, List, [], ◌∷◌, ◌++◌, Option, none, some, length, take,
  min, if◌then◌else◌,
}
use libnx.Rtp.Types.{Bytes}

abbrev pub same_bytes : Bytes → Bytes → Bool
same_bytes [] [] = true
same_bytes [] (y ∷ ys) = false
same_bytes (x ∷ xs) [] = false
same_bytes (x ∷ xs) (y ∷ ys) = (x == y) && same_bytes xs ys

-- A file that exists: its path and what is in it.
pub record File : Type 0 where
  pub path : Bytes
  pub content : Bytes

-- `outcomes` says how the next calls end that can fail: `none` with an error, `some n` without, and a
-- `write` with `n` bytes at most. Behind the end of the list every call succeeds in full.
pub record Os : Type 0 where
  pub files : List File
  pub outcomes : List (Option ℕ)

pub record FileStream : Type 0 where
  pub os : Os
  pub opened : Option File

abbrev pub is_open : FileStream → Bool
is_open s = elim s.opened [ none ↦ false | some f ↦ true ]

unfoldable pub has_file : Bytes → List File → Bool
has_file path [] = false
has_file path (f ∷ fs) = same_bytes path f.path || has_file path fs

-- `fs::exists`; a file that is open exists too.
unfoldable pub exists : Bytes → FileStream → Bool
exists path s =
    has_file path s.os.files || elim s.opened [ none ↦ false | some f ↦ same_bytes path f.path ]

-- `O_TRUNC` empties the file of that path.
unfoldable pub without_file : Bytes → List File → List File
without_file path [] = []
without_file path (f ∷ fs) =
    let rest = without_file path fs in if same_bytes path f.path then rest else f ∷ rest

-- Whether the next call of the operating system succeeds.
unfoldable pub next_call : FileStream → Bool × FileStream
next_call s = elim s.os.outcomes [
  | [] ↦ (true, s)
  | o ∷ os ↦
      (elim o [ none ↦ false | some n ↦ true ], record s { os = record (s.os) { outcomes = os } })
]

-- Whether it worked, as for the other operations that return an error code.
unfoldable pub open_truncate : Bytes → FileStream → Bool × FileStream
unfolding next_call
open_truncate path s = elim s.opened [
  | some f ↦ (false, s)
  | none ↦
      let (ok, s1) = next_call s in
      if ok
      then (
        true,
        record {
          os = record (s1.os) { files = without_file path s1.os.files };
          opened = some (record { path = path; content = [] });
        },
      )
      else (false, s1)
]

unfoldable pub close : FileStream → FileStream
close s = elim s.opened [
  | none ↦ s
  | some f ↦ record { os = record (s.os) { files = s.os.files ++ (f ∷ []) }; opened = none }
]

-- The number of bytes written, or `none` for an error.
unfoldable pub write : Bytes → FileStream → Option ℕ × FileStream
write bytes s = elim s.opened [
  | none ↦ (none, s)
  | some f ↦ elim s.os.outcomes [
    | [] ↦ (
      some (length bytes),
      record s { opened = some (record f { content = f.content ++ bytes }) },
    )
    | o ∷ os ↦ elim o [
      | none ↦ (none, record s { os = record (s.os) { outcomes = os } })
      | some n ↦ (
        some (min n (length bytes)),
        record {
          os = record (s.os) { outcomes = os };
          opened = some (record f { content = f.content ++ take n bytes });
        },
      )
    ]
  ]
]

unfoldable pub write_struct : Bytes → FileStream → Bool × FileStream
write_struct bytes s =
    let (n, s1) = write bytes s in (elim n [ none ↦ false | some k ↦ k == length bytes ], s1)

unfoldable pub tell : FileStream → Option ℕ
tell s = elim s.opened [ none ↦ none | some f ↦ some (length f.content) ]

unfoldable pub flush : FileStream → Bool × FileStream
flush s = if is_open s then next_call s else (false, s)
