-- ===== src/Record/SegmentReader/Entries.antt =====
-- Reading back an entry that the block builder copied.
use libnx.Common.{
  ℕ, ◌+◌, ◌≤◌, ◌≡◌, refl, ap, ◌∙◌, sym, false, not, [], ◌∷◌, ◌++◌, arith, length, take, drop,
  take-append, drop-append, drop-add, ltb, ◌==◌, if◌then◌else◌,
}
use libnx.Rtp.Types.{Bytes}
use libnx.Record.SegmentBuilder.Closing.{if_false}
use libnx.Record.SegmentRepairer.{number_at}
use libnx.Record.SegmentReader.{
  SegmentReader, ReadFrameResult, Outcome, value, error, overrun, unexpected_eof, read,
  read_payload, read_derived,
}

-- What is left of the file.
abbrev pub left : SegmentReader → Bytes
left s = drop s.pos s.content

abbrev pub forth : ℕ → SegmentReader → SegmentReader
forth n s = record s { pos = s.pos + n }

pub read-left :
    (s : SegmentReader) (a b : Bytes) (n : ℕ)
    → left s ≡ a ++ b
    → length a ≡ n
    → read n s ≡ (a, forth n s)
unfolding read
read-left s a b n p e =
    let taken : take n (left s) ≡ a = ap (take n) p ∙ take-append a b n (sym e) in
    ap (λ (t : Bytes). (t, record s { pos = s.pos + length t })) taken
    ∙ ap (λ k. (a, record s { pos = s.pos + k })) e

pub left-forth :
    (s : SegmentReader) (a b : Bytes) (n : ℕ)
    → left s ≡ a ++ b
    → length a ≡ n
    → left (forth n s) ≡ b
left-forth s a b n p e = drop-add s.pos n s.content ∙ (ap (drop n) p ∙ drop-append a b n (sym e))

-- The payload, whose size is known.
read_payload-left :
    (s : SegmentReader) (r : ReadFrameResult) (payload rest : Bytes)
    → left s ≡ payload ++ rest
    → r.payload ≡ []
    → read_payload (length payload) r s
      ≡ (value (record r { payload = payload }), forth (length payload) s)
unfolding read_payload
read_payload-left s r [] rest p e =
    let here : s.pos ≡ s.pos + 0 = omega arith in
    ap (λ (t : Bytes). (value (record r { payload = t }), s)) e
    ∙ ap (λ n. (value (record r { payload = [] }), record s { pos = n })) here
read_payload-left s r (x ∷ payload) rest p e =
    let size = length (x ∷ payload) in
    let done : Bytes × SegmentReader → Outcome ReadFrameResult × SegmentReader = λ t.
      if not (length t.0 == size)
      then (error unexpected_eof, t.1)
      else (value (record r { payload = t.0 }), t.1) in
    let same : not (length (x ∷ payload) == size) ≡ false = ground arith in
    if_false (value r, s) (done (read size s)) (ground arith)
    ∙ (ap done (read-left s (x ∷ payload) rest size p refl)
        ∙ if_false (error unexpected_eof, forth size s) _ same)

pub read_derived-left :
    (s : SegmentReader) (remaining room size_at : ℕ) (result : Bytes → ReadFrameResult)
    (extra payload rest : Bytes)
    → left s ≡ extra ++ (payload ++ rest)
    → length extra ≡ remaining
    → remaining ≤ room
    → number_at size_at 4 extra ≡ length payload
    → (result extra).payload ≡ []
    → read_derived remaining room result size_at s ≡ (
      value (record (result extra) { payload = payload }),
      forth (length payload) (forth remaining s),
    )
unfolding read_derived
read_derived-left s remaining room size_at result extra payload rest p size fits field e =
    let s1 = forth remaining s in
    let done : Bytes × SegmentReader → Outcome ReadFrameResult × SegmentReader = λ t.
      if ltb room (length t.0)
      then (overrun, t.1)
      else if not (length t.0 == remaining)
      then (error unexpected_eof, t.1)
      else read_payload (number_at size_at 4 t.0) (result t.0) t.1 in
    let last = read_payload (number_at size_at 4 extra) (result extra) s1 in
    ap done (read-left s extra (payload ++ rest) remaining p size)
    ∙ (if_false (overrun, s1)
          (if not (length extra == remaining) then (error unexpected_eof, s1) else last)
          (ground (arith, size, fits))
        ∙ (if_false (error unexpected_eof, s1) last (ground (arith, size))
            ∙ (ap (λ n. read_payload n (result extra) s1) field
                ∙ read_payload-left s1 (result extra) payload rest
                    (left-forth s extra (payload ++ rest) remaining p size) e)))
