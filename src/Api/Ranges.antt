-- ===== src/Api/Ranges.antt =====
-- internal/api/handlers_media.go, `parseRange`: what is served lies in the file.
use ialbum.Base.{ℕ, ◌+◌, ◌≤◌, ◌<◌, not, ◌||◌, arith, Option-cases, Bool-cases, inl, inr, ltb, leb}
use ialbum.Text.{Text, codes, is_empty, has_prefix, trim_prefix, contains}
use ialbum.Api.{Parsed, whole, part, refused, cut, parse_int, range_from, range_parts, parse_range}

-- What a parsed range asks for lies in a file of this size, and is one byte at least.
abbrev pub IsInFile : ℕ → Parsed → Type 0
IsInFile size (part r) = (1 ≤ r.length) × (r.start + r.length ≤ size)
IsInFile size whole = Unit
IsInFile size (refused e) = Unit

range_from-IsInFile :
    (start : ℕ) (rest : Text) (size : ℕ) → start < size → IsInFile size (range_from start rest size)
unfolding range_from
range_from-IsInFile start rest size l = elim (Bool-cases (is_empty rest)) [
  | inl e ↦ rw (e, range_from) (ground arith, ground arith)
  | inr e ↦ elim (Option-cases (parse_int rest)) [
    | inl p ↦ rw (e, range_from) (rw p tt)
    | inr (end, p) ↦ elim (Bool-cases (ltb end start)) [
      | inl b ↦ rw (e, range_from) (rw p (rw b tt))
      | inr b ↦ rw (e, range_from) (rw p (rw b (ground (arith, b), ground (arith, b))))
    ]
  ]
]

-- A range that is accepted is one byte at least, and ends with the file at the latest.
pub parse_range-IsInFile : (value : Text) (size : ℕ) → IsInFile size (parse_range value size)
unfolding parse_range range_parts
parse_range-IsInFile value size = elim (Bool-cases (is_empty value)) [
  | inl e ↦ rw (e, parse_range) tt
  | inr e ↦ elim (Bool-cases (not (has_prefix value (codes "bytes=")) || contains value b',')) [
    | inl u ↦ rw (e, parse_range) (rw u tt)
    | inr u ↦ rw (e, parse_range) (rw u (parts (trim_prefix value (codes "bytes="))))
  ]
]
  where
    parts : (v : Text) → IsInFile size (range_parts v size)
    parts v = elim (Option-cases (cut v b'-')) [
      | inl c ↦ rw (c, range_parts) tt
      | inr ((first, rest), c) ↦ elim (Option-cases (parse_int first)) [
        | inl p ↦ rw (c, range_parts) (rw p tt)
        | inr (start, p) ↦ elim (Bool-cases (leb size start)) [
          | inl b ↦ rw (c, range_parts) (rw p (rw b tt))
          | inr b ↦
              rw (c, range_parts)
                (rw p (rw b (range_from-IsInFile start rest size (ground (arith, b)))))
        ]
      ]
    ]
