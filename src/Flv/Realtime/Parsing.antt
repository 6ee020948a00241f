-- ===== src/Flv/Realtime/Parsing.antt =====
-- The loop over the parse buffer: it ends, and does not depend on how the bytes arrive.
use bilirec.Prelude.{
  ℕ, zero, suc, ◌+◌, ◌≤◌, ◌≡◌, refl, ◌∙◌, inl, inr, Bool, none, some, List, ◌++◌, length, take,
  drop, arith, length-append, length-drop, get_or-append, take-append_le, drop-append_le,
  Option-cases,
}
use bilirec.Flv.Tag.{Tag}
use bilirec.Flv.Realtime.{parse_tag, tag_at, data_size_at, Scan, scan_tag, scan_loop, scan}

-- A tag takes fifteen bytes at least.
pub parse_tag_shorter :
    (b : List ℕ) (tag : Tag) (rest : List ℕ)
    → parse_tag b ≡ some (tag, rest)
    → length rest + 15 ≤ length b
unfolding parse_tag
parse_tag_shorter b tag rest h = ground (arith, length-drop (15 + data_size_at b) b)

data_size_at-append : (b more : List ℕ) → 15 ≤ length b → data_size_at (b ++ more) ≡ data_size_at b
data_size_at-append b more h = rw (
  get_or-append b more 5 0 (omega arith),
  get_or-append b more 6 0 (omega arith),
  get_or-append b more 7 0 (omega arith),
)

payload-append :
    (n : ℕ) (b more : List ℕ)
    → 15 + n ≤ length b
    → take n (drop 15 (b ++ more)) ≡ take n (drop 15 b)
payload-append n b more h =
    rw (drop-append_le 15 b more (omega arith))
      (take-append_le n (drop 15 b) more (omega (arith, length-drop 15 b)))

tag_at-append : (b more : List ℕ) → 15 + data_size_at b ≤ length b → tag_at (b ++ more) ≡ tag_at b
unfolding tag_at
tag_at-append b more h = rw (
  data_size_at-append b more (omega arith),
  payload-append (data_size_at b) b more h,
  get_or-append b more 4 0 (omega arith),
  get_or-append b more 5 0 (omega arith),
  get_or-append b more 6 0 (omega arith),
  get_or-append b more 7 0 (omega arith),
  get_or-append b more 8 0 (omega arith),
  get_or-append b more 9 0 (omega arith),
  get_or-append b more 10 0 (omega arith),
  get_or-append b more 11 0 (omega arith),
  get_or-append b more 12 0 (omega arith),
  get_or-append b more 13 0 (omega arith),
  get_or-append b more 14 0 (omega arith),
)

-- Bytes added behind a complete tag join the rest.
pub parse_tag-append :
    (b more : List ℕ) (tag : Tag) (rest : List ℕ)
    → parse_tag b ≡ some (tag, rest)
    → parse_tag (b ++ more) ≡ some (tag, rest ++ more)
unfolding parse_tag
parse_tag-append b more tag rest h = ground (
  arith,
  data_size_at-append b more,
  tag_at-append b more,
  length-append b more,
  drop-append_le (15 + data_size_at b) b more,
)

pub parse_tag_short : (b : List ℕ) → length b ≤ 0 → parse_tag b ≡ none
unfolding parse_tag
parse_tag_short b h = ground arith

-- With the buffer's length as fuel the loop ends because no complete tag is left.
scan_loop-none :
    (fuel : ℕ) (rotation : Bool) (s : Scan) (b : List ℕ)
    → length b ≤ fuel
    → parse_tag (scan_loop fuel rotation s b).1 ≡ none
unfolding scan_loop parse_tag
scan_loop-none zero rotation s b h = parse_tag_short b h
scan_loop-none (suc fuel) rotation s b h = elim (Option-cases (parse_tag b)) [
  | inl e ↦ rw (e, scan_loop) e
  | inr ((tag, rest), e) ↦
      rw (e, scan_loop)
        (scan_loop-none fuel rotation (scan_tag rotation s tag) rest
          (omega (arith, parse_tag_shorter b tag rest e)))
]

-- The calls of the loop agree once there is fuel enough.
scan_loop_fuel :
    (fuel more : ℕ) (rotation : Bool) (s : Scan) (b : List ℕ)
    → length b ≤ fuel
    → length b ≤ more
    → scan_loop fuel rotation s b ≡ scan_loop more rotation s b
unfolding scan_loop
scan_loop_fuel zero zero rotation s b h k = refl
scan_loop_fuel zero (suc more) rotation s b h k = rw (parse_tag_short b h, scan_loop)
scan_loop_fuel (suc fuel) zero rotation s b h k = rw (parse_tag_short b k, scan_loop)
scan_loop_fuel (suc fuel) (suc more) rotation s b h k = elim (Option-cases (parse_tag b)) [
  | inl e ↦ rw (e, scan_loop)
  | inr ((tag, rest), e) ↦
      rw (e, scan_loop)
        (scan_loop_fuel fuel more rotation (scan_tag rotation s tag) rest
          (omega (arith, parse_tag_shorter b tag rest e))
          (omega (arith, parse_tag_shorter b tag rest e)))
]

-- One round, and the end.
pub scan_more :
    (rotation : Bool) (s : Scan) (b : List ℕ) (tag : Tag) (rest : List ℕ)
    → parse_tag b ≡ some (tag, rest)
    → scan rotation s b ≡ scan rotation (scan_tag rotation s tag) rest
unfolding scan scan_loop
scan_more rotation s b tag rest e =
    let shorter : length rest + 15 ≤ length b = parse_tag_shorter b tag rest e in
    scan_loop_fuel (length b) (suc (length b)) rotation s b (omega arith) (omega arith)
    ∙ rw (e, scan_loop)
        (scan_loop_fuel (length b) (length rest) rotation (scan_tag rotation s tag) rest
          (omega arith) (omega arith))

pub scan_end :
    (rotation : Bool) (s : Scan) (b : List ℕ) → parse_tag b ≡ none → scan rotation s b ≡ (s, b)
unfolding scan scan_loop
scan_end rotation s b e =
    scan_loop_fuel (length b) (suc (length b)) rotation s b (omega arith) (omega arith)
    ∙ rw (e, scan_loop)

-- The scan ends on every buffer, and leaves no complete tag in it.
pub scan-parse_tag :
    (rotation : Bool) (s : Scan) (b : List ℕ) → parse_tag (scan rotation s b).1 ≡ none
unfolding scan
scan-parse_tag rotation s b = scan_loop-none (length b) rotation s b (omega arith)

scan-append_fuel :
    (fuel : ℕ) (rotation : Bool) (s : Scan) (b more : List ℕ)
    → length b ≤ fuel
    → scan rotation s (b ++ more)
      ≡ scan rotation (scan rotation s b).0 ((scan rotation s b).1 ++ more)
scan-append_fuel zero rotation s b more h = rw (scan_end rotation s b (parse_tag_short b h))
scan-append_fuel (suc fuel) rotation s b more h = elim (Option-cases (parse_tag b)) [
  | inl e ↦ rw (scan_end rotation s b e)
  | inr ((tag, rest), e) ↦
      rw
        (
          scan_more rotation s (b ++ more) tag (rest ++ more) (parse_tag-append b more tag rest e),
          scan_more rotation s b tag rest e,
        )
        (scan-append_fuel fuel rotation (scan_tag rotation s tag) rest more
          (omega (arith, parse_tag_shorter b tag rest e)))
]

-- How the bytes are cut into chunks does not matter to the loop: to scan a chunk, keep what it leaves
-- and scan that with the next chunk has the effect of scanning both at once.
pub scan-append :
    (rotation : Bool) (s : Scan) (b more : List ℕ)
    → scan rotation s (b ++ more)
      ≡ scan rotation (scan rotation s b).0 ((scan rotation s b).1 ++ more)
scan-append rotation s b more = scan-append_fuel (length b) rotation s b more (omega arith)
