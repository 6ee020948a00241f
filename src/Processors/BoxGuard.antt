-- ===== src/Processors/BoxGuard.antt =====
-- internal/processors/fmp4_box_guard.go. The log lines are left out; the base times are not used here.
use bilirec.Prelude.{
  ℕ, ◌≡◌, ◌⊎◌, refl, sym, ap, ◌∙◌, subst, inl, inr, Bool, true, false, ◌&&◌, ◌||◌, not, Option,
  none, some, List, [], ◌∷◌, ◌++◌, if◌then◌else◌, length, take, drop, All, ltb, ◌==◌, arith,
  Option-cases,
}
use bilirec.Prelude.Bytes.{bytes_equal}
use bilirec.Hls.Boxes.{BoxHeader, read_box_header}

-- `last_init` is `none` for the nil pointer.
pub record Fmp4BoxGuard : Type 0 where
  pub seen_media : Bool
  pub last_init : Option (List ℕ)

-- `Open` keeps the last init segment, which the pipeline shares.
unfoldable pub open_guard : Fmp4BoxGuard → Fmp4BoxGuard
open_guard p = record p { seen_media = false }

-- The segment goes on, is dropped, or ends the file with the new init segment.
pub data Guarded : Type 0 where
  goes_on dropped : Guarded
  discontinuity : List ℕ → Guarded

unfoldable pub stored_init : Option (List ℕ) → List ℕ → Option (List ℕ)
stored_init none bytes = none
stored_init (some old) bytes = some bytes

unfoldable pub is_last_init : Option (List ℕ) → List ℕ → Bool
is_last_init none bytes = false
is_last_init (some init) bytes = not (length init == 0) && bytes_equal bytes init

abbrev pub ftyp : List ℕ
ftyp = b'f' ∷ b't' ∷ b'y' ∷ b'p' ∷ []

abbrev pub styp : List ℕ
styp = b's' ∷ b't' ∷ b'y' ∷ b'p' ∷ []

abbrev pub moof : List ℕ
moof = b'm' ∷ b'o' ∷ b'o' ∷ b'f' ∷ []

-- `string(data[4:8])`
unfoldable pub leading_type : List ℕ → List ℕ
leading_type bytes = take 4 (drop 4 bytes)

-- The check of the header behind the switch.
unfoldable pub check_box : List ℕ → Guarded
unfolding read_box_header
check_box bytes = elim (read_box_header bytes 0) [ none ↦ dropped | some h ↦ goes_on ]

unfoldable pub guard_init : Fmp4BoxGuard → List ℕ → Fmp4BoxGuard × Guarded
unfolding stored_init is_last_init check_box
guard_init p bytes =
    let next = record p { last_init = stored_init p.last_init bytes } in
    if p.seen_media
    then if is_last_init p.last_init bytes then (p, dropped) else (next, discontinuity bytes)
    else (next, check_box bytes)

-- `Process`
unfoldable pub process_guard : Fmp4BoxGuard → List ℕ → Fmp4BoxGuard × Guarded
unfolding guard_init leading_type check_box
process_guard p bytes =
    let kind = leading_type bytes in
    if length bytes == 0
    then (p, goes_on)
    else if ltb (length bytes) 8
    then (p, dropped)
    else if bytes_equal kind ftyp
    then guard_init p bytes
    else if bytes_equal kind styp || bytes_equal kind moof
    then (record p { seen_media = true }, check_box bytes)
    else (p, dropped)

unfoldable pub if_goes_on : Guarded → List ℕ → List (List ℕ) → List (List ℕ)
if_goes_on goes_on b rest = b ∷ rest
if_goes_on dropped b rest = rest
if_goes_on (discontinuity init) b rest = rest

-- The segments of a run that go on, one after the other.
unfoldable pub passed_segments : Fmp4BoxGuard → List (List ℕ) → List (List ℕ)
unfolding process_guard if_goes_on
passed_segments p [] = []
passed_segments p (b ∷ bs) = let r = process_guard p b in if_goes_on r.1 b (passed_segments r.0 bs)

-- A segment with a well-formed leading box, an init segment or a media segment.
abbrev pub IsInit : List ℕ → Type 0
IsInit b =
    (bytes_equal (leading_type b) ftyp ≡ true) × ((h : BoxHeader) × (read_box_header b 0 ≡ some h))

abbrev pub IsMedia : List ℕ → Type 0
IsMedia b =
    ((bytes_equal (leading_type b) styp || bytes_equal (leading_type b) moof) ≡ true)
    × ((h : BoxHeader) × (read_box_header b 0 ≡ some h))

check_box-goes_on :
    (b : List ℕ) → check_box b ≡ goes_on → (h : BoxHeader) × (read_box_header b 0 ≡ some h)
unfolding check_box
check_box-goes_on b e = elim (Option-cases (read_box_header b 0)) [
  | inl bad ↦ absurd (drops bad)
  | inr ok ↦ ok
]
  where
    bad_drops : read_box_header b 0 ≡ none → check_box b ≡ dropped
    bad_drops bad = rw (check_box, bad) refl

    drops : read_box_header b 0 ≡ none → ⊥
    drops bad = cc (bad_drops bad)

-- How a segment goes on, and what it says of the state.
process_guard-goes_on :
    (p : Fmp4BoxGuard) (b : List ℕ)
    → (length b == 0) ≡ false
    → (process_guard p b).1 ≡ goes_on
    → (check_box b ≡ goes_on)
      × (((bytes_equal (leading_type b) ftyp ≡ true) × (p.seen_media ≡ false))
          ⊎ (((bytes_equal (leading_type b) styp || bytes_equal (leading_type b) moof) ≡ true)
              × ((process_guard p b).0.seen_media ≡ true)))
unfolding process_guard guard_init
process_guard-goes_on p b some_bytes e = ground arith

-- What is known of media stays known.
seen_stays :
    (p : Fmp4BoxGuard) (b : List ℕ) → p.seen_media ≡ true → (process_guard p b).0.seen_media ≡ true
unfolding process_guard guard_init
seen_stays p b h = ground arith

Guarded-cases :
    (g : Guarded) → (g ≡ goes_on) ⊎ ((g ≡ dropped) ⊎ ((init : List ℕ) × (g ≡ discontinuity init)))
Guarded-cases goes_on = inl refl
Guarded-cases dropped = inr (inl refl)
Guarded-cases (discontinuity init) = inr (inr (init, refl))

-- The first segment of a run goes on, or not.
passed_cases :
    (p : Fmp4BoxGuard) (b : List ℕ) (bs : List (List ℕ))
    → (((process_guard p b).1 ≡ goes_on)
        × (passed_segments p (b ∷ bs) ≡ b ∷ passed_segments (process_guard p b).0 bs))
      ⊎ (passed_segments p (b ∷ bs) ≡ passed_segments (process_guard p b).0 bs)
unfolding passed_segments if_goes_on
passed_cases p b bs =
    let rest = passed_segments (process_guard p b).0 bs in
    elim (Guarded-cases (process_guard p b).1) [
      | inl e ↦ inl (e, ap (λ (g : Guarded). if_goes_on g b rest) e)
      | inr (inl e) ↦ inr (ap (λ (g : Guarded). if_goes_on g b rest) e)
      | inr (inr (init, e)) ↦ inr (ap (λ (g : Guarded). if_goes_on g b rest) e)
    ]

abbrev pub IsFilled : List (List ℕ) → Type 0
IsFilled bs = All (λ b. (length b == 0) ≡ false) bs

IsMedia-passed :
    (p : Fmp4BoxGuard) (bs : List (List ℕ))
    → IsFilled bs
    → p.seen_media ≡ true
    → All IsMedia (passed_segments p bs)
unfolding passed_segments
IsMedia-passed p [] h seen = tt
IsMedia-passed p (b ∷ bs) (hb, h) seen =
    let rest = IsMedia-passed (process_guard p b).0 bs h (seen_stays p b seen) in
    elim (passed_cases p b bs) [
      | inl (e, first) ↦
          let (ok, kind) = process_guard-goes_on p b hb e in
          let media : (bytes_equal (leading_type b) styp || bytes_equal (leading_type b) moof)
              ≡ true =
            ground (arith, kind, seen) in
          subst (All IsMedia) (sym first) ((media, check_box-goes_on b ok), rest)
      | inr first ↦ subst (All IsMedia) (sym first) rest
    ]

-- From any state, and whatever segments come that are not empty: what goes on until the next file is a row
-- of init segments and behind it media segments only, each with a leading box that is well formed and fits
-- the segment. (An empty segment goes on as it is.)
pub passed_segments_lem :
    (p : Fmp4BoxGuard) (bs : List (List ℕ))
    → IsFilled bs
    → (inits : List (List ℕ)) × (media : List (List ℕ)) × (passed_segments p bs ≡ inits ++ media)
      × All IsInit inits
      × All IsMedia media
unfolding passed_segments
passed_segments_lem p [] h = ([], [], refl, tt, tt)
passed_segments_lem p (b ∷ bs) (hb, h) =
    let (inits, media, e, his, hms) = passed_segments_lem (process_guard p b).0 bs h in
    elim (passed_cases p b bs) [
      | inl (g, first) ↦
          let (ok, kind) = process_guard-goes_on p b hb g in
          elim kind [
            | inl (init, unseen) ↦ (
              b ∷ inits,
              media,
              first ∙ ap (λ (l : List (List ℕ)). b ∷ l) e,
              ((init, check_box-goes_on b ok), his),
              hms,
            )
            | inr (is_media, seen) ↦ (
              [],
              b ∷ passed_segments (process_guard p b).0 bs,
              first,
              tt,
              ((is_media, check_box-goes_on b ok), IsMedia-passed (process_guard p b).0 bs h seen),
            )
          ]
      | inr first ↦ (inits, media, first ∙ e, his, hms)
    ]
