-- ===== src/Hls/Fragment.antt =====
-- pkg/hls/fmp4_fragment.go: the decode times of a fragment, moved in place to start at 0 on every track.
-- `map[uint32]uint64` is an association list. Offsets are `int`, and a sum of two does not leave 64 bits.
pub mod Rebasing
use bilirec.Prelude.{
  ℕ, zero, suc, ◌+◌, ◌-◌, ◌/◌, ◌%◌, Bool, true, false, ◌||◌, Option, none, some, List, [], ◌∷◌,
  ◌++◌, if◌then◌else◌, length, take, drop, ltb, ◌==◌, lookup, insert,
}
use bilirec.Hls.Boxes.{BoxHeader, uint_at, read_box_header}

abbrev pub box_type_moof : ℕ
box_type_moof = 0x6d6f6f66

abbrev pub box_type_traf : ℕ
box_type_traf = 0x74726166

abbrev pub box_type_tfhd : ℕ
box_type_tfhd = 0x74666864

abbrev pub box_type_tfdt : ℕ
box_type_tfdt = 0x74666474

-- The segment, the base of each track, and how many boxes were changed.
pub record Rebased : Type 0 where
  pub data_bytes : List ℕ
  pub bases : List (ℕ × ℕ)
  pub normalized : ℕ

-- `binary.BigEndian.PutUint32` and `PutUint64`: the `n` bytes of a number.
unfoldable pub big_endian_bytes : ℕ → ℕ → List ℕ
big_endian_bytes zero v = []
big_endian_bytes (suc n) v = big_endian_bytes n (v / 256) ++ (v % 256 ∷ [])

unfoldable pub put_uint : ℕ → List ℕ → ℕ → ℕ → List ℕ
unfolding big_endian_bytes
put_uint n bytes offset v = take offset bytes ++ (big_endian_bytes n v ++ drop (offset + n) bytes)

-- The base of a track behind a decode time: the time itself if it is the first or below the base.
unfoldable pub base_for : Option ℕ → ℕ → ℕ
base_for none value = value
base_for (some base) value = if ltb value base then value else base

-- The shared end of both versions in `NormalizeTfdtBox`, with `n` bytes for the time at `offset`.
unfoldable pub rebase_at : ℕ → Rebased → ℕ → ℕ → Rebased
unfolding base_for uint_at put_uint
rebase_at n s offset track =
    let value = uint_at s.data_bytes offset n in
    let base = base_for (lookup track s.bases) value in
    record {
      data_bytes = put_uint n s.data_bytes offset (value - base);
      bases = insert track base s.bases;
      normalized = suc s.normalized;
    }

-- `TfhdTrackID`; 0 is no track.
unfoldable pub tfhd_track_id : List ℕ → ℕ → ℕ → ℕ
unfolding uint_at
tfhd_track_id bytes start end = if ltb (end - start) 16 then 0 else uint_at bytes (start + 12) 4

-- `NormalizeTfdtBox` and the count of its caller.
unfoldable pub normalize_tfdt_box : Rebased → ℕ → ℕ → ℕ → Rebased
unfolding rebase_at uint_at
normalize_tfdt_box s start end track =
    if track == 0 || ltb (end - start) 16
    then s
    else if uint_at s.data_bytes (start + 8) 1 == 1
    then if ltb (end - start) 20 then s else rebase_at 8 s (start + 12) track
    else rebase_at 4 s (start + 12) track

-- The loop that all four walks share: the headers from `off` to `end`, until one cannot be read or the body
-- breaks. `none` stands for a loop that has run out of fuel.
module _ {ℓ} {S : Type ℓ} (bytes_of : S → List ℕ)
    (body : S → ℕ → BoxHeader → Option (S × Bool)) where
  unfoldable pub next_round : (S → Option S) → Option (S × Bool) → Option S
  next_round more none = none
  next_round more (some (s, broken)) = if broken then some s else more s

  unfoldable pub visit : (S → ℕ → Option S) → S → ℕ → Option BoxHeader → Option S
  unfolding next_round
  visit more s off none = some s
  visit more s off (some h) = next_round (λ (t : S). more t (off + h.size)) (body s off h)

  unfoldable pub box_loop : ℕ → S → ℕ → ℕ → Option S
  unfolding visit read_box_header
  box_loop zero s off end = if ltb off end then none else some s
  box_loop (suc fuel) s off end =
      let round =
        visit (λ (t : S) (next : ℕ). box_loop fuel t next end) s off
          (read_box_header (bytes_of s) off) in
      if ltb off end then round else some s

-- The first loop of `NormalizeTrafTfdt`: the track of the first `tfhd` that names one.
unfoldable pub track_body : List ℕ → ℕ → ℕ → BoxHeader → Option (ℕ × Bool)
unfolding tfhd_track_id
track_body bytes track off h =
    let id = tfhd_track_id bytes off (off + h.size) in
    if h.box_type == box_type_tfhd
    then if id == 0 then some (track, false) else some (id, true)
    else some (track, false)

unfoldable pub find_track : List ℕ → ℕ → ℕ → Option ℕ
unfolding box_loop track_body
find_track bytes start end = box_loop (λ (_ : ℕ). bytes) (track_body bytes) end 0 (start + 8) end

-- The second loop.
unfoldable pub tfdt_body : ℕ → Rebased → ℕ → BoxHeader → Option (Rebased × Bool)
unfolding normalize_tfdt_box
tfdt_body track s off h =
    if h.box_type == box_type_tfdt
    then some (normalize_tfdt_box s off (off + h.size) track, false)
    else some (s, false)

unfoldable pub normalize_track : Rebased → ℕ → ℕ → Option ℕ → Option Rebased
unfolding box_loop tfdt_body
normalize_track s start end none = none
normalize_track s start end (some track) =
    if track == 0
    then some s
    else box_loop (λ (r : Rebased). r.data_bytes) (tfdt_body track) end s (start + 8) end

unfoldable pub normalize_traf_tfdt : Rebased → ℕ → ℕ → Option Rebased
unfolding normalize_track find_track
normalize_traf_tfdt s start end = normalize_track s start end (find_track s.data_bytes start end)

unfoldable pub go_on : Option Rebased → Option (Rebased × Bool)
go_on none = none
go_on (some s) = some (s, false)

-- The boxes of a `moof`, and the boxes of the segment.
unfoldable pub traf_body : Rebased → ℕ → BoxHeader → Option (Rebased × Bool)
unfolding normalize_traf_tfdt go_on
traf_body s off h =
    if h.box_type == box_type_traf
    then go_on (normalize_traf_tfdt s off (off + h.size))
    else some (s, false)

unfoldable pub moof_body : Rebased → ℕ → BoxHeader → Option (Rebased × Bool)
unfolding box_loop traf_body go_on
moof_body s off h =
    let end = off + h.size in
    if h.box_type == box_type_moof
    then go_on (box_loop (λ (r : Rebased). r.data_bytes) traf_body end s (off + 8) end)
    else some (s, false)

unfoldable pub normalize_fragment_timestamps : List ℕ → List (ℕ × ℕ) → Option Rebased
unfolding box_loop moof_body
normalize_fragment_timestamps bytes bases =
    box_loop (λ (r : Rebased). r.data_bytes) moof_body (length bytes)
      (record { data_bytes = bytes; bases = bases; normalized = 0 }) 0 (length bytes)
