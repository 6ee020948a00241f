-- ===== src/Hls/Fragment/Rebasing.antt =====
-- pkg/hls/fmp4_fragment.go: the walks end, keep the segment's length and never raise a base.
use bilirec.Prelude.{
  ℕ, zero, suc, ◌+◌, ◌-◌, ◌/◌, ◌%◌, ◌≤◌, ◌≡◌, refl, sym, ap, ◌∙◌, subst, Bool, true, false, ◌||◌,
  Option, none, some, List, [], ◌∷◌, ◌++◌, if_cases, length, take, drop, ltb, ltb→lt, ◌==◌, arith,
  lookup, insert, lookup-insert, length-append, length-take, length-drop, Bool-cases, inl, inr,
  if_true, if_false, ==_iff, EndsIn,
}
use bilirec.Hls.Boxes.{BoxHeader, read_box_header, uint_at, within}
use bilirec.Hls.Fragment.{
  Rebased, box_loop, visit, next_round, big_endian_bytes, put_uint, base_for, rebase_at,
  normalize_tfdt_box, track_body, find_track, tfdt_body, normalize_track, normalize_traf_tfdt,
  go_on, traf_body, moof_body, normalize_fragment_timestamps, box_type_tfdt, box_type_tfhd,
  box_type_traf, box_type_moof, tfhd_track_id,
}

-- A header that was read at `off`: it has room, and its box lies within the data.
abbrev pub IsBoxAt : List ℕ → ℕ → BoxHeader → Type 0
IsBoxAt bytes off h = (8 ≤ h.size) × (off + h.size ≤ length bytes)

IsSized : List ℕ → ℕ → Option BoxHeader → Type 0
IsSized bytes off none = Unit {0}
IsSized bytes off (some h) = IsBoxAt bytes off h

within-IsSized :
    (bytes : List ℕ) (off : ℕ) (h : BoxHeader)
    → off ≤ length bytes
    → 8 ≤ h.header_len
    → IsSized bytes off (within (length bytes - off) h)
unfolding within IsSized
within-IsSized bytes off h inside le = ground arith

read_box_header-IsSized : (bytes : List ℕ) (off : ℕ) → IsSized bytes off (read_box_header bytes off)
unfolding read_box_header IsSized
read_box_header-IsSized bytes off = ground (arith, within-IsSized bytes off)

module _ {ℓ} {S : Type ℓ} (bytes_of : S → List ℕ) (body : S → ℕ → BoxHeader → Option (S × Bool))
    (P : S → Type 0)
    (keeps : (s : S) (off : ℕ) (h : BoxHeader)
      → IsBoxAt (bytes_of s) off h
      → P s
      → EndsIn (λ (r : S × Bool). P r.0) (body s off h)) where
  next_round-EndsIn :
      (more : S → Option S) (r : Option (S × Bool))
      → ((s : S) → P s → EndsIn P (more s))
      → EndsIn (λ (q : S × Bool). P q.0) r
      → EndsIn P (next_round bytes_of body more r)
  unfolding next_round
  next_round-EndsIn more none go p = p
  next_round-EndsIn more (some (s, true)) go p = p
  next_round-EndsIn more (some (s, false)) go p = go s p

  visit-EndsIn :
      (more : S → ℕ → Option S) (s : S) (off : ℕ) (r : Option BoxHeader)
      → IsSized (bytes_of s) off r
      → ((t : S) (next : ℕ) → off + 8 ≤ next → P t → EndsIn P (more t next))
      → P s
      → EndsIn P (visit bytes_of body more s off r)
  unfolding visit IsSized
  visit-EndsIn more s off none sized go p = p
  visit-EndsIn more s off (some h) sized go p =
      next_round-EndsIn (λ (t : S). more t (off + h.size)) (body s off h)
        (λ t q. go t (off + h.size) (omega (arith, sized.0)) q) (keeps s off h sized p)

  -- With fuel for the bytes that are left the loop ends, in a state with what every round keeps.
  pub box_loop-EndsIn :
      (fuel : ℕ) (s : S) (off end : ℕ)
      → end ≤ off + fuel
      → P s
      → EndsIn P (box_loop bytes_of body fuel s off end)
  unfolding box_loop
  box_loop-EndsIn zero s off end enough p =
      if_cases (EndsIn P) (ltb off end) (λ e. absurd (omega (arith, ltb→lt off end e))) (λ _. p)
  box_loop-EndsIn (suc fuel) s off end enough p =
      if_cases (EndsIn P) (ltb off end)
        (λ _.
          visit-EndsIn (λ (t : S) (next : ℕ). box_loop bytes_of body fuel t next end) s off
            (read_box_header (bytes_of s) off) (read_box_header-IsSized (bytes_of s) off)
            (λ t next le q. box_loop-EndsIn fuel t next end (omega arith) q) p)
        (λ _. p)

-- What a walk over a segment keeps: its length, and every base or a lower one.
abbrev pub IsRebased : List ℕ → List (ℕ × ℕ) → Rebased → Type 0
IsRebased bytes bases s =
    (length s.data_bytes ≡ length bytes)
    × ((track base : ℕ)
        → lookup track bases ≡ some base
        → (lower : ℕ) × ((lookup track s.bases ≡ some lower) × (lower ≤ base)))

length-big_endian_bytes : (n v : ℕ) → length (big_endian_bytes n v) ≡ n
unfolding big_endian_bytes
length-big_endian_bytes zero v = refl
length-big_endian_bytes (suc n) v = omega (
  arith,
  length-append (big_endian_bytes n (v / 256)) (v % 256 ∷ []),
  length-big_endian_bytes n (v / 256),
)

length-put_uint :
    (n : ℕ) (bytes : List ℕ) (offset v : ℕ)
    → offset + n ≤ length bytes
    → length (put_uint n bytes offset v) ≡ length bytes
unfolding put_uint
length-put_uint n bytes offset v fits =
    let tail = drop (offset + n) bytes in
    omega (
      arith,
      length-append (take offset bytes) (big_endian_bytes n v ++ tail),
      length-append (big_endian_bytes n v) tail,
      length-big_endian_bytes n v,
      length-take offset bytes,
      length-drop (offset + n) bytes,
    )

base_for_le : (old : ℕ) (value : ℕ) → base_for (some old) value ≤ old
unfolding base_for
base_for_le old value = ground arith

base_for-known : (known : Option ℕ) (value old : ℕ) → known ≡ some old → base_for known value ≤ old
base_for-known known value old e =
    subst (λ (k : Option ℕ). base_for k value ≤ old) (sym e) (base_for_le old value)

insert_lower :
    (bases : List (ℕ × ℕ)) (track value t old : ℕ)
    → lookup t bases ≡ some old
    → (lower : ℕ) × ((lookup t (insert track (base_for (lookup track bases) value) bases)
          ≡ some lower)
        × (lower ≤ old))
insert_lower bases track value t old e =
    let base = base_for (lookup track bases) value in
    elim (Bool-cases (track == t)) [
      | inl same ↦ (
        base,
        (
          lookup-insert track t base bases ∙ if_true (some base) (lookup t bases) same,
          base_for-known (lookup track bases) value old
              (ap (λ (k : ℕ). lookup k bases) ((==_iff track t).0 same) ∙ e),
        ),
      )
      | inr other ↦ (
        old,
        (
          lookup-insert track t base bases ∙ (if_false (some base) (lookup t bases) other ∙ e),
          omega arith,
        ),
      )
    ]

module _ (bytes : List ℕ) (bases : List (ℕ × ℕ)) where
  rebase_at-IsRebased :
      (n : ℕ) (s : Rebased) (offset track : ℕ)
      → offset + n ≤ length s.data_bytes
      → IsRebased bytes bases s
      → IsRebased bytes bases (rebase_at n s offset track)
  unfolding rebase_at
  rebase_at-IsRebased n s offset track fits (len, low) =
      let value = uint_at s.data_bytes offset n in
      let base = base_for (lookup track s.bases) value in
      (
        length-put_uint n s.data_bytes offset (value - base) fits ∙ len,
        λ t old e.
            let before = low t old e in
            let after = insert_lower s.bases track value t before.0 before.1.0 in
            (after.0, (after.1.0, omega (arith, before.1.1, after.1.1))),
      )

  normalize_tfdt_box-IsRebased :
      (s : Rebased) (start end track : ℕ)
      → end ≤ length s.data_bytes
      → IsRebased bytes bases s
      → IsRebased bytes bases (normalize_tfdt_box s start end track)
  unfolding normalize_tfdt_box
  normalize_tfdt_box-IsRebased s start end track fits p =
      let P : Rebased → Type 0 = IsRebased bytes bases in
      let short = ltb (end - start) 16 in
      let long = ltb (end - start) 20 in
      if_cases P (track == 0 || short) (λ _. p)
        (λ a.
          if_cases P (uint_at s.data_bytes (start + 8) 1 == 1)
            (λ _.
              if_cases P long (λ _. p)
                (λ c. rebase_at-IsRebased 8 s (start + 12) track (ground arith) p))
            (λ _. rebase_at-IsRebased 4 s (start + 12) track (ground arith) p))

  tfdt_body-IsRebased :
      (track : ℕ) (s : Rebased) (off : ℕ) (h : BoxHeader)
      → IsBoxAt s.data_bytes off h
      → IsRebased bytes bases s
      → EndsIn (λ (r : Rebased × Bool). IsRebased bytes bases r.0) (tfdt_body track s off h)
  unfolding tfdt_body
  tfdt_body-IsRebased track s off h at p =
      if_cases (EndsIn (λ (r : Rebased × Bool). IsRebased bytes bases r.0))
        (h.box_type == box_type_tfdt)
        (λ _. normalize_tfdt_box-IsRebased s off (off + h.size) track at.1 p) (λ _. p)

  normalize_track-IsRebased :
      (s : Rebased) (start end : ℕ) (track : Option ℕ)
      → EndsIn (λ (_ : ℕ). Unit {0}) track
      → IsRebased bytes bases s
      → EndsIn (IsRebased bytes bases) (normalize_track s start end track)
  unfolding normalize_track
  normalize_track-IsRebased s start end none ends p = absurd ends
  normalize_track-IsRebased s start end (some track) ends p =
      if_cases (EndsIn (IsRebased bytes bases)) (track == 0) (λ _. p)
        (λ _.
          box_loop-EndsIn (λ (r : Rebased). r.data_bytes) (tfdt_body track) (IsRebased bytes bases)
            (tfdt_body-IsRebased track) end s (start + 8) end (omega arith) p)

  track_body-EndsIn :
      (content : List ℕ) (track off : ℕ) (h : BoxHeader)
      → IsBoxAt content off h
      → Unit {0}
      → EndsIn (λ (_ : ℕ × Bool). Unit {0}) (track_body content track off h)
  unfolding track_body
  track_body-EndsIn content track off h at u =
      if_cases (EndsIn (λ (_ : ℕ × Bool). Unit {0})) (h.box_type == box_type_tfhd)
        (λ _.
          if_cases (EndsIn (λ (_ : ℕ × Bool). Unit {0}))
            (tfhd_track_id content off (off + h.size) == 0) (λ _. tt) (λ _. tt))
        (λ _. tt)

  normalize_traf_tfdt-IsRebased :
      (s : Rebased) (start end : ℕ)
      → IsRebased bytes bases s
      → EndsIn (IsRebased bytes bases) (normalize_traf_tfdt s start end)
  unfolding normalize_traf_tfdt find_track
  normalize_traf_tfdt-IsRebased s start end p =
      normalize_track-IsRebased s start end (find_track s.data_bytes start end)
        (box_loop-EndsIn (λ (_ : ℕ). s.data_bytes) (track_body s.data_bytes) (λ _. Unit {0})
          (track_body-EndsIn s.data_bytes) end 0 (start + 8) end (omega arith) tt)
        p

  go_on-IsRebased :
      (r : Option Rebased)
      → EndsIn (IsRebased bytes bases) r
      → EndsIn (λ (q : Rebased × Bool). IsRebased bytes bases q.0) (go_on r)
  unfolding go_on
  go_on-IsRebased none p = p
  go_on-IsRebased (some s) p = p

  traf_body-IsRebased :
      (s : Rebased) (off : ℕ) (h : BoxHeader)
      → IsBoxAt s.data_bytes off h
      → IsRebased bytes bases s
      → EndsIn (λ (r : Rebased × Bool). IsRebased bytes bases r.0) (traf_body s off h)
  unfolding traf_body
  traf_body-IsRebased s off h at p =
      if_cases (EndsIn (λ (r : Rebased × Bool). IsRebased bytes bases r.0))
        (h.box_type == box_type_traf)
        (λ _.
          go_on-IsRebased (normalize_traf_tfdt s off (off + h.size))
            (normalize_traf_tfdt-IsRebased s off (off + h.size) p))
        (λ _. p)

  moof_body-IsRebased :
      (s : Rebased) (off : ℕ) (h : BoxHeader)
      → IsBoxAt s.data_bytes off h
      → IsRebased bytes bases s
      → EndsIn (λ (r : Rebased × Bool). IsRebased bytes bases r.0) (moof_body s off h)
  unfolding moof_body
  moof_body-IsRebased s off h at p =
      let end = off + h.size in
      let loop = box_loop (λ (r : Rebased). r.data_bytes) traf_body end s (off + 8) end in
      if_cases (EndsIn (λ (r : Rebased × Bool). IsRebased bytes bases r.0))
        (h.box_type == box_type_moof)
        (λ _. go_on-IsRebased loop (
          box_loop-EndsIn (λ (r : Rebased). r.data_bytes) traf_body (IsRebased bytes bases)
            traf_body-IsRebased end s (off + 8) end (omega arith) p))
        (λ _. p)

  -- On every segment, whatever its bytes are, `NormalizeFragmentTimestamps` ends; it keeps the length of the
  -- segment, and every track that had a base has one that is not above it.
  pub normalize_fragment_timestamps-IsRebased :
      EndsIn (IsRebased bytes bases) (normalize_fragment_timestamps bytes bases)
  unfolding normalize_fragment_timestamps
  normalize_fragment_timestamps-IsRebased =
      box_loop-EndsIn (λ (r : Rebased). r.data_bytes) moof_body (IsRebased bytes bases)
        moof_body-IsRebased (length bytes)
        (record { data_bytes = bytes; bases = bases; normalized = 0 }) 0 (length bytes)
        (omega arith) (refl, λ t old e. (old, (e, omega arith)))
