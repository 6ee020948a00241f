-- ===== src/Hls/InitSettle/Churn.antt =====
-- What a consumer sees of a change of the init segment.
use bilirec.Prelude.{
  ℕ, ◌<◌, ◌≡◌, refl, true, false, none, some, List, [], ◌∷◌, ◌++◌, length, append_assoc, append-nil,
  lt→ltb,
}
use bilirec.Prelude.Bytes.{bytes_equal, bytes_equal_refl}
use bilirec.Hls.InitSettle.{
  Buffer, InitSettle, cancel, buffer_media, accept_active, accept_idle, accept_map, settle,
  is_confirmed, as_list,
}

-- The media that arrive while a change is held.
unfoldable pub buffer_all : InitSettle → List Buffer → InitSettle
buffer_all s [] = s
buffer_all s (b ∷ bs) = buffer_all (buffer_media s b) bs

-- The state in which init segment `p` is held after `c` was confirmed, with the media `bs`.
unfoldable pub holding : List ℕ → Buffer → List Buffer → InitSettle
holding c p bs = record { confirmed = c; active = true; pending = some p; buf = bs }

unfoldable pub idle : List ℕ → InitSettle
idle c = record { confirmed = c; active = false; pending = none; buf = [] }

buffer_all-holding :
    (c : List ℕ) (p : Buffer) (bs cs : List Buffer)
    → buffer_all (holding c p bs) cs ≡ holding c p (bs ++ cs)
unfolding buffer_all holding buffer_media
buffer_all-holding c p bs [] = rw append-nil refl
buffer_all-holding c p bs (b ∷ cs) =
    rw (buffer_all-holding c p (bs ++ (b ∷ [])) cs, append_assoc bs (b ∷ []) cs) refl

-- A changed init segment is held: nothing is delivered, nothing is released, and the timer is armed.
accept_map_change :
    (c : List ℕ) (p : Buffer)
    → 0 < length c
    → bytes_equal p.bytes c ≡ false
    → accept_map (idle c) p ≡ record {
      settle = holding c p [];
      released = [];
      result = record { deliver_now = none; arm_timer = true; stop_timer = false };
    }
unfolding accept_map accept_idle is_confirmed idle holding
accept_map_change c p l n = rw (n, lt→ltb 0 (length c) l) refl

is_confirmed_same :
    (s : InitSettle) (b : Buffer)
    → 0 < length s.confirmed
    → b.bytes ≡ s.confirmed
    → is_confirmed s b ≡ true
unfolding is_confirmed
is_confirmed_same s b l e = rw (lt→ltb 0 (length s.confirmed) l, e) (bytes_equal_refl s.confirmed)

-- An init segment that changes and changes back within the window leaves no trace: the state is what it
-- was, nothing is delivered, the timer is stopped, and every buffer goes back to the pool.
pub accept_map_back :
    (c : List ℕ) (p b : Buffer) (media : List Buffer)
    → 0 < length c
    → bytes_equal p.bytes c ≡ false
    → b.bytes ≡ c
    → accept_map (buffer_all (accept_map (idle c) p).settle media) b ≡ record {
      settle = idle c;
      released = (media ++ (p ∷ [])) ++ (b ∷ []);
      result = record { deliver_now = none; arm_timer = false; stop_timer = true };
    }
unfolding holding idle accept_map accept_active cancel as_list
accept_map_back c p b media l n e =
    rw (accept_map_change c p l n, buffer_all-holding c p [] media)
      (rw (is_confirmed_same (holding c p media) b l e) refl)
