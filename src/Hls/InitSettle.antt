-- ===== src/Hls/InitSettle.antt =====
-- pkg/hls/fmp4_init_settle.go, and `sendSettle` and `acceptMap` of pkg/hls/stream_loop.go. A buffer is a
-- slice of the pool: its identity and its bytes. An operation returns the new state and the buffers it
-- gave back to the pool. The log lines and the length of the debounce window are left out.
pub mod Count
pub mod Ownership
pub mod Churn
use bilirec.Prelude.{
  ℕ, zero, suc, Bool, true, false, ◌&&◌, not, Option, none, some, List, [], ◌∷◌, ◌++◌,
  if◌then◌else◌, length, take, drop, ltb,
}
use bilirec.Prelude.Bytes.{bytes_equal}

pub record Buffer : Type 0 where
  pub id : ℕ
  pub bytes : List ℕ

pub record InitSettle : Type 0 where
  pub confirmed : List ℕ
  pub active : Bool
  pub pending : Option Buffer
  pub buf : List Buffer

abbrev pub new_init_settle : InitSettle
new_init_settle = record { confirmed = []; active = false; pending = none; buf = [] }

-- A nil slice has no bytes.
unfoldable pub pending_bytes : Option Buffer → List ℕ
pending_bytes none = []
pending_bytes (some b) = b.bytes

unfoldable pub as_list : Option Buffer → List Buffer
as_list none = []
as_list (some b) = b ∷ []

-- `dropBuf` and `cancel`
unfoldable pub cancel : InitSettle → InitSettle × List Buffer
unfolding as_list
cancel s =
    if not s.active
    then (s, [])
    else (record s { active = false; pending = none; buf = [] }, s.buf ++ as_list s.pending)

-- `Reset`
unfoldable pub reset : InitSettle → InitSettle × List Buffer
unfolding cancel
reset s = let r = cancel s in (record r.0 { confirmed = [] }, r.1)

-- `BufferMedia`
unfoldable pub buffer_media : InitSettle → Buffer → InitSettle
buffer_media s fragment = if not s.active then s else record s { buf = s.buf ++ (fragment ∷ []) }

pub record AcceptMapResult : Type 0 where
  pub deliver_now : Option Buffer
  pub arm_timer : Bool
  pub stop_timer : Bool

pub record Accepted : Type 0 where
  pub settle : InitSettle
  pub released : List Buffer
  pub result : AcceptMapResult

unfoldable pub is_confirmed : InitSettle → Buffer → Bool
is_confirmed s map_data = ltb 0 (length s.confirmed) && bytes_equal map_data.bytes s.confirmed

-- The three cases while a change is held.
unfoldable pub accept_active : InitSettle → Buffer → Accepted
unfolding cancel is_confirmed pending_bytes as_list
accept_active s map_data =
    let cancelled = cancel s in
    if is_confirmed s map_data
    then record {
      settle = cancelled.0;
      released = cancelled.1 ++ (map_data ∷ []);
      result = record { deliver_now = none; arm_timer = false; stop_timer = true };
    }
    else if bytes_equal map_data.bytes (pending_bytes s.pending)
    then record {
      settle = s;
      released = map_data ∷ [];
      result = record { deliver_now = none; arm_timer = true; stop_timer = false };
    }
    else record {
      settle = record s { pending = some map_data; buf = [] };
      released = s.buf ++ as_list s.pending;
      result = record { deliver_now = none; arm_timer = true; stop_timer = false };
    }

-- The three cases while nothing is held.
unfoldable pub accept_idle : InitSettle → Buffer → Accepted
unfolding is_confirmed
accept_idle s map_data =
    if is_confirmed s map_data
    then record {
      settle = s;
      released = map_data ∷ [];
      result = record { deliver_now = none; arm_timer = false; stop_timer = false };
    }
    else if not (ltb 0 (length s.confirmed))
    then record {
      settle = record s { confirmed = map_data.bytes };
      released = [];
      result = record { deliver_now = some map_data; arm_timer = false; stop_timer = false };
    }
    else record {
      settle = record s { pending = some map_data; active = true; buf = [] };
      released = [];
      result = record { deliver_now = none; arm_timer = true; stop_timer = false };
    }

-- `AcceptMap`
unfoldable pub accept_map : InitSettle → Buffer → Accepted
unfolding accept_active accept_idle
accept_map s map_data = if s.active then accept_active s map_data else accept_idle s map_data

-- `Settle`: the state after it, the init segment and the media.
unfoldable pub settle : InitSettle → InitSettle × Option Buffer × List Buffer
unfolding pending_bytes
settle s = if not s.active then (s, none, []) else (
  record { confirmed = pending_bytes s.pending; active = false; pending = none; buf = [] },
  s.pending,
  s.buf,
)

-- The reader's side. `sends` is how many buffers the channel takes before the context is cancelled.
pub record Runner : Type 0 where
  pub settle : InitSettle
  pub channel : List Buffer
  pub released : List Buffer

-- `sendSettle` of stream_loop.go, from the segments that `Settle` returned.
unfoldable pub send_segments : Runner → Option Buffer → List Buffer → ℕ → Runner × Bool
send_segments r none media sends = (r, true)
send_segments r (some init_seg) media zero = (record r { released = r.released ++ media }, false)
send_segments r (some init_seg) media (suc sends) = (
  record r {
    channel = r.channel ++ (init_seg ∷ take sends media);
    released = r.released ++ drop sends media;
  },
  not (ltb sends (length media)),
)

unfoldable pub send_settle : Runner → ℕ → Runner × Bool
unfolding settle send_segments
send_settle r sends =
    let settled = settle r.settle in
    send_segments (record r { settle = settled.0 }) settled.1 settled.2 sends

-- What `acceptMap` of stream_loop.go does with `DeliverNow`.
unfoldable pub deliver : Runner → Option Buffer → ℕ → Runner × Bool
deliver r none sends = (r, true)
deliver r (some init_seg) zero = (record r { released = r.released ++ (init_seg ∷ []) }, false)
deliver r (some init_seg) (suc sends) = (record r { channel = r.channel ++ (init_seg ∷ []) }, true)

unfoldable pub run_accept_map : Runner → Buffer → ℕ → Runner × Bool
unfolding accept_map deliver
run_accept_map r map_data sends =
    let a = accept_map r.settle map_data in
    deliver (record r { settle = a.settle; released = r.released ++ a.released })
      a.result.deliver_now sends

-- What reaches the reader: a fetched init segment, a fetched media fragment, the end of the window, a
-- playlist without EXT-X-MAP, and a new playlist address.
pub data Event : Type 0 where
  map_fetched : Buffer → ℕ → Event
  fragment_fetched : Buffer → ℕ → Event
  window_ended : ℕ → Event
  map_gone : Event
  url_refreshed : Event

-- The end of the segment loop of `processSegments`: hold the fragment, or send it.
unfoldable pub send_fragment : Runner → Buffer → ℕ → Runner
unfolding buffer_media
send_fragment r fragment sends =
    if r.settle.active
    then record r { settle = buffer_media r.settle fragment }
    else if ltb 0 sends
    then record r { channel = r.channel ++ (fragment ∷ []) }
    else record r { released = r.released ++ (fragment ∷ []) }

unfoldable pub cancelled : Runner → InitSettle × List Buffer → Runner
cancelled r c = record r { settle = c.0; released = r.released ++ c.1 }

unfoldable pub handle : Runner → Event → Runner
unfolding run_accept_map send_fragment send_settle cancel reset cancelled
handle r (map_fetched map_data sends) = (run_accept_map r map_data sends).0
handle r (fragment_fetched fragment sends) = send_fragment r fragment sends
handle r (window_ended sends) = (send_settle r sends).0
handle r map_gone = cancelled r (cancel r.settle)
handle r url_refreshed = cancelled r (reset r.settle)

unfoldable pub handle_all : Runner → List Event → Runner
unfolding handle
handle_all r [] = r
handle_all r (e ∷ events) = handle_all (handle r e) events
