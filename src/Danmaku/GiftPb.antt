-- ===== src/Danmaku/GiftPb.antt =====
-- internal/services/danmaku/parse_pb.go. A string is the list of its bytes, an int64 its bit pattern.
-- The fetch of the field `data.pb` from JSON and the base64 decoding are a parameter.

pub mod Messages
pub mod Items
pub mod Broadcast
pub mod Rounds
use bilirec.Prelude.{
  ℕ, zero, suc, Bool, true, false, ◌&&◌, not, Option, none, some, List, [], ◌∷◌, ◌++◌, map,
  if◌then◌else◌, length, ◌==◌, ◌⊎◌, inl, inr,
}
use bilirec.Wire.Reader.{read_varint, read_bool, read_bytes, try_read_tag, skip_field}

pub record SendGiftV2Item : Type 0 where
  pub gift_id : ℕ
  pub gift_name : List ℕ
  pub num : ℕ
  pub gift_type : ℕ
  pub price : ℕ
  pub total_coin : ℕ
  pub coin_type : List ℕ
  pub tid : List ℕ
  pub timestamp : ℕ
  pub action : List ℕ

pub record SendGiftBroadcast : Type 0 where
  pub uid : ℕ
  pub uname : List ℕ
  pub face : List ℕ
  pub name_color : List ℕ
  pub guard_level : ℕ
  pub gift_list : List SendGiftV2Item
  pub switch_present : Bool
  pub switch_on : Bool

abbrev pub empty_item : SendGiftV2Item
empty_item = record {
  gift_id = 0;
  gift_name = [];
  num = 0;
  gift_type = 0;
  price = 0;
  total_coin = 0;
  coin_type = [];
  tid = [];
  timestamp = 0;
  action = [];
}

abbrev pub empty_broadcast : SendGiftBroadcast
empty_broadcast = record {
  uid = 0;
  uname = [];
  face = [];
  name_color = [];
  guard_level = 0;
  gift_list = [];
  switch_present = false;
  switch_on = false;
}

-- `wireInt64`, `wireString` and `ReadBool`: what is read goes to `store`; `none` is the answer false.
unfoldable pub store_read {ℓ κ} :
    {A : Type ℓ} {B : Type κ} → Option A × List ℕ → (A → B) → Option (B × List ℕ)
store_read (none, r) store = none
store_read (some v, r) store = some (store v, r)

unfoldable pub skipped {ℓ} : {B : Type ℓ} → Bool × List ℕ → B → Option (B × List ℕ)
skipped (false, r) out = none
skipped (true, r) out = some (out, r)

unfoldable pub apply_item_field : SendGiftV2Item → List ℕ → ℕ → ℕ → Option (SendGiftV2Item × List ℕ)
apply_item_field out r field_num wire_type =
    if field_num == 1
    then store_read (read_varint r) (λ v. record out { gift_id = v })
    else if field_num == 2
    then store_read (read_bytes r) (λ s. record out { gift_name = s })
    else if field_num == 3
    then store_read (read_varint r) (λ v. record out { num = v })
    else if field_num == 4
    then store_read (read_varint r) (λ v. record out { gift_type = v })
    else if field_num == 5
    then store_read (read_varint r) (λ v. record out { price = v })
    else if field_num == 7
    then store_read (read_varint r) (λ v. record out { total_coin = v })
    else if field_num == 8
    then store_read (read_bytes r) (λ s. record out { coin_type = s })
    else if field_num == 9
    then store_read (read_bytes r) (λ s. record out { tid = s })
    else if field_num == 10
    then store_read (read_varint r) (λ v. record out { timestamp = v })
    else if field_num == 18
    then store_read (read_bytes r) (λ s. record out { action = s })
    else skipped (skip_field wire_type r) out

-- The loop of a message: it ends at the first tag that cannot be read. `none` is the answer false; a
-- message of `n` bytes has at most `n` rounds, so the fuel is never used up.
module _ {ℓ} {A : Type ℓ} (apply_field : A → List ℕ → ℕ → ℕ → Option (A × List ℕ)) where
  unfoldable pub message_loop : ℕ → A → Option (ℕ × ℕ) × List ℕ → Option A
  message_loop fuel out (none, r) = some out
  message_loop zero out (some (n, t), r) = none
  message_loop (suc fuel) out (some (n, t), r) = elim (apply_field out r n t) [
    | none ↦ none
    | some (next, rest) ↦ message_loop fuel next (try_read_tag rest)
  ]

unfoldable pub parse_item : List ℕ → Option SendGiftV2Item
parse_item bytes = message_loop apply_item_field (length bytes) empty_item (try_read_tag bytes)

unfoldable pub add_gift :
    SendGiftBroadcast → Option SendGiftV2Item → List ℕ → Option (SendGiftBroadcast × List ℕ)
add_gift out none r = none
add_gift out (some item) r = some (record out { gift_list = out.gift_list ++ (item ∷ []) }, r)

unfoldable pub apply_gift :
    SendGiftBroadcast → Option (List ℕ) × List ℕ → Option (SendGiftBroadcast × List ℕ)
unfolding add_gift parse_item
apply_gift out (none, r) = none
apply_gift out (some msg, r) = add_gift out (parse_item msg) r

unfoldable pub apply_broadcast_field :
    SendGiftBroadcast → List ℕ → ℕ → ℕ → Option (SendGiftBroadcast × List ℕ)
apply_broadcast_field out r field_num wire_type =
    if field_num == 1
    then store_read (read_varint r) (λ v. record out { uid = v })
    else if field_num == 2
    then store_read (read_bytes r) (λ s. record out { uname = s })
    else if field_num == 3
    then store_read (read_bytes r) (λ s. record out { face = s })
    else if field_num == 4
    then store_read (read_bytes r) (λ s. record out { name_color = s })
    else if field_num == 5
    then store_read (read_varint r) (λ v. record out { guard_level = v })
    else if field_num == 10
    then apply_gift out (read_bytes r)
    else if field_num == 11
    then store_read (read_bool r) (λ v. record out { switch_present = true; switch_on = v })
    else skipped (skip_field wire_type r) out

unfoldable pub parse_broadcast : List ℕ → Option SendGiftBroadcast
parse_broadcast bytes =
    message_loop apply_broadcast_field (length bytes) empty_broadcast (try_read_tag bytes)

-- The fields of Gift that `parseGiftV2` sets.
pub record Gift : Type 0 where
  pub uid : ℕ
  pub uname : List ℕ
  pub face : List ℕ
  pub name_color : List ℕ
  pub guard_level : ℕ
  pub gift_id : ℕ
  pub gift_name : List ℕ
  pub num : ℕ
  pub gift_type : ℕ
  pub price : ℕ
  pub total_coin : ℕ
  pub coin_type : List ℕ
  pub tid : List ℕ
  pub timestamp : ℕ
  pub action : List ℕ

unfoldable pub to_gift : SendGiftBroadcast → SendGiftV2Item → Gift
to_gift b i = record {
  uid = b.uid;
  uname = b.uname;
  face = b.face;
  name_color = b.name_color;
  guard_level = b.guard_level;
  gift_id = i.gift_id;
  gift_name = i.gift_name;
  num = i.num;
  gift_type = i.gift_type;
  price = i.price;
  total_coin = i.total_coin;
  coin_type = i.coin_type;
  tid = i.tid;
  timestamp = i.timestamp;
  action = i.action;
}

pub data GiftError : Type 0 where
  base64_decode parse_failed : GiftError

unfoldable pub gifts_of : Option SendGiftBroadcast → GiftError ⊎ List Gift
gifts_of none = inl parse_failed
gifts_of (some b) =
    if b.switch_present && not b.switch_on then inr [] else inr (map (to_gift b) b.gift_list)

unfoldable pub decoded_gifts : Option (List ℕ) → GiftError ⊎ List Gift
unfolding gifts_of parse_broadcast
decoded_gifts none = inl base64_decode
decoded_gifts (some pb_data) = gifts_of (parse_broadcast pb_data)

-- `decode` stands for the base64 decoding; `pb_b64` is the field `data.pb`, empty where it is missing.
unfoldable pub parse_gift_v2 : (List ℕ → Option (List ℕ)) → List ℕ → GiftError ⊎ List Gift
unfolding decoded_gifts
parse_gift_v2 decode [] = inr []
parse_gift_v2 decode (c ∷ cs) = decoded_gifts (decode (c ∷ cs))
