-- ===== src/Examples/Instances.antt =====
-- Concrete codecs, a storage and a Redis server, for the code that the repository does not hold.
use some_server.Base.{
  ◌≡◌, refl, Bool, true, false, Option, none, some, [], ◌∷◌, Bytes, arith, if◌then◌else◌, Eq_Bytes,
  bytes_eq_iff,
}
use some_server.Base.Table.{Table, find, put, erase, find-put, find-erase, contains}
use some_server.Ipc.Types.{success, failure}
use some_server.Ipc.Control.{ControlMessage, ControlCodec}
use some_server.Game.Redis.{Redis, RedisLaws, runs}
use some_server.Game.Repository.{PlayerData, no_data, DataCodec, Storage}
use some_server.Game.Repository.Durability.{StorageLaws}

-- A message as its fields, padded so that each variant has its own length.
unfoldable pub serialize_message : ControlMessage → Bytes
serialize_message ControlMessage.body_not_set = []
serialize_message ControlMessage.ping = 0 ∷ []
serialize_message (ControlMessage.hello none v min) = v ∷ min ∷ []
serialize_message (ControlMessage.hello_ack r none v) = r ∷ v ∷ 0 ∷ []
serialize_message ControlMessage.pong = 0 ∷ 0 ∷ 0 ∷ 0 ∷ []
serialize_message (ControlMessage.hello (some p) v min) =
    p.process_id.service_type ∷ p.process_id.instance_id ∷ p.incarnation_id ∷ v ∷ min ∷ []
serialize_message (ControlMessage.hello_ack r (some p) v) =
    p.process_id.service_type ∷ p.process_id.instance_id ∷ p.incarnation_id ∷ r ∷ v ∷ 0 ∷ []
serialize_message ControlMessage.close = 0 ∷ 0 ∷ 0 ∷ 0 ∷ 0 ∷ 0 ∷ 0 ∷ []

unfoldable pub parse_message : Bytes → Option ControlMessage
parse_message [] = some ControlMessage.body_not_set
parse_message (_ ∷ []) = some ControlMessage.ping
parse_message (v ∷ min ∷ []) = some (ControlMessage.hello none v min)
parse_message (r ∷ v ∷ _ ∷ []) = some (ControlMessage.hello_ack r none v)
parse_message (_ ∷ _ ∷ _ ∷ _ ∷ []) = some ControlMessage.pong
parse_message (t ∷ i ∷ n ∷ v ∷ min ∷ []) = some (
    ControlMessage.hello
      (some
        (record { process_id = record { service_type = t; instance_id = i }; incarnation_id = n }))
      v min)
parse_message (t ∷ i ∷ n ∷ r ∷ v ∷ _ ∷ []) = some (
    ControlMessage.hello_ack r
      (some
        (record { process_id = record { service_type = t; instance_id = i }; incarnation_id = n }))
      v)
parse_message (_ ∷ _ ∷ _ ∷ _ ∷ _ ∷ _ ∷ _ ∷ _) = some ControlMessage.close

pub parse-serialize_message : (m : ControlMessage) → parse_message (serialize_message m) ≡ some m
unfolding parse_message serialize_message
parse-serialize_message (ControlMessage.hello none v min) = refl
parse-serialize_message (ControlMessage.hello (some p) v min) = refl
parse-serialize_message (ControlMessage.hello_ack r none v) = refl
parse-serialize_message (ControlMessage.hello_ack r (some p) v) = refl
parse-serialize_message ControlMessage.ping = refl
parse-serialize_message ControlMessage.pong = refl
parse-serialize_message ControlMessage.close = refl
parse-serialize_message ControlMessage.body_not_set = refl

unfoldable pub message_codec : ControlCodec
unfolding serialize_message parse_message
message_codec = record {
  serialize = serialize_message;
  parse = parse_message;
  parse-serialize = parse-serialize_message;
}

-- Player data whose name fits; a player with extensions is refused.
unfoldable pub serialize_data : PlayerData → Option Bytes
serialize_data p = elim p.extensions [
  | [] ↦ some (
      p.player_id ∷ p.created_at_ms ∷ p.last_login_at_ms ∷ p.level ∷ p.experience ∷ p.login_count
      ∷ p.display_name)
  | _ ↦ none
]

unfoldable pub parse_data : Bytes → Bool × PlayerData
parse_data (p ∷ c ∷ l ∷ v ∷ x ∷ n ∷ name) = (
  true,
  record {
    player_id = p;
    display_name = name;
    created_at_ms = c;
    last_login_at_ms = l;
    level = v;
    experience = x;
    login_count = n;
    extensions = [];
  },
)
parse_data _ = (false, no_data)

pub parse-serialize_data :
    (p : PlayerData) (b : Bytes) → serialize_data p ≡ some b → parse_data b ≡ (true, p)
unfolding serialize_data parse_data
parse-serialize_data p b h = ground arith

unfoldable pub data_codec : DataCodec
unfolding serialize_data parse_data
data_codec = record {
  serialize = serialize_data;
  parse = parse_data;
  parse-serialize = parse-serialize_data;
}

-- A storage that keeps the data set in memory.
unfoldable pub memory_storage : Storage (Table Bytes Bytes)
unfolding find put
memory_storage = record {
  has_dataset = λ d. true;
  dataset_get =
      λ d k. elim (find k d) [ none ↦ (failure "not found", [], d) | some v ↦ (success, v, d) ];
  dataset_put = λ d k v. (success, put k v d);
}

pub memory_storage-StorageLaws : StorageLaws memory_storage
unfolding memory_storage
memory_storage-StorageLaws = record {
  has-put = λ d k v h. refl;
  get-put = λ d k v h. ground (arith, find-put k k v d, bytes_eq_iff k k);
}

-- A Redis server in memory that always answers, and whose keys do not expire.
unfoldable pub memory_redis : Redis (Table Bytes Bytes)
unfolding find put erase
memory_redis = record {
  outcome = λ r. (runs, r);
  get = λ r k. find k r;
  set_px = λ r k v ttl. put k v r;
  set = λ r k v. put k v r;
  pexpire = λ r k ttl. ((if contains k r then 1 else 0), r);
  del = λ r k. ((if contains k r then 1 else 0), erase k r);
}

pub memory_redis-RedisLaws : RedisLaws memory_redis
unfolding memory_redis
memory_redis-RedisLaws = record {
  get-outcome = λ r j. refl;
  get-set_px = λ r k v ttl h. ground (arith, find-put k k v r, bytes_eq_iff k k);
  get-set = λ r k v j. find-put k j v r;
  get-del = λ r k j. find-erase k j r;
  get-pexpire = λ r k j ttl h. refl;
}
