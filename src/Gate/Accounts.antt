-- ===== src/Gate/Accounts.antt =====
-- src/gate/services/account_directory_service: which gate session an account is signed in at, in
-- Redis, for all gates. Each method holds the lock; the Redis server is a parameter.
pub mod Entries
use some_server.Base.{
  ℕ, zero, suc, ◌+◌, ◌-◌, ◌*◌, ◌/◌, ◌%◌, ◌^◌, ◌≤◌, ◌<◌, ◌≡◌, ◌≢◌, ◌↔◌, ◌⊎◌, inl, inr, refl, sym, ap,
  ◌∙◌, subst, Bool, true, false, not, ◌&&◌, ◌||◌, Option, none, some, List, [], ◌∷◌, ◌++◌, String,
  arith, nat_eq, ltb, leb, if◌then◌else◌, ◌==◌, ◌/=◌, Eq, Eq_ℕ, Eq_String, Eq_Bytes, bytes_eq_iff,
  Bool-cases, Option-cases, is_some, Bytes, inc64, add64,
}
use some_server.Base.Table.{
  Table, find, put, erase, contains, keys, AllEntries, Distinct, find-put, find-erase,
  AllEntries-put, AllEntries-erase, Distinct-put, Distinct-erase,
}
use some_server.Base.Decimal.{to_string, stoul}
use some_server.Base.Fields.{getline, stou32}
use some_server.Ipc.Types.{Result, success, failure}
use some_server.Game.Redis.{Redis, Reply, no_reply, status_ok, nil, text, integer, command}
use some_server.Game.Lease.{error_text}

pub record GateAccountOwner : Type 0 where
  pub gate_service_type : ℕ
  pub gate_instance_id : ℕ
  pub gate_session_id : ℕ

abbrev pub owner_eq : GateAccountOwner → GateAccountOwner → Bool
owner_eq a b =
    nat_eq a.gate_service_type b.gate_service_type
    && nat_eq a.gate_instance_id b.gate_instance_id
    && nat_eq a.gate_session_id b.gate_session_id

pub record AccountDirectory : Type 0 where
  -- `mRedis` is not null
  pub connected : Bool
  pub redis_key_prefix : Bytes

-- `key_prefix` behind the configuration of `mRedisName`, where there is one, and whether
-- `ConnectRedis` has given a connection.
unfoldable pub load : AccountDirectory → Option Bytes → Bool → AccountDirectory
load a none connects = a
load a (some key_prefix) connects = record {
  connected = connects;
  redis_key_prefix =
      key_prefix
      ++ b'g' ∷ b'a' ∷ b't' ∷ b'e' ∷ b':' ∷ b'a' ∷ b'c' ∷ b'c' ∷ b'o' ∷ b'u' ∷ b'n' ∷ b't' ∷ b':'
        ∷ [];
}

unfoldable pub unload : AccountDirectory → AccountDirectory
unload a = record { connected = false; redis_key_prefix = [] }

abbrev pub account_key : AccountDirectory → Bytes → Bytes
account_key a account_id = a.redis_key_prefix ++ account_id

unfoldable pub build_value : GateAccountOwner → Bytes
build_value o =
    to_string o.gate_service_type
    ++ b':' ∷ (to_string o.gate_instance_id ++ b':' ∷ to_string o.gate_session_id)

abbrev pub owner_of : Option ℕ → Option ℕ → Option ℕ → Option GateAccountOwner
owner_of none i n = none
owner_of (some t) none n = none
owner_of (some t) (some i) none = none
owner_of (some t) (some i) (some n) =
    some (record { gate_service_type = t; gate_instance_id = i; gate_session_id = n })

unfoldable pub parse_value : Bytes → Option GateAccountOwner
parse_value value = elim (getline value) [
  | none ↦ none
  | some (service_type_text, rest) ↦ elim (getline rest) [
    | none ↦ none
    | some (instance_id_text, rest') ↦ elim (getline rest') [
      | none ↦ none
      | some (session_id_text, _) ↦
          owner_of (stou32 service_type_text) (stou32 instance_id_text) (stoul session_id_text)
    ]
  ]
]

abbrev pub get_reply : Option Bytes → Reply
get_reply none = nil
get_reply (some v) = text v

-- `should_delete`, from the reply to GET.
abbrev pub should_delete : Reply → GateAccountOwner → Bool
should_delete (text value) owner = is_owner (parse_value value) owner
  where
    is_owner : Option GateAccountOwner → GateAccountOwner → Bool
    is_owner none owner = false
    is_owner (some existing) owner = owner_eq existing owner
should_delete _ owner = false

module _ {R : Type 0} (redis : Redis R) where
  -- GET, SET and DEL as commands with a reply.
  abbrev pub run_get : Bytes → R → Reply × R
  run_get k r = (get_reply (redis.get r k), r)

  abbrev pub run_set : Bytes → Bytes → R → Reply × R
  run_set k v r = (status_ok, redis.set r k v)

  abbrev pub run_del : Bytes → R → Reply × R
  run_del k r = let (n, s) = redis.del r k in (integer n, s)

  unfoldable pub lookup_account : AccountDirectory → Bytes → R → Option GateAccountOwner × R
  lookup_account a account_id r =
      if a.connected
      then (let (reply, r') = command redis (run_get (account_key a account_id)) r in
          elim reply [ text value ↦ (parse_value value, r') | _ ↦ (none, r') ])
      else (none, r)

  unfoldable pub bind_account : AccountDirectory → Bytes → GateAccountOwner → R → Result × R
  bind_account a account_id owner r =
      if a.connected
      then (let (reply, r') =
            command redis (run_set (account_key a account_id) (build_value owner)) r in
          elim reply [
            | no_reply err ↦ (failure (error_text err "redis SET failed"), r')
            | _ ↦ (success, r')
          ])
      else (failure "redis account directory is unavailable", r)

  -- DEL behind the comparison.
  abbrev pub delete_account : Bytes → R → Result × R
  delete_account key r =
      let (reply, r') = command redis (run_del key) r in
      elim reply [
        | no_reply err ↦ (failure (error_text err "redis DEL failed"), r')
        | _ ↦ (success, r')
      ]

  unfoldable pub remove_account_if_matches :
      AccountDirectory → Bytes → GateAccountOwner → R → Result × R
  remove_account_if_matches a account_id owner r =
      if a.connected
      then (let (reply, r') = command redis (run_get (account_key a account_id)) r in
          elim reply [
            | no_reply err ↦ (failure (error_text err "redis GET failed"), r')
            | answer ↦
                if should_delete answer owner
                then delete_account (account_key a account_id) r'
                else (success, r')
          ])
      else (failure "redis account directory is unavailable", r)
