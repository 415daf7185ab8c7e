-- ===== src/Game/Lease.antt =====
-- src/game/services/player_lease_service: the lease in Redis by which one game process owns a
-- player. Each method holds the lock of the service; a round of the renewal loop is one of them.
pub mod Text
pub mod Renewal
pub mod Exclusion
pub mod Acquire
use some_server.Base.{
  ℕ, ◌*◌, ◌+◌, ◌≡◌, Bool, true, false, Option, none, some, List, [], ◌∷◌, ◌++◌, String, Bytes,
  length, nat_eq, if◌then◌else◌, ◌&&◌, ◌==◌, ◌/=◌, inc64, Eq_String, Eq_ℕ, Eq_Bytes,
}
use some_server.Base.Decimal.{to_string}
use some_server.Base.Table.{Table, find, put, erase, contains, keys}
use some_server.Ipc.Types.{Result, success, failure}
use some_server.Game.Redis.{Redis, Reply, no_reply, status_ok, nil, text, integer, command}

pub record PlayerLeaseOwner : Type 0 where
  pub game_service_type : ℕ
  pub game_instance_id : ℕ
  pub token : Bytes

pub record PlayerLeaseSnapshot : Type 0 where
  pub running : Bool
  pub tracked_player_count : ℕ
  pub renew_success_count : ℕ
  pub renew_failure_count : ℕ
  pub local_loss_count : ℕ
  pub release_success_count : ℕ
  pub release_failure_count : ℕ
  pub last_renew_ms : ℕ
  pub last_error : String

pub record LeaseService : Type 0 where
  pub game_service_type : ℕ
  pub game_instance_id : ℕ
  pub lease_ttl_seconds : ℕ
  pub redis_key_prefix : Bytes
  -- `mRedis` is not null
  pub connected : Bool
  pub leases : Table ℕ PlayerLeaseOwner
  pub snapshot : PlayerLeaseSnapshot

unfoldable pub build_key : LeaseService → ℕ → Bytes
build_key s player_id = s.redis_key_prefix ++ to_string player_id

unfoldable pub build_value : PlayerLeaseOwner → Bytes
build_value o =
    to_string o.game_service_type ++ b':' ∷ (to_string o.game_instance_id ++ b':' ∷ o.token)

unfoldable pub generate_token : ℕ → ℕ → ℕ → Bytes
generate_token now player_id instance_id =
    to_string player_id ++ b'-' ∷ (to_string instance_id ++ b'-' ∷ to_string now)

abbrev pub ttl_ms : LeaseService → ℕ
ttl_ms s = s.lease_ttl_seconds * 1000

-- The error text of the connection, or the given one where it has none.
abbrev pub error_text : String → String → String
error_text err default = if err == "" then default else err

-- `mSnapshot.tracked_player_count = mLeases.size()`
abbrev pub with_count : LeaseService → LeaseService
with_count s = record s {
  snapshot = record (s.snapshot) { tracked_player_count = length s.leases };
}

-- The comparison that the scripts make.
abbrev pub stands : Option Bytes → Bytes → Bool
stands none v = false
stands (some w) v = w == v

abbrev pub own_lease : LeaseService → ℕ → ℕ → PlayerLeaseOwner
own_lease s now player_id = record {
  game_service_type = s.game_service_type;
  game_instance_id = s.game_instance_id;
  token = generate_token now player_id s.game_instance_id;
}

module _ {R : Type 0} (redis : Redis R) where
  -- SET key value NX PX ttl
  unfoldable pub set_nx : Bytes → Bytes → ℕ → R → Reply × R
  set_nx k v ttl r = elim (redis.get r k) [
    | none ↦ (status_ok, redis.set_px r k v ttl)
    | some _ ↦ (nil, r)
  ]

  -- The script `kRefreshScript`.
  unfoldable pub refresh_script : Bytes → Bytes → ℕ → R → Reply × R
  refresh_script k v ttl r =
      if stands (redis.get r k) v
      then (let (n, s) = redis.pexpire r k ttl in (integer n, s))
      else (integer 0, r)

  -- The script `kReleaseScript`.
  unfoldable pub release_script : Bytes → Bytes → R → Reply × R
  release_script k v r =
      if stands (redis.get r k) v
      then (let (n, s) = redis.del r k in (integer n, s))
      else (integer 0, r)

  unfoldable pub acquire : LeaseService → ℕ → ℕ → R → Result × LeaseService × R
  unfolding set_nx
  acquire s now player_id r =
      if s.connected
      then (if contains player_id s.leases
          then (success, s, r)
          else let owner = own_lease s now player_id in
            let (reply, r') =
              command redis (set_nx (build_key s player_id) (build_value owner) (ttl_ms s)) r in
            elim reply [
              | no_reply err ↦ (failure (error_text err "redis SET failed"), s, r')
              | status_ok ↦
                  (success, with_count (record s { leases = put player_id owner s.leases }), r')
              | _ ↦ (failure "player lease is already held by another game", s, r')
            ])
      else (failure "redis player lease is unavailable", s, r)

  -- `RefreshLeaseLocked`: an error text when it fails.
  unfoldable pub refresh_lease : LeaseService → ℕ → PlayerLeaseOwner → R → Option String × R
  unfolding refresh_script
  refresh_lease s player_id owner r =
      if s.connected
      then (let (reply, r') =
            command redis (refresh_script (build_key s player_id) (build_value owner) (ttl_ms s))
              r in
          elim reply [
            | no_reply err ↦ (some (error_text err "redis EVAL failed"), r')
            | integer n ↦ ((if nat_eq n 1 then none else some "player lease refresh rejected"), r')
            | _ ↦ (some "player lease refresh rejected", r')
          ])
      else (some "redis player lease is unavailable", r)

  -- `ReleaseLeaseLocked`: a lease that another game holds counts as released.
  unfoldable pub release_lease : LeaseService → ℕ → PlayerLeaseOwner → R → Option String × R
  unfolding release_script
  release_lease s player_id owner r =
      if s.connected
      then (let (reply, r') =
            command redis (release_script (build_key s player_id) (build_value owner)) r in
          elim reply [
            | no_reply err ↦ (some (error_text err "redis EVAL failed"), r')
            | integer n ↦ (none, r')
            | _ ↦ (some "player lease release rejected", r')
          ])
      else (some "redis player lease is unavailable", r)

  -- The counters after one release.
  abbrev pub released : Option String → PlayerLeaseSnapshot → PlayerLeaseSnapshot
  released none n = record n { release_success_count = inc64 n.release_success_count }
  released (some err) n = record n {
    release_failure_count = inc64 n.release_failure_count;
    last_error = err;
  }

  unfoldable pub release : LeaseService → ℕ → R → Result × LeaseService × R
  unfolding release_lease
  release s player_id r = elim (find player_id s.leases) [
    | none ↦ (failure "player lease is not tracked locally", s, r)
    | some owner ↦
        let (err, r') = release_lease s player_id owner r in
        (
          success,
          with_count
              (record s { leases = erase player_id s.leases; snapshot = released err s.snapshot }),
          r',
        )
  ]

  unfoldable pub release_each :
      LeaseService → Table ℕ PlayerLeaseOwner → PlayerLeaseSnapshot → R → PlayerLeaseSnapshot × R
  unfolding release_lease
  release_each s [] n r = (n, r)
  release_each s ((player_id, owner) ∷ rest) n r =
      let (err, r') = release_lease s player_id owner r in release_each s rest (released err n) r'

  unfoldable pub release_all_tracked : LeaseService → R → LeaseService × R
  unfolding release_each
  release_all_tracked s r =
      let (n, r') = release_each s s.leases s.snapshot r in
      (record s { leases = []; snapshot = record n { tracked_player_count = 0 } }, r')

  -- The first loop of a renewal round: the players whose lease is lost, in order.
  unfoldable pub renew_each :
      LeaseService
      → Table ℕ PlayerLeaseOwner
      → PlayerLeaseSnapshot
      → R
      → List ℕ × PlayerLeaseSnapshot × R
  unfolding refresh_lease
  renew_each s [] n r = ([], n, r)
  renew_each s ((player_id, owner) ∷ rest) n r =
      let (err, r') = refresh_lease s player_id owner r in
      elim err [
        | none ↦
            renew_each s rest (record n { renew_success_count = inc64 n.renew_success_count }) r'
        | some message ↦
            let (lost, n', r'') =
              renew_each s rest
                (record n {
                  renew_failure_count = inc64 n.renew_failure_count;
                  last_error = message;
                })
                r' in
            (player_id ∷ lost, n', r'')
      ]

  -- The second loop.
  unfoldable pub drop_lost : List ℕ → LeaseService → LeaseService
  drop_lost [] s = s
  drop_lost (player_id ∷ lost) s = drop_lost lost (record s {
    leases = erase player_id s.leases;
    snapshot = record (s.snapshot) { local_loss_count = inc64 s.snapshot.local_loss_count };
  })

  -- One round of `Loop`, under the lock.
  unfoldable pub renew_round : LeaseService → ℕ → R → LeaseService × R
  unfolding renew_each drop_lost
  renew_round s now r =
      let (lost, n, r') = renew_each s s.leases (record (s.snapshot) { last_renew_ms = now }) r in
      (with_count (drop_lost lost (record s { snapshot = n })), r')

  -- `Stop`, once the loop has ended.
  unfoldable pub stop : LeaseService → R → LeaseService × R
  unfolding release_all_tracked
  stop s r =
      let (t, r') = release_all_tracked s r in
      (record t { snapshot = record (t.snapshot) { running = false } }, r')

unfoldable pub start : LeaseService → LeaseService
start s = record s { snapshot = record (s.snapshot) { running = true; last_error = "" } }

-- `Load`, with the key prefix of the Redis profile, if there is one, and whether it was reached.
unfoldable pub load : LeaseService → Option Bytes → Bool → LeaseService
load s none reached = s
load s (some prefix) reached = record s {
  connected = reached;
  redis_key_prefix = prefix ++ key_infix;
}
  where
    key_infix : Bytes
    key_infix =
        b'g' ∷ b'a' ∷ b'm' ∷ b'e' ∷ b':' ∷ b'p' ∷ b'l' ∷ b'a' ∷ b'y' ∷ b'e' ∷ b'r' ∷ b':' ∷ b'l'
        ∷ b'e' ∷ b'a' ∷ b's' ∷ b'e' ∷ b':' ∷ []

unfoldable pub unload : LeaseService → LeaseService
unload s = record s { connected = false; redis_key_prefix = []; leases = [] }

unfoldable pub is_held_locally : LeaseService → ℕ → Bool
is_held_locally s player_id = contains player_id s.leases

unfoldable pub tracked_player_ids : LeaseService → List ℕ
tracked_player_ids s = keys s.leases
