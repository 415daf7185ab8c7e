-- ===== src/Game/Lease/Text.antt =====
-- The text of a lease in Redis, written by `BuildValue` and read by `ParseValue`.
use some_server.Base.{
  ℕ, ◌≡◌, ◌≢◌, true, [], ◌∷◌, ◌++◌, Bytes, arith, Option, none, some, ◌^◌, ◌<◌, if◌then◌else◌,
}
use some_server.Base.Decimal.{to_string, stoul-to_string}
use some_server.Base.Decimal.{split_colon}
use some_server.Base.Fields.{
  getline, stou32, no_colon, to_string-no_colon, no_colon-append, getline-append, getline-last,
}
use some_server.Game.Lease.{
  PlayerLeaseOwner, LeaseService, build_key, build_value, generate_token, own_lease,
}
use some_server.Game.Redis.{Redis, Reply, nil, text, command}

abbrev owner_of : Option ℕ → Option ℕ → Bytes → Option PlayerLeaseOwner
owner_of none i token = none
owner_of (some t) none token = none
owner_of (some t) (some i) token =
    some (record { game_service_type = t; game_instance_id = i; token = token })

unfoldable pub parse_value : Bytes → Option PlayerLeaseOwner
parse_value value = elim (getline value) [
  | none ↦ none
  | some (service_type_text, rest) ↦ elim (getline rest) [
    | none ↦ none
    | some (instance_id_text, rest') ↦ elim (getline rest') [
      | none ↦ none
      | some (token, _) ↦ owner_of (stou32 service_type_text) (stou32 instance_id_text) token
    ]
  ]
]

-- `Lookup`.
unfoldable pub lookup : {R : Type 0} → Redis R → LeaseService → ℕ → R → Option PlayerLeaseOwner × R
lookup redis s player_id r =
    if s.connected
    then (let (reply, r') =
          command redis (λ t. (get_reply (redis.get t (build_key s player_id)), t)) r in
        elim reply [ text value ↦ (parse_value value, r') | _ ↦ (none, r') ])
    else (none, r)
  where
    get_reply : Option Bytes → Reply
    get_reply none = nil
    get_reply (some v) = text v

-- An owner whose numbers fit 32 bits and whose token is not empty and has no colon is read back
-- from its text.
pub parse_value-build_value :
    (o : PlayerLeaseOwner)
    → o.game_service_type < 2 ^ 32
    → o.game_instance_id < 2 ^ 32
    → o.token ≢ []
    → no_colon o.token ≡ true
    → parse_value (build_value o) ≡ some o
unfolding parse_value build_value
parse_value-build_value o fits_type fits_instance filled plain = ground (
  arith,
  getline-append (to_string o.game_service_type) (to_string o.game_instance_id ++ b':' ∷ o.token)
      (to_string-no_colon o.game_service_type),
  getline-append (to_string o.game_instance_id) o.token (to_string-no_colon o.game_instance_id),
  getline-last o.token filled plain,
  stoul-to_string o.game_service_type (omega arith),
  stoul-to_string o.game_instance_id (omega arith),
)

token-no_colon : (now p i : ℕ) → no_colon (generate_token now p i) ≡ true
unfolding generate_token
token-no_colon now p i =
    no_colon-append (to_string p) (b'-' ∷ (to_string i ++ b'-' ∷ to_string now))
      (to_string-no_colon p)
      (no_colon-append (to_string i) (b'-' ∷ to_string now) (to_string-no_colon i)
        (to_string-no_colon now))

append-ne-nil : (s t : Bytes) (c : ℕ) → s ++ c ∷ t ≢ []
append-ne-nil [] t c e = ground arith
append-ne-nil (d ∷ s) t c e = ground arith

token-ne-nil : (now p i : ℕ) → generate_token now p i ≢ []
unfolding generate_token
token-ne-nil now p i = append-ne-nil (to_string p) _ b'-'

-- The lease that a game process takes for a player, at any time, is read back from the text that
-- it stores for it.
pub parse_value-own_lease :
    (s : LeaseService) (now player_id : ℕ)
    → s.game_service_type < 2 ^ 32
    → s.game_instance_id < 2 ^ 32
    → parse_value (build_value (own_lease s now player_id)) ≡ some (own_lease s now player_id)
parse_value-own_lease s now player_id fits_type fits_instance =
    parse_value-build_value (own_lease s now player_id) fits_type fits_instance
      (token-ne-nil now player_id s.game_instance_id)
      (token-no_colon now player_id s.game_instance_id)

-- Two owners with one text are the same process.
pub build_value-process :
    (o p : PlayerLeaseOwner)
    → build_value o ≡ build_value p
    → (o.game_service_type ≡ p.game_service_type) × (o.game_instance_id ≡ p.game_instance_id)
unfolding build_value
build_value-process o p h =
    let (same_type, rest) = split_colon o.game_service_type p.game_service_type _ _ h in
    let (same_instance, _) = split_colon o.game_instance_id p.game_instance_id _ _ rest in
    (same_type, same_instance)
