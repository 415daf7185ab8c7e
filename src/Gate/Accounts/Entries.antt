-- ===== src/Gate/Accounts/Entries.antt =====
-- What the account directory reads back, and whose entries it removes.
use some_server.Base.{
  ◌^◌, ◌<◌, ◌≡◌, ◌↔◌, ◌⊎◌, inl, inr, refl, true, Option, none, some, ◌∷◌, ◌++◌, arith, Eq_ℕ,
  Eq_String, Eq_Bytes, bytes_eq_iff, Option-cases, Bytes,
}
use some_server.Base.Decimal.{to_string, stoul-to_string, to_string-ne-nil}
use some_server.Base.Fields.{to_string-no_colon, getline-append, getline-last}
use some_server.Ipc.Types.{success}
use some_server.Game.Redis.{Redis, RedisLaws, Reply, runs, command}
use some_server.Gate.Accounts.{
  GateAccountOwner, AccountDirectory, owner_eq, account_key, build_value, parse_value,
  should_delete, lookup_account, bind_account, remove_account_if_matches, get_reply,
}

-- The fields of an owner fit the integers that the program reads them into.
pub record OwnerFits (o : GateAccountOwner) : Type 0 where
  pub type_fits : o.gate_service_type < 2 ^ 32
  pub instance_fits : o.gate_instance_id < 2 ^ 32
  pub session_fits : o.gate_session_id < 2 ^ 64

pub parse_value-build_value :
    (o : GateAccountOwner) → OwnerFits o → parse_value (build_value o) ≡ some o
unfolding parse_value build_value
parse_value-build_value o fits = ground (
  arith,
  getline-append (to_string o.gate_service_type)
      (to_string o.gate_instance_id ++ b':' ∷ to_string o.gate_session_id)
      (to_string-no_colon o.gate_service_type),
  getline-append (to_string o.gate_instance_id) (to_string o.gate_session_id)
      (to_string-no_colon o.gate_instance_id),
  getline-last (to_string o.gate_session_id) (to_string-ne-nil o.gate_session_id)
      (to_string-no_colon o.gate_session_id),
  stoul-to_string o.gate_service_type (omega arith),
  stoul-to_string o.gate_instance_id (omega arith),
  stoul-to_string o.gate_session_id fits.session_fits,
  fits.type_fits,
  fits.instance_fits,
)

pub owner_eq_iff : (a b : GateAccountOwner) → (owner_eq a b ≡ true) ↔ (a ≡ b)
owner_eq_iff a b = (λ h. ground arith, λ h. ground arith)

-- A reply for which the entry is deleted holds the owner.
should_delete_text :
    (v : Option Bytes) (o : GateAccountOwner)
    → should_delete (get_reply v) o ≡ true
    → (w : Bytes) × (v ≡ some w) × (parse_value w ≡ some o)
should_delete_text none o h = ground arith
should_delete_text (some w) o h = elim (Option-cases (parse_value w)) [
  | inl t ↦ ground arith
  | inr (p, t) ↦ (w, refl, ground (arith, owner_eq_iff p o))
]

module _ {R : Type 0} (redis : Redis R) (laws : RedisLaws redis) where
  -- Sending a command whose run leaves a key leaves it.
  pub get-command :
      (run : R → Reply × R) (r : R) (j : Bytes)
      → ((s : R) → redis.get (run s).1 j ≡ redis.get s j)
      → redis.get (command redis run r).1 j ≡ redis.get r j
  unfolding command
  get-command run r j keeps = ground (arith, laws.get-outcome r j, keeps (redis.outcome r).1)

  -- The key of an account is the only one that binding it can change, and it then has the owner.
  pub get-bind_account :
      (a : AccountDirectory) (account_id : Bytes) (o : GateAccountOwner) (r : R) (j : Bytes)
      → let r' = (bind_account redis a account_id o r).1 in
        (redis.get r' j ≡ redis.get r j)
        ⊎ ((j ≡ account_key a account_id) × (redis.get r' j ≡ some (build_value o)))
  unfolding bind_account command
  get-bind_account a account_id o r j =
      let k = account_key a account_id in
      ground (
        arith,
        laws.get-outcome r j,
        laws.get-set (redis.outcome r).1 k (build_value o) j,
        bytes_eq_iff k j,
      )

  pub bind_account-runs :
      (a : AccountDirectory) (account_id : Bytes) (o : GateAccountOwner) (r : R)
      → a.connected ≡ true
      → (redis.outcome r).0 ≡ runs
      → ((bind_account redis a account_id o r).0 ≡ success)
        × (redis.get (bind_account redis a account_id o r).1 (account_key a account_id)
            ≡ some (build_value o))
  unfolding bind_account command
  bind_account-runs a account_id o r on h =
      let k = account_key a account_id in
      ground (arith, laws.get-set (redis.outcome r).1 k (build_value o) k, bytes_eq_iff k k)

  -- Where Redis runs both commands, an account that is bound to an owner whose fields fit their
  -- integers is found with that owner.
  pub lookup_account-bind_account :
      (a : AccountDirectory) (account_id : Bytes) (o : GateAccountOwner) (r : R)
      → a.connected ≡ true
      → OwnerFits o
      → let (result, r') = bind_account redis a account_id o r in
        (redis.outcome r).0 ≡ runs
        → (redis.outcome r').0 ≡ runs
        → (result ≡ success) × ((lookup_account redis a account_id r').0 ≡ some o)
  unfolding lookup_account bind_account command
  lookup_account-bind_account a account_id o r on fits h h' =
      let k = account_key a account_id in
      let s = redis.set (redis.outcome r).1 k (build_value o) in
      ground (
        arith,
        laws.get-outcome s k,
        laws.get-set (redis.outcome r).1 k (build_value o) k,
        bytes_eq_iff k k,
        parse_value-build_value o fits,
      )

  -- What a removal does to any key of Redis: nothing, or it deletes the key of the account, which
  -- held exactly this owner.
  pub remove_account_if_matches_lem :
      (a : AccountDirectory) (account_id : Bytes) (o : GateAccountOwner) (r : R) (j : Bytes)
      → let r' = (remove_account_if_matches redis a account_id o r).1 in
        (redis.get r' j ≡ redis.get r j)
        ⊎ ((j ≡ account_key a account_id)
            × (redis.get r' j ≡ none)
            × ((w : Bytes) × (redis.get r j ≡ some w) × (parse_value w ≡ some o)))
  unfolding remove_account_if_matches command
  remove_account_if_matches_lem a account_id o r j =
      let k = account_key a account_id in
      let r1 = (redis.outcome r).1 in
      ground (
        arith,
        laws.get-outcome r j,
        laws.get-outcome r1 j,
        laws.get-del (redis.outcome r1).1 k j,
        bytes_eq_iff k j,
        should_delete_text (redis.get r1 k) o,
      )
