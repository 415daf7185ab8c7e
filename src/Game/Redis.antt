-- ===== src/Game/Redis.antt =====
-- The Redis server behind the services of the game, which the program does not implement: the
-- commands that it sends, over a state `R` of the server and of the connection to it.
use some_server.Base.{
  ℕ, ◌<◌, ◌≡◌, Bool, Option, some, String, Bytes, if◌then◌else◌, none, ◌==◌, Eq_Bytes,
}

-- What becomes of one command: it runs and its reply arrives; or no reply arrives, with the error
-- text of the connection, and the command may have run; or the server answers with an error text.
pub data Outcome : Type 0 where
  runs : Outcome
  fails : Bool → String → Outcome
  refuses : String → Outcome

pub record Redis (R : Type 0) : Type 0 where
  pub outcome : R → Outcome × R
  pub get : R → Bytes → Option Bytes
  -- SET key value NX PX milliseconds, where the key is not there
  pub set_px : R → Bytes → Bytes → ℕ → R
  -- SET key value
  pub set : R → Bytes → Bytes → R
  -- PEXPIRE and DEL reply with the number of keys that they found
  pub pexpire : R → Bytes → ℕ → ℕ × R
  pub del : R → Bytes → ℕ × R

-- What the documentation of Redis says of these commands. A time to live is not 0.
pub record RedisLaws {R : Type 0} (redis : Redis R) : Type 0 where
  pub get-outcome : (r : R) (j : Bytes) → redis.get (redis.outcome r).1 j ≡ redis.get r j
  pub get-set_px :
      (r : R) (k v : Bytes) (ttl : ℕ) → 0 < ttl → redis.get (redis.set_px r k v ttl) k ≡ some v
  pub get-set :
      (r : R) (k v j : Bytes)
      → redis.get (redis.set r k v) j ≡ (if k == j then some v else redis.get r j)
  pub get-del :
      (r : R) (k j : Bytes)
      → redis.get (redis.del r k).1 j ≡ (if k == j then none else redis.get r j)
  pub get-pexpire :
      (r : R) (k j : Bytes) (ttl : ℕ)
      → 0 < ttl
      → redis.get (redis.pexpire r k ttl).1 j ≡ redis.get r j

-- A reply, as far as the services look at it.
pub data Reply : Type 0 where
  no_reply : String → Reply
  status_ok : Reply
  nil : Reply
  text : Bytes → Reply
  integer : ℕ → Reply
  error : String → Reply

module _ {R : Type 0} (redis : Redis R) where
  -- A command is a change of the server with a reply.
  unfoldable pub command : (R → Reply × R) → R → Reply × R
  command run r =
      let (o, s) = redis.outcome r in
      elim o [
        | runs ↦ run s
        | fails ran err ↦ (no_reply err, if ran then (run s).1 else s)
        | refuses why ↦ (error why, s)
      ]
