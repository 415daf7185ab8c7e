-- ===== src/Game/Session/Calls.antt =====
-- The calls of src/game/services/player_session_service, one after the other, with the rounds of
-- the lease service between them.
use some_server.Base.{ℕ, Bool, List, [], ◌∷◌, Eq_ℕ, Eq_String}
use some_server.Game.Redis.{Redis}
use some_server.Game.Lease.{renew_round}
use some_server.Game.Repository.{DataCodec, Storage}
use some_server.Game.Session.{GateRef, Times, Game, activate_player}
use some_server.Game.Session.Ending.{
  detach_player, detach_player_from, release_session, expire_detached_players,
}
use some_server.Game.Session.Losses.{reconcile_lease_losses}

-- A call of the session service, or a round of the lease service, with the readings of the clock.
pub data Call : Type 0 where
  activates : Times → ℕ → GateRef → Bool → Call
  detaches : ℕ → ℕ → Call
  detaches_from : ℕ → ℕ → GateRef → Call
  releases : ℕ → ℕ → ℕ → Call
  expires : ℕ → ℕ → ℕ → Call
  reconciles : ℕ → Call
  renews : ℕ → Call

module _ {D R : Type 0} (redis : Redis R) where
  unfoldable pub renew : ℕ → Game D R → Game D R
  unfolding renew_round
  renew now g =
      let (s, r) = renew_round redis g.lease now g.redis_state in
      record g { lease = s; redis_state = r }

module _ {D R : Type 0} (codec : DataCodec) (storage : Storage D) (redis : Redis R) where
  unfoldable pub step : Game D R → Call → Game D R
  unfolding activate_player detach_player detach_player_from release_session expire_detached_players
      reconcile_lease_losses renew
  step g (activates times p gate allow) =
      (activate_player codec storage redis times p gate allow g).1
  step g (detaches now p) = (detach_player now p g).1
  step g (detaches_from now p gate) = (detach_player_from now p gate g).1
  step g (releases now flush_ms p) = (release_session codec storage redis now flush_ms p g).1
  step g (expires scan_ms now flush_ms) =
      (expire_detached_players codec storage redis scan_ms now flush_ms g).1
  step g (reconciles now) = (reconcile_lease_losses now g).1
  step g (renews now) = renew redis now g

  unfoldable pub run : Game D R → List Call → Game D R
  unfolding step
  run g [] = g
  run g (c ∷ cs) = run (step g c) cs
