-- ===== src/Game/Session/Releases.antt =====
-- The ways in which `ReleasePlayer` goes.
use some_server.Base.{
  ℕ, ◌≡◌, refl, ap, sym, ◌∙◌, subst, Bool, true, false, none, some, if◌then◌else◌, inl, inr,
  Bool-cases, Option-cases, Eq_ℕ, Eq_String,
}
use Prim.Native.String.{◌++◌ as append}
use some_server.Base.Table.{find}
use some_server.Ipc.Types.{Result, failure}
use some_server.Game.Redis.{Redis}
use some_server.Game.Repository.{DataCodec, Storage, snapshot}
use some_server.Game.Session.{PlayerSessionRecord, unloading, Game, with_session, flush}
use some_server.Game.Session.Ending.{is_dirty, restore, leave, release_session}

module _ {D R : Type 0} where
  -- The game while a player is released.
  abbrev pub begin_unload : ℕ → ℕ → PlayerSessionRecord → Game D R → Game D R
  begin_unload now p x g =
      with_session p (record x { state = unloading; last_state_change_ms = now }) g

module _ {D R : Type 0} (codec : DataCodec) (storage : Storage D) (redis : Redis R) where
  -- The four ways of `ReleasePlayer`.
  pub release_session_cases :
      (now flush_ms q : ℕ) (g : Game D R) (P : Result × Game D R → Type 0)
      → (find q g.players ≡ none → P (failure "player session is not tracked", g))
      → ((x : PlayerSessionRecord)
          → find q g.players ≡ some x
          → is_dirty (snapshot g.repository q) ≡ false
          → P (leave redis q (begin_unload now q x g)))
      → ((x : PlayerSessionRecord)
          → find q g.players ≡ some x
          → (flush codec storage flush_ms q (begin_unload now q x g)).0.ok ≡ true
          → P (leave redis q (flush codec storage flush_ms q (begin_unload now q x g)).1))
      → ((x : PlayerSessionRecord)
          → find q g.players ≡ some x
          → (flush codec storage flush_ms q (begin_unload now q x g)).0.ok ≡ false
          → let (r, i) = flush codec storage flush_ms q (begin_unload now q x g) in
            P (failure (append "player flush before release failed: " r.message), restore q x i))
      → P (release_session codec storage redis now flush_ms q g)
  unfolding release_session
  release_session_cases now flush_ms q g P untracked clean saves keeps =
      elim (Option-cases (find q g.players)) [
        | inl e ↦ rw (e, release_session) (untracked e)
        | inr (x, e) ↦ elim (Bool-cases (is_dirty (snapshot g.repository q))) [
          | inr d ↦ rw (e, release_session, d) (clean x e d)
          | inl d ↦
              elim (Bool-cases (flush codec storage flush_ms q (begin_unload now q x g)).0.ok) [
                | inl t ↦ subst P (ap (ending x) (sym t) ∙ sym (shape x e d)) (saves x e t)
                | inr t ↦ subst P (ap (ending x) (sym t) ∙ sym (shape x e d)) (keeps x e t)
              ]
        ]
      ]
    where
      ending : PlayerSessionRecord → Bool → Result × Game D R
      ending x b =
          let (r, i) = flush codec storage flush_ms q (begin_unload now q x g) in
          if b
          then leave redis q i
          else (failure (append "player flush before release failed: " r.message), restore q x i)

      shape :
          (x : PlayerSessionRecord)
          → find q g.players ≡ some x
          → is_dirty (snapshot g.repository q) ≡ true
          → release_session codec storage redis now flush_ms q g
            ≡ ending x (flush codec storage flush_ms q (begin_unload now q x g)).0.ok
      shape x e d = rw (e, release_session, d) refl
