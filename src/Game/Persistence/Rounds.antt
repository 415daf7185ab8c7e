-- ===== src/Game/Persistence/Rounds.antt =====
-- src/game/services/player_persistence_service.cpp: what one round of the loop does to a player.
use some_server.Base.{
  ℕ, ◌≡◌, ◌⊎◌, inl, inr, refl, sym, ap, ◌∙◌, subst, Bool, true, false, ◌&&◌, none, some, [], ◌∷◌,
  String, arith, nat_eq, Eq_ℕ, Eq_String, Eq_Bytes, Bool-cases, Option-cases, nat_eq_iff, inc64,
}
use some_server.Base.Table.{
  find, Distinct, find-put, find-put_same, find-put_other, find-erase_same, find-erase_other,
}
use some_server.Base.Decimal.{to_string}
use some_server.Game.Lease.{is_held_locally}
use some_server.Game.Repository.{
  DataCodec, Storage, Repository, PlayerRepositoryRecord, flush_player, flushed, loaded_player_ids,
  loaded_keys, snapshot,
}
use some_server.Game.Session.{Game}
use some_server.Game.Persistence.{
  Persistence, Scan, count_if, is_due, should_flush, failed_again, flush_due, scan_player,
  scan_players, flush_due_players_once,
}

module _ {D : Type 0} (codec : DataCodec) (storage : Storage D) where
  flush_player_others :
      (i j now : ℕ) (m : Repository) (d : D)
      → nat_eq i j ≡ false
      → find j (flush_player codec storage m now i d).1 ≡ find j m
  unfolding flush_player
  flush_player_others i j now m d other = elim (Option-cases (find i m)) [
    | inl t ↦ rw (flush_player, t) refl
    | inr (x, t) ↦ elim (Bool-cases x.loaded) [
      | inr u ↦ rw (flush_player, t, u) refl
      | inl u ↦ elim (Option-cases (codec.serialize x.player_data)) [
        | inl v ↦ rw (flush_player, t, u, v) refl
        | inr (b, v) ↦ ground (arith, find-put i j (flushed codec storage now x) m)
      ]
    ]
  ]

  flush_player_cases :
      (i now : ℕ) (m : Repository) (d : D) (x : PlayerRepositoryRecord)
      → find i m ≡ some x
      → (((flush_player codec storage m now i d).0.ok ≡ true)
          × (find i (flush_player codec storage m now i d).1 ≡ some (flushed codec storage now x)))
        ⊎ (((flush_player codec storage m now i d).0.ok ≡ false)
            × (find i (flush_player codec storage m now i d).1 ≡ some x))
  unfolding flush_player
  flush_player_cases i now m d x t = elim (Bool-cases x.loaded) [
    | inr u ↦ inr (ground arith, ground arith)
    | inl u ↦ elim (Option-cases (codec.serialize x.player_data)) [
      | inl v ↦ inr (ground arith, ground arith)
      | inr (b, v) ↦ elim (Bool-cases (storage.dataset_put d (to_string i) b).0.ok) [
        | inl w ↦
            inl (ground arith, ground (arith, find-put_same i (flushed codec storage now x) m))
        | inr w ↦ inr (ground arith, ground arith)
      ]
    ]
  ]

module _ {D R : Type 0} where
  -- The repository record and the retry state of a player are the same.
  abbrev pub Untouched : Persistence × Game D R → Persistence × Game D R → ℕ → Type 0
  Untouched (p, g) (p', g') i =
      (find i g'.repository ≡ find i g.repository)
      × (find i p'.retry_states ≡ find i p.retry_states)

  -- What a scan only reads is the same.
  abbrev Reads : Persistence × Game D R → Persistence × Game D R → Type 0
  Reads (p, g) (p', g') = (g'.lease ≡ g.lease) × (g'.players ≡ g.players) × (p'.timing ≡ p.timing)

  abbrev pub due : Persistence × Game D R → ℕ → PlayerRepositoryRecord → ℕ → Bool
  due (p, g) i x now_ms = is_held_locally g.lease i && should_flush p i x (find i g.players) now_ms

  abbrev at : Scan D R → Persistence × Game D R
  at s = (s.service, s.game)

module _ {D R : Type 0} (codec : DataCodec) (storage : Storage D) where
  -- A player who is flushed: the record is clean and there is no retry state, or the record is as
  -- it was and the retry state has one more failure.
  abbrev pub Flushes :
      Persistence × Game D R → Persistence × Game D R → ℕ → PlayerRepositoryRecord → ℕ → ℕ → Type 0
  Flushes (p, g) (p', g') i x now_ms flush_ms =
      ((find i g'.repository ≡ some (flushed codec storage flush_ms x))
        × (find i p'.retry_states ≡ none))
      ⊎ ((find i g'.repository ≡ some x)
          × ((message : String) × (find i p'.retry_states
                ≡ some (failed_again p.timing (find i p.retry_states) now_ms message))))

  counted : Scan D R → PlayerRepositoryRecord → Scan D R
  counted s x = record s {
    tracked_player_count = inc64 s.tracked_player_count;
    pending_initial_persist_count =
        count_if x.pending_initial_persist s.pending_initial_persist_count;
    created_without_maria_count = count_if x.created_without_maria s.created_without_maria_count;
  }

  -- The ways that a player of the scan can go.
  scan_player_elim :
      (P : Persistence × Game D R → Type 0) (s : Scan D R) (i now_ms flush_ms : ℕ)
      → (find i s.game.repository ≡ none → P (at s))
      → ((x : PlayerRepositoryRecord)
          → find i s.game.repository ≡ some x
          → due (at s) i x now_ms ≡ false
          → P (at s))
      → ((x : PlayerRepositoryRecord)
          → find i s.game.repository ≡ some x
          → due (at s) i x now_ms ≡ true
          → P (at (flush_due codec storage (counted s x) i x now_ms flush_ms)))
      → P (at (scan_player codec storage s i now_ms flush_ms))
  unfolding scan_player counted snapshot
  scan_player_elim P s i now_ms flush_ms absent idle flush =
      elim (Option-cases (find i s.game.repository)) [
        | inl t ↦ rw (scan_player, t) (absent t)
        | inr (x, t) ↦ elim (Bool-cases (due (at s) i x now_ms)) [
          | inl u ↦ rw (scan_player, t, u) (flush x t u)
          | inr u ↦ rw (scan_player, t, u) (idle x t u)
        ]
      ]

  flush_due-Reads :
      (s : Scan D R) (i : ℕ) (x : PlayerRepositoryRecord) (now_ms flush_ms : ℕ)
      → Reads (at s) (at (flush_due codec storage s i x now_ms flush_ms))
  unfolding flush_due
  flush_due-Reads s i x now_ms flush_ms =
      elim (Bool-cases
        (flush_player codec storage s.game.repository flush_ms i s.game.storage_state).0.ok) [
          | inl t ↦ rw (flush_due, t) (refl, refl, refl)
          | inr t ↦ rw (flush_due, t) (refl, refl, refl)
        ]

  flush_due_others :
      (s : Scan D R) (i j : ℕ) (x : PlayerRepositoryRecord) (now_ms flush_ms : ℕ)
      → nat_eq i j ≡ false
      → Untouched (at s) (at (flush_due codec storage s i x now_ms flush_ms)) j
  unfolding flush_due
  flush_due_others s i j x now_ms flush_ms other =
      let kept =
        flush_player_others codec storage i j flush_ms s.game.repository s.game.storage_state
          other in
      elim (Bool-cases
        (flush_player codec storage s.game.repository flush_ms i s.game.storage_state).0.ok) [
          | inl t ↦ rw (flush_due, t) (kept, find-erase_other i j s.service.retry_states other)
          | inr t ↦
              rw (flush_due, t)
                (
                  kept,
                  find-put_other i j
                      (failed_again s.service.timing (find i s.service.retry_states) now_ms
                        (flush_player codec storage s.game.repository flush_ms i
                          s.game.storage_state).0.message)
                      s.service.retry_states other,
                )
        ]

  flush_due_lem :
      (s : Scan D R) (i : ℕ) (x : PlayerRepositoryRecord) (now_ms flush_ms : ℕ)
      → find i s.game.repository ≡ some x
      → Flushes (at s) (at (flush_due codec storage s i x now_ms flush_ms)) i x now_ms flush_ms
  unfolding flush_due
  flush_due_lem s i x now_ms flush_ms t =
      elim (flush_player_cases codec storage i flush_ms s.game.repository s.game.storage_state x
        t) [
          | inl (ok, clean) ↦
              inl (rw (flush_due, ok) (clean, find-erase_same i s.service.retry_states))
          | inr (failed, same) ↦
              let message =
                (flush_player codec storage s.game.repository flush_ms i
                  s.game.storage_state).0.message in
              let retry =
                failed_again s.service.timing (find i s.service.retry_states) now_ms message in
              inr (
                rw (flush_due, failed)
                  (same, (message, find-put_same i retry s.service.retry_states)))
        ]

  scan_player-Reads :
      (s : Scan D R) (i now_ms flush_ms : ℕ)
      → Reads (at s) (at (scan_player codec storage s i now_ms flush_ms))
  unfolding counted
  scan_player-Reads s i now_ms flush_ms =
      scan_player_elim (λ t. Reads (at s) t) s i now_ms flush_ms (λ _. (refl, refl, refl))
        (λ x _ _. (refl, refl, refl)) (λ x _ _. flush_due-Reads (counted s x) i x now_ms flush_ms)

  scan_player_others :
      (s : Scan D R) (i j now_ms flush_ms : ℕ)
      → nat_eq i j ≡ false
      → Untouched (at s) (at (scan_player codec storage s i now_ms flush_ms)) j
  unfolding counted
  scan_player_others s i j now_ms flush_ms other =
      scan_player_elim (λ t. Untouched (at s) t j) s i now_ms flush_ms (λ _. (refl, refl))
        (λ x _ _. (refl, refl))
        (λ x _ _. flush_due_others (counted s x) i j x now_ms flush_ms other)

  -- What a scan of its player does to a player, who is due or not.
  abbrev pub Scans :
      Persistence × Game D R → Persistence × Game D R → ℕ → PlayerRepositoryRecord → ℕ → ℕ → Type 0
  Scans s t i x now_ms flush_ms =
      ((due s i x now_ms ≡ true) × Flushes s t i x now_ms flush_ms)
      ⊎ ((due s i x now_ms ≡ false) × Untouched s t i)

  scan_player_lem :
      (s : Scan D R) (i : ℕ) (x : PlayerRepositoryRecord) (now_ms flush_ms : ℕ)
      → find i s.game.repository ≡ some x
      → Scans (at s) (at (scan_player codec storage s i now_ms flush_ms)) i x now_ms flush_ms
  unfolding counted
  scan_player_lem s i x now_ms flush_ms t =
      scan_player_elim (λ u. Scans (at s) u i x now_ms flush_ms) s i now_ms flush_ms
        (λ h. absurd (ground arith))
        (λ y h d.
          let y≡x : y ≡ x = ground arith in
          inr (subst (λ z. due (at s) i z now_ms ≡ false) y≡x d, (refl, refl)))
        (λ y h d.
          let y≡x : y ≡ x = ground arith in
          subst
            (λ z.
              Scans (at s) (at (flush_due codec storage (counted s y) i y now_ms flush_ms)) i z
                now_ms flush_ms)
            y≡x (inl (d, flush_due_lem (counted s y) i y now_ms flush_ms h)))

  from_earlier :
      (r s t : Persistence × Game D R) (i : ℕ) (x : PlayerRepositoryRecord) (now_ms flush_ms : ℕ)
      → Reads r s
      → Untouched r s i
      → Scans s t i x now_ms flush_ms
      → Scans r t i x now_ms flush_ms
  unfolding should_flush
  from_earlier r s t i x now_ms flush_ms read u h =
      let same : due s i x now_ms ≡ due r i x now_ms = λ k.
        is_held_locally (read.0 k) i && is_due (read.2 k) (u.1 k) x (find i (read.1 k)) now_ms in
      elim h [
        | inl (d, inl f) ↦ inl (sym same ∙ d, inl f)
        | inl (d, inr (kept, (message, e))) ↦ inl (
          sym same ∙ d,
          inr (
            kept,
            (
              message,
              e
                  ∙ ap some (
                      ap (λ z. failed_again z (find i s.0.retry_states) now_ms message) read.2
                      ∙ ap (λ z. failed_again r.0.timing z now_ms message) u.1),
            ),
          ),
        )
        | inr (d, (a, b)) ↦ inr (sym same ∙ d, (a ∙ u.0, b ∙ u.1))
      ]

  to_later :
      (s t u : Persistence × Game D R) (i : ℕ) (x : PlayerRepositoryRecord) (now_ms flush_ms : ℕ)
      → Scans s t i x now_ms flush_ms
      → Untouched t u i
      → Scans s u i x now_ms flush_ms
  to_later s t u i x now_ms flush_ms h v = elim h [
    | inl (d, inl (a, b)) ↦ inl (d, inl (v.0 ∙ a, v.1 ∙ b))
    | inl (d, inr (a, (message, e))) ↦ inl (d, inr (v.0 ∙ a, (message, v.1 ∙ e)))
    | inr (d, (a, b)) ↦ inr (d, (v.0 ∙ a, v.1 ∙ b))
  ]

  scan_absent :
      (m : Repository) (s : Scan D R) (i now_ms : ℕ) (clock : ℕ → ℕ)
      → find i m ≡ none
      → Untouched (at s) (at (scan_players codec storage s (loaded_keys m) now_ms clock)) i
  unfolding scan_players find
  scan_absent [] s i now_ms clock h = (refl, refl)
  scan_absent ((k, x) ∷ m) s i now_ms clock h = elim (Bool-cases x.loaded) [
    | inr t ↦ rw (t) (scan_absent m s i now_ms clock (ground arith))
    | inl t ↦
        let first = scan_player_others s k i now_ms (clock k) (ground arith) in
        let rest =
          scan_absent m (scan_player codec storage s k now_ms (clock k)) i now_ms clock
            (ground arith) in
        rw t (rest.0 ∙ first.0, rest.1 ∙ first.1)
  ]

  due_unloaded :
      (s : Persistence × Game D R) (i : ℕ) (x : PlayerRepositoryRecord) (now_ms : ℕ)
      → x.loaded ≡ false
      → due s i x now_ms ≡ false
  unfolding should_flush
  due_unloaded s i x now_ms h = ground arith

  scan_present :
      (m : Repository) (s : Scan D R) (i : ℕ) (x : PlayerRepositoryRecord) (now_ms : ℕ)
      (clock : ℕ → ℕ)
      → Distinct m
      → find i m ≡ some x
      → find i s.game.repository ≡ some x
      → Scans
          (at s)
          (at (scan_players codec storage s (loaded_keys m) now_ms clock))
          i
          x
          now_ms
          (clock i)
  unfolding scan_players find
  scan_present [] s i x now_ms clock distinct h there = absurd (ground arith)
  scan_present ((k, y) ∷ m) s i x now_ms clock distinct h there =
      let next = scan_player codec storage s k now_ms (clock k) in
      elim (Bool-cases (nat_eq k i)) [
        | inl e ↦
            let k≡i : k ≡ i = (nat_eq_iff k i).0 e in
            let absent = subst (λ z. find z m ≡ none) k≡i distinct.0 in
            elim (Bool-cases y.loaded) [
              | inl t ↦ rw t (
                  to_later (at s) (at next)
                    (at (scan_players codec storage next (loaded_keys m) now_ms clock)) i x now_ms
                    (clock i)
                    (subst
                      (λ z.
                        Scans (at s) (at (scan_player codec storage s z now_ms (clock z))) i x
                          now_ms (clock i))
                      (sym k≡i) (scan_player_lem s i x now_ms (clock i) there))
                    (scan_absent m next i now_ms clock absent))
              | inr t ↦ rw t (
                  inr (
                    due_unloaded (at s) i x now_ms (ground arith),
                    scan_absent m s i now_ms clock absent,
                  ))
            ]
        | inr n ↦
            let others = scan_player_others s k i now_ms (clock k) n in
            elim (Bool-cases y.loaded) [
              | inl t ↦ rw t (
                  from_earlier (at s) (at next)
                    (at (scan_players codec storage next (loaded_keys m) now_ms clock)) i x now_ms
                    (clock i) (scan_player-Reads s k now_ms (clock k)) others
                    (scan_present m next i x now_ms clock distinct.1 (ground arith)
                      (others.0 ∙ there)))
              | inr t ↦ rw t (scan_present m s i x now_ms clock distinct.1 (ground arith) there)
            ]
      ]

  -- In a round over a repository whose players stand in it once, a player who is in it, held and
  -- due is flushed: the record is clean and the retry state is gone, or the record stays and the
  -- retry state has one more failure with its delay. Any other player in it is left as it was.
  pub flush_due_players_once_lem :
      (p : Persistence) (g : Game D R) (now_ms : ℕ) (clock : ℕ → ℕ) (i : ℕ)
      (x : PlayerRepositoryRecord)
      → Distinct g.repository
      → find i g.repository ≡ some x
      → let r = flush_due_players_once codec storage p g now_ms clock in
        Scans (p, g) (r.1, r.2) i x now_ms (clock i)
  unfolding flush_due_players_once loaded_player_ids should_flush
  flush_due_players_once_lem p g now_ms clock i x distinct h =
      scan_present g.repository
        (record {
          service = record p {
            stats = record p.stats { scan_count = inc64 p.stats.scan_count; last_scan_ms = now_ms };
          };
          game = g;
          tracked_player_count = 0;
          pending_initial_persist_count = 0;
          created_without_maria_count = 0;
          flushed = 0;
        })
        i x now_ms clock distinct h h
