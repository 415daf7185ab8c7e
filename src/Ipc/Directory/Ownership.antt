-- ===== src/Ipc/Directory/Ownership.antt =====
-- Who can take a receiver away from the process that owns it.
use some_server.Base.Table.{find-put}
use some_server.Base.{
  bytes_eq_iff, ℕ, ◌≡◌, ◌≢◌, ap, some, arith, ◌⊎◌, List, ◌∷◌, ◌<◌, [], ◌^◌, inc64, Eq_Bytes,
}
use some_server.Ipc.Types.{
  success, single_process, ProcessRef, ReceiverAddress, receiver_address_eq_iff, process_ref_eq_iff,
  failure,
}
use some_server.Ipc.Directory.{
  Call, binds, rebinds, invalidates, clears, resolve, rebind, Directory, invalidate, run, make_key,
}
use some_server.Ipc.Directory.Refinement.{Owners, spec_call, spec_run, owners, resolve-run}

-- A call that could move receiver `r` away from owner `p`: the owner is named as the present one,
-- or the whole directory is cleared.
abbrev pub Leaves : ReceiverAddress → ProcessRef → Call → Type 0
Leaves r p (binds s q) = Unit
Leaves r p (rebinds s q _) = (s ≢ r) ⊎ (q ≢ p)
Leaves r p (invalidates s q _) = (s ≢ r) ⊎ (q ≢ p)
Leaves r p clears = ⊥

call-keeps :
    (o : Owners) (r : ReceiverAddress) (p : ProcessRef) (v : ℕ) (c : Call)
    → v ≢ 0
    → Leaves r p c
    → o r ≡ some (record { owner = p; version = v })
    → (spec_call o c).0 r ≡ some (record { owner = p; version = v })
unfolding spec_call
call-keeps o r p v (binds s q) pos l h =
    ground (arith, receiver_address_eq_iff s r, process_ref_eq_iff p q, ap o {x = s} {y = r})
call-keeps o r p v (rebinds s q t) pos l h =
    ground (arith, receiver_address_eq_iff s r, process_ref_eq_iff p q)
call-keeps o r p v (invalidates s q w) pos l h =
    ground (arith, receiver_address_eq_iff s r, process_ref_eq_iff p q)
call-keeps o r p v clears pos l h = absurd l

abbrev pub AllLeave : ReceiverAddress → ProcessRef → List Call → Type 0
AllLeave r p [] = Unit
AllLeave r p (c ∷ cs) = Leaves r p c × AllLeave r p cs

spec_run-keeps :
    (o : Owners) (r : ReceiverAddress) (p : ProcessRef) (v : ℕ) (cs : List Call)
    → v ≢ 0
    → AllLeave r p cs
    → o r ≡ some (record { owner = p; version = v })
    → spec_run o cs r ≡ some (record { owner = p; version = v })
unfolding spec_run
spec_run-keeps o r p v [] pos l h = h
spec_run-keeps o r p v (c ∷ cs) pos l h =
    spec_run-keeps (spec_call o c).0 r p v cs pos l.1 (call-keeps o r p v c pos l.0 h)

-- Only calls that name the present owner of a receiver, and a clearing, can move it: after any
-- others, other processes' binds of it included, it still has its owner and its version.
pub binding_persists :
    (d : Directory) (r : ReceiverAddress) (p : ProcessRef) (v : ℕ) (cs : List Call)
    → v ≢ 0
    → AllLeave r p cs
    → resolve d r ≡ record { kind = single_process; processes = p ∷ []; version = v }
    → resolve (run d cs) r ≡ record { kind = single_process; processes = p ∷ []; version = v }
unfolding resolve owners
binding_persists d r p v cs pos l h =
    ground (arith, resolve-run d cs r, spec_run-keeps (owners d) r p v cs pos l (ground arith))

-- Once a receiver has moved to a new owner, an invalidation with the version from before the move
-- is refused and the receiver stays with the new owner.
pub stale_invalidate :
    (d : Directory) (r : ReceiverAddress) (p q : ProcessRef) (v : ℕ)
    → v < 2 ^ 64
    → resolve d r ≡ record { kind = single_process; processes = p ∷ []; version = v }
    → let moved = (rebind d r p q).0 in
      ((rebind d r p q).1 ≡ success)
      × (resolve moved r ≡ record { kind = single_process; processes = q ∷ []; version = inc64 v })
      × (invalidate moved r q v ≡ (moved, failure "receiver version mismatch"))
unfolding resolve rebind invalidate
stale_invalidate d r p q v fits h = ground (
  arith,
  process_ref_eq_iff p p,
  process_ref_eq_iff q q,
  bytes_eq_iff (make_key r) (make_key r),
  find-put (make_key r) (make_key r) (record { owner = q; version = inc64 v }) d,
)
