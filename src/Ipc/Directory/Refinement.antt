-- ===== src/Ipc/Directory/Refinement.antt =====
-- The directory as its clients see it: a map from receivers to owners, with no text in sight.
use mathlib.Core.Path.{fun_ext}
use some_server.Base.{
  ◌∙◌, ◌≡◌, refl, ap, Option, none, some, List, [], ◌∷◌, nat_eq, if◌then◌else◌, ◌&&◌, ◌/=◌, inc64,
  arith, Eq_Bytes, Eq_ℕ,
}
use some_server.Base.Table.{find, find-put, find-erase}
use some_server.Ipc.Types.{
  Result, success, failure, ReceiverAddress, receiver_address_eq, Eq_ProcessRef,
}
use some_server.Ipc.Directory.{
  Directory, Entry, entry_or_new, location_of, make_key, resolve, Call, binds, rebinds, invalidates,
  clears, call, run, clear,
}
use some_server.Ipc.Directory.Keys.{make_key_eq}

abbrev pub Owners : Type 0
Owners = ReceiverAddress → Option Entry

unfoldable pub owners : Directory → Owners
owners d r = find (make_key r) d

abbrev written : Owners → ReceiverAddress → Option Entry → Owners
written o r e q = if receiver_address_eq r q then e else o q

unfoldable pub spec_call : Owners → Call → Owners × Result
spec_call o (binds r p) =
    let entry = entry_or_new (o r) in
    if entry.version /= 0 && entry.owner /= p
    then (o, failure "receiver already bound to another owner")
    else (
      written o r (
          some
            (record { owner = p; version = if nat_eq entry.version 0 then 1 else entry.version })),
      success,
    )
spec_call o (rebinds r p q) = elim (o r) [
  | none ↦ (o, failure "receiver is not bound")
  | some entry ↦
      if entry.owner /= p
      then (o, failure "receiver owner mismatch")
      else (written o r (some (record { owner = q; version = inc64 entry.version })), success)
]
spec_call o (invalidates r p v) = elim (o r) [
  | none ↦ (o, failure "receiver is not bound")
  | some entry ↦
      if entry.owner /= p
      then (o, failure "receiver owner mismatch")
      else if entry.version /= v
      then (o, failure "receiver version mismatch")
      else (written o r none, success)
]
spec_call o clears = ((λ r. none), success)

owner-call :
    (d : Directory) (c : Call) (q : ReceiverAddress)
    → (owners (call d c).0 q ≡ (spec_call (owners d) c).0 q)
      × ((call d c).1 ≡ (spec_call (owners d) c).1)
unfolding owners call spec_call clear find
owner-call d (binds r p) q = ground (
  arith,
  make_key_eq r q,
  find-put (make_key r) (make_key q) (entry_or_new (find (make_key r) d)) d,
  find-put (make_key r) (make_key q) (record { owner = p; version = 1 }) d,
  find-put (make_key r) (make_key q)
      (record { owner = p; version = (entry_or_new (find (make_key r) d)).version }) d,
)
owner-call d (rebinds r p s) q =
    let version = (entry_or_new (find (make_key r) d)).version in
    ground (
      arith,
      make_key_eq r q,
      find-put (make_key r) (make_key q) (record { owner = s; version = inc64 version }) d,
    )
owner-call d (invalidates r p v) q =
    ground (arith, make_key_eq r q, find-erase (make_key r) (make_key q) d)
owner-call d clears q = (refl, refl)

-- Each call of the directory answers and acts as the one on the map of owners.
pub call_refines :
    (d : Directory) (c : Call)
    → (owners (call d c).0 ≡ (spec_call (owners d) c).0)
      × ((call d c).1 ≡ (spec_call (owners d) c).1)
call_refines d c = (fun_ext (λ q. (owner-call d c q).0), (owner-call d c (target c)).1)
  where
    target : Call → ReceiverAddress
    target (binds r _) = r
    target (rebinds r _ _) = r
    target (invalidates r _ _) = r
    target clears = record { type = 0; key_hi = 0; key_lo = 0 }

unfoldable pub spec_run : Owners → List Call → Owners
spec_run o [] = o
spec_run o (c ∷ cs) = spec_run (spec_call o c).0 cs

-- After any calls, the location that the directory gives for a receiver is the one of the map of
-- owners after the same calls.
pub resolve-run :
    (d : Directory) (cs : List Call) (r : ReceiverAddress)
    → resolve (run d cs) r ≡ location_of (spec_run (owners d) cs r)
unfolding resolve run spec_run owners
resolve-run d [] r = refl
resolve-run d (c ∷ cs) r =
    resolve-run (call d c).0 cs r ∙ ap (λ o. location_of (spec_run o cs r)) (call_refines d c).0
