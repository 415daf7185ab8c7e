-- ===== src/Ipc/Directory.antt =====
-- src/framework/ipc/receiver/local_receiver_directory: which process owns a receiver. The map is
-- keyed by a text made of the three parts of an address; each method holds the lock throughout.
pub mod Keys
pub mod Refinement
pub mod Ownership
use some_server.Base.{
  ℕ, ◌≡◌, Bool, true, false, Option, none, some, List, [], ◌∷◌, ◌++◌, Bytes, nat_eq, if◌then◌else◌,
  ◌&&◌, ◌==◌, ◌/=◌, inc64, Eq_Bytes, Eq_ℕ,
}
use some_server.Base.Decimal.{to_string}
use some_server.Base.Table.{Table, find, put, erase}
use some_server.Ipc.Types.{
  ProcessRef, no_process, Result, success, failure, ReceiverAddress, ReceiverLocation,
  single_process, no_location, Eq_ProcessRef,
}

pub record Entry : Type 0 where
  pub owner : ProcessRef
  pub version : ℕ

abbrev pub no_entry : Entry
no_entry = record { owner = no_process; version = 0 }

abbrev pub entry_or_new : Option Entry → Entry
entry_or_new none = no_entry
entry_or_new (some e) = e

abbrev pub Directory : Type 0
Directory = Table Bytes Entry

unfoldable pub make_key : ReceiverAddress → Bytes
make_key r = to_string r.type ++ b':' ∷ (to_string r.key_hi ++ b':' ∷ to_string r.key_lo)

abbrev pub location_of : Option Entry → ReceiverLocation
location_of none = no_location
location_of (some e) = record {
  kind = single_process;
  processes = e.owner ∷ [];
  version = e.version;
}

unfoldable pub resolve : Directory → ReceiverAddress → ReceiverLocation
resolve d r = location_of (find (make_key r) d)

unfoldable pub bind : Directory → ReceiverAddress → ProcessRef → Directory × Result
bind d r owner =
    let entry = entry_or_new (find (make_key r) d) in
    if entry.version /= 0 && entry.owner /= owner
    then (put (make_key r) entry d, failure "receiver already bound to another owner")
    else (
      put (make_key r)
          (record { owner = owner; version = if nat_eq entry.version 0 then 1 else entry.version })
          d,
      success,
    )

unfoldable pub rebind : Directory → ReceiverAddress → ProcessRef → ProcessRef → Directory × Result
rebind d r old_owner new_owner = elim (find (make_key r) d) [
  | none ↦ (d, failure "receiver is not bound")
  | some entry ↦ if entry.owner /= old_owner then (d, failure "receiver owner mismatch") else (
    put (make_key r) (record { owner = new_owner; version = inc64 entry.version }) d,
    success,
  )
]

unfoldable pub invalidate : Directory → ReceiverAddress → ProcessRef → ℕ → Directory × Result
invalidate d r owner version = elim (find (make_key r) d) [
  | none ↦ (d, failure "receiver is not bound")
  | some entry ↦
      if entry.owner /= owner
      then (d, failure "receiver owner mismatch")
      else if entry.version /= version
      then (d, failure "receiver version mismatch")
      else (erase (make_key r) d, success)
]

unfoldable pub clear : Directory → Directory
clear d = []

-- The calls that change the directory.
pub data Call : Type 0 where
  binds : ReceiverAddress → ProcessRef → Call
  rebinds : ReceiverAddress → ProcessRef → ProcessRef → Call
  invalidates : ReceiverAddress → ProcessRef → ℕ → Call
  clears : Call

unfoldable pub call : Directory → Call → Directory × Result
unfolding bind rebind invalidate clear
call d (binds r p) = bind d r p
call d (rebinds r p q) = rebind d r p q
call d (invalidates r p v) = invalidate d r p v
call d clears = (clear d, success)

unfoldable pub run : Directory → List Call → Directory
run d [] = d
run d (c ∷ cs) = run (call d c).0 cs
