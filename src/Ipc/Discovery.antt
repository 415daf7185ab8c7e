-- ===== src/Ipc/Discovery.antt =====
-- src/framework/ipc/discovery: which processes there are. Here is the view in memory, with its
-- events; `Etcd` has the view that is kept in step with etcd.
pub mod Diff
pub mod Etcd
pub mod Base64
pub mod Watch
pub mod Replay
pub mod Members
pub mod Encoding
pub mod Registration
use some_server.Base.{
  ℕ, ◌+◌, ◌*◌, ◌^◌, ◌≡◌, ◌↔◌, Bool, true, false, Option, none, some, List, [], ◌∷◌, ◌++◌, String,
  arith, nat_eq, if◌then◌else◌, ◌&&◌, ◌==◌, Eq, Eq_ℕ, Eq_String,
}
use some_server.Base.Table.{Table, find, put, erase}
use some_server.Ipc.Types.{
  ProcessId, ProcessRef, ProcessDescriptor, Endpoint, StringMap, Result, success, failure,
}

pub data MembershipEventType : Type 0 where
  added updated removed : MembershipEventType

pub record MembershipEvent : Type 0 where
  pub type : MembershipEventType
  pub process : ProcessDescriptor

-- `MakeKey`: both parts are 32-bit numbers, so the bitwise or is a sum.
unfoldable pub process_key : ProcessId → ℕ
process_key id = id.service_type * 2 ^ 32 + id.instance_id

abbrev pub Processes : Type 0
Processes = Table ℕ ProcessDescriptor

pub record Discovery : Type 0 where
  pub processes : Processes
  pub events : List MembershipEvent

unfoldable pub upsert : Discovery → ProcessDescriptor → Result × Discovery
unfolding process_key
upsert d p =
    let key = process_key p.process.process_id in
    let type : MembershipEventType = elim (find key d.processes) [
      | none ↦ added
      | some _ ↦ updated
    ] in
    (
      success,
      record {
        processes = put key p d.processes;
        events = d.events ++ record { type = type; process = p } ∷ [];
      },
    )

unfoldable pub register_self : Discovery → ProcessDescriptor → Result × Discovery
unfolding upsert
register_self d self = upsert d self

unfoldable pub remove : Discovery → ProcessId → Result × Discovery
unfolding process_key
remove d id = elim (find (process_key id) d.processes) [
  | none ↦ (failure "process not found", d)
  | some p ↦ (
    success,
    record {
      processes = erase (process_key id) d.processes;
      events = d.events ++ record { type = removed; process = p } ∷ [];
    },
  )
]

unfoldable pub find_process : Processes → ProcessId → Option ProcessDescriptor
unfolding process_key
find_process m id = find (process_key id) m

unfoldable pub find_by_service : Processes → ℕ → List ProcessDescriptor
find_by_service [] type = []
find_by_service ((key, p) ∷ m) type =
    let rest = find_by_service m type in
    if nat_eq p.process.process_id.service_type type then p ∷ rest else rest

unfoldable pub all : Processes → List ProcessDescriptor
all [] = []
all ((key, p) ∷ m) = p ∷ all m

unfoldable pub drain_events : Discovery → List MembershipEvent × Discovery
drain_events d = (d.events, record d { events = [] })
