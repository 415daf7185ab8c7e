-- ===== src/Application.antt =====
-- src/framework/application/base.h: `ApplicationBase`, which takes the services of a process through
-- loading, start, stop and unloading. The services and the hooks of the application act on a world
-- `W`; each of their calls ends, or throws an exception, which is known by its text here.
pub mod Batches
pub mod Starting
use some_server.Base.{
  ℕ, zero, suc, ◌+◌, ◌-◌, ◌*◌, ◌/◌, ◌%◌, ◌^◌, ◌≤◌, ◌<◌, ◌≡◌, ◌≢◌, ◌↔◌, ◌⊎◌, inl, inr, refl, sym, ap,
  ◌∙◌, subst, Bool, true, false, not, ◌&&◌, ◌||◌, Option, none, some, List, [], ◌∷◌, ◌++◌, String,
  arith, nat_eq, ltb, leb, if◌then◌else◌, ◌==◌, ◌/=◌, Eq, Eq_ℕ, Eq_String, Eq_Bytes, bytes_eq_iff,
  Bool-cases, Option-cases, is_some, Bytes, inc64, add64,
}
use some_server.Base.Table.{
  Table, find, put, erase, contains, keys, AllEntries, Distinct, find-put, find-erase,
  AllEntries-put, AllEntries-erase, Distinct-put, Distinct-erase,
}
use some_server.Base.{length}
use Prim.Native.String.{◌++◌ as str_append}

-- `IService` by its name and its batch, which has 2 ^ 31 added, so that it is no negative number.
pub record Service : Type 0 where
  pub name : String
  pub batch : ℕ

-- A stage of a service, awaited: nothing, or the exception.
abbrev pub Stage : Type 0 → Type 0
Stage W = Service → W → Option String × W

pub record Services (W : Type 0) : Type 0 where
  pub load_service : Stage W
  pub start_service : Stage W
  pub stop_service : Stage W
  pub unload_service : Stage W

-- What the application itself says: its name, its hooks, and the services that it adds.
pub record Hooks (W : Type 0) : Type 0 where
  pub application_name : String
  pub register_services : List Service
  pub register_runtime_commands : W → Option String × W
  pub on_load : W → Option String × W
  pub on_start : W → Option String × W
  pub on_stop : W → Option String × W
  pub on_unload : W → Option String × W

pub record Application : Type 0 where
  pub services : List Service
  pub services_in_order : List Service
  pub loaded_services : List Service
  pub started_services : List Service
  pub services_registered : Bool
  pub runtime_commands_registered : Bool

-- `AddService`, one call after the other.
abbrev pub add_services : List Service → List Service → Option String × List Service
add_services [] services = (none, services)
add_services (s ∷ more) services =
    if s.name == ""
    then (some "service name must not be empty", services)
    else add_services more (services ++ s ∷ [])

abbrev pub has_name : String → List Service → Bool
has_name name [] = false
has_name name (s ∷ services) = s.name == name || has_name name services

-- `ValidateServices`, from the services that were seen.
abbrev pub validate_services : List Service → List Service → Option String
validate_services seen [] = none
validate_services seen (s ∷ services) =
    if has_name s.name seen
    then some (str_append "duplicate service name: " s.name)
    else validate_services (s ∷ seen) services

-- `std::stable_sort` by the batch.
unfoldable pub insert : Service → List Service → List Service
insert s [] = s ∷ []
insert s (t ∷ services) =
    let rest = insert s services in if leb s.batch t.batch then s ∷ t ∷ services else t ∷ rest

unfoldable pub stable_sort : List Service → List Service
unfolding insert
stable_sort [] = []
stable_sort (s ∷ services) = insert s (stable_sort services)

abbrev pub reverse_onto : List Service → List Service → List Service
reverse_onto [] out = out
reverse_onto (s ∷ services) out = reverse_onto services (s ∷ out)

-- From the last to the first.
abbrev pub reverse : List Service → List Service
reverse services = reverse_onto services []

-- The services up to the end of a batch, and those behind it.
unfoldable pub span_batch : ℕ → List Service → List Service × List Service
span_batch batch [] = ([], [])
span_batch batch (s ∷ services) =
    let rest = span_batch batch services in
    if nat_eq s.batch batch then (s ∷ rest.0, rest.1) else ([], s ∷ services)

-- `CaptureFailure`: the first error stays.
abbrev pub first_error : Option String → Option String → Option String
first_error none error = error
first_error (some e) error = some e

module _ {W : Type 0} where
  -- The services one after the other; who succeeds is put behind `done`, and the first exception
  -- ends it.
  unfoldable pub run_each :
      Stage W → List Service → List Service → W → Option String × List Service × W
  run_each operation [] done w = (none, done, w)
  run_each operation (s ∷ services) done w =
      let (error, w') = operation s w in
      elim error [
        | some e ↦ (some e, done, w')
        | none ↦ run_each operation services (done ++ s ∷ []) w'
      ]

  -- The services one after the other, whatever they throw.
  unfoldable pub run_all : Stage W → List Service → Option String → W → Option String × W
  run_all operation [] error w = (error, w)
  run_all operation (s ∷ services) error w =
      let (e, w') = operation s w in run_all operation services (first_error error e) w'

  -- The two loops over batches; the fuel is a number of batches.
  unfoldable pub run_forward_batches :
      ℕ → Stage W → List Service → List Service → W → Option String × List Service × W
  unfolding run_each span_batch
  run_forward_batches zero operation services done w = (none, done, w)
  run_forward_batches (suc fuel) operation [] done w = (none, done, w)
  run_forward_batches (suc fuel) operation (s ∷ services) done w =
      let (batch, behind) = span_batch s.batch (s ∷ services) in
      let (error, done', w') = run_each operation batch done w in
      elim error [
        | some e ↦ (some e, done', w')
        | none ↦ run_forward_batches fuel operation behind done' w'
      ]

  -- The services come from the last to the first.
  unfoldable pub run_reverse_batches :
      ℕ → Stage W → List Service → Option String → W → Option String × W
  unfolding run_all span_batch
  run_reverse_batches zero operation services error w = (error, w)
  run_reverse_batches (suc fuel) operation [] error w = (error, w)
  run_reverse_batches (suc fuel) operation (s ∷ services) error w =
      let (batch, behind) = span_batch s.batch (s ∷ services) in
      let (error', w') = run_all operation batch error w in
      run_reverse_batches fuel operation behind error' w'

  unfoldable pub rollback : Stage W → List Service → W → Option String × W
  unfolding run_all
  rollback stage services w = run_all stage (reverse services) none w

  -- The catch clause of a pass. Where the rollback throws, the list is not cleared.
  abbrev pub after_pass :
      Stage W → Option String × List Service × W → Option String × List Service × W
  after_pass undo (none, done, w) = (none, done, w)
  after_pass undo (some e, done, w) =
      let (undone, w') = rollback undo done w in
      elim undone [ some f ↦ (some f, done, w') | none ↦ (some e, [], w') ]

  -- A pass forward, with the list that it leaves and the world.
  unfoldable pub bring_up : Stage W → Stage W → List Service → W → Option String × List Service × W
  unfolding run_forward_batches rollback
  bring_up operation undo services w =
      after_pass undo (run_forward_batches (length services) operation services [] w)

  module _ (calls : Services W) (hooks : Hooks W) where
    unfoldable pub ensure_services_registered : Application → Option String × Application
    unfolding stable_sort
    ensure_services_registered a =
        let (error, services) = add_services hooks.register_services a.services in
        let b = record a { services = services } in
        if a.services_registered then (none, a) else elim error [
          | some e ↦ (some e, b)
          | none ↦ elim (validate_services [] services) [
            | some e ↦ (some e, b)
            | none ↦ (
              none,
              record b { services_in_order = stable_sort services; services_registered = true },
            )
          ]
        ]

    abbrev pub command_error : String → String
    command_error what =
        str_append "failed to register runtime commands for application '"
          (str_append hooks.application_name (str_append "': " what))

    unfoldable pub ensure_runtime_commands_registered :
        Application → W → Option String × Application × W
    ensure_runtime_commands_registered a w =
        let (error, w') = hooks.register_runtime_commands w in
        if a.runtime_commands_registered then (none, a, w) else elim error [
          | some what ↦ (some (command_error what), a, w')
          | none ↦ (none, record a { runtime_commands_registered = true }, w')
        ]

    -- `Load` behind the registration and `OnLoad`.
    unfoldable pub load_services : Application → W → Option String × Application × W
    unfolding bring_up
    load_services a w =
        let (error, done, w') =
          bring_up calls.load_service calls.unload_service a.services_in_order w in
        (error, record a { loaded_services = done }, w')

    unfoldable pub load : Application → W → Option String × Application × W
    unfolding ensure_services_registered ensure_runtime_commands_registered load_services
    load a w =
        let (error, a1) = ensure_services_registered a in
        let (error', a2, w2) = ensure_runtime_commands_registered a1 w in
        let (error'', w3) = hooks.on_load w2 in
        elim error [
          | some e ↦ (some e, a1, w)
          | none ↦ elim error' [
            | some e ↦ (some e, a2, w2)
            | none ↦ elim error'' [ some e ↦ (some e, a2, w3) | none ↦ load_services a2 w3 ]
          ]
        ]

    unfoldable pub start : Application → W → Option String × Application × W
    unfolding bring_up
    start a w =
        let (error, w1) = hooks.on_start w in
        let (error', done, w2) =
          bring_up calls.start_service calls.stop_service a.services_in_order w1 in
        elim error [
          | some e ↦ (some e, a, w1)
          | none ↦ (error', record a { started_services = done }, w2)
        ]

    unfoldable pub stop : Application → W → Option String × Application × W
    unfolding run_reverse_batches
    stop a w =
        let (error, w1) =
          run_reverse_batches (length a.started_services) calls.stop_service
            (reverse a.started_services) none w in
        let (error', w2) = hooks.on_stop w1 in
        (first_error error error', record a { started_services = [] }, w2)

    unfoldable pub unload : Application → W → Option String × Application × W
    unfolding run_reverse_batches
    unload a w =
        let (error, w1) =
          run_reverse_batches (length a.loaded_services) calls.unload_service
            (reverse a.loaded_services) none w in
        let (error', w2) = hooks.on_unload w1 in
        (first_error error error', record a { loaded_services = [] }, w2)
