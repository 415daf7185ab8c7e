-- ===== src/Examples/Receivers.antt =====
-- The theorems on the directory of receivers at concrete inputs.
use some_server.Base.{◌≡◌, refl, arith, [], ◌∷◌}
use some_server.Base.Decimal.{to_string}
use some_server.Base.Table.{find}
use some_server.Ipc.Types.{ProcessRef, ReceiverAddress, single_process}
use some_server.Ipc.Directory.{Directory, make_key, resolve, binds, rebinds, call, run, location_of}
use some_server.Ipc.Directory.Refinement.{owners, spec_call, spec_run, call_refines, resolve-run}
use some_server.Ipc.Directory.Ownership.{binding_persists}

abbrev game_one : ProcessRef
game_one = record { process_id = record { service_type = 1; instance_id = 1 }; incarnation_id = 41 }

abbrev game_two : ProcessRef
game_two = record { process_id = record { service_type = 1; instance_id = 2 }; incarnation_id = 42 }

abbrev player_nine : ReceiverAddress
player_nine = record { type = 2; key_hi = 9; key_lo = 0 }

abbrev bound_once : Directory
bound_once = (make_key player_nine, record { owner = game_one; version = 1 }) ∷ []

call_refines_example :
    (owners (call bound_once (rebinds player_nine game_one game_two)).0
      ≡ (spec_call (owners bound_once) (rebinds player_nine game_one game_two)).0)
    × ((call bound_once (rebinds player_nine game_one game_two)).1
        ≡ (spec_call (owners bound_once) (rebinds player_nine game_one game_two)).1)
call_refines_example = call_refines bound_once (rebinds player_nine game_one game_two)

resolve-run_example :
    resolve (run [] (binds player_nine game_one ∷ [])) player_nine
    ≡ location_of (spec_run (owners []) (binds player_nine game_one ∷ []) player_nine)
resolve-run_example = resolve-run [] (binds player_nine game_one ∷ []) player_nine

binding_persists_example :
    resolve (run bound_once (binds player_nine game_two ∷ [])) player_nine
    ≡ record { kind = single_process; processes = game_one ∷ []; version = 1 }
unfolding resolve make_key find to_string
binding_persists_example =
    binding_persists bound_once player_nine game_one 1 (binds player_nine game_two ∷ [])
      (omega arith) (tt, tt) refl
