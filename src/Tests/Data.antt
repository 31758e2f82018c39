-- ===== src/Tests/Data.antt =====
-- A small studio: a texture, a mesh that floats on it and is derived from it, and a pinned shot.
use asset_core.Shared.{◌+◌, none, some, List, [], ◌∷◌}
use asset_core.Core.Types.{derived_from, depends_on, float, pin}
use asset_core.Core.Entities.{Event}
use asset_core.Core.Ports.{Host}
use asset_core.Infra.InMemory.{InMemoryRepo, init, in_memory, in_memory_sink}
use asset_core.Infra.InMemory.Valid.{IsValid, init-IsValid}
use asset_core.App.World.{World}
use asset_core.App.Calls.{Call, declares, binds_source, relates, run_all}
use asset_core.App.Calls.Outcomes.{run_all-IsValid}

abbrev pub test_host : Host
test_host = record { uuid4 = λ k. 100 + k; now = λ k. k }

abbrev pub start : World InMemoryRepo (List Event)
start = record { repo = init; sink = []; made = 0 }

abbrev pub setup : List Call
setup =
    declares "texture" "ana" none (some 1)
    ∷ declares "mesh" "bob" none (some 2)
    ∷ declares "shot" "eva" none (some 3)
    ∷ binds_source 1 "//depot/rock" "painter" "r1" "ana"
    ∷ relates 2 1 depends_on "bob" (some float) none
    ∷ relates 2 1 derived_from "bob" none none
    ∷ relates 3 1 depends_on "eva" (some pin) (some 1)
    ∷ relates 3 2 depends_on "eva" none none
    ∷ []

abbrev pub studio : World InMemoryRepo (List Event)
studio = run_all in_memory in_memory_sink test_host setup start

pub studio-IsValid : IsValid studio.repo
studio-IsValid = run_all-IsValid in_memory_sink test_host setup start init-IsValid
