-- ===== src/Tests/Calls.antt =====
-- Calls from the empty repository, and publishes that lose the race for a version.
use asset_core.Shared.{
  ℕ, zero, suc, ◌+◌, ◌<◌, ◌≡◌, ◌&&◌, ◌==◌, refl, Bool, false, true, none, some, List, [], ◌∷◌, ◌++◌,
  select, is_some, find, ◌-◌, arith, if◌then◌else◌, ℕ_eq,
}
use asset_core.Shared.Exec.{Result, ok, raised, version_conflict}
use asset_core.Core.Entities.{SourceVersion}
use asset_core.Core.Rules.{Source_facet, next_version_num}
use asset_core.Core.Ports.{AssetRepo}
use asset_core.Infra.InMemory.{in_memory, in_memory_sink}
use asset_core.Infra.InMemory.Valid.{IsValid, init-IsValid}
use asset_core.App.Verbs.{bind_source}
use asset_core.App.Verbs.Retries.{written, number, bind_source-exhausted, bind_source-retries}
use asset_core.App.Calls.{claims, run, run_all}
use asset_core.App.Calls.Outcomes.{run_all-IsValid, run-Outcome, Outcome}
use asset_core.Tests.Data.{test_host, start, setup, studio, studio-IsValid}

run_all-IsValid_example : IsValid (run_all in_memory in_memory_sink test_host setup start).repo
run_all-IsValid_example = run_all-IsValid in_memory_sink test_host setup start init-IsValid

run-Outcome_example :
    Outcome in_memory_sink test_host studio 2 "identity.claimed"
      (run in_memory in_memory_sink test_host (claims 2 "Rock" "props" "bob" false none) studio)
run-Outcome_example =
    run-Outcome in_memory_sink test_host (claims 2 "Rock" "props" "bob" false none) studio
      studio-IsValid

-- The stored versions, and those that other publishers are about to store.
abbrev Race : Type 0
Race = List SourceVersion × List SourceVersion

abbrev is_taken : SourceVersion → List SourceVersion → Bool
is_taken v vs = is_some (find (λ u. u.asset_id == v.asset_id && u.version_num == v.version_num) vs)

-- UNIQUE (asset_id, version_num)
abbrev insert_version : SourceVersion → Race → Result (Unit {0}) × Race
insert_version v (vs, rivals) =
    if is_taken v vs
    then (raised version_conflict, (vs, rivals))
    else (ok tt, (vs ++ v ∷ [], rivals))

-- another publisher comes first
abbrev race_version : SourceVersion → Race → Result (Unit {0}) × Race
race_version v (vs, []) = insert_version v (vs, [])
race_version v (vs, r ∷ rivals) = insert_version v (vs ++ r ∷ [], rivals)

abbrev racing : AssetRepo Race
racing = record {
  create_asset = λ a i s. (ok tt, s);
  get_asset = λ a s. none;
  list_assets = λ t l c s. [];
  get_identity = λ a s. none;
  save_identity = λ i s. (ok tt, s);
  set_lifecycle = λ a l s. (ok tt, s);
  identities = λ ids s. [];
  latest_sources = λ ids s. [];
  latest_runtimes = λ ids s. [];
  add_source_version = race_version;
  source_versions = λ a s. select (λ v. v.asset_id == a) s.0;
  update_source_location = λ a u r s. (ok false, s);
  add_runtime_version = λ v s. (ok tt, s);
  runtime_versions = λ a s. [];
  update_runtime_location = λ a u s. (ok false, s);
  add_relationship = λ r s. (ok tt, s);
  upsert_relationship = λ r s. (ok tt, s);
  edges_from = λ a t s. [];
  edges_to = λ a t s. [];
  get_edge = λ f t l s. none;
}

-- the version that another publisher stores under a number
abbrev rival : ℕ → SourceVersion
rival n = record {
  asset_id = 1;
  location_uri = "//depot/other";
  tool = "painter";
  revision = "r0";
  version_num = n;
  is_latest = true;
  published_by = some "bob";
  published_at = 0;
}

abbrev numbered : ℕ → ℕ → List SourceVersion
numbered n zero = []
numbered n (suc k) = rival n ∷ numbered (suc n) k

-- `total` rivals, of which `i` have stored their versions
abbrev after : ℕ → ℕ → Race
after total i = (numbered 1 i, numbered (suc i) (total - i))

two_lost :
    (i : ℕ)
    → i < 2
    → racing.add_source_version
        (written racing in_memory_sink test_host 1 "//depot/rock" "painter" "r1" "ana"
          (number racing in_memory_sink test_host 1 "//depot/rock" "painter" "r1" "ana" (after 2 i))
          (0 + i))
        (after 2 i)
      ≡ (raised version_conflict, after 2 (suc i))
unfolding next_version_num
two_lost zero h = refl
two_lost (suc zero) h = refl
two_lost (suc (suc i)) h = absurd (omega arith)

five_lost :
    (i : ℕ)
    → i < 5
    → racing.add_source_version
        (written racing in_memory_sink test_host 1 "//depot/rock" "painter" "r1" "ana"
          (number racing in_memory_sink test_host 1 "//depot/rock" "painter" "r1" "ana" (after 5 i))
          (0 + i))
        (after 5 i)
      ≡ (raised version_conflict, after 5 (suc i))
unfolding next_version_num
five_lost zero h = refl
five_lost (suc zero) h = refl
five_lost (suc (suc zero)) h = refl
five_lost (suc (suc (suc zero))) h = refl
five_lost (suc (suc (suc (suc zero)))) h = refl
five_lost (suc (suc (suc (suc (suc i))))) h = absurd (omega arith)

-- two rivals are first, and the third number is free
third_wins :
    racing.add_source_version
      (written racing in_memory_sink test_host 1 "//depot/rock" "painter" "r1" "ana"
        (number racing in_memory_sink test_host 1 "//depot/rock" "painter" "r1" "ana" (after 2 2))
        (0 + 2))
      (after 2 2)
    ≡ (
      ok tt,
      (
        (after 2 2).0
            ++ written racing in_memory_sink test_host 1 "//depot/rock" "painter" "r1" "ana" 3 2
              ∷ [],
        [],
      ),
    )
unfolding next_version_num
third_wins = refl

bind_source-exhausted_example :
    bind_source racing in_memory_sink test_host 1 "//depot/rock" "painter" "r1" "ana"
      (record { repo = after 5 0; sink = []; made = 0 })
    ≡ (raised version_conflict, record { repo = after 5 5; sink = []; made = 0 + 5 })
bind_source-exhausted_example =
    bind_source-exhausted racing in_memory_sink test_host 1 "//depot/rock" "painter" "r1" "ana" 5 0
      (after 5) five_lost [] (omega arith)

bind_source-retries_example :
    ((bind_source racing in_memory_sink test_host 1 "//depot/rock" "painter" "r1" "ana"
        (record { repo = after 2 0; sink = []; made = 0 })).0
      ≡ ok (
          number racing in_memory_sink test_host 1 "//depot/rock" "painter" "r1" "ana" (after 2 2)))
    × ((bind_source racing in_memory_sink test_host 1 "//depot/rock" "painter" "r1" "ana"
          (record { repo = after 2 0; sink = []; made = 0 })).1.repo
        ≡ (
          (after 2 2).0
              ++ written racing in_memory_sink test_host 1 "//depot/rock" "painter" "r1" "ana" 3 2
                ∷ [],
          [],
        ))
bind_source-retries_example =
    bind_source-retries racing in_memory_sink test_host 1 "//depot/rock" "painter" "r1" "ana" 2 0
      (after 2) two_lost _ third_wins [] (omega arith)
