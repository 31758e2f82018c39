-- ===== src/Tests/Hydration.antt =====
-- The hydration of a replica.
use mathlib.Core.Option
use asset_core.Shared.{
  ◌≡◌, ◌↔◌, refl, inl, inr, none, some, [], ◌∷◌, ℕ, zero, suc, List, String, Option, is_some, true,
  arith, ◌==◌, String_eq, if◌then◌else◌, In, contains_text,
}
use asset_core.Sdk.Replica.{
  RelationRow, upsert_relation, upsert_asset, empty, Central, Summary, Resolved, Replica,
  hydrate_cache, get_asset, list_all,
}
use asset_core.Shared.Dict
use asset_core.Sdk.LocalReader.{LocalResolve, dependency, dependent, resolve, dependents}
use asset_core.Sdk.LocalReader.Local.{edge, resolve_hydrated, resolve-dependents}
use asset_core.Sdk.Replica.Queue.{deps}
use asset_core.Sdk.Replica.Crawl.{Reaches, EdgeOf, record_at}
use asset_core.Sdk.Replica.Hydrated.{seeds_of, hydrate_cache-Exact}

abbrev rock : Summary
rock = record {
  id = "rock";
  asset_type = some "mesh";
  created_by = some "ana";
  created_at = some "t0";
}

abbrev answer : Resolved
answer = record { meta = none; identity = none; source = none; runtime = none }

-- one page of one entry
abbrev one_page : ℕ → ℕ → List Summary
one_page limit zero = rock ∷ []
one_page limit (suc offset) = []

-- the rock and its paint depend on each other
abbrev central : Central
central = record {
  authored = one_page;
  recent = one_page;
  resolve = λ a. some answer;
  dependencies = λ a.
      if a == "rock"
      then ("paint", "uses") ∷ []
      else if a == "paint"
      then ("rock", "uses") ∷ []
      else [];
}

hydrated : (db : Replica) × (hydrate_cache central "show" "t9" 1 4 ≡ some db)
unfolding hydrate_cache
hydrated = (_, refl)

uses_known :
    (a b : String)
    → In a ("rock" ∷ "paint" ∷ [])
    → is_some (central.resolve a) ≡ true
    → In b (deps central a)
    → In b ("rock" ∷ "paint" ∷ [])
uses_known a b (inl p) r d = elim (rw p at d) [ inl q ↦ inr (inl q) | inr q ↦ absurd q ]
uses_known a b (inr (inl p)) r d = elim (rw p at d) [ inl q ↦ inl q | inr q ↦ absurd q ]
uses_known a b (inr (inr m)) r d = absurd m

hydrate_cache-Exact_example :
    (db : Replica) × (hydrate_cache central "show" "t9" 1 4 ≡ some db)
    × (db.hydrated_at ≡ some "t9")
    × ((a : String)
        → Reaches central (seeds_of (rock ∷ []) (rock ∷ [])) a
        → get_asset a db ≡ record_at central (seeds_of (rock ∷ []) (rock ∷ [])) a)
    × ((a : String)
        → is_some (get_asset a db) ≡ true
        → Reaches central (seeds_of (rock ∷ []) (rock ∷ [])) a)
    × ((row : RelationRow)
        → In row db.relations ↔ (
            (a : String) × Reaches central (seeds_of (rock ∷ []) (rock ∷ [])) a
            × EdgeOf central (seeds_of (rock ∷ []) (rock ∷ [])) row a))
unfolding list_all asset_core.Shared.Dict.lookup asset_core.Shared.Dict.insert contains_text
hydrate_cache-Exact_example =
    hydrate_cache-Exact central "show" "t9" (rock ∷ []) (rock ∷ []) ("rock" ∷ "paint" ∷ []) 1 4 refl
      refl (λ a m. elim m [ inl p ↦ inl p | inr m ↦ absurd m ]) uses_known (omega arith)

resolve_hydrated_example :
    (db : Replica) × (hydrate_cache central "show" "t9" 1 4 ≡ some db)
    × ((a : String)
        → Reaches central (seeds_of (rock ∷ []) (rock ∷ [])) a
        → Option.map (λ o. o.resolved) (resolve a db) ≡ central.resolve a)
    × ((a : String)
        → is_some (resolve a db) ≡ true
        → Reaches central (seeds_of (rock ∷ []) (rock ∷ [])) a)
unfolding list_all asset_core.Shared.Dict.lookup asset_core.Shared.Dict.insert contains_text
resolve_hydrated_example =
    resolve_hydrated central "show" "t9" (rock ∷ []) (rock ∷ []) ("rock" ∷ "paint" ∷ []) 1 4 refl
      refl (λ a m. elim m [ inl p ↦ inl p | inr m ↦ absurd m ]) uses_known (omega arith)

abbrev rock_row : Replica
rock_row = upsert_relation "rock" "paint" "uses" "float" (
    upsert_asset
      (record {
        id = "rock";
        asset_type = none;
        created_by = none;
        created_at = none;
        resolved = answer;
      })
      empty)

abbrev rock_answer : LocalResolve
rock_answer = record {
  id = "rock";
  resolved = answer;
  dependencies = (record { asset_id = "paint"; rel_type = "uses"; binding_mode = "float" }) ∷ [];
}

rock_resolves : resolve "rock" rock_row ≡ some rock_answer
unfolding resolve upsert_relation upsert_asset asset_core.Shared.Dict.lookup
rock_resolves = refl

resolve-dependents_example :
    In (dependency (edge "rock" "paint" "uses" "float")) rock_answer.dependencies
    ↔ In (dependent (edge "rock" "paint" "uses" "float")) (dependents "paint" rock_row)
resolve-dependents_example =
    resolve-dependents "rock" "paint" "uses" "float" rock_row rock_answer rock_resolves
