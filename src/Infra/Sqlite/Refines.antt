-- ===== src/Infra/Sqlite/Refines.antt =====
-- Any sequence of writes, on the tables and on the dicts.
use asset_core.Shared.{◌≡◌, refl, String, Bool, List, [], ◌∷◌, ℕ_eq}
use asset_core.Shared.Exec.{Result, ok, raised}
use asset_core.Core.Entities.{Uuid}
use asset_core.Core.Rules.{Source_facet, Runtime_facet}
use asset_core.Infra.InMemory.{InMemoryRepo}
use asset_core.Infra.InMemory as Memory
use asset_core.Infra.Sqlite.{Tables, Outcome}
use asset_core.Infra.Sqlite.Mirrors.{mirror, IsKeyed}
use asset_core.Infra.Sqlite.Writes.{
  answer, create_asset-Alike, save_identity-Alike, set_lifecycle-Alike, add_source_version-Alike,
  add_runtime_version-Alike, update_source_location-Alike, update_runtime_location-Alike,
}
use asset_core.Infra.Sqlite.Edges.{add_relationship-Alike, upsert_relationship-Alike}
use asset_core.Infra.Sqlite.Calls.{
  Write, creates, saves, sets, adds_source, adds_runtime, moves_source, moves_runtime, adds_edge,
  upserts_edge, with_true, with_ok, on_tables, on_dicts, Fits, fts_after, is_some-some,
}

told :
    (o : Outcome (Unit {0}) × Tables) (r : Result (Unit {0}) × InMemoryRepo)
    (fts : List (Uuid × String))
    → o ≡ (answer r.0, mirror r.1 fts)
    → with_true o ≡ (answer (with_ok r).0, mirror (with_ok r).1 fts)
told o (ok u, s) fts e = rw e refl
told o (raised x, s) fts e = rw e refl

module _ (s : InMemoryRepo) (fts : List (Uuid × String)) (h : IsKeyed s) where
  -- One write has the same answer and the same effect on the tables as on the dicts.
  pub write-Alike :
      (w : Write)
      → Fits w s
      → on_tables w (mirror s fts)
        ≡ (answer (on_dicts w s).0, mirror (on_dicts w s).1 (fts_after w fts))
  unfolding on_tables on_dicts
  write-Alike (creates asset identity) f =
      told _ _ _ (create_asset-Alike s fts h asset identity f.0 f.1)
  write-Alike (saves identity) f = told _ _ _ (save_identity-Alike s fts h identity f)
  write-Alike (sets a l) f = told _ _ _ (set_lifecycle-Alike s fts h a l f)
  write-Alike (adds_source v) f = told _ _ _ (add_source_version-Alike s fts h v f.0)
  write-Alike (adds_runtime v) f = told _ _ _ (add_runtime_version-Alike s fts h v f.0)
  write-Alike (moves_source a uri r) f = update_source_location-Alike s fts h a uri r
  write-Alike (moves_runtime a uri) f = update_runtime_location-Alike s fts h a uri
  write-Alike (adds_edge r) f = told _ _ _ (add_relationship-Alike s fts h r f)
  write-Alike (upserts_edge r) f =
      let (old, e) = is_some-some (Memory.get_edge r.from_asset r.to_asset r.rel_type s) f.1 in
      told _ _ _ (upsert_relationship-Alike s fts h r f.0 old e)

unfoldable pub all_on_tables : List Write → Tables → List (Outcome Bool) × Tables
unfolding on_tables
all_on_tables [] t = ([], t)
all_on_tables (w ∷ ws) t =
    let (o, t') = on_tables w t in let (os, t'') = all_on_tables ws t' in (o ∷ os, t'')

unfoldable pub all_on_dicts : List Write → InMemoryRepo → List (Result Bool) × InMemoryRepo
unfolding on_dicts
all_on_dicts [] s = ([], s)
all_on_dicts (w ∷ ws) s =
    let (r, s') = on_dicts w s in let (rs, s'') = all_on_dicts ws s' in (r ∷ rs, s'')

-- each write fits the state that it finds
abbrev pub AllFit : List Write → InMemoryRepo → Type 0
AllFit [] s = Unit
AllFit (w ∷ ws) s = Fits w s × AllFit ws (on_dicts w s).1
