-- ===== src/App/Calls/Bulk.antt =====
-- The bulk loops of assetcore/app/verbs.py and the invariant of the in-memory repository.
use asset_core.Shared.{none, List, [], ◌∷◌, ℕ_eq}
use asset_core.Core.Ports.{EventSink, Host}
use asset_core.Core.Rules.{Source_facet, Runtime_facet}
use asset_core.Infra.InMemory.{InMemoryRepo, in_memory}
use asset_core.Infra.InMemory.Valid.{IsValid}
use asset_core.App.World.{World}
use asset_core.App.Verbs.{source, declare, or_default}
use asset_core.App.Verbs.Valid.{relate-IsValid, relocate-IsValid, declare-IsValid, proceed-IsValid}
use asset_core.App.Queries.{
  bulk_declare, bulk_relate, relate_each, bulk_relocate, relocate_each, DeclareSpec, EdgeSpec,
  MoveSpec,
}

module _ {E : Type 0} (sink : EventSink E) (host : Host) where
  relate_each-IsValid :
      (edges : List EdgeSpec) (w : World InMemoryRepo E)
      → IsValid w.repo
      → IsValid (relate_each in_memory sink host edges w).1.repo
  unfolding relate_each
  relate_each-IsValid [] w h = h
  relate_each-IsValid (e ∷ edges) w h =
      proceed-IsValid sink host _ _
        (relate-IsValid sink host e.frm e.to e.rel_type e.actor e.binding_mode e.pinned_version w h)
        (λ u v k. relate_each-IsValid edges v k)

  pub bulk_relate-IsValid :
      (edges : List EdgeSpec) (w : World InMemoryRepo E)
      → IsValid w.repo
      → IsValid (bulk_relate in_memory sink host edges w).1.repo
  unfolding bulk_relate
  bulk_relate-IsValid edges w h =
      proceed-IsValid sink host _ _ (relate_each-IsValid edges w h) (λ u v k. k)

  relocate_each-IsValid :
      (moves : List MoveSpec) (w : World InMemoryRepo E)
      → IsValid w.repo
      → IsValid (relocate_each in_memory sink host moves w).1.repo
  unfolding relocate_each
  relocate_each-IsValid [] w h = h
  relocate_each-IsValid (m ∷ moves) w h =
      proceed-IsValid sink host _ _
        (relocate-IsValid sink host m.asset_id m.new_location_uri m.actor
          (or_default m.facet source) m.new_revision w h)
        (λ u v k. relocate_each-IsValid moves v k)

  pub bulk_relocate-IsValid :
      (moves : List MoveSpec) (w : World InMemoryRepo E)
      → IsValid w.repo
      → IsValid (bulk_relocate in_memory sink host moves w).1.repo
  unfolding bulk_relocate
  bulk_relocate-IsValid moves w h =
      proceed-IsValid sink host _ _ (relocate_each-IsValid moves w h) (λ u v k. k)

  pub bulk_declare-IsValid :
      (specs : List DeclareSpec) (w : World InMemoryRepo E)
      → IsValid w.repo
      → IsValid (bulk_declare in_memory sink host specs w).1.repo
  unfolding bulk_declare
  bulk_declare-IsValid [] w h = h
  bulk_declare-IsValid (s ∷ specs) w h =
      proceed-IsValid sink host
        (declare in_memory sink host s.asset_type s.created_by s.origin none w) _
        (declare-IsValid sink host s.asset_type s.created_by s.origin none w h)
        (λ id v k.
          proceed-IsValid sink host (bulk_declare in_memory sink host specs v) _
            (bulk_declare-IsValid specs v k) (λ ids u q. q))
