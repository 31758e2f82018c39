-- ===== src/App/World.antt =====
-- The state that a verb threads: the repository, the sink, and how many objects with default ids
-- and times have been made. A verb takes a repository, a sink and a host; see core/ports.py.
use asset_core.Shared.{ℕ, suc, String, some}
use asset_core.Shared.Exec.{Exec, Result, ok, raised, version_conflict}
use asset_core.Core.Entities.{Uuid, Attributes, Event}
use asset_core.Core.Ports.{EventSink, Host}

pub record World (S E : Type 0) : Type 0 where
  pub repo : S
  pub sink : E
  pub made : ℕ

module _ {S E A : Type 0} where
  -- A write of the repository, which leaves the rest of the world alone.
  abbrev pub perform : Exec S A → Exec (World S E) A
  perform m w = let (r, s) = m w.repo in (r, record w { repo = s })

  -- A read of the repository.
  abbrev pub query : (S → A) → Exec (World S E) A
  query f w = (ok (f w.repo), w)

  -- `try: m … except VersionConflict: handler`, and the code after it otherwise
  abbrev pub settle_conflict :
      {B : Type 0}
      → Result A × World S E
      → Exec (World S E) B
      → (A → Exec (World S E) B)
      → Result B × World S E
  settle_conflict (ok a, w) handler k = k a w
  settle_conflict (raised version_conflict, w) handler k = handler w
  settle_conflict (raised e, w) handler k = (raised e, w)

module _ {S E : Type 0} where
  -- the number of the next object with default values
  abbrev pub fresh : Exec (World S E) ℕ
  fresh w = (ok w.made, record w { made = suc w.made })

  module _ (sink : EventSink E) (host : Host) where
    -- `sink.emit(Event(asset_id, event_type, payload, actor))`
    unfoldable pub emit : Uuid → String → Attributes → String → Exec (World S E) (Unit {0})
    emit asset_id event_type payload actor w =
        let event : Event = record {
          asset_id = some asset_id;
          event_type = event_type;
          payload = payload;
          actor = some actor;
          occurred_at = host.now w.made;
          id = host.uuid4 w.made;
        } in
        (ok tt, record w { sink = sink.emit event w.sink; made = suc w.made })
