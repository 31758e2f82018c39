-- ===== src/App/Verbs/Retries.antt =====
-- The bounded retry of `bind_source` over any repository that meets concurrent publishers.
use asset_core.Shared.{String, ℕ, zero, suc, ◌+◌, ◌≤◌, ◌<◌, ◌≡◌, refl, some, true, arith}
use asset_core.Shared.Exec.{Exec, ok, raised, version_conflict}
use asset_core.Core.Entities.{Uuid, SourceVersion}
use asset_core.Core.Ports.{AssetRepo, EventSink, Host}
use asset_core.Core.Rules.{Source_facet, next_version_num}
use asset_core.App.World.{World, emit}
use asset_core.App.Verbs.{try_source, attempt_source, bind_source}

module _ {S E : Type 0} (repo : AssetRepo S) (sink : EventSink E) (host : Host) (a : Uuid)
    (uri tool revision by : String) where
  abbrev pub written : ℕ → ℕ → SourceVersion
  written n made = record {
    asset_id = a;
    location_uri = uri;
    tool = tool;
    revision = revision;
    version_num = n;
    is_latest = true;
    published_by = some by;
    published_at = host.now made;
  }

  -- the number that the attempt reads in a state
  abbrev pub number : S → ℕ
  number s = next_version_num (repo.source_versions a s)

  abbrev at_state : S → E → ℕ → World S E
  at_state s e m = record { repo = s; sink = e; made = m }

  -- one attempt that meets a conflict goes on in the state that the conflict left
  try_conflict :
      (on_conflict : Exec (World S E) ℕ) (s s' : S) (e : E) (m : ℕ)
      → repo.add_source_version (written (number s) m) s ≡ (raised version_conflict, s')
      → try_source repo sink host a uri tool revision by on_conflict (at_state s e m)
        ≡ on_conflict (at_state s' e (suc m))
  unfolding try_source
  try_conflict on_conflict s s' e m h = rw h

  try_success :
      (on_conflict : Exec (World S E) ℕ) (s s' : S) (e : E) (m : ℕ)
      → repo.add_source_version (written (number s) m) s ≡ (ok tt, s')
      → try_source repo sink host a uri tool revision by on_conflict (at_state s e m)
        ≡ (ok (number s), at_state s' e (suc m))
  unfolding try_source
  try_success on_conflict s s' e m h = rw h

  -- The states in which the attempts run, from a first one with `made` values made: each attempt but
  -- the last writes the number that it reads, and meets a conflict.
  module _ (conflicts : ℕ) (made : ℕ) (state : ℕ → S)
      (refused : (i : ℕ)
        → i < conflicts
        → repo.add_source_version (written (number (state i)) (made + i)) (state i)
          ≡ (raised version_conflict, state (suc i))) where
    refused_at :
        (i m : ℕ)
        → m ≡ made + i
        → i < conflicts
        → repo.add_source_version (written (number (state i)) m) (state i)
          ≡ (raised version_conflict, state (suc i))
    refused_at i m p h = rw p (refused i h)

    -- more conflicts than attempts
    attempts_exhausted :
        (left i : ℕ) (e : E) (m : ℕ)
        → m ≡ made + i
        → i + left < conflicts
        → attempt_source repo sink host a uri tool revision by left (at_state (state i) e m)
          ≡ (raised version_conflict, at_state (state (i + left + 1)) e (m + left + 1))
    unfolding attempt_source
    attempts_exhausted zero i e m c h =
        let p : suc i ≡ i + 0 + 1 = omega arith in
        let q : suc m ≡ m + 0 + 1 = omega arith in
        rw (try_conflict _ (state i) (state (suc i)) e m (refused_at i m c (omega arith)), p, q)
          refl
    attempts_exhausted (suc left) i e m c h =
        let p : suc i + left + 1 ≡ i + suc left + 1 = omega arith in
        let q : suc m + left + 1 ≡ m + suc left + 1 = omega arith in
        rw
          (
            try_conflict _ (state i) (state (suc i)) e m (refused_at i m c (omega arith)),
            attempts_exhausted left (suc i) e (suc m) (omega arith) (omega arith),
            p,
            q,
          )
          refl

    -- Where each of the first five attempts of a publish has its own write, of the number that it reads,
    -- refused with a conflict, the publish raises the conflict after them, and emits no event.
    pub bind_source-exhausted :
        (e : E)
        → 5 ≤ conflicts
        → bind_source repo sink host a uri tool revision by (at_state (state 0) e made)
          ≡ (raised version_conflict, at_state (state 5) e (made + 5))
    unfolding bind_source
    bind_source-exhausted e h =
        let q : made + 4 + 1 ≡ made + 5 = omega arith in
        rw (attempts_exhausted 4 0 e made (omega arith) h, q) refl

    module _ (stored : S)
        (accepted : repo.add_source_version
            (written (number (state conflicts)) (made + conflicts))
            (state conflicts)
          ≡ (ok tt, stored)) where
      wins_now :
          (on_conflict : Exec (World S E) ℕ) (i : ℕ) (e : E) (m : ℕ)
          → m ≡ made + i
          → i ≡ conflicts
          → try_source repo sink host a uri tool revision by on_conflict (at_state (state i) e m)
            ≡ (ok (number (state conflicts)), at_state stored e (made + conflicts + 1))
      wins_now on_conflict i e m c p =
          let q : made + conflicts + 1 ≡ suc (made + conflicts) = omega arith in
          rw (c, p, q)
            (try_success on_conflict (state conflicts) stored e (made + conflicts) accepted)

      attempts_win :
          (left i j : ℕ) (e : E) (m : ℕ)
          → m ≡ made + i
          → i + j ≡ conflicts
          → j ≤ left
          → attempt_source repo sink host a uri tool revision by left (at_state (state i) e m)
            ≡ (ok (number (state conflicts)), at_state stored e (made + conflicts + 1))
      unfolding attempt_source
      attempts_win zero i zero e m c p h = wins_now _ i e m c (omega arith)
      attempts_win zero i (suc j) e m c p h = absurd (omega arith)
      attempts_win (suc left) i zero e m c p h = wins_now _ i e m c (omega arith)
      attempts_win (suc left) i (suc j) e m c p h =
          rw (try_conflict _ (state i) (state (suc i)) e m (refused_at i m c (omega arith)))
            (attempts_win left (suc i) j e (suc m) (omega arith) (omega arith) (omega arith))

      -- Where some attempts of a publish, at most four, have their own write, of the number that each
      -- reads, refused with a conflict, and the write of the next attempt is accepted, the publish
      -- returns the number that this attempt reads, and leaves what this write has stored.
      pub bind_source-retries :
          (e : E)
          → conflicts ≤ 4
          → ((bind_source repo sink host a uri tool revision by (at_state (state 0) e made)).0
              ≡ ok (number (state conflicts)))
            × ((bind_source repo sink host a uri tool revision by
                  (at_state (state 0) e made)).1.repo
                ≡ stored)
      unfolding bind_source emit
      bind_source-retries e h =
          rw (attempts_win 4 0 conflicts e made (omega arith) (omega arith) h) (refl, refl)
