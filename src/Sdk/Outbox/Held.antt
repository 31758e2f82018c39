-- ===== src/Sdk/Outbox/Held.antt =====
-- Which entries the replay holds.
use asset_core.Shared.{
  String, ◌≡◌, ◌≢◌, ◌↔◌, ◌⊎◌, inl, inr, refl, sym, ap, ◌∙◌, true, false, Option, none, some, List,
  [], ◌∷◌, map, ◌==◌, String_eq, ℕ_eq, Bool-cases, In, arith,
}
use asset_core.Sdk.Outbox.{
  OutboxEntry, Outbox, Client, Reply, returned, threw, Outcome, replayed, failed_now, skipped, held,
  is_blocked, block, after_outcome, prepend, already_applied, dispatch, conclude, attempt,
  replay_loop, is_duplicate_edge_error,
}

abbrev pub Results : Type 0
Results = List (OutboxEntry × Outcome)

-- a failure of the asset is among the results
abbrev pub Blocked : Option String → Results → Type 0
Blocked asset before =
    (x : OutboxEntry × Outcome) × In x before
    × (x.1 ≡ failed_now)
    × (aid : String) × (aid ≢ "")
    × (x.0.asset_id ≡ some aid)
    × (asset ≡ some aid)

-- each entry is held exactly if a failure of its asset is among the results before it
abbrev pub IsHeldBehind : Results → Results → Type 0
IsHeldBehind before [] = Unit
IsHeldBehind before ((e, o) ∷ os) =
    ((o ≡ held) ↔ Blocked e.asset_id before) × IsHeldBehind ((e, o) ∷ before) os

abbrev Fails : Option String → Outcome → Option String → Type 0
Fails asset o aid = (o ≡ failed_now) × (s : String) × (s ≢ "") × (aid ≡ some s) × (asset ≡ some s)

pub none_blocked : (asset : Option String) → is_blocked asset [] ≡ false
unfolding is_blocked
none_blocked none = refl
none_blocked (some x) = refl

is_blocked-after :
    (asset : Option String) (o : Outcome) (aid : Option String) (fs : List String)
    → (is_blocked asset (after_outcome o aid fs) ≡ true)
      ↔ ((is_blocked asset fs ≡ true) ⊎ Fails asset o aid)
unfolding is_blocked block
is_blocked-after asset replayed aid fs =
    (inl, λ s. elim s [ inl e ↦ e | inr f ↦ let x = f.0 in cc ])
is_blocked-after asset skipped aid fs = (inl, λ s. elim s [ inl e ↦ e | inr f ↦ let x = f.0 in cc ])
is_blocked-after asset held aid fs = (inl, λ s. elim s [ inl e ↦ e | inr f ↦ let x = f.0 in cc ])
is_blocked-after asset failed_now none fs =
    (inl, λ s. elim s [ inl e ↦ e | inr f ↦ let x = f.3 in cc ])
is_blocked-after none failed_now (some a) fs =
    (λ e. ground arith, λ s. elim s [ inl e ↦ cc | inr f ↦ let x = f.4 in cc ])
is_blocked-after (some x) failed_now (some a) fs = elim (Bool-cases (a == "")) [
  | inl empty ↦ rw empty (
    inl,
    λ s. elim s [
      | inl e ↦ e
      | inr (p, t, ne, q, r) ↦
          let same : a ≡ t = cc in absurd (ne (sym same ∙ (String_eq.same_iff a "").0 empty))
    ],
  )
  | inr full ↦ rw full (elim (Bool-cases (a == x)) [
    | inl own ↦
        let same : a ≡ x = (String_eq.same_iff a x).0 own in
        (
          λ e. inr (
            refl,
            a,
            (λ e'. let c = (String_eq.same_iff a "").1 e' in cc),
            refl,
            ap some (sym same),
          ),
          λ s. ground (arith, String_eq.same_iff x ""),
        )
    | inr other ↦ (
      λ e. inl (ground arith),
      λ s. elim s [
        | inl e ↦ ground arith
        | inr (p, t, ne, q, r) ↦
            let same : a ≡ x = cc in let c = (String_eq.same_iff a x).1 same in cc
      ],
    )
  ])
]

Blocked-cons :
    (asset : Option String) (e : OutboxEntry) (o : Outcome) (before : Results)
    → Blocked asset ((e, o) ∷ before) ↔ (Blocked asset before ⊎ Fails asset o e.asset_id)
Blocked-cons asset e o before = (
  λ b.
      let (x, i, f, aid, ne, p, q) = b in
      elim i [
        | inl here ↦
            inr (rw (ap (λ y. y.1) here) at f, aid, ne, rw (ap (λ y. y.0.asset_id) here) at p, q)
        | inr there ↦ inl (x, there, f, aid, ne, p, q)
      ],
  λ s. elim s [
    | inl (x, there, f, aid, ne, p, q) ↦ (x, inr there, f, aid, ne, p, q)
    | inr (f, aid, ne, p, q) ↦ ((e, o), inl refl, f, aid, ne, p, q)
  ],
)

module _ {C : Type 0} (client : Client C) where
  conclude-ne_held :
      (entry : OutboxEntry) (r : Reply (Unit {0}) × C) (conn : Outbox)
      → (conclude client entry r conn).0 ≢ held
  unfolding conclude
  conclude-ne_held entry (returned u, c) conn h = cc
  conclude-ne_held entry (threw e, c) conn h =
      elim (Bool-cases (is_duplicate_edge_error client e)) [
        | inl duplicate ↦ let x = rw duplicate at h in cc
        | inr other ↦ let x = rw other at h in cc
      ]

  pub attempt-ne_held :
      (entry : OutboxEntry) (conn : Outbox) (c : C) → (attempt client entry conn c).0 ≢ held
  unfolding attempt
  attempt-ne_held entry conn c h = elim (Bool-cases (already_applied client entry.payload c).0) [
    | inl applied ↦ let x = rw applied at h in cc
    | inr missing ↦
        conclude-ne_held entry
          (dispatch client entry.payload (already_applied client entry.payload c).1) conn
          (rw missing at h)
  ]

  -- the blocked assets are those of the failures so far
  unfoldable pub Agrees : List String → Results → Type 0
  Agrees fs before = (asset : Option String) → (is_blocked asset fs ≡ true) ↔ Blocked asset before

  Agrees-after :
      (fs : List String) (before : Results) (e : OutboxEntry) (o : Outcome)
      → Agrees fs before
      → Agrees (after_outcome o e.asset_id fs) ((e, o) ∷ before)
  unfolding Agrees
  Agrees-after fs before e o h asset =
      let (to, fro) = is_blocked-after asset o e.asset_id fs in
      let (to', fro') = Blocked-cons asset e o before in
      (
        λ b. fro' (elim (to b) [ inl p ↦ inl ((h asset).0 p) | inr q ↦ inr q ]),
        λ b. fro (elim (to' b) [ inl p ↦ inl ((h asset).1 p) | inr q ↦ inr q ]),
      )

  pub replay_loop_blocked :
      (e : OutboxEntry) (entries : List OutboxEntry) (fs : List String) (conn : Outbox) (c : C)
      → is_blocked e.asset_id fs ≡ true
      → replay_loop client (e ∷ entries) fs conn c
        ≡ prepend client e held (replay_loop client entries fs conn c)
  unfolding replay_loop
  replay_loop_blocked e entries fs conn c blocked = rw (blocked, replay_loop)

  -- the rest of the loop, after an attempt
  abbrev pub rest_after :
      OutboxEntry
      → List OutboxEntry
      → List String
      → Outcome × Outbox × C
      → List (OutboxEntry × Outcome) × Outbox × C
  rest_after e entries fs (o, conn', c') =
      replay_loop client entries (after_outcome o e.asset_id fs) conn' c'

  pub replay_loop_free :
      (e : OutboxEntry) (entries : List OutboxEntry) (fs : List String) (conn : Outbox) (c : C)
      → is_blocked e.asset_id fs ≡ false
      → replay_loop client (e ∷ entries) fs conn c
        ≡ prepend client e
            (attempt client e conn c).0
            (rest_after e entries fs (attempt client e conn c))
  unfolding replay_loop
  replay_loop_free e entries fs conn c free = rw (free, replay_loop)

  pub replay_loop-IsHeldBehind :
      (entries : List OutboxEntry) (fs : List String) (before : Results) (conn : Outbox) (c : C)
      → Agrees fs before
      → IsHeldBehind before (replay_loop client entries fs conn c).0
  unfolding replay_loop Agrees
  replay_loop-IsHeldBehind [] fs before conn c h = tt
  replay_loop-IsHeldBehind (e ∷ entries) fs before conn c h =
      elim (Bool-cases (is_blocked e.asset_id fs)) [
        | inl blocked ↦ rw (replay_loop_blocked e entries fs conn c blocked) (
          (λ p. (h e.asset_id).0 blocked, λ p. refl),
          replay_loop-IsHeldBehind entries fs ((e, held) ∷ before) conn c
              (Agrees-after fs before e held h),
        )
        | inr free ↦
            let (o, conn', c') = attempt client e conn c in
            rw (replay_loop_free e entries fs conn c free) (
              (λ p. absurd (attempt-ne_held e conn c p), λ p. let b = (h e.asset_id).1 p in cc),
              replay_loop-IsHeldBehind entries (after_outcome o e.asset_id fs) ((e, o) ∷ before)
                  conn' c' (Agrees-after fs before e o h),
            )
      ]

  pub replay_loop-entries :
      (entries : List OutboxEntry) (fs : List String) (conn : Outbox) (c : C)
      → map (λ x. x.0) (replay_loop client entries fs conn c).0 ≡ entries
  unfolding replay_loop
  replay_loop-entries [] fs conn c = refl
  replay_loop-entries (e ∷ entries) fs conn c = elim (Bool-cases (is_blocked e.asset_id fs)) [
    | inl blocked ↦
        rw (replay_loop_blocked e entries fs conn c blocked)
          (ap (◌∷◌ e) (replay_loop-entries entries fs conn c))
    | inr free ↦
        let (o, conn', c') = attempt client e conn c in
        rw (replay_loop_free e entries fs conn c free)
          (ap (◌∷◌ e) (replay_loop-entries entries (after_outcome o e.asset_id fs) conn' c'))
  ]
