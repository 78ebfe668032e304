-- ===== src/WorkerService/JobStore/Reap.antt =====
-- services/worker-service/src/memory-job-store.ts: what the reaper leaves.
use vellar_dapp.JsMap
use vellar_dapp.JsMap.{JsMap}
use vellar_dapp.WorkerService.JobStore.{
  VerificationStatus, unverified, submitted, building, verified, failed, dead_letter, Row,
  is_building, is_stranded, reap_stranded, count_active,
}
use vellar_dapp.Prelude.{
  if◌then◌else◌, leb, get_or, Bool-cases, and-eq-true, ap, ℕ, ◌+◌, ◌-◌, ◌≤◌, ◌<◌, ◌≡◌, refl, ◌⊎◌,
  inl, inr, true, false, none, some, [], ◌∷◌, arith,
}

module _ {B : Type 0} where
  abbrev pub count_stranded : ℕ → ℕ → JsMap (Row B) → ℕ
  count_stranded timeout now [] = 0
  count_stranded timeout now ((id, row) ∷ rest) =
      (if is_stranded timeout now row then 1 else 0) + count_stranded timeout now rest

  -- In the state "building" for longer than the timeout; a row without a start has just started.
  abbrev pub Stranded : ℕ → ℕ → Row B → Type 0
  Stranded timeout now row =
      (row.status ≡ building) × (timeout < now - get_or row.started_building_at_ms now)

  -- What the reaper makes of a row: nothing, unless it is stranded; then it is submitted again while
  -- it has attempts left, and parked when they are used up.
  abbrev pub Reaped : ℕ → ℕ → ℕ → Row B → Row B → Type 0
  Reaped timeout max_attempts now row row' =
      ((¬ Stranded timeout now row) × (row' ≡ row))
      ⊎ (Stranded timeout now row
          × (((get_or row.attempts 0 < max_attempts)
                × (row' ≡ record row { status = submitted; started_building_at_ms = none }))
              ⊎ ((max_attempts ≤ get_or row.attempts 0)
                  × (row' ≡ record row { status = dead_letter; completed_at_ms = some now }))))

  -- The same ids in the same order, each row with its successor.
  abbrev pub AllReaped : ℕ → ℕ → ℕ → JsMap (Row B) → JsMap (Row B) → Type 0
  AllReaped timeout max_attempts now [] [] = Unit
  AllReaped timeout max_attempts now ((id, row) ∷ rest) ((id', row') ∷ rest') =
      (id' ≡ id)
      × Reaped timeout max_attempts now row row'
      × AllReaped timeout max_attempts now rest rest'
  AllReaped timeout max_attempts now _ _ = ⊥

  stranded_lem :
      (timeout now : ℕ) (row : Row B)
      → is_stranded timeout now row ≡ true
      → Stranded timeout now row
  stranded_lem timeout now row h =
      let a = and-eq-true (is_building row.status) _ h in
      let late = a.1 in (building_lem row.status a.0, ground (arith, late))
    where
      building_lem : (s : VerificationStatus) → is_building s ≡ true → s ≡ building
      building_lem building h = refl
      building_lem unverified h = absurd cc
      building_lem submitted h = absurd cc
      building_lem verified h = absurd cc
      building_lem failed h = absurd cc
      building_lem dead_letter h = absurd cc

  not_stranded_lem :
      (timeout now : ℕ) (row : Row B)
      → is_stranded timeout now row ≡ false
      → ¬ Stranded timeout now row
  not_stranded_lem timeout now row h (b, late) = ground (arith, h, ap is_building b, late)

  -- The reaper submits a row again that was building for longer than the timeout, if its attempts are
  -- below the maximum, and parks it as a dead letter if they have reached it; every other row is as
  -- before. It counts every stranded job, once; none is stranded after it, and the active jobs are
  -- fewer by those that it parks.
  pub reap_stranded_lem :
      (timeout max_attempts now : ℕ) (rows : JsMap (Row B))
      → AllReaped timeout max_attempts now rows (reap_stranded timeout max_attempts now rows).0
        × ((reap_stranded timeout max_attempts now rows).1.0
              + (reap_stranded timeout max_attempts now rows).1.1
            ≡ count_stranded timeout now rows)
        × (count_stranded timeout now (reap_stranded timeout max_attempts now rows).0 ≡ 0)
        × (count_active (reap_stranded timeout max_attempts now rows).0
              + (reap_stranded timeout max_attempts now rows).1.1
            ≡ count_active rows)
  unfolding reap_stranded count_active JsMap.values
  reap_stranded_lem timeout max_attempts now [] = (tt, omega arith, refl, omega arith)
  reap_stranded_lem timeout max_attempts now ((id, row) ∷ rest) =
      let (reaped, counted, none_left, active) = reap_stranded_lem timeout max_attempts now rest in
      (
        elim (Bool-cases (is_stranded timeout now row)) [
          | inr calm ↦ rw calm (refl, inl (not_stranded_lem timeout now row calm, refl), reaped)
          | inl late ↦ elim (Bool-cases (leb max_attempts (get_or row.attempts 0))) [
            | inl spent ↦
                rw (late, spent)
                  (
                    refl,
                    inr (stranded_lem timeout now row late, inr (ground (arith, spent), refl)),
                    reaped,
                  )
            | inr left ↦
                rw (late, left)
                  (
                    refl,
                    inr (stranded_lem timeout now row late, inl (ground (arith, left), refl)),
                    reaped,
                  )
          ]
        ],
        ground (arith, counted),
        ground (arith, none_left),
        ground (arith, active),
      )
