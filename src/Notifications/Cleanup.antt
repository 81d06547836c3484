-- ===== src/Notifications/Cleanup.antt =====
-- The retention sweep of internal/features/workers/notifications/cleanup.go: pruneOldNotifications. A
-- row is the time of its creation; `oldest_kept` gives NOW() minus 30 days at the n-th statement.
use memberclass_backend_gola.Common.{
  ◌*◌, true, ℕ, zero, suc, ◌+◌, ◌-◌, ◌≤◌, ◌<◌, ◌≡◌, refl, inl, inr, Bool, false, ◌&&◌, List, [],
  ◌∷◌, arith, ltb, if◌then◌else◌, Bool-cases, ltb→lt, length, All,
}

abbrev pub prune_chunk : ℕ
prune_chunk = 10000

-- DELETE … LIMIT: the rows that stay, and how many went. The database takes the first ones that it
-- finds.
unfoldable pub delete_old : ℕ → ℕ → List ℕ → List ℕ × ℕ
delete_old limit oldest_kept [] = ([], 0)
delete_old limit oldest_kept (created_at ∷ rows) =
    let gone = delete_old (limit - 1) oldest_kept rows in
    let stays = delete_old limit oldest_kept rows in
    if ltb created_at oldest_kept && ltb 0 limit
    then (gone.0, gone.1 + 1)
    else (created_at ∷ stays.0, stays.1)

-- How a sweep ends: by its own test, by an error of the database, or cut off at the end of the fuel.
pub data Sweep : Type 0 where
  swept : ℕ → List ℕ → Sweep
  interrupted : ℕ → List ℕ → Sweep
  cut_off : Sweep

-- The loop from the n-th statement on. `fails` tells whether the context is over or the database
-- refuses the n-th statement.
unfoldable pub prune_from : (ℕ → ℕ) → (ℕ → Bool) → ℕ → ℕ → ℕ → List ℕ → Sweep
unfolding delete_old
prune_from oldest_kept fails zero n total rows = cut_off
prune_from oldest_kept fails (suc fuel) n total rows =
    let deleted = delete_old prune_chunk (oldest_kept n) rows in
    let rest = prune_from oldest_kept fails fuel (suc n) (total + deleted.1) deleted.0 in
    if fails n
    then interrupted total rows
    else (if ltb deleted.1 prune_chunk then swept (total + deleted.1) deleted.0 else rest)

unfoldable pub prune_old_notifications : (ℕ → ℕ) → (ℕ → Bool) → List ℕ → Sweep
unfolding prune_from
prune_old_notifications oldest_kept fails rows =
    prune_from oldest_kept fails (suc (length rows)) 0 0 rows

delete_old-count :
    (limit oldest_kept : ℕ) (rows : List ℕ)
    → length (delete_old limit oldest_kept rows).0 + (delete_old limit oldest_kept rows).1
      ≡ length rows
unfolding delete_old
delete_old-count limit oldest_kept [] = omega arith
delete_old-count limit oldest_kept (r ∷ rows) =
    elim (Bool-cases (ltb r oldest_kept && ltb 0 limit)) [
      | inl old ↦ rw old (omega (arith, delete_old-count (limit - 1) oldest_kept rows))
      | inr kept ↦ rw kept (omega (arith, delete_old-count limit oldest_kept rows))
    ]

-- Where fewer rows went than the limit allows, no old row stays.
delete_old_complete :
    (limit oldest_kept : ℕ) (rows : List ℕ)
    → (delete_old limit oldest_kept rows).1 < limit
    → All (λ r. oldest_kept ≤ r) (delete_old limit oldest_kept rows).0
unfolding delete_old
delete_old_complete limit oldest_kept [] h = tt
delete_old_complete limit oldest_kept (r ∷ rows) h =
    elim (Bool-cases (ltb r oldest_kept && ltb 0 limit)) [
      | inl old ↦ rw old (
          delete_old_complete (limit - 1) oldest_kept rows (
            let fewer : (delete_old (limit - 1) oldest_kept rows).1 + 1 < limit = rw old at h in
            omega arith))
      | inr kept ↦ rw kept (
        let fewer : (delete_old limit oldest_kept rows).1 < limit = rw kept at h in
            young fewer kept,
        delete_old_complete limit oldest_kept rows (rw kept at h),
      )
    ]
  where
    young : {k : ℕ} → k < limit → (ltb r oldest_kept && ltb 0 limit) ≡ false → oldest_kept ≤ r
    young fewer kept = ground arith

delete_old-bounded :
    (limit oldest_kept : ℕ) (rows : List ℕ) → (delete_old limit oldest_kept rows).1 ≤ limit
unfolding delete_old
delete_old-bounded limit oldest_kept [] = omega arith
delete_old-bounded limit oldest_kept (r ∷ rows) =
    elim (Bool-cases (ltb r oldest_kept && ltb 0 limit)) [
      | inl old ↦
          let some_left : 0 < limit = room old in
          rw old (omega (arith, some_left, delete_old-bounded (limit - 1) oldest_kept rows))
      | inr kept ↦ rw kept (delete_old-bounded limit oldest_kept rows)
    ]
  where
    room : (ltb r oldest_kept && ltb 0 limit) ≡ true → 0 < limit
    room old = ground arith

-- What a sweep that starts with statement n on these rows has done when it is over. If it ends by its
-- own test, its last statement is the m-th: each one before took a whole chunk, and the last one less.
unfoldable pub EndsWell : (ℕ → ℕ) → ℕ → ℕ → List ℕ → Sweep → Type 0
EndsWell oldest_kept n total rows (swept deleted left) =
    (length left + deleted ≡ length rows + total)
    × (m : ℕ) × (m * prune_chunk + total ≤ deleted + n * prune_chunk)
    × (deleted + n * prune_chunk < m * prune_chunk + prune_chunk + total)
    × All (λ r. oldest_kept m ≤ r) left
EndsWell oldest_kept n total rows (interrupted deleted left) =
    length left + deleted ≡ length rows + total
EndsWell oldest_kept n total rows cut_off = ⊥

EndsWell-later :
    (oldest_kept : ℕ → ℕ) (n total gone : ℕ) (rows left : List ℕ) (sweep : Sweep)
    → length left + gone ≡ length rows
    → gone ≡ prune_chunk
    → EndsWell oldest_kept (suc n) (total + gone) left sweep
    → EndsWell oldest_kept n total rows sweep
unfolding EndsWell
EndsWell-later oldest_kept n total gone rows left (swept deleted last) count full
      (all, m, low, high, kept) =
    (omega (arith, all), m, omega (arith, low), omega (arith, high), kept)
EndsWell-later oldest_kept n total gone rows left (interrupted deleted last) count full h =
    omega (arith, h)
EndsWell-later oldest_kept n total gone rows left cut_off count full h = h

prune_from-EndsWell :
    (oldest_kept : ℕ → ℕ) (fails : ℕ → Bool) (fuel n total : ℕ) (rows : List ℕ)
    → length rows < fuel
    → EndsWell oldest_kept n total rows (prune_from oldest_kept fails fuel n total rows)
unfolding prune_from EndsWell
prune_from-EndsWell oldest_kept fails zero n total rows enough = absurd (omega arith)
prune_from-EndsWell oldest_kept fails (suc fuel) n total rows enough =
    let deleted = delete_old prune_chunk (oldest_kept n) rows in
    let count = delete_old-count prune_chunk (oldest_kept n) rows in
    let most = delete_old-bounded prune_chunk (oldest_kept n) rows in
    elim (Bool-cases (fails n)) [
      | inl failing ↦ rw failing refl
      | inr answers ↦ rw answers elim (Bool-cases (ltb deleted.1 prune_chunk)) [
        | inl last ↦
            let fewer = ltb→lt deleted.1 prune_chunk last in
            rw last (
              omega (arith, count),
              n,
              omega arith,
              omega (arith, fewer),
              delete_old_complete prune_chunk (oldest_kept n) rows fewer,
            )
        | inr full ↦
            let whole : deleted.1 ≡ prune_chunk = ground (arith, most) in
            rw full (
              EndsWell-later oldest_kept n total deleted.1 rows deleted.0 _ count whole (
                prune_from-EndsWell oldest_kept fails fuel (suc n) (total + deleted.1) deleted.0
                  (omega (arith, count, whole))))
      ]
    ]

-- The sweep ends, with one statement more than there are rows at most: it is never cut off. Whether
-- by its test or by an error, what it reports and what is left add up to the rows before. If it ends by
-- its test, with `deleted` rows gone, its last statement was the one of number deleted / 10000, counted
-- from 0, and no row is left that was old for that statement.
pub prune_old_notifications-EndsWell :
    (oldest_kept : ℕ → ℕ) (fails : ℕ → Bool) (rows : List ℕ)
    → EndsWell oldest_kept 0 0 rows (prune_old_notifications oldest_kept fails rows)
unfolding prune_old_notifications
prune_old_notifications-EndsWell oldest_kept fails rows =
    prune_from-EndsWell oldest_kept fails (suc (length rows)) 0 0 rows (omega arith)
