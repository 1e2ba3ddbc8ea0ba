-- ===== src/Service/Auth/Cleanup.antt =====
-- runIteration of SessionCleanupWorker (session_cleanup_worker.go): bounded DELETEs until one takes
-- fewer rows than its bound.
use go_invoicing.Base.{
  ltb→lt, zero, suc, ℕ, ◌-◌, ◌≤◌, ◌<◌, ◌≡◌, Bool, true, false, Bool-cases, inl, inr, All, length,
  ltb, if◌then◌else◌, arith,
}
use go_invoicing.Errors.{Result, ok, err, session_cleanup}
use go_invoicing.Store.{Db, Env}
use go_invoicing.Store.Sessions.{delete_expired, is_over, sweep}
use go_invoicing.Store.Sweep.{length-sweep, swept_clean}

-- Why an iteration has ended; `unfinished` is for fuel that did not suffice.
pub data CleanupEnd : Type 0 where
  drained failed cancelled unfinished : CleanupEnd

abbrev pub after_round : (Db → CleanupEnd × Db) → Bool → ℕ → Result ℕ → Db → CleanupEnd × Db
after_round next stopped batch (err e) db = (CleanupEnd.failed, db)
after_round next stopped batch (ok deleted) db =
    if ltb deleted batch
    then (CleanupEnd.drained, db)
    else if stopped
    then (CleanupEnd.cancelled, db)
    else next db

-- Each round meets its own surroundings, and learns after its DELETE whether the context is done.
unfoldable pub drain : ℕ → (ℕ → Env) → (ℕ → Bool) → ℕ → ℕ → Db → CleanupEnd × Db
drain zero envs stopped batch round db = (CleanupEnd.unfinished, db)
drain (suc fuel) envs stopped batch round db =
    let next = drain fuel envs stopped batch (suc round) in
    let (deleted, after) = delete_expired (envs round) (envs round).now batch db in
    after_round next (stopped round) batch deleted after

unfoldable pub run_iteration : (ℕ → Env) → (ℕ → Bool) → ℕ → Db → CleanupEnd × Db
run_iteration envs stopped batch db = drain (suc (length db.sessions)) envs stopped batch 0 db

-- The rows that one round leaves: those not expired or revoked at its own moment, and those beyond
-- the size of the batch.
abbrev pub swept : (ℕ → Env) → ℕ → ℕ → Db → Db
swept envs batch round db = record db {
  sessions = sweep (is_over (envs round).now) batch db.sessions;
}

-- A run of rounds from the given one, up to its end.
pub data Rounds (envs : ℕ → Env) (stopped : ℕ → Bool) (batch : ℕ)
    : ℕ → Db → CleanupEnd × Db → Type 0 where
  fails :
      {round : ℕ} {db : Db}
      → (envs round).fails session_cleanup ≡ true
      → Rounds envs stopped batch round db (CleanupEnd.failed, db)
  drains :
      {round : ℕ} {db : Db}
      → (envs round).fails session_cleanup ≡ false
      → All (λ s. is_over (envs round).now s ≡ false) (swept envs batch round db).sessions
      → Rounds envs stopped batch round db (CleanupEnd.drained, swept envs batch round db)
  stops :
      {round : ℕ} {db : Db}
      → (envs round).fails session_cleanup ≡ false
      → batch ≤ length db.sessions - length (swept envs batch round db).sessions
      → stopped round ≡ true
      → Rounds envs stopped batch round db (CleanupEnd.cancelled, swept envs batch round db)
  goes_on :
      {round : ℕ} {db : Db} {r : CleanupEnd × Db}
      → (envs round).fails session_cleanup ≡ false
      → batch ≤ length db.sessions - length (swept envs batch round db).sessions
      → stopped round ≡ false
      → Rounds envs stopped batch (suc round) (swept envs batch round db) r
      → Rounds envs stopped batch round db r

module _ (envs : ℕ → Env) (stopped : ℕ → Bool) (batch : ℕ) where
  -- A round whose DELETE worked.
  round_ended :
      (next : Db → CleanupEnd × Db) (round : ℕ) (db : Db)
      → (envs round).fails session_cleanup ≡ false
      → (batch ≤ length db.sessions - length (swept envs batch round db).sessions
          → Rounds envs stopped batch
              (suc round)
              (swept envs batch round db)
              (next (swept envs batch round db)))
      → let left = (swept envs batch round db).sessions in
        Rounds envs stopped batch round db (
          after_round next
            (stopped round)
            batch
            (ok (length db.sessions - length left))
            (swept envs batch round db))
  round_ended next round db up more =
      let left = (swept envs batch round db).sessions in
      elim (Bool-cases (ltb (length db.sessions - length left) batch)) [
        | inl few ↦ rw few (
            Rounds.drains up
              (swept_clean (is_over (envs round).now) batch db.sessions (ltb→lt _ _ few)))
        | inr full ↦
            let took : batch ≤ length db.sessions - length left = ground (arith, full) in
            elim (Bool-cases (stopped round)) [
              | inl over ↦ rw (full, over) (Rounds.stops up took over)
              | inr on ↦ rw (full, on) (Rounds.goes_on up took on (more took))
            ]
      ]

  drain-Rounds :
      (fuel round : ℕ) (db : Db)
      → 0 < batch
      → length db.sessions < fuel
      → Rounds envs stopped batch round db (drain fuel envs stopped batch round db)
  unfolding drain delete_expired
  drain-Rounds zero round db b h = absurd (omega (arith, h))
  drain-Rounds (suc fuel) round db b h = elim (Bool-cases ((envs round).fails session_cleanup)) [
    | inl down ↦ rw down (Rounds.fails down)
    | inr up ↦ rw up (
        round_ended (drain fuel envs stopped batch (suc round)) round db up (λ took.
          drain-Rounds fuel (suc round) (swept envs batch round db) b (
            let i = length-sweep (is_over (envs round).now) batch db.sessions in
            omega (arith, b, h, took, i))))
  ]

  -- An iteration of the cleanup worker ends for every batch size from 1 on. It is a run of rounds from
  -- the first, each of which deletes at the moment of its own clock, and each but the last of which
  -- took at least a batch and found the context live. It ends at a failed DELETE, which leaves what
  -- the rounds before it left, after a full batch with the context done, or with no session left that
  -- was expired or revoked at the moment of the last DELETE.
  pub run_iteration_ends :
      (db : Db) → 0 < batch → Rounds envs stopped batch 0 db (run_iteration envs stopped batch db)
  unfolding run_iteration
  run_iteration_ends db b = drain-Rounds (suc (length db.sessions)) 0 db b (omega arith)
