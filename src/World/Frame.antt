-- ===== src/World/Frame.antt =====
-- What a statement can do to the world: change the database as the statement says, or leave it.
use ping_mesh.Prelude.{
  ◌≡◌, refl, suc, true, false, Bool-cases, inl, inr, Result, ok, err, Result-cases, Error,
  engine_fault,
}
use ping_mesh.Db.{Db}
use ping_mesh.World.{Env, World, exec, select, write, settle}

-- The world after a statement that changed nothing.
abbrev pub counted : World → World
counted w = record w { statements = suc w.statements }

module _ (env : Env) {A : Type 0} (stmt : Db → Result (A × Db)) (w : World) where
  -- A statement meets a fault, is refused, or succeeds.
  pub exec_elim {ℓ} :
      (P : Result A × World → Type ℓ)
      → (env.faults w.statements ≡ true → P (err engine_fault, counted w))
      → ((e : Error) → stmt w.db ≡ err e → P (err e, counted w))
      → ((a : A) (db : Db) → stmt w.db ≡ ok (a, db) → P (ok a, record (counted w) { db = db }))
      → P (exec env stmt w)
  unfolding exec
  exec_elim P fault refused done = elim (Bool-cases (env.faults w.statements)) [
    | inl e ↦ rw e (fault e)
    | inr e ↦ rw e (elim (Result-cases (stmt w.db)) [
      | inl ((a, db), s) ↦ rw s (done a db s)
      | inr (x, s) ↦ rw s (refused x s)
    ])
  ]

  pub exec_no_fault :
      env.faults w.statements ≡ false → exec env stmt w ≡ settle (counted w) (stmt w.db)
  unfolding exec
  exec_no_fault e = rw e

-- A query changes nothing but the count of statements.
pub exec-select :
    (env : Env) {A : Type 0} (q : Db → A) (w : World) → (exec env (select q) w).1 ≡ counted w
unfolding exec
exec-select env q w = elim (Bool-cases (env.faults w.statements)) [ inl e ↦ rw e | inr e ↦ rw e ]

-- Of a statement's outcome: the new database, if there is one, satisfies `P`.
abbrev pub After {ℓ} : (Db → Type ℓ) → Result Db → Type ℓ
After P (ok db) = P db
After P (err e) = Unit

-- What a writing statement keeps, the world keeps.
pub exec-write {ℓ} :
    (env : Env) (P : Db → Type ℓ) (stmt : Db → Result Db) (w : World)
    → After P (stmt w.db)
    → P w.db
    → P (exec env (λ db. write (stmt db)) w).1.db
unfolding exec
exec-write env P stmt w new old = elim (Bool-cases (env.faults w.statements)) [
  | inl e ↦ rw e old
  | inr e ↦
      rw e (elim (Result-cases (stmt w.db)) [
        | inl (db, s) ↦ rw s (rw s at new)
        | inr (x, s) ↦ rw s old
      ])
]

-- No statement starts a notification.
pub exec-pending :
    (env : Env) {A : Type 0} (stmt : Db → Result (A × Db)) (w : World)
    → (exec env stmt w).1.pending ≡ w.pending
exec-pending env stmt w =
    exec_elim env stmt w (λ x. x.1.pending ≡ w.pending) (λ e. refl) (λ x e. refl) (λ a db e. refl)
