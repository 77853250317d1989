-- ===== src/Cli/Steps.antt =====
-- The state that a command of internal/cli changes, and its statements in order: the first error ends it.
use ping_mesh.Prelude.{String, Result, ok, err}
use ping_mesh.World.{World, Act}
use ping_mesh.Settings.{Disk, label}

pub record Machine : Type 0 where
  pub disk : Disk
  pub world : World

abbrev pub Step : Type 0 → Type 0
Step A = Machine → Result A × Machine

abbrev pub continue : {A B : Type 0} → (A → Step B) → Result A → Step B
continue f (ok a) m = f a m
continue f (err e) m = (err e, m)

infixl 5 ◌>>=◌ ◌>>◌
abbrev pub ◌>>=◌ : {A B : Type 0} → Step A → (A → Step B) → Step B
◌>>=◌ s f m = let (r, m') = s m in continue f r m'

abbrev pub ◌>>◌ : {A B : Type 0} → Step A → Step B → Step B
s >> t = s >>= λ _. t

abbrev pub give : {A : Type 0} → Result A → Step A
give r m = (r, m)

abbrev pub on_disk : {A : Type 0} → (Disk → Result A × Disk) → Step A
on_disk f m = let (r, d) = f m.disk in (r, record m { disk = d })

abbrev pub on_world : {A : Type 0} → Act (Result A) → Step A
on_world f m = let (r, w) = f m.world in (r, record m { world = w })

abbrev pub act : {A : Type 0} → Act A → Step A
act f m = let (a, w) = f m.world in (ok a, record m { world = w })

-- `if err := …; err != nil { return fmt.Errorf("…: %w", err) }`
abbrev pub labelled : {A : Type 0} → String → Step A → Step A
labelled prefix s m = let (r, m') = s m in (label prefix r, m')
