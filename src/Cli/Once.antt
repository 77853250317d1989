-- ===== src/Cli/Once.antt =====
-- internal/cli/init.go and join.go: a data directory is set up once.
use ping_mesh.Prelude.{
  ◌≡◌, refl, ap, ◌∙◌, inl, inr, String, Option, none, some, Error, Result, Result-cases, ok, err,
  message, ◌==◌, eq_refl, if◌then◌else◌, [], ◌∷◌,
}
use ping_mesh.Model.{Config, JoinToken, JoinResponse}
use ping_mesh.World.{Env, now, new_uuid}
use ping_mesh.Checker.{text}
use ping_mesh.Cluster.{decode_join_token}
use ping_mesh.Cluster.PeerClient.{PeerHttp}
use ping_mesh.Settings.{Disk, Os, load, save, written, config_file_name, put_file, label, db_path}
use ping_mesh.Cli.Steps.{Machine, Step, continue, ◌>>=◌, give, on_disk, act, labelled}
use ping_mesh.Cli.Setup.{
  Tools, refuse_again, register_self, save_and_register, init, join, write_certs, own_config,
  generate_certs, init_as, joined, ask_to_join, join_by, node_config, name_or_host,
}

-- The commands that set a data directory up.
pub data Command : Type 0 where
  init_command : String → String → Command
  join_command : PeerHttp → String → String → String → String → Command

unfoldable pub run : Os → Tools → Env → String → Command → Step (Unit {0})
run os tools env data_dir (init_command listen_addr name) =
    init os tools env data_dir listen_addr name
run os tools env data_dir (join_command net token name listen_addr cli_addr) =
    join os tools env data_dir net token name listen_addr cli_addr

-- What a step ends in, if it succeeds, and what it keeps, whether it succeeds or not.
abbrev Ensures : {A : Type 0} → (Machine → Type 0) → Step A → Type 0
Ensures {A} P s = (m : Machine) (a : A) → (s m).0 ≡ ok a → P (s m).1

abbrev Keeps : {A : Type 0} → (Machine → Type 0) → Step A → Type 0
Keeps P s = (m : Machine) → P m → P (s m).1

module _ (P : Machine → Type 0) {A B : Type 0} (s : Step A) (f : A → Step B) where
  continue-Ensures :
      (r : Result A)
      → ((a : A) → Ensures P (f a))
      → (m : Machine) (b : B) → (continue f r m).0 ≡ ok b
      → P (continue f r m).1
  continue-Ensures (ok a) h m b e = h a m b e
  continue-Ensures (err x) h m b e = absurd (cc)

  last-Ensures : ((a : A) → Ensures P (f a)) → Ensures P (s >>= f)
  last-Ensures h m b e = continue-Ensures (s m).0 h (s m).1 b e

  kept-Ensures :
      (r : Result A) (m : Machine)
      → ((a : A) → r ≡ ok a → P m)
      → ((a : A) → Keeps P (f a))
      → (b : B) → (continue f r m).0 ≡ ok b
      → P (continue f r m).1
  kept-Ensures (ok a) m h k b e = k a m (h a refl)
  kept-Ensures (err x) m h k b e = absurd (cc)

  first-Ensures : Ensures P s → ((a : A) → Keeps P (f a)) → Ensures P (s >>= f)
  first-Ensures h k m b e = kept-Ensures (s m).0 (s m).1 (h m) k b e

unlabelled :
    {A : Type 0} (prefix : String) {a : A} (r : Result A) → label prefix r ≡ ok a → r ≡ ok a
unlabelled prefix (ok b) e = e
unlabelled prefix (err x) e = absurd (cc)

module _ (os : Os) (data_dir : String) (readable : (path : String) → os.read_fault path ≡ none)
    (decodes : (cfg : Config) (s : String)
      → os.marshal cfg ≡ ok s
      → (found : Config) × (os.unmarshal s ≡ ok found)) where
  abbrev IsConfigured : Machine → Type 0
  IsConfigured m = (cfg : Config) × (load os data_dir m.disk ≡ ok cfg)

  stored-loads :
      (disk : Disk) (cfg : Config) (s : String)
      → os.marshal cfg ≡ ok s
      → (found : Config) × (load os data_dir
            (put_file (os.join data_dir config_file_name) (some s) disk)
          ≡ ok found)
  unfolding load
  stored-loads disk cfg s e =
      let (back, d) = decodes cfg s e in
      (
        if back.data_dir == "" then record back { data_dir = data_dir } else back,
        rw (
          readable (os.join data_dir config_file_name),
          eq_refl (os.join data_dir config_file_name),
          d,
        ),
      )

  written-loads :
      (cfg : Config) (s : String)
      → os.marshal cfg ≡ ok s
      → (disk : Disk) (fault : Option (Error × Option String))
      → label "writing config" (written os (os.join data_dir config_file_name) s fault disk).0
        ≡ ok tt
      → (found : Config) × (load os data_dir
            (written os (os.join data_dir config_file_name) s fault disk).1
          ≡ ok found)
  written-loads cfg s t disk none e = stored-loads disk cfg s t
  written-loads cfg s t disk (some (x, rest)) e = absurd (cc)

  saved-loads :
      (cfg : Config)
      → cfg.data_dir ≡ data_dir
      → (disk : Disk) → (save os cfg disk).0 ≡ ok tt
      → (found : Config) × (load os data_dir (save os cfg disk).1 ≡ ok found)
  unfolding save
  saved-loads cfg same disk = elim (Result-cases (os.make_dir cfg.data_dir)) [
    | inl (u, d) ↦ elim (Result-cases (os.marshal cfg)) [
      | inl (s, t) ↦
          rw (d, t, same)
            (λ e.
              written-loads cfg s t disk (os.write_fault (os.join data_dir config_file_name) s) e)
      | inr (x, t) ↦ rw (d, t) (λ e. absurd (cc))
    ]
    | inr (x, d) ↦ rw d (λ e. absurd (cc))
  ]

  register_self-disk :
      (tools : Tools) (env : Env) (cfg : Config) (m : Machine)
      → (register_self os tools env data_dir cfg m).1.disk ≡ m.disk
  unfolding register_self now
  register_self-disk tools env cfg m = elim (Result-cases (tools.open_store (db_path os cfg))) [
    | inl (u, e) ↦ rw e refl
    | inr (x, e) ↦ rw e refl
  ]

  register_self-Keeps :
      (tools : Tools) (env : Env) (cfg : Config)
      → Keeps IsConfigured (register_self os tools env data_dir cfg)
  register_self-Keeps tools env cfg m (found, e) =
      (found, ap (load os data_dir) (register_self-disk tools env cfg m) ∙ e)

  save_and_register-Ensures :
      (tools : Tools) (env : Env) (cfg : Config)
      → cfg.data_dir ≡ data_dir
      → Ensures IsConfigured (save_and_register os tools env data_dir cfg)
  unfolding save_and_register
  save_and_register-Ensures tools env cfg same =
      first-Ensures IsConfigured (labelled "saving config" (on_disk (save os cfg)))
        (λ _. register_self os tools env data_dir cfg)
        (λ m a e. saved-loads cfg same m.disk (unlabelled "saving config" (save os cfg m.disk).0 e))
        (λ _. register_self-Keeps tools env cfg)

  init-Ensures :
      (tools : Tools) (env : Env) (listen_addr name : String)
      → Ensures IsConfigured (init os tools env data_dir listen_addr name)
  unfolding init init_as
  init-Ensures tools env listen_addr name =
      let own = own_config os tools env data_dir listen_addr name in
      last-Ensures IsConfigured (refuse_again os tools env data_dir)
        (λ _. act (new_uuid env) >>= init_as os tools env data_dir listen_addr name)
        (λ _.
          last-Ensures IsConfigured (act (new_uuid env))
            (init_as os tools env data_dir listen_addr name)
            (λ id.
              last-Ensures IsConfigured (generate_certs os tools env data_dir (own id))
                (λ _. save_and_register os tools env data_dir (own id))
                (λ _. save_and_register-Ensures tools env (own id) refl)))

  joined-Ensures :
      (tools : Tools) (env : Env) (name listen_addr cli_addr : String) (t : JoinToken)
      (resp : JoinResponse)
      → Ensures IsConfigured (joined os tools env data_dir name listen_addr cli_addr t resp)
  unfolding joined
  joined-Ensures tools env name listen_addr cli_addr t resp =
      let cfg =
        node_config resp.node_id (name_or_host os tools env data_dir name) data_dir listen_addr
          cli_addr t.coordinator_addr in
      last-Ensures IsConfigured (write_certs os tools env data_dir (os.join data_dir "certs") resp)
        (λ _. save_and_register os tools env data_dir cfg)
        (λ _. save_and_register-Ensures tools env cfg refl)

  join-Ensures :
      (tools : Tools) (env : Env) (net : PeerHttp) (token name listen_addr cli_addr : String)
      → Ensures IsConfigured (join os tools env data_dir net token name listen_addr cli_addr)
  unfolding join join_by
  join-Ensures tools env net token name listen_addr cli_addr =
      let by = join_by os tools env data_dir net name listen_addr cli_addr in
      let decoded = labelled "invalid token" (give (decode_join_token tools.decoders token)) in
      last-Ensures IsConfigured (refuse_again os tools env data_dir) (λ _. decoded >>= by)
        (λ _. last-Ensures IsConfigured decoded by (λ t.
          last-Ensures IsConfigured
            (ask_to_join os tools env data_dir net name listen_addr cli_addr t)
            (joined os tools env data_dir name listen_addr cli_addr t)
            (joined-Ensures tools env name listen_addr cli_addr t)))

  run-Ensures :
      (tools : Tools) (env : Env) (c : Command) → Ensures IsConfigured (run os tools env data_dir c)
  unfolding run
  run-Ensures tools env (init_command listen_addr name) = init-Ensures tools env listen_addr name
  run-Ensures tools env (join_command net token name listen_addr cli_addr) =
      join-Ensures tools env net token name listen_addr cli_addr

  configured-refused :
      (tools : Tools) (env : Env) (c : Command) (m : Machine)
      → IsConfigured m
      → run os tools env data_dir c m ≡ (
        err (message (os.sprintf "already initialized (config exists at %s)" (text data_dir ∷ []))),
        m,
      )
  unfolding run init join refuse_again
  configured-refused tools env (init_command listen_addr name) m (cfg, e) = rw e
  configured-refused tools env (join_command net token name listen_addr cli_addr) m (cfg, e) = rw e

  -- Where files are read without errors, and what was marshalled as settings can be unmarshalled:
  -- once init or join has succeeded in a data directory, each later init or join in it, by
  -- whatever arguments, tools and network, is refused as already initialized and changes neither
  -- the files nor the database.
  pub set_up_once :
      (tools tools' : Tools) (env env' : Env) (c c' : Command) (m : Machine)
      → (run os tools env data_dir c m).0 ≡ ok tt
      → run os tools' env' data_dir c' (run os tools env data_dir c m).1 ≡ (
        err (message (os.sprintf "already initialized (config exists at %s)" (text data_dir ∷ []))),
        (run os tools env data_dir c m).1,
      )
  set_up_once tools tools' env env' c c' m e =
      configured-refused tools' env' c' (run os tools env data_dir c m).1
        (run-Ensures tools env c m tt e)
