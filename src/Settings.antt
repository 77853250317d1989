-- ===== src/Settings.antt =====
-- internal/config/config.go: the settings of a node in their file. A disk is the contents of each file
-- by its path; JSON and the errors of the system are parameters.
use ping_mesh.Prelude.{
  String, [], ◌∷◌, Option, none, some, Error, Result, ok, err, message, wrapped, ◌==◌,
  if◌then◌else◌,
}
use ping_mesh.Model.{Config}
use ping_mesh.Checker.{Sprintf, text}

abbrev pub Disk : Type 0
Disk = String → Option String

abbrev pub put_file : String → Option String → Disk → Disk
put_file path contents disk p = if p == path then contents else disk p

-- `join` is filepath.Join; `read_fault` is an error of os.ReadFile other than that there is no file;
-- `write_fault` is an error of os.WriteFile with what it leaves in the file.
pub record Os : Type 0 where
  pub sprintf : Sprintf
  pub join : String → String → String
  pub make_dir : String → Result (Unit {0})
  pub read_fault : String → Option Error
  pub write_fault : String → String → Option (Error × Option String)
  pub marshal : Config → Result String
  pub unmarshal : String → Result Config

abbrev pub config_file_name : String
config_file_name = "config.json"

abbrev pub default_listen_addr : String
default_listen_addr = "0.0.0.0:7433"

abbrev pub default_cli_addr : String
default_cli_addr = "127.0.0.1:7434"

-- `if err != nil { return fmt.Errorf("…: %w", err) }`
abbrev pub label : {A : Type 0} → String → Result A → Result A
label prefix (ok a) = ok a
label prefix (err e) = err (wrapped prefix e)

module _ (os : Os) where
  abbrev pub with_data_dir : String → Result Config → Result Config
  with_data_dir data_dir (err e) = err (wrapped "parsing config" e)
  with_data_dir data_dir (ok cfg) =
      ok (if cfg.data_dir == "" then record cfg { data_dir = data_dir } else cfg)

  abbrev pub config_read : String → Option Error → Option String → Result Config
  config_read data_dir (some e) contents = err (wrapped "reading config" e)
  config_read data_dir none none = err (
      message (
        os.sprintf "no configuration found at %s (run 'pingmesh init' or 'pingmesh join' first)"
          (text (os.join data_dir config_file_name) ∷ [])))
  config_read data_dir none (some contents) = with_data_dir data_dir (os.unmarshal contents)

  unfoldable pub load : String → Disk → Result Config
  load data_dir disk =
      let path = os.join data_dir config_file_name in
      config_read data_dir (os.read_fault path) (disk path)

  -- os.WriteFile
  abbrev pub written :
      String → String → Option (Error × Option String) → Disk → Result (Unit {0}) × Disk
  written path contents none disk = (ok tt, put_file path (some contents) disk)
  written path contents (some (e, rest)) disk = (err e, put_file path rest disk)

  abbrev pub write_file : String → String → Disk → Result (Unit {0}) × Disk
  write_file path contents disk = written path contents (os.write_fault path contents) disk

  abbrev pub save_marshalled : Config → Result String → Disk → Result (Unit {0}) × Disk
  save_marshalled cfg (err e) disk = (err (wrapped "marshalling config" e), disk)
  save_marshalled cfg (ok bytes) disk =
      let (done, after) = write_file (os.join cfg.data_dir config_file_name) bytes disk in
      (label "writing config" done, after)

  abbrev pub save_made : Config → Result (Unit {0}) → Disk → Result (Unit {0}) × Disk
  save_made cfg (err e) disk = (err (wrapped "creating data directory" e), disk)
  save_made cfg (ok _) disk = save_marshalled cfg (os.marshal cfg) disk

  unfoldable pub save : Config → Disk → Result (Unit {0}) × Disk
  save cfg disk = save_made cfg (os.make_dir cfg.data_dir) disk

  abbrev pub db_path : Config → String
  db_path cfg = os.join cfg.data_dir "pingmesh.db"

  abbrev pub certs_dir : Config → String
  certs_dir cfg = os.join cfg.data_dir "certs"
