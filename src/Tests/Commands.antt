-- ===== src/Tests/Commands.antt =====
-- A new coordinator, and the same directory again.
use ping_mesh.Prelude.{◌≡◌, refl, none, ok, err, message}
use ping_mesh.Db.{has}
use ping_mesh.World.{exec, settle, new_uuid, now}
use ping_mesh.Store.{create_node, insert_node}
use ping_mesh.Settings.{Os, load, save}
use ping_mesh.Cli.{
  Machine, Tools, refuse_again, register_self, save_and_register, generate_certs, init_as, init,
}
use ping_mesh.Cli.Once.{Command, init_command, run, set_up_once}
use ping_mesh.Tests.Setup.{quiet_env, down_world, coordinator}
use ping_mesh.Tests.Checks.{sprintf}

abbrev os : Os
os = record {
  sprintf = sprintf;
  join = λ dir name. name;
  make_dir = λ dir. ok tt;
  read_fault = λ path. none;
  write_fault = λ path contents. none;
  marshal = λ cfg. ok cfg.node_id;
  unmarshal = λ s. ok coordinator;
}

abbrev tools : Tools
tools = record {
  generate_ca = λ dir disk. (ok tt, disk);
  generate_node_cert = λ dir id addresses disk. (ok tt, disk);
  open_store = λ path. ok tt;
  decoders = record { decode_base64 = λ s. ok s; unmarshal_token = λ s. err (message "no token") };
  parse_duration = λ s. err (message "no duration");
  hostname = "host";
}

abbrev bare : Machine
bare = record { disk = λ path. none; world = down_world }

abbrev new_coordinator : Command
new_coordinator = init_command "0.0.0.0:7433" ""

made : (run os tools quiet_env "/srv" new_coordinator bare).0 ≡ ok tt
unfolding run init init_as refuse_again generate_certs save_and_register register_self load save
    new_uuid now create_node insert_node exec settle has
made = refl

set_up_once_example :
    run os tools quiet_env "/srv" new_coordinator
      (run os tools quiet_env "/srv" new_coordinator bare).1
    ≡ (
      err (message "already initialized (config exists at %s)"),
      (run os tools quiet_env "/srv" new_coordinator bare).1,
    )
set_up_once_example =
    set_up_once os "/srv" (λ path. refl) (λ cfg s e. (coordinator, refl)) tools tools quiet_env
      quiet_env new_coordinator new_coordinator bare made
