-- ===== src/Main.antt =====
-- main.cpp: how the program is set up: the configuration from the database and the options, the
-- namespaces that are announced, and the icons that are served.
pub mod Loaded
pub mod Setup
pub mod Routes
pub mod Launch
use Prim.Native.String.{◌++◌}
use upnp.Prelude.{
  ℕ, String, Bool, true, false, ◌==◌, Option, none, some, List, [], ◌∷◌, Result, ok, err, ◌>>=◌,
  if◌then◌else◌,
}
use upnp.Prelude.Number.{ℤ, stoi}
use upnp.Prelude.StdMap.{StdMap, put}
use upnp.Config.{Config, empty_config, Interface, validate, Json, to_json, of_json}
use upnp.Datastore.Redis.{Redis}
use upnp.Datastore.Data
use upnp.Icons.{
  squawk16_png, squawk32_png, squawk48_png, squawk64_png, squawk120_png, squawk16_png_len,
  squawk32_png_len, squawk48_png_len, squawk64_png_len, squawk120_png_len,
}

-- The options of the command line, as the option parser gives them.
pub record Options : Type 0 where
  pub http_port : Option String
  pub multicast_address : Option String
  pub multicast_port : Option String
  pub listen : Option String
  pub name : Option String
  pub cds : Option String
  pub redis : String
  pub redis_port : String

-- `if ( result.count( option ) ) { field = result[option]; }`
unfoldable pub or_kept : Option String → String → String
or_kept none kept = kept
or_kept (some given) kept = given

unfoldable pub override : Options → Config → Config
unfolding or_kept
override options config = record config {
  http_port = or_kept options.http_port config.http_port;
  multicast_address = or_kept options.multicast_address config.multicast_address;
  multicast_port = or_kept options.multicast_port config.multicast_port;
  listen_address = or_kept options.listen config.listen_address;
  name = or_kept options.name config.name;
  cds_uri = or_kept options.cds config.cds_uri;
}

abbrev pub ns_root_device : String
ns_root_device = "upnp:rootdevice"

abbrev pub ns_mediaserver : String
ns_mediaserver = "urn:schemas-upnp-org:device:MediaServer:1"

abbrev pub ns_content_directory : String
ns_content_directory = "urn:schemas-upnp-org:service:ContentDirectory:1"

abbrev pub ns_connection_manager : String
ns_connection_manager = "urn:schemas-upnp-org:service:ConnectionManager:1"

abbrev pub ns_media_receiver_registrar : String
ns_media_receiver_registrar = "urn:microsoft.com:service:X_MS_MediaReceiverRegistrar:1"

unfoldable pub device_uri : Config → String
device_uri config =
    "http://" ++ (config.listen_address ++ (":" ++ (config.http_port ++ "/root.xml")))

-- `_namespaces`. All values are the same, so which of two equal keys is kept makes no difference.
unfoldable pub namespaces : Config → StdMap String
unfolding put device_uri
namespaces config = put ("uuid:" ++ config.uuid) (device_uri config) (
    put ns_media_receiver_registrar (device_uri config) (
      put ns_content_directory (device_uri config) (
        put ns_mediaserver (device_uri config)
          (put ns_root_device (device_uri config) (put config.uuid (device_uri config) [])))))

-- What the servers are started with.
pub record Started (Db : Type 0) : Type 0 where
  pub config : Config
  pub announced : StdMap String
  pub db : Db

module _ (r : Redis) (j : Json) where
  unfoldable pub load_config : r.Db → Result Config
  unfolding of_json Data.config Data.config_exists
  load_config db =
      if Data.config_exists r db then (Data.config r db >>= of_json j) else ok empty_config

  -- `if( !validate( config ) ) return -1;` and the configuration is stored.
  unfoldable pub started : r.Db → StdMap String → Bool × Config → Option (Started r.Db)
  unfolding to_json Data.store_config
  started db announced (false, config) = none
  started db announced (true, config) = some (record {
    config = config;
    announced = announced;
    db = Data.store_config r db (to_json j config);
  })

  -- `main`, up to the start of the servers; `none` is the exit code -1.
  unfoldable pub setup :
      (connect : String → ℤ → Option r.Db)
      → List Interface
      → Options
      → Result (Option (Started r.Db))
  unfolding stoi load_config override namespaces validate started
  setup connect interfaces options = stoi options.redis_port >>= λ port.
      Data.make_connection r connect options.redis port >>= λ db. load_config db >>= λ loaded.
      validate interfaces (override options loaded) >>= λ validated.
      ok (started db (namespaces (override options loaded)) validated)

-- The icon files, and which one the route `/squawk<size>.png` serves.
pub data IconFile : Type 0 where
  squawk16 squawk32 squawk48 squawk64 squawk120 : IconFile

unfoldable pub icon_file : String → IconFile
icon_file size =
    if size == "120"
    then squawk120
    else if size == "64"
    then squawk64
    else if size == "48"
    then squawk48
    else if size == "32"
    then squawk32
    else squawk16

-- The array that is written for an icon, and the length that is given with it.
abbrev pub png : IconFile → List ℕ
png squawk16 = squawk16_png
png squawk32 = squawk32_png
png squawk48 = squawk48_png
png squawk64 = squawk64_png
png squawk120 = squawk120_png

abbrev pub png_len : IconFile → ℕ
png_len squawk16 = squawk16_png_len
png_len squawk32 = squawk32_png_len
png_len squawk48 = squawk48_png_len
png_len squawk64 = squawk64_png_len
png_len squawk120 = squawk120_png_len
