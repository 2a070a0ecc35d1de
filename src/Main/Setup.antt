-- ===== src/Main/Setup.antt =====
-- What the servers are started with.
use Prim.Native.String.{◌++◌}
use upnp.Prelude.{
  String, Bool, true, false, ◌≡◌, refl, sym, subst, eq_iff, Option, some, All, List, [], Result, ok,
  >>=-eq-ok, arith,
}
use upnp.Prelude.Number.{ℤ, stoi}
use upnp.Prelude.StdMap.{StdMap, find, put, find-put, IsSorted, put-IsSorted}
use upnp.Config.{Config, Interface, validate, Json, to_json}
use upnp.Config.Defaults.{IsPrinted, IsComplete, KeepsSet, validate-IsComplete}
use upnp.Datastore.Redis.{Redis}
use upnp.Datastore.Data
use upnp.Main.Loaded.{Loaded, load_config-Loaded, make_connection-ok}
use upnp.Main.{
  Options, override, device_uri, namespaces, Started, load_config, started, setup, ns_root_device,
  ns_media_receiver_registrar, ns_mediaserver, ns_content_directory,
}

-- The services of the media server, and the device by its UUID, are announced at this location.
pub record AnnouncedAt (uuid location : String) (announced : StdMap String) : Type 0 where
  pub root_device : find ns_root_device announced ≡ some location
  pub mediaserver : find ns_mediaserver announced ≡ some location
  pub content_directory : find ns_content_directory announced ≡ some location
  pub device : find ("uuid:" ++ uuid) announced ≡ some location

find-put_same : (k v : String) (m : StdMap String) → find k (put k v m) ≡ some v
find-put_same k v m = ground (arith, find-put k k v m, eq_iff k k)

find-put_kept :
    (k j v : String) (m : StdMap String) → find j m ≡ some v → find j (put k v m) ≡ some v
find-put_kept k j v m h = ground (arith, find-put k j v m)

namespaces-AnnouncedAt :
    (config : Config) → AnnouncedAt config.uuid (device_uri config) (namespaces config)
unfolding namespaces
namespaces-AnnouncedAt config =
    let uri = device_uri config in
    let registrar =
      (put ns_media_receiver_registrar uri (
        put ns_content_directory uri
          (put ns_mediaserver uri (put ns_root_device uri (put config.uuid uri []))))) in
    let content =
      (put ns_content_directory uri
        (put ns_mediaserver uri (put ns_root_device uri (put config.uuid uri [])))) in
    let media = (put ns_mediaserver uri (put ns_root_device uri (put config.uuid uri []))) in
    let rooted = (put ns_root_device uri (put config.uuid uri [])) in
    record {
      root_device = find-put_kept ("uuid:" ++ config.uuid) ns_root_device uri registrar (
          find-put_kept ns_media_receiver_registrar ns_root_device uri content (
            find-put_kept ns_content_directory ns_root_device uri media (
              find-put_kept ns_mediaserver ns_root_device uri rooted
                (find-put_same ns_root_device uri (put config.uuid uri [])))));
      mediaserver = find-put_kept ("uuid:" ++ config.uuid) ns_mediaserver uri registrar (
          find-put_kept ns_media_receiver_registrar ns_mediaserver uri content (
            find-put_kept ns_content_directory ns_mediaserver uri media
              (find-put_same ns_mediaserver uri rooted)));
      content_directory =
          find-put_kept ("uuid:" ++ config.uuid) ns_content_directory uri registrar (
            find-put_kept ns_media_receiver_registrar ns_content_directory uri content
              (find-put_same ns_content_directory uri media));
      device = find-put_same ("uuid:" ++ config.uuid) uri registrar;
    }

namespaces-IsSorted : (config : Config) → IsSorted (namespaces config)
unfolding namespaces
namespaces-IsSorted config =
    let uri = device_uri config in
    let device = put config.uuid uri [] in
    let rooted = put ns_root_device uri device in
    let media = put ns_mediaserver uri rooted in
    let content = put ns_content_directory uri media in
    let registrar = put ns_media_receiver_registrar uri content in
    put-IsSorted ("uuid:" ++ config.uuid) uri registrar (
      put-IsSorted ns_media_receiver_registrar uri content (
        put-IsSorted ns_content_directory uri media (
          put-IsSorted ns_mediaserver uri rooted
            (put-IsSorted ns_root_device uri device (put-IsSorted config.uuid uri [] tt)))))

module _ (r : Redis) (j : Json) where
  started-true :
      (db : r.Db) (announced : StdMap String) (valid : Bool) (config : Config)
      (start : Option (Started r.Db))
      → valid ≡ true
      → Result.ok (started r j db announced (valid, config)) ≡ ok start
      → (servers : Started r.Db) × (start ≡ some servers)
        × (servers.config ≡ config)
        × (servers.announced ≡ announced)
  unfolding started
  started-true db announced true config start h e = (
    record {
      config = config;
      announced = announced;
      db = Data.store_config r db (to_json j config);
    },
    cc,
    refl,
    refl,
  )
  started-true db announced false config start h e = cc

  started-db :
      (db : r.Db) (announced : StdMap String) (validated : Bool × Config) (servers : Started r.Db)
      → Result.ok (started r j db announced validated) ≡ ok (some servers)
      → servers.db ≡ Data.store_config r db (to_json j servers.config)
  unfolding started
  started-db db announced (true, config) servers h = cc
  started-db db announced (false, config) servers h = cc

  started-IsSorted :
      (db : r.Db) (config : Config) (validated : Bool × Config) (servers : Started r.Db)
      → Result.ok (started r j db (namespaces config) validated) ≡ ok (some servers)
      → IsSorted servers.announced
  unfolding started
  started-IsSorted db config (true, c) servers h =
      let same : namespaces config ≡ servers.announced = cc in
      subst IsSorted same (namespaces-IsSorted config)
  started-IsSorted db config (false, c) servers h = cc

  -- The database of the servers is one in which their configuration was stored.
  pub setup-store_config :
      (connect : String → ℤ → Option r.Db) (interfaces : List Interface) (options : Options)
      (servers : Started r.Db)
      → setup r j connect interfaces options ≡ ok (some servers)
      → (db : r.Db) × (servers.db ≡ Data.store_config r db (to_json j servers.config))
  unfolding setup
  setup-store_config connect interfaces options servers h =
      let (port, _, h1) = >>=-eq-ok (stoi options.redis_port) _ h in
      let (db, _, h2) = >>=-eq-ok (Data.make_connection r connect options.redis port) _ h1 in
      let (loaded, _, h3) = >>=-eq-ok (load_config r j db) _ h2 in
      let (validated, _, h4) = >>=-eq-ok (validate interfaces (override options loaded)) _ h3 in
      (db, started-db db (namespaces (override options loaded)) validated servers h4)

  pub setup-AnnouncedAt :
      (connect : String → ℤ → Option r.Db) (interfaces : List Interface) (options : Options)
      (start : Option (Started r.Db))
      → All IsPrinted interfaces
      → setup r j connect interfaces options ≡ ok start
      → (port : ℤ) × (db : r.Db) × (loaded : Config) × (servers : Started r.Db) × (start
          ≡ some servers)
        × (stoi options.redis_port ≡ ok port)
        × (connect options.redis port ≡ some db)
        × Loaded r j db loaded
        × IsComplete servers.config
        × KeepsSet (override options loaded) servers.config
        × AnnouncedAt
            (override options loaded).uuid
            (device_uri (override options loaded))
            servers.announced
  unfolding setup started
  setup-AnnouncedAt connect interfaces options start printed h =
      let (port, is_port, h1) = >>=-eq-ok (stoi options.redis_port) _ h in
      let (db, at_db, h2) = >>=-eq-ok (Data.make_connection r connect options.redis port) _ h1 in
      let (loaded, is_loaded, h3) = >>=-eq-ok (load_config r j db) _ h2 in
      let ((valid, config), v, h4) =
        >>=-eq-ok (validate interfaces (override options loaded)) _ h3 in
      let (is_true, complete, kept) =
        validate-IsComplete interfaces (override options loaded) config valid printed v in
      let (servers, same, config_same, announced_same) =
        started-true db (namespaces (override options loaded)) valid config start is_true h4 in
      (
        port,
        db,
        loaded,
        servers,
        same,
        is_port,
        make_connection-ok r connect options.redis port db at_db,
        load_config-Loaded r j db loaded is_loaded,
        subst IsComplete (sym config_same) complete,
        subst (KeepsSet (override options loaded)) (sym config_same) kept,
        subst (AnnouncedAt (override options loaded).uuid (device_uri (override options loaded)))
            (sym announced_same) (namespaces-AnnouncedAt (override options loaded)),
      )

  -- The namespaces of the set-up are those of a std::map.
  pub setup-IsSorted :
      (connect : String → ℤ → Option r.Db) (interfaces : List Interface) (options : Options)
      (servers : Started r.Db)
      → setup r j connect interfaces options ≡ ok (some servers)
      → IsSorted servers.announced
  unfolding setup
  setup-IsSorted connect interfaces options servers h =
      let (port, _, h1) = >>=-eq-ok (stoi options.redis_port) _ h in
      let (db, _, h2) = >>=-eq-ok (Data.make_connection r connect options.redis port) _ h1 in
      let (loaded, _, h3) = >>=-eq-ok (load_config r j db) _ h2 in
      let (validated, _, h4) = >>=-eq-ok (validate interfaces (override options loaded)) _ h3 in
      started-IsSorted db (override options loaded) validated servers h4
