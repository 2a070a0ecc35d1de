-- ===== src/Server/Start.antt =====
-- The constructor of `Server`, in src/server.cpp, and the configuration that it reads.
use upnp.Prelude.{
  ℕ, ◌-◌, ◌%◌, ◌<◌, ltb, String, Bool, ◌≡◌, ◌↔◌, Option, some, none, Option-cases, Bool-cases, inl,
  inr, sym, ◌∙◌, refl, ◌≢◌, ◌≤◌, system_error, Result, ok, err, ◌>>=◌, if◌then◌else◌, arith,
}
use upnp.Prelude.Number.{ℤ, pos, negsuc}
use upnp.Prelude.Text.{c_str}
use upnp.Config.{Config, Json, to_json, of_json, members}
use upnp.Config.RoundTrip.{c_strings, as_strings, of_json-to_json}
use upnp.Datastore.Key
use upnp.Datastore.Redis.{Redis}
use upnp.Datastore.Data

-- The members of a `Server`; whether its subscriber is connected, and so gets the messages.
pub record Server (Db : Type 0) : Type 0 where
  pub redis : Db
  pub config : Config
  pub subscribed : Bool

-- An `int` that is passed as `short`.
unfoldable pub to_short : ℤ → ℤ
to_short (pos n) = let k = n % 65536 in if ltb k 32768 then pos k else negsuc (65535 - k)
to_short (negsuc n) = let k = n % 65536 in if ltb k 32768 then negsuc k else pos (65535 - k)

-- `Server::Server`: `connect` is that of the database, `sub_connect` that of the subscriber.
unfoldable pub make_server :
    (r : Redis) (j : Json) (connect : String → ℤ → Option r.Db) (sub_connect : String → ℤ → Bool)
    → String
    → ℤ
    → Result (Server r.Db)
unfolding to_short Data.make_connection of_json Data.config
make_server r j connect sub_connect redis port =
    Data.make_connection r connect redis (to_short port) >>= λ db. Data.config r db >>= λ text.
    of_json j text >>= λ config.
    ok (record { redis = db; config = config; subscribed = sub_connect redis (to_short port) })

-- Of the ports below 65536, exactly those below 32768 are kept in a short.
to_short-port_iff : (port : ℕ) → port < 65536 → (to_short (pos port) ≡ pos port) ↔ (port < 32768)
unfolding to_short
to_short-port_iff port h =
    let same : port % 65536 ≡ port = omega arith in
    rw same (λ e. ground arith, λ small. ground arith)

module _ (r : Redis) (j : Json) where
  -- Behind the connection.
  abbrev configured : (r.Db → Bool → Result (Server r.Db))
  configured db subscribed = Data.config r db >>= λ text. of_json j text >>= λ config.
      ok (record { redis = db; config = config; subscribed = subscribed })

  make_server-connected :
      (connect : String → ℤ → Option r.Db) (sub_connect : String → ℤ → Bool) (redis : String)
      (port : ℤ) (db : r.Db)
      → connect redis (to_short port) ≡ some db
      → make_server r j connect sub_connect redis port
        ≡ configured db (sub_connect redis (to_short port))
  unfolding make_server Data.make_connection
  make_server-connected connect sub_connect redis port db h =
      rw (make_server, Data.make_connection, h) refl

  config-set :
      (db : r.Db) (text : String)
      → ((old : r.Db) (key value : String) → r.get (r.set old key value) key ≡ some value)
      → Data.config r (Data.store_config r db text) ≡ ok text
  unfolding Data.config Data.store_config
  config-set db text keeps = rw (Data.config, Data.store_config, keeps db Key.config text) refl

  -- Where Redis gets what was set and the JSON library parses what it has written, a Server
  -- constructed on a database in which a configuration was stored has this configuration, each
  -- field cut at its first NUL; for a port below 32768.
  pub make_server-store_config :
      (connect : String → ℤ → Option r.Db) (sub_connect : String → ℤ → Bool) (redis : String)
      (port : ℕ) (db : r.Db) (config : Config)
      → port < 32768
      → ((old : r.Db) (key value : String) → r.get (r.set old key value) key ≡ some value)
      → c_str (to_json j config) ≡ to_json j config
      → j.parse (to_json j config) ≡ some (as_strings (members config))
      → connect redis (pos port) ≡ some (Data.store_config r db (to_json j config))
      → make_server r j connect sub_connect redis (pos port)
        ≡ ok (record {
          redis = Data.store_config r db (to_json j config);
          config = c_strings config;
          subscribed = sub_connect redis (pos port);
        })
  make_server-store_config connect sub_connect redis port db config small keeps whole parsed
        connected =
      let short = (to_short-port_iff port (omega arith)).1 small in
      let made =
        make_server-connected connect sub_connect redis (pos port)
          (Data.store_config r db (to_json j config)) (rw short connected) in
      rw (short, config-set db (to_json j config) keeps, of_json-to_json j config whole parsed) at
        made

  configured-connected :
      (db : r.Db) (subscribed : Bool) → configured db subscribed ≢ err system_error
  unfolding Data.config of_json
  configured-connected db subscribed h = elim (Option-cases (r.get db Key.config)) [
    | inl e ↦ cc (rw (Data.config, e) at h)
    | inr (text, e) ↦ elim (Option-cases (j.parse (c_str text))) [
      | inl m ↦ cc (rw (Data.config, e, of_json, m) at h)
      | inr (doc, m) ↦ cc (rw (Data.config, e, of_json, m) at h)
    ]
  ]

  -- Where there is a database at one port below 65536 of the host, and at no other number, the
  -- constructor of Server, given this port, fails to connect exactly if the port is 32768 or more.
  pub make_server-refused_iff :
      (connect : String → ℤ → Option r.Db) (sub_connect : String → ℤ → Bool) (redis : String)
      (port : ℕ) (db : r.Db)
      → port < 65536
      → connect redis (pos port) ≡ some db
      → ((other : ℤ) → other ≢ pos port → connect redis other ≡ none)
      → (make_server r j connect sub_connect redis (pos port) ≡ err system_error) ↔ (32768 ≤ port)
  unfolding make_server Data.make_connection
  make_server-refused_iff connect sub_connect redis port db small here elsewhere =
      elim (Bool-cases (ltb port 32768)) [
        | inl low ↦ (
          λ e.
              let short = (to_short-port_iff port small).1 (ground arith) in
              let made =
                make_server-connected connect sub_connect redis (pos port) db (rw short here) in
              absurd
                (configured-connected db (sub_connect redis (to_short (pos port))) (sym made ∙ e)),
          λ high. ground arith,
        )
        | inr high ↦ (
          λ e. ground arith,
          λ e.
              let not_short : to_short (pos port) ≢ pos port =
                λ same. ground (arith, to_short-port_iff port small) in
              rw (elsewhere (to_short (pos port)) not_short, Data.make_connection) refl,
        )
      ]
