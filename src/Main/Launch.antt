-- ===== src/Main/Launch.antt =====
-- `main` of main.cpp up to its loop: the set-up, the HTTP server's `Server` and the SSDP server.
pub mod Agreement
use upnp.Prelude.{String, Bool, Option, none, some, List, [], Result, ok, err, ◌>>=◌}
use upnp.Prelude.Number.{ℤ, stoi}
use upnp.Config.{Config, Interface, Json}
use upnp.Datastore.Redis.{Redis}
use upnp.Server.Start.{Server, make_server}
use upnp.Ssdp.Server.{Network}
use upnp.Ssdp.Server.Lifetime.{Implementation, start, call_announce}
use upnp.Main.{Options, Started, setup}

pub record Launched (Db : Type 0) : Type 0 where
  pub started : Started Db
  pub server : Server Db
  pub ssdp : Implementation

-- `connect` is the connection of `main`, `reconnect` the one of the `Server`, once the configuration is
-- stored; `sub_connect` is that of its subscriber.
module _ (r : Redis) (j : Json) (connect : String → ℤ → Option r.Db)
    (reconnect : r.Db → String → ℤ → Option r.Db) (sub_connect : String → ℤ → Bool)
    (interfaces : List Interface) (options : Options) (net : Network) where
  -- `main` calls `announce` before it waits; its datagrams, and those of the threads that the
  -- constructor made, are sent by the steps of Ssdp.Server.Threads from here on.
  unfoldable pub serve_started : Started r.Db → Result (Option (Launched r.Db))
  unfolding stoi make_server start call_announce
  serve_started started = stoi options.redis_port >>= λ port.
      make_server r j (reconnect started.db) sub_connect options.redis port >>= λ server.
      start net started.config started.announced [] >>= λ ssdp.
      ok (some (record { started = started; server = server; ssdp = call_announce ssdp }))

  abbrev if_started : Option (Started r.Db) → Result (Option (Launched r.Db))
  if_started none = ok none
  if_started (some started) = serve_started started

  -- `none` is the exit code -1.
  unfoldable pub launch : Result (Option (Launched r.Db))
  unfolding setup serve_started
  launch = setup r j connect interfaces options >>= if_started
