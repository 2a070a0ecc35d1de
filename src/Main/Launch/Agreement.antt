-- ===== src/Main/Launch/Agreement.antt =====
-- The configuration that the HTTP server answers with, and the one that is announced.
use upnp.Prelude.{
  ℕ, ◌<◌, String, Bool, ◌≡◌, refl, Option, none, some, List, [], Result, ok, >>=-eq-ok, ap, subst,
  sym, ◌∙◌, All,
}
use upnp.Prelude.Number.{ℤ, pos, stoi}
use upnp.Prelude.Text.{c_str}
use upnp.Prelude.StdMap.{IsSorted}
use upnp.Config.{Config, Interface, Json, to_json, members}
use upnp.Config.Defaults.{IsPrinted, IsComplete}
use upnp.Config.RoundTrip.{c_strings, as_strings}
use upnp.Datastore.Redis.{Redis}
use upnp.Datastore.Data
use upnp.Server.Start.{Server, make_server, make_server-store_config}
use upnp.Ssdp.Server.{Network}
use upnp.Ssdp.Server.Registered.{register_all_lem}
use upnp.Ssdp.Server.Lifetime
use upnp.Ssdp.Server.Lifetime.{Implementation, call_announce}
use upnp.Ssdp.Server.Lifetime.Session.{start-impl}
use upnp.Main.{Options, Started, setup}
use upnp.Main.Setup.{setup-AnnouncedAt, setup-store_config, setup-IsSorted}
use upnp.Main.Launch.{Launched, launch, serve_started, if_started}

-- What the JSON library and Redis document: what is written is parsed, and what is set is got.
pub record Keeps (r : Redis) (j : Json) (config : Config) : Type 0 where
  pub whole : c_str (to_json j config) ≡ to_json j config
  pub parsed : j.parse (to_json j config) ≡ some (as_strings (members config))
  pub got : (db : r.Db) (key value : String) → r.get (r.set db key value) key ≡ some value

module _ (r : Redis) (j : Json) (connect : String → ℤ → Option r.Db)
    (sub_connect : String → ℤ → Bool) (interfaces : List Interface) (options : Options)
    (net : Network) where
  -- The server connects to the database that the set-up leaves.
  abbrev pub reconnect : r.Db → String → ℤ → Option r.Db
  reconnect db host port = some db

  pub started_of :
      (launched : Launched r.Db) (started : Option (Started r.Db))
      → if_started r j connect reconnect sub_connect interfaces options net started
        ≡ ok (some launched)
      → (s : Started r.Db) × (started ≡ some s)
        × (serve_started r j connect reconnect sub_connect interfaces options net s
            ≡ ok (some launched))
  started_of launched none e = cc
  started_of launched (some s) e = (s, refl, e)

  abbrev launched_of : Started r.Db → Server r.Db → Implementation → Launched r.Db
  launched_of s server ssdp = record { started = s; server = server; ssdp = call_announce ssdp }

  IsComplete-some :
      (s s' : Started r.Db) → Option.some s ≡ some s' → IsComplete s'.config → IsComplete s.config
  IsComplete-some s s' same complete =
      let same' : s' ≡ s = cc in subst (λ t. IsComplete (Started.config t)) same' complete

  configured :
      {result : Result (Server r.Db)} {db : r.Db} {subscribed : Bool} (server : Server r.Db)
      (config : Config)
      → result ≡ ok server
      → result ≡ ok (record { redis = db; config = c_strings config; subscribed = subscribed })
      → server.config ≡ c_strings config
  configured {db = db} {subscribed = subscribed} server config made made' =
      let same : server
          ≡ record { redis = db; config = c_strings config; subscribed = subscribed } =
        cc in
      ap (λ s. Server.config s) same

  pub serve_started-started :
      (launched : Launched r.Db) (s : Started r.Db)
      → serve_started r j connect reconnect sub_connect interfaces options net s
        ≡ ok (some launched)
      → launched.started ≡ s
  unfolding serve_started
  serve_started-started launched s e =
      let (port, _, h2) = >>=-eq-ok (stoi options.redis_port) _ e in
      let (server, _, h3) =
        >>=-eq-ok (make_server r j (reconnect s.db) sub_connect options.redis port) _ h2 in
      let (ssdp, _, h4) = >>=-eq-ok (Lifetime.start net s.config s.announced []) _ h3 in
      let same : launched ≡ launched_of s server ssdp = cc in ap (λ l. Launched.started l) same

  -- From the start of the servers on.
  serve_agrees :
      (port : ℕ) (launched : Launched r.Db) (s : Started r.Db) (db : r.Db)
      → Keeps r j s.config
      → stoi options.redis_port ≡ ok (pos port)
      → port < 32768
      → s.db ≡ Data.store_config r db (to_json j s.config)
      → IsSorted s.announced
      → serve_started r j connect reconnect sub_connect interfaces options net s
        ≡ ok (some launched)
      → (launched.server.config ≡ c_strings s.config) × (launched.ssdp.namespaces ≡ s.announced)
  unfolding serve_started call_announce
  serve_agrees port launched s db keeps is_port small stored sorted e =
      let (server, made, h3) =
        >>=-eq-ok (make_server r j (reconnect s.db) sub_connect options.redis (pos port)) _
          (rw is_port at e) in
      let (ssdp, started, h4) = >>=-eq-ok (Lifetime.start net s.config s.announced []) _ h3 in
      let same : launched ≡ launched_of s server ssdp = cc in
      let (_, _, _, _, _, is_ssdp) = start-impl net s.config s.announced [] ssdp started in
      let made' =
        make_server-store_config r j (reconnect s.db) sub_connect options.redis port db s.config
          small keeps.got keeps.whole keeps.parsed (ap some stored) in
      (
        ap (λ l. Server.config (Launched.server l)) same ∙ configured server s.config made made',
        ap (λ l. Implementation.namespaces (Launched.ssdp l)) same
            ∙ ap (λ i. Implementation.namespaces i) is_ssdp
            ∙ register_all_lem s.announced sorted,
      )

  -- Where main gets to its loop, Redis and the JSON library keep the configuration that was
  -- stored, and the addresses of the interfaces print as texts that are not empty, the
  -- configuration is complete, the server answers with it, each field cut at its first NUL, and
  -- the namespaces of the SSDP server are those of the set-up; for a Redis port below 32768 and a
  -- server that connects to the database of the set-up.
  pub launch-agrees :
      (port : ℕ) (launched : Launched r.Db)
      → stoi options.redis_port ≡ ok (pos port)
      → port < 32768
      → All IsPrinted interfaces
      → Keeps r j launched.started.config
      → launch r j connect reconnect sub_connect interfaces options net ≡ ok (some launched)
      → IsComplete launched.started.config
        × (launched.server.config ≡ c_strings launched.started.config)
        × (launched.ssdp.namespaces ≡ launched.started.announced)
  unfolding launch
  launch-agrees port launched is_port small printed keeps e =
      let (start, set_up, h1) = >>=-eq-ok (setup r j connect interfaces options) _ e in
      let (s, is_s, h2) = started_of launched start h1 in
      let set_up_s : setup r j connect interfaces options ≡ ok (some s) = cc in
      let (db, stored) = setup-store_config r j connect interfaces options s set_up_s in
      let sorted = setup-IsSorted r j connect interfaces options s set_up_s in
      let (_, _, _, s', is_s', _, _, _, complete', _, _) =
        setup-AnnouncedAt r j connect interfaces options (some s) printed set_up_s in
      let same = serve_started-started launched s h2 in
      let (config, namespaces) =
        serve_agrees port launched s db (subst (λ t. Keeps r j (Started.config t)) same keeps)
          is_port small stored sorted h2 in
      (
        subst (λ t. IsComplete (Started.config t)) (sym same)
            (IsComplete-some s s' is_s' complete'),
        config ∙ ap (λ t. c_strings (Started.config t)) (sym same),
        namespaces ∙ ap (λ t. Started.announced t) (sym same),
      )
