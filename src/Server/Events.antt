-- ===== src/Server/Events.antt =====
-- The subscriber of `Server::Server`, in src/server.cpp: what is done with the messages that the
-- handlers publish.
pub mod Spec
pub mod Delivery
pub mod Serving
pub mod Subscribers
use Prim.Native.String.{◌++◌}
use upnp.Prelude.{
  ℕ, ◌-◌, ◌%◌, ltb, Option, ◌>>=◌ as ◌>>>=◌, String, Bool, true, false, ◌==◌, List, [], ◌∷◌,
  ◌++◌ as ◌+++◌, not, Fault, null_pointer, assertion, overflow, Result, ok, err, if◌then◌else◌,
}
use upnp.Prelude.Exec.{Exec, ◌>>=◌, ◌>>◌, pure, lift}
use upnp.Datastore.Name
use upnp.Datastore.Redis.{Redis}
use upnp.Datastore.Keys.{make_key}
use upnp.Config.{Config}
use upnp.Datastore.Data
use upnp.Prelude.Number.{ℤ, pos, negsuc}
use upnp.Xml.{XmlLib}
use upnp.Server.Http.{
  Request, Names, Handler, Call, write, parameter, status_ok, version_major, version_minor,
  protocol, publish,
}
use upnp.Server.Control.{cds, cms}
use upnp.Server.Texts.{cds_properties, cms_properties}

-- `http::utils::UrlParser`, the parts of a URL.
pub record Urls : Type 0 where
  pub host : String → String
  pub proto : String → String
  pub path : String → String

-- `http::header` and `http::mime` as far as an event uses them.
pub record EventNames : Type 0 where
  pub host : String
  pub content_type : String
  pub connection : String
  pub connection_close : String
  pub cache_control : String
  pub mime_xml : String

-- A request that is given to `http::HttpClient`, with its connection's host and protocol.
pub record EventRequest : Type 0 where
  pub host : String
  pub proto : String
  pub path : String
  pub method : String
  pub parameters : List (String × String)
  pub body : String

-- The database, and the requests that the client was given.
pub record Events (Db : Type 0) : Type 0 where
  pub db : Db
  pub sent : List EventRequest

-- The requests that main.cpp binds to `Server::cds` and to `Server::cms`.
pub data Incoming : Type 0 where
  to_cds to_cms : Request → Incoming

-- The set of the subscribers of the content directory.
unfoldable pub event_key : String
unfolding make_key
event_key = make_key "upnp" ("event" ∷ "cds" ∷ [])

module _ (urls : Urls) where
  -- The request of the callback of "CDS_SUBSCRIBE".
  unfoldable pub cds_request : EventNames → Config → String → EventRequest
  cds_request names config msg = record {
    host = urls.host msg;
    proto = urls.proto msg;
    path = urls.path msg;
    method = "NOTIFY";
    parameters =
        (names.host, urls.host msg ++ (":" ++ urls.proto msg))
        ∷ (names.content_type, names.mime_xml)
        ∷ (names.connection, names.connection_close)
        ∷ (names.cache_control, "no-cache")
        ∷ ("SID", "uuid:" ++ config.uuid)
        ∷ ("NT", "upnp:event")
        ∷ ("NTS", "upnp:propchange")
        ∷ ("SEQ", "0")
        ∷ [];
    body = cds_properties;
  }

  -- The request of the callback of "CMS_SUBSCRIBE".
  unfoldable pub cms_request : String → EventRequest
  cms_request msg = record {
    host = urls.host msg;
    proto = urls.proto msg;
    path = urls.path msg;
    method = "NOTIFY";
    parameters = [];
    body = cms_properties;
  }

-- `survives` says which exceptions of a handler the HTTP library goes on after; a fault that is no
-- exception ends the process.
module _ (survives : Fault → Bool) where
  abbrev pub is_ending : Fault → Bool
  is_ending null_pointer = true
  is_ending assertion = true
  is_ending overflow = true
  is_ending fault = not (survives fault)

  abbrev pub after_handler : Result (Unit {0}) → Result (Unit {0})
  after_handler (ok _) = ok tt
  after_handler (err fault) = if is_ending fault then err fault else ok tt

-- `client_get` is `HttpClient::get`, which may throw; its response is only logged.
module _ (r : Redis) (urls : Urls) (names : EventNames)
    (client_get : EventRequest → Result (Unit {0})) where
  unfoldable pub send_event : EventRequest → Exec (Events r.Db) (Unit {0})
  send_event request e = (client_get request, record e { sent = e.sent +++ request ∷ [] })

  -- `redis_->command( {ZADD, ...} )`
  unfoldable pub persist : String → Exec (Events r.Db) (Unit {0})
  unfolding event_key
  persist msg e = (ok tt, record e { db = r.command e.db (Name.zadd ∷ event_key ∷ "0" ∷ msg ∷ []) })

  -- The callbacks of the four topics that are subscribed to.
  unfoldable pub on_message : Config → (topic msg : String) → Exec (Events r.Db) (Unit {0})
  unfolding persist send_event cds_request cms_request
  on_message config topic msg =
      if topic == "CDS_SUBSCRIBE"
      then (do persist msg; send_event (cds_request urls names config msg))
      else if topic == "CDS_UNSUBSCRIBE"
      then pure tt
      else if topic == "CMS_SUBSCRIBE"
      then send_event (cms_request urls msg)
      else pure tt

  -- The subscriber gets what a handler has published, in its order.
  unfoldable pub receive_all : Config → List Call → Exec (Events r.Db) (Unit {0})
  unfolding on_message
  receive_all config [] = pure tt
  receive_all config (publish topic msg ∷ calls) = do
    on_message config topic msg
    receive_all config calls
  receive_all config (write text ∷ calls) = receive_all config calls
  receive_all config (parameter name value ∷ calls) = receive_all config calls
  receive_all config (status_ok ∷ calls) = receive_all config calls
  receive_all config (version_major number ∷ calls) = receive_all config calls
  receive_all config (version_minor number ∷ calls) = receive_all config calls
  receive_all config (protocol name ∷ calls) = receive_all config calls

  -- The callbacks are subscribed where `sub_.connect` has succeeded, and only then.
  unfoldable pub deliver : (subscribed : Bool) → Config → List Call → Exec (Events r.Db) (Unit {0})
  unfolding receive_all
  deliver subscribed config calls = if subscribed then receive_all config calls else pure tt

  -- A request of one of the two control URLs.
  module _ (xml : XmlLib) (http_names : Names) where
    unfoldable pub handle : r.Db → Config → Incoming → Handler
    unfolding cds cms
    handle db config (to_cds request) = cds r db xml http_names config request
    handle db config (to_cms request) = cms r db xml http_names config request

    module _ (survives : Fault → Bool) (subscribed : Bool) where
      -- A request, with the messages that its handler publishes; what a handler did before it threw is
      -- done.
      unfoldable pub serve_one : Config → Incoming → Exec (Events r.Db) (Unit {0})
      unfolding handle deliver
      serve_one config incoming e =
          let (result, calls) = handle e.db config incoming [] in
          (do deliver subscribed config calls; lift (after_handler survives result)) e

      -- Requests one after another, until one ends the process.
      unfoldable pub serve : Config → List Incoming → Exec (Events r.Db) (Unit {0})
      unfolding serve_one
      serve config [] = pure tt
      serve config (incoming ∷ rest) = do serve_one config incoming; serve config rest
