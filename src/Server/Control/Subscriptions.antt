-- ===== src/Server/Control/Subscriptions.antt =====
-- The requests that `Server::cds` and `Server::cms` publish for.
use Prim.Native.String.{◌++◌}
use text.Mathlib.TextLemmas.{cons-append}
use upnp.Prelude.{String, ◌≡◌, false, List, [], ◌∷◌, ok, err, out_of_range}
use upnp.Prelude.Text.{is_empty}
use upnp.Config.{Config}
use upnp.Datastore.Redis.{Redis}
use upnp.Xml.{XmlLib}
use upnp.Server.Http.{Request, Names, Call, parameter, publish, call}
use upnp.Server.Callback.{strip, strip_brackets}
use upnp.Server.Control.{publish_callback, cds_method, cms_method, cds, cms}

pub bracketed_not_empty : (url : String) → is_empty ("<" ++ (url ++ ">")) ≡ false
unfolding is_empty
bracketed_not_empty url = rw (cons-append "<" "" (url ++ ">"))

publish_bracketed :
    (channel url : String) (request : Request) (calls : List Call)
    → request.parameter "Callback" ≡ "<" ++ (url ++ ">")
    → publish_callback channel request calls ≡ call (publish channel url) calls
unfolding publish_callback
publish_bracketed channel url request calls h = rw (h, bracketed_not_empty url, strip_brackets url)

publish_lone :
    (channel : String) (request : Request) (calls : List Call)
    → request.parameter "Callback" ≡ "<"
    → publish_callback channel request calls ≡ (err out_of_range, calls)
unfolding publish_callback strip is_empty
publish_lone channel request calls h = rw h

module _ (r : Redis) (db : r.Db) (xml : XmlLib) (names : Names) (config : Config) where
  -- A subscription to the content directory whose callback is a URL in angle brackets succeeds:
  -- the response gets its length, its timeout and its type, and the URL without the brackets is
  -- published.
  cds_subscribe :
      (request : Request) (url : String)
      → request.method ≡ "SUBSCRIBE"
      → request.parameter "Callback" ≡ "<" ++ (url ++ ">")
      → cds r db xml names config request [] ≡ (
        ok tt,
        parameter names.content_length "0"
            ∷ parameter "Timeout" "Second-1800"
            ∷ publish "CDS_SUBSCRIBE" url
            ∷ parameter names.content_type names.mime_xml
            ∷ [],
      )
  unfolding cds cds_method call
  cds_subscribe request url m h = rw (m, publish_bracketed "CDS_SUBSCRIBE" url request _ h)

  -- An unsubscription from the content directory whose callback is a URL in angle brackets
  -- publishes the URL without the brackets, and the response names the service by its UUID.
  cds_unsubscribe :
      (request : Request) (url : String)
      → request.method ≡ "UNSUBSCRIBE"
      → request.parameter "Callback" ≡ "<" ++ (url ++ ">")
      → cds r db xml names config request [] ≡ (
        ok tt,
        parameter names.content_length "0"
            ∷ parameter "SID" ("uuid:" ++ config.uuid)
            ∷ parameter "EXT" ""
            ∷ publish "CDS_UNSUBSCRIBE" url
            ∷ parameter names.content_type names.mime_xml
            ∷ [],
      )
  unfolding cds cds_method call
  cds_unsubscribe request url m h = rw (m, publish_bracketed "CDS_UNSUBSCRIBE" url request _ h)

  -- A subscription to the connection manager whose callback is a URL in angle brackets publishes
  -- the URL without the brackets, and the response names the subscription by the UUID of the
  -- server.
  cms_subscribe :
      (request : Request) (url : String)
      → request.method ≡ "SUBSCRIBE"
      → request.parameter "Callback" ≡ "<" ++ (url ++ ">")
      → cms r db xml names config request [] ≡ (
        ok tt,
        parameter names.content_length "0"
            ∷ parameter "SID" ("uuid:" ++ config.uuid)
            ∷ parameter "Timeout" "Second-1800"
            ∷ publish "CMS_SUBSCRIBE" url
            ∷ parameter names.content_type names.mime_xml
            ∷ [],
      )
  unfolding cms cms_method call
  cms_subscribe request url m h = rw (m, publish_bracketed "CMS_SUBSCRIBE" url request _ h)

  -- A subscription to the content directory whose callback is a single opening bracket throws; the
  -- length and the timeout are set by then, and nothing is published.
  cds_subscribe_lone_bracket :
      (request : Request)
      → request.method ≡ "SUBSCRIBE"
      → request.parameter "Callback" ≡ "<"
      → cds r db xml names config request [] ≡ (
        err out_of_range,
        parameter names.content_length "0" ∷ parameter "Timeout" "Second-1800" ∷ [],
      )
  unfolding cds cds_method call
  cds_subscribe_lone_bracket request m h = rw (m, publish_lone "CDS_SUBSCRIBE" request _ h)
