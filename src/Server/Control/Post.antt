-- ===== src/Server/Control/Post.antt =====
-- The calls of a POST request: it writes, and sets the type and the status.
use upnp.Prelude.{String, ◌≡◌, Option, none, some, List, [], ◌∷◌, All, All-append, Result, ok, err}
use upnp.Prelude.Exec.{continue, lift, ◌>>=◌}
use upnp.Prelude.StdMap.{StdMap}
use upnp.Config.{Config}
use upnp.Command.{
  UpnpCommand, CommandType, parse_request, browse, sort_capabilities, search_capabilities,
  system_update_id, get_protocol_info,
}
use upnp.Datastore.Redis.{Redis}
use upnp.Xml.{XmlLib}
use upnp.Server.Http.{Request, Names, Call, write, parameter, status_ok, call}
use upnp.Server.Browse
use upnp.Server.Control.{cds_command, cms_command, cds_method, cms_method, cds, cms, write_some}

-- A property of the calls that a POST request may make.
module _ (r : Redis) (db : r.Db) (xml : XmlLib) (http_names : Names) (config : Config)
    (P : Call → Type 0) (writes : (text : String) → P (write text))
    (is_xml : P (parameter http_names.content_type http_names.mime_xml)) (is_ok : P status_ok) where
  written :
      (text : Result (Option String)) (calls : List Call)
      → All P calls
      → All P ((lift text >>= write_some) calls).1
  unfolding write_some call
  written (err e) calls h = h
  written (ok none) calls h = h
  written (ok (some text)) calls h = All-append P calls (write text ∷ []) h (writes text, tt)

  cds_command-All :
      (type : CommandType) (values : StdMap String)
      → All P
          (cds_command r db xml http_names config (record { type = type; values = values }) []).1
  unfolding cds_command call
  cds_command-All browse values =
      written (Browse.browse r db xml config (record { type = browse; values = values })) [] tt
  cds_command-All sort_capabilities values = (writes _, tt)
  cds_command-All search_capabilities values = (writes _, tt)
  cds_command-All system_update_id values = (writes _, tt)
  cds_command-All _ values = tt

  cms_command-All :
      (type : CommandType) (values : StdMap String)
      → All P (cms_command r db xml http_names (record { type = type; values = values }) []).1
  unfolding cms_command call
  cms_command-All get_protocol_info values = (writes _, (is_xml, (is_ok, tt)))
  cms_command-All _ values = tt

  -- The POST branches, for what `Server::parse` gives.
  cds_parsed-All :
      (parsed : Result UpnpCommand)
      → All P ((lift parsed >>= cds_command r db xml http_names config) []).1
  cds_parsed-All (err e) = tt
  cds_parsed-All (ok c) = cds_command-All c.type c.values

  cms_parsed-All :
      (parsed : Result UpnpCommand) → All P ((lift parsed >>= cms_command r db xml http_names) []).1
  cms_parsed-All (err e) = tt
  cms_parsed-All (ok c) = cms_command-All c.type c.values

  -- The type of the content is set behind what returned.
  typed :
      (result : Result (Unit {0}) × List Call)
      → All P result.1
      → All P
          (continue result.0 result.1
            (λ _. call (parameter http_names.content_type http_names.mime_xml))).1
  unfolding call
  typed (err e, calls) h = h
  typed (ok _, calls) h =
      All-append P calls (parameter http_names.content_type http_names.mime_xml ∷ []) h (is_xml, tt)

  pub cds_post-All :
      (request : Request)
      → request.method ≡ "POST"
      → All P (cds r db xml http_names config request []).1
  unfolding cds cds_method
  cds_post-All request post = rw post (
      typed ((lift (parse_request xml request.str) >>= cds_command r db xml http_names config) [])
        (cds_parsed-All (parse_request xml request.str)))

  pub cms_post-All :
      (request : Request)
      → request.method ≡ "POST"
      → All P (cms r db xml http_names config request []).1
  unfolding cms cms_method
  cms_post-All request post = rw post (
      typed ((lift (parse_request xml request.str) >>= cms_command r db xml http_names) [])
        (cms_parsed-All (parse_request xml request.str)))
