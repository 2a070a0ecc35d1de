-- ===== src/Server/Control.antt =====
-- The handlers `cds`, `cms` and `config` of `Server`, in src/server.cpp and src/server.h.
pub mod Post
pub mod Subscriptions
use Prim.Native.String.{◌++◌}
use upnp.Prelude.{
  ℕ, String, Bool, true, false, ◌==◌, Option, none, some, List, [], ◌∷◌, Result, ok, err,
  if◌then◌else◌,
}
use upnp.Prelude.Text.{is_empty}
use upnp.Prelude.Exec.{Exec, ◌>>=◌, ◌>>◌, pure, lift}
use upnp.Config.{Config}
use upnp.Datastore.Redis.{Redis}
use upnp.Datastore.Data
use upnp.Xml.{XmlLib}
use upnp.Command.{
  UpnpCommand, CommandType, browse, sort_capabilities, search_capabilities, system_update_id,
  get_protocol_info, parse_request,
}
use upnp.Server.Http.{Request, Names, Call, write, parameter, status_ok, publish, Handler, call}
use upnp.Server.Documents.{protocol_info, description_text}
use upnp.Server.Callback.{strip}
use upnp.Server.Browse

-- The callback of a subscription goes to a channel, unless the request has none.
unfoldable pub publish_callback : String → Request → Handler
unfolding is_empty call strip
publish_callback channel request =
    if is_empty (request.parameter "Callback")
    then pure tt
    else (lift (strip (request.parameter "Callback")) >>= λ callback.
        call (publish channel callback))

unfoldable pub sort_response : String
sort_response =
    "<?xml version=\"1.0\" encoding=\"utf-8\"?>\n<s:Envelope xmlns:s=\"http://schemas.xmlsoap.org/soap/envelope/\" s:encodingStyle=\"http://schemas.xmlsoap.org/soap/encoding/\"><s:Body><u:GetSortCapabilitiesResponse xmlns:u=\"urn:schemas-upnp-org:service:ContentDirectory:1\"><SortCaps>dc:title,dc:date,upnp:class,upnp:album,upnp:originalTrackNumber</SortCaps></u:GetSortCapabilitiesResponse></s:Body></s:Envelope>"

unfoldable pub search_response : String
search_response =
    "<?xml version=\"1.0\" encoding=\"utf-8\"?>\n<s:Envelope xmlns:s=\"http://schemas.xmlsoap.org/soap/envelope/\" s:encodingStyle=\"http://schemas.xmlsoap.org/soap/encoding/\"><s:Body><u:GetSearchCapabilitiesResponse xmlns:u=\"urn:schemas-upnp-org:service:ContentDirectory:1\"><SearchCaps>dc:creator,dc:date,dc:title,upnp:album,upnp:actor,upnp:artist,upnp:class,upnp:genre,@refID</SearchCaps></u:GetSearchCapabilitiesResponse></s:Body></s:Envelope>"

unfoldable pub update_response : String
update_response =
    "<?xml version=\"1.0\" encoding=\"utf-8\"?>\n                        <s:Envelope xmlns:s=\"http://schemas.xmlsoap.org/soap/envelope/\" s:encodingStyle=\"http://schemas.xmlsoap.org/soap/encoding/\"><s:Body><u:GetSystemUpdateIDResponse xmlns:u=\"urn:schemas-upnp-org:service:ContentDirectory:1\"><Id>32</Id></u:GetSystemUpdateIDResponse></s:Body></s:Envelope>"

-- What a browse request writes, if anything.
unfoldable pub write_some : Option String → Handler
unfolding call
write_some none = pure tt
write_some (some text) = call (write text)

module _ (r : Redis) (db : r.Db) (xml : XmlLib) (names : Names) where
  -- The POST branch of `cds`.
  unfoldable pub cds_command : Config → UpnpCommand → Handler
  unfolding Browse.browse write_some call
  cds_command config c = elim (c.type) [
    | browse ↦ lift (Browse.browse r db xml config c) >>= write_some
    | sort_capabilities ↦ call (write sort_response)
    | search_capabilities ↦ call (write search_response)
    | system_update_id ↦ call (write update_response)
    | _ ↦ pure tt
  ]

  unfoldable pub cds_method : Config → Request → Handler
  unfolding call publish_callback parse_request cds_command
  cds_method config request =
      if request.method == "SUBSCRIBE"
      then (do
        call (parameter names.content_length "0")
        call (parameter "Timeout" "Second-1800")
        publish_callback "CDS_SUBSCRIBE" request)
      else if request.method == "UNSUBSCRIBE"
      then (do
        call (parameter names.content_length "0")
        call (parameter "SID" ("uuid:" ++ config.uuid))
        call (parameter "EXT" "")
        publish_callback "CDS_UNSUBSCRIBE" request)
      else if request.method == "POST"
      then (do c ← lift (parse_request xml request.str); cds_command config c)
      else pure tt

  unfoldable pub cds : Config → Request → Handler
  unfolding cds_method call
  cds config request = do
    cds_method config request
    call (parameter names.content_type names.mime_xml)

  -- The POST branch of `cms`.
  unfoldable pub cms_command : UpnpCommand → Handler
  unfolding call protocol_info
  cms_command c = elim (c.type) [
    | get_protocol_info ↦ do
      call (write (protocol_info xml))
      call (parameter names.content_type names.mime_xml)
      call status_ok
    | _ ↦ pure tt
  ]

  unfoldable pub cms_method : Config → Request → Handler
  unfolding call publish_callback parse_request cms_command
  cms_method config request =
      if request.method == "SUBSCRIBE"
      then (do
        call (parameter names.content_length "0")
        call (parameter "SID" ("uuid:" ++ config.uuid))
        call (parameter "Timeout" "Second-1800")
        publish_callback "CMS_SUBSCRIBE" request)
      else if request.method == "UNSUBSCRIBE"
      then (do
        call (parameter names.content_length "0")
        call (parameter "SID" ("uuid:" ++ config.uuid))
        call (publish "CMS_UNSUBSCRIBE" request.str))
      else if request.method == "POST"
      then (do c ← lift (parse_request xml request.str); cms_command c)
      else pure tt

  unfoldable pub cms : Config → Request → Handler
  unfolding cms_method call
  cms config request = do
    cms_method config request
    call (parameter names.content_type names.mime_xml)

  -- `Server::config`
  unfoldable pub config : Handler
  unfolding call Data.config
  config = do
    text ← lift (Data.config r db)
    call (write text)
    call (parameter names.content_type names.mime_json)
    call (parameter "Access-Control-Allow-Origin" "*")

  -- `Server::description`
  unfoldable pub description : Config → Handler
  unfolding call description_text
  description config = do
    call (write (description_text xml config))
    call (parameter names.content_type names.mime_xml)
    call (parameter "EXT" "")
