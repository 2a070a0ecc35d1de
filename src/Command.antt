-- ===== src/Command.antt =====
-- `UpnpCommand` of src/server.h and src/server.cpp, and `Server::parse`.
pub mod Laws
use Prim.Native.String.{◌++◌}
use upnp.Prelude.{
  String, Bool, true, false, Option, none, some, List, [], ◌∷◌, ◌==◌, Result, ok, err, parse_error,
  null_pointer, if◌then◌else◌,
}
use upnp.Prelude.StdMap
use upnp.Prelude.StdMap.{StdMap}
use upnp.Prelude.Text.{c_str}
use upnp.Xml.{XmlNode, local_name, value, for_children, Parsed, malformed, no_root, root, XmlLib}

pub data CommandType : Type 0 where
  nothing browse get_protocol_info sort_capabilities search_capabilities system_update_id
        current_connection_ids current_connection_info :
      CommandType

pub record UpnpCommand : Type 0 where
  pub type : CommandType
  pub values : StdMap String

-- `UpnpCommand::str( t )`
unfoldable pub str : CommandType → String
str browse = "BrowseFlag"
str get_protocol_info = "GetProtocolInfo"
str sort_capabilities = "GetSortCapabilities"
str search_capabilities = "GetSearchCapabilities"
str system_update_id = "GetSystemUpdateID"
str current_connection_ids = "GetCurrentConnectionIDs"
str current_connection_info = "GetCurrentConnectionInfo"
str nothing = "(none)"

-- The tests of `UpnpCommand::parse` on a text that has no NUL.
unfoldable pub parse_name : String → CommandType
parse_name name =
    if name == "Browse"
    then browse
    else if name == "GetSearchCapabilities"
    then search_capabilities
    else if name == "GetSortCapabilities"
    then sort_capabilities
    else if name == "GetSystemUpdateID"
    then system_update_id
    else if name == "GetCurrentConnectionIDs"
    then current_connection_ids
    else if name == "GetCurrentConnectionInfo"
    then current_connection_info
    else if name == "GetProtocolInfo"
    then get_protocol_info
    else nothing

-- `UpnpCommand::parse`: `strcmp` compares up to the first NUL.
unfoldable pub parse : String → CommandType
unfolding c_str parse_name
parse command = parse_name (c_str command)

unfoldable pub contains : String → UpnpCommand → Bool
unfolding StdMap.find
contains key c = elim (StdMap.find key c.values) [ none ↦ false | some v ↦ true ]

-- `get` reads by `operator[]`, which inserts an empty text for a key that is not there.
unfoldable pub get : String → UpnpCommand → String × UpnpCommand
unfolding StdMap.find StdMap.put
get key c = elim (StdMap.find key c.values) [
  | none ↦ ("", record c { values = StdMap.put key "" c.values })
  | some v ↦ (v, c)
]

-- The pairs of `operator<<`.
print_values : StdMap String → String
print_values [] = "}"
print_values ((k, v) ∷ rest) = ", \"" ++ (k ++ ("\": \"" ++ (v ++ ("\"" ++ print_values rest))))

-- `operator<<`, and `UpnpCommand::str()`
unfoldable pub print : UpnpCommand → String
unfolding str print_values
print c = "{\"type\":\"" ++ (str c.type ++ ("\"" ++ print_values c.values))

-- The innermost function of `Server::parse`: one argument of the action.
unfoldable pub parse_argument : XmlNode → UpnpCommand → UpnpCommand
unfolding StdMap.put
parse_argument flag_node c = record c {
  values = StdMap.put (local_name flag_node) (value flag_node) c.values;
}

unfoldable pub parse_action : XmlNode → UpnpCommand → UpnpCommand
unfolding parse parse_argument for_children
parse_action action_node c =
    for_children "*" action_node parse_argument (record c { type = parse (local_name action_node) })

unfoldable pub parse_body : XmlNode → UpnpCommand → UpnpCommand
unfolding parse_action for_children
parse_body body_node c = for_children "*" body_node parse_action c

-- `Server::parse`
unfoldable pub parse_request : XmlLib → String → Result UpnpCommand
unfolding parse_body for_children
parse_request xml body = elim (xml.parse (c_str body)) [
  | malformed ↦ err parse_error
  | no_root ↦ err null_pointer
  | root n ↦ ok (for_children "Body" n parse_body (record { type = nothing; values = [] }))
]
