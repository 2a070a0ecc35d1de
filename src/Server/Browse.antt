-- ===== src/Server/Browse.antt =====
-- The browse action of `Server::cds` in src/server.cpp.
pub mod Objects
pub mod Page
pub mod Paging
pub mod Response
pub mod Unread
use upnp.Prelude.{
  ℕ, zero, suc, String, Bool, true, false, ◌||◌, ◌&&◌, ◌==◌, Option, none, some, List, [], ◌∷◌,
  Result, ok, err, ◌>>=◌, if◌then◌else◌,
}
use upnp.Prelude.Exec
use upnp.Prelude.Exec.{Exec, pure, lift}
use upnp.Prelude.Number.{ℤ, pos, negsuc, stoi}
use upnp.Config.{Config}
use upnp.Datastore.Param
use upnp.Datastore.NodeType
use upnp.Datastore.NodeType.{NodeType, album, audio}
use upnp.Datastore.Redis.{Redis}
use upnp.Datastore.Data
use upnp.Xml.{XmlLib}
use upnp.Command.{UpnpCommand, contains, get}
use upnp.Didl
use upnp.Didl.{Didl, new_didl}
use upnp.Didl.Write.{write}
use upnp.Server.Soap.{soap_envelope}

-- `( contains( key ) ? std::stoi( get( key ) ) : 0 )`
unfoldable pub int_argument : String → UpnpCommand → Result ℤ
unfolding contains get stoi
int_argument key c = if contains key c then stoi (get key c).0 else ok (pos 0)

-- `if( _count == 0 ) _count = -1;`
unfoldable pub browse_count : ℤ → ℤ
browse_count (pos zero) = negsuc 0
browse_count n = n

-- `if( _object_id == "" || _object_id == "0" ) { _object_id = "root"; }`
unfoldable pub object_key : String → String
object_key object_id = if object_id == "" || object_id == "0" then "root" else object_id

-- `contains( BROWSE_FLAG ) && get( BROWSE_FLAG ) == flag`
unfoldable pub has_flag : String → UpnpCommand → Bool
unfolding contains get
has_flag flag c = contains "BrowseFlag" c && (get "BrowseFlag" c).0 == flag

module _ (r : Redis) (db : r.Db) where
  -- The callback that `children` and `files` call for each key.
  unfoldable pub write_each : List String → Exec Didl (Unit {0})
  unfolding Data.node write
  write_each [] d = (ok tt, d)
  write_each (key ∷ keys) d =
      Exec.continue (Data.node r db key) d
        (λ values. Exec.◌>>=◌ (write r db key values) (λ _. write_each keys))

  -- The keys that a node's children are taken from.
  unfoldable pub browse_keys : String → ℤ → ℤ → Result (List String)
  unfolding Data.get Data.files Data.children NodeType.parse
  browse_keys key index count = elim (NodeType.parse (Data.get r db key Param.cls)) [
    | album ↦ Data.files r db key audio index count
    | _ ↦ Data.children r db key index count "alpha" "asc" ""
  ]

  abbrev outcome : Result (Unit {0}) × Didl → Result Didl
  outcome (ok _, d) = ok d
  outcome (err e, d) = err e

  unfoldable pub browse_metadata : Config → String → String → Result Didl
  unfolding Data.node write new_didl
  browse_metadata config object_id key =
      Data.node r db key >>= λ values. outcome (write r db object_id values (new_didl config))

  unfoldable pub browse_children : Config → String → ℤ → ℤ → Result Didl
  unfolding browse_keys write_each new_didl
  browse_children config key index count =
      browse_keys key index count >>= λ keys. outcome (write_each keys (new_didl config))

  -- The two flags of a browse request; nothing is written for any other.
  unfoldable pub browse_object :
      XmlLib → Config → UpnpCommand → String → ℤ → ℤ → Result (Option String)
  unfolding object_key has_flag browse_metadata browse_children Data.children_count soap_envelope
  browse_object xml config c object_id index count =
      if has_flag "BrowseMetadata" c
      then (browse_metadata config object_id (object_key object_id) >>= λ d.
          ok (some (soap_envelope xml (Didl.str xml d) (pos 1) (pos 1))))
      else if has_flag "BrowseDirectChildren" c
      then (browse_children config (object_key object_id) index count >>= λ d. ok (
          some (
            soap_envelope xml (Didl.str xml d) (pos (Didl.count d))
              (Data.children_count r db (object_key object_id)))))
      else ok none

  -- What is written to the response: an envelope, or nothing.
  unfoldable pub browse : XmlLib → Config → UpnpCommand → Result (Option String)
  unfolding int_argument browse_count browse_object
  browse xml config c = int_argument "StartingIndex" c >>= λ index.
      int_argument "RequestedCount" c >>= λ requested.
      browse_object xml config (get "ObjectID" c).1 (get "ObjectID" c).0 index
        (browse_count requested)
