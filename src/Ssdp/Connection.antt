-- ===== src/Ssdp/Connection.antt =====
-- `SSDPServerConnection` of src/ssdpserverconnection.cpp: receiving datagrams.
pub mod Receiving
pub mod Client
use upnp.Prelude.{
  String, Bool, true, false, ◌&&◌, Option, none, some, List, [], ◌∷◌, ◌++◌, Fault, Result, ok, err,
  system_error, if◌then◌else◌,
}
use upnp.Prelude.StdMap.{StdMap}
use upnp.Config.{Config}
use upnp.Ssdp.Headers.{Host, ssdp_header_search_request_line, create_header, search_headers}
use upnp.Ssdp.Server.{Datagram, multicast, Network}

-- A socket that receives: whether a receive operation is pending, and what its handler has done so far.
pub record Connection (S : Type 0) : Type 0 where
  pub pending : Bool
  pub state : S

-- How a receive operation completes: with an error, or with a message, as the HTTP parser reads it.
pub data Completion (M : Type 0) : Type 0 where
  failed : Completion M
  received : M → Completion M

module _ {S M : Type 0} (handler : M → S → Result (Unit {0}) × S) where
  -- The next receive operation is started where the handler returns.
  abbrev pub rearm : Result (Unit {0}) × S → Result (Unit {0}) × Connection S
  rearm (ok _, s) = (ok tt, record { pending = true; state = s })
  rearm (err e, s) = (err e, record { pending = false; state = s })

  -- `handle_receive_from`, which runs as the pending operation has completed.
  unfoldable pub handle_receive_from : Completion M → S → Result (Unit {0}) × Connection S
  handle_receive_from failed s = (ok tt, record { pending = false; state = s })
  handle_receive_from (received m) s = rearm (handler m s)

  -- A step of the service: a pending operation completes, and its handler runs.
  pub data Step : Connection S → Connection S → Type 0 where
    completes :
        (completion : Completion M) (s : S)
        → Step (record { pending = true; state = s }) (handle_receive_from completion s).1

-- The first operation, which the constructor starts where both texts are addresses and the socket opens,
-- binds and joins the group.
unfoldable pub open_connection : {S : Type 0} → Network → Config → S → Result (Connection S)
open_connection net config s =
    if net.is_address config.multicast_address
      && net.is_address config.listen_address
      && net.server_opens
    then ok (record { pending = true; state = s })
    else err system_error
