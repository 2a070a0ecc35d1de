-- ===== src/Ssdp/Connection/Client.antt =====
-- `SSDPClientConnection` of src/ssdpclientconnection.cpp, which sends one search and receives for five
-- seconds, and `SSDPServerImpl::search` and `handle_response` of src/ssdpserver.cpp.
pub mod Search
pub mod Scope
use upnp.Prelude.{
  String, Bool, false, not, true, ◌&&◌, List, [], ◌∷◌, ◌++◌, Fault, null_pointer, system_error,
  Result, ok, err, ◌>>◌ as ◌>>>>◌, if◌then◌else◌,
}
use upnp.Prelude.Exec.{Exec, pure, lift, ◌>>=◌}
use upnp.Prelude.Number.{stoi}
use upnp.Prelude.StdMap.{StdMap}
use upnp.Prelude.Text.{contains}
use upnp.Config.{Config}
use upnp.Ssdp.Headers.{
  Host, ssdp_header_usn, ssdp_header_search_request_line, create_header, search_headers,
}
use upnp.Ssdp.Server.{Datagram, multicast, Network}
use upnp.Ssdp.Connection.{Connection, Completion, failed, received, rearm}

module _ {S M : Type 0} (handler : M → S → Result (Unit {0}) × S) where
  -- `handle_receive_from`
  unfoldable pub handle_response_from : Completion M → S → Result (Unit {0}) × Connection S
  handle_response_from failed s = (ok tt, record { pending = false; state = s })
  handle_response_from (received m) s = rearm handler (handler m s)

  -- What goes on where a handler returns; an exception ends the service.
  abbrev go_on :
      Result (Unit {0}) × Connection S
      → (S → Result (Unit {0}) × Connection S)
      → Result (Unit {0}) × Connection S
  go_on (ok _, c) next = next c.state
  go_on (err e, c) next = (err e, c)

  -- `io_service::run` on the thread of the connection: the datagrams that come in until the socket is
  -- closed, which ends the pending operation with an error.
  unfoldable pub run : List M → S → Result (Unit {0}) × Connection S
  unfolding handle_response_from
  run [] s = handle_response_from failed s
  run (m ∷ ms) s = go_on (handle_response_from (received m) s) (run ms)

-- A response, as the HTTP parser reads it.
pub record SearchResponse : Type 0 where
  pub is_ok : Bool
  pub parameter : String → String

-- `SSDPServerImpl::handle_response`; what it would do with a response of another device is left out
-- of the source.
unfoldable pub handle_response :
    Config → SearchResponse → List SearchResponse → Result (Unit {0}) × List SearchResponse
unfolding contains
handle_response config response seen =
    if response.is_ok
    then (if not (contains (response.parameter ssdp_header_usn) config.uuid)
        then (ok tt, seen)
        else (ok tt, seen))
    else (ok tt, seen)

-- A client connection: whether its thread has been made, and what has been sent.
pub record ClientConnection : Type 0 where
  pub ssdp_runner : Bool
  pub sent : List Datagram

-- The constructor, which makes no thread.
unfoldable pub new_client : List Datagram → ClientConnection
new_client sent = record { ssdp_runner = false; sent = sent }

-- The destructor, which joins the thread.
unfoldable pub destroy_client : ClientConnection → Result (Unit {0})
destroy_client c = if c.ssdp_runner then ok tt else err null_pointer

-- The end of the scope of a connection, which is left by a return or by an exception.
unfoldable pub leave_scope :
    Result (Unit {0}) × ClientConnection → Result (Unit {0}) × List Datagram
unfolding destroy_client
leave_scope (result, c) = (destroy_client c >>>> result, c.sent)

module _ (net : Network) (h : Host) (config : Config) where
  -- `SSDPClientConnection::send`: the thread is made once the text has been read as an address
  -- and the socket is open and bound.
  unfoldable pub client_send : String → StdMap String → Exec ClientConnection (Unit {0})
  unfolding create_header
  client_send request_line headers c =
      let d = multicast (create_header request_line headers) in
      if net.is_address config.multicast_address && net.client_opens c.sent
      then (if net.takes c.sent d
          then (ok tt, record { ssdp_runner = true; sent = c.sent ++ d ∷ [] })
          else (err system_error, record c { ssdp_runner = true }))
      else (err system_error, c)

  -- The function that `search` runs asynchronously.
  unfoldable pub search_task : String → Exec (List Datagram) (Unit {0})
  unfolding stoi client_send search_headers new_client leave_scope
  search_task service = do
    port ← lift (stoi config.multicast_port)
    λ sent. leave_scope (
        client_send ssdp_header_search_request_line (search_headers h config service)
          (new_client sent))

  -- The future that keeps an exception is dropped; undefined behaviour is not kept.
  abbrev pub dropped : Result (Unit {0}) → Result (Unit {0})
  dropped (err null_pointer) = err null_pointer
  dropped _ = ok tt

  -- `SSDPServerImpl::search`
  unfoldable pub search : String → Exec (List Datagram) (Unit {0})
  unfolding search_task
  search service sent = (dropped (search_task service sent).0, (search_task service sent).1)
