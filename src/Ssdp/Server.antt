-- ===== src/Ssdp/Server.antt =====
-- `SSDPServerImpl` of src/ssdpserver.h and src/ssdpserver.cpp.
pub mod Registered
pub mod Replies
pub mod Robust
pub mod Announcements
pub mod Thread
pub mod Threads
pub mod Lifetime
use upnp.Prelude.{
  ℕ, zero, suc, String, Bool, true, false, not, ◌==◌, Option, none, some, List, [], ◌∷◌, ◌++◌, ◌-◌,
  ◌/◌, ◌%◌, ◌^◌, Result, ok, err, assertion, system_error, bad_cast, ltb, leb, if◌then◌else◌,
}
use upnp.Prelude.Exec.{Exec, ◌>>=◌, ◌>>◌, pure, lift}
use upnp.Prelude.Number.{ℤ}
use upnp.Prelude.StdMap.{StdMap, find, put}
use upnp.Prelude.Text.{contains, begins_with, drop_prefix}
use upnp.Config.{Config}
use upnp.Server.Http.{Request}
use upnp.Ssdp.Headers.{
  Host, network_count, ssdp_header_usn, ssdp_header_st, ssdp_request_line_ok, ssdp_ns_all,
  ssdp_msearch, ssdp_notify, ssdp_header_request_line, ssdp_option_max_age, create_header,
  create_response, anounce_headers, suppress_headers,
}

-- A datagram: to the multicast group, or back to the sender of the request.
pub data Datagram : Type 0 where
  multicast reply : (text : String) → Datagram

-- The sockets: whether a text is an address; whether the calls that open the socket of the server, bind
-- it and join the group return; whether those that open and bind the socket of a client do; and whether a
-- datagram is taken after the ones sent.
pub record Network : Type 0 where
  pub is_address : String → Bool
  pub server_opens : Bool
  pub client_opens : List Datagram → Bool
  pub takes : List Datagram → Datagram → Bool

-- A member function of the server, by the datagrams that it sends.
abbrev pub Sending : Type 0
Sending = Exec (List Datagram) (Unit {0})

-- `namespaces[ns] = location`
unfoldable pub register_namespace : String → String → StdMap String → StdMap String
unfolding put
register_namespace ns location namespaces = put ns location namespaces

-- The loop of the constructor.
unfoldable pub register_all : StdMap String → StdMap String → StdMap String
unfolding register_namespace
register_all [] namespaces = namespaces
register_all ((ns, location) ∷ rest) namespaces =
    register_all rest (register_namespace ns location namespaces)

-- `for( size_t i = 0; i < n; i++ )`
unfoldable pub times : ℕ → Sending → Sending
times zero m = pure tt
times (suc n) m = do m; times n m

module _ (net : Network) (h : Host) (config : Config) where
  -- `SSDPServerConnection::send( request_line, headers )`
  unfoldable pub send : String → StdMap String → Sending
  unfolding create_header
  send request_line headers sent =
      let d = multicast (create_header request_line headers) in
      if net.is_address config.multicast_address
      then (if net.takes sent d then (ok tt, sent ++ d ∷ []) else (err system_error, sent))
      else (err system_error, sent)

  -- `SSDPServerConnection::send( response )` catches the error.
  unfoldable pub send_response : StdMap String → Sending
  unfolding create_header
  send_response headers sent =
      let d = reply (create_header ssdp_request_line_ok headers) in
      (ok tt, if net.takes sent d then sent ++ d ∷ [] else sent)

  unfoldable pub send_anounce : String → String → Sending
  unfolding send anounce_headers
  send_anounce nt location = send ssdp_header_request_line (anounce_headers h config nt location)

  unfoldable pub send_suppress : String → Sending
  unfolding send suppress_headers
  send_suppress nt = send ssdp_header_request_line (suppress_headers h config nt)

  -- The loops of `suppress` and of `announce`.
  unfoldable pub suppress_each : StdMap String → Sending
  unfolding send_suppress
  suppress_each [] = pure tt
  suppress_each ((nt, location) ∷ rest) = do send_suppress nt; suppress_each rest

  unfoldable pub anounce_each : StdMap String → Sending
  unfolding send_anounce
  anounce_each [] = pure tt
  anounce_each ((nt, location) ∷ rest) = do send_anounce nt location; anounce_each rest

  unfoldable pub suppress : StdMap String → Sending
  unfolding times suppress_each
  suppress namespaces = times network_count (suppress_each namespaces)

  unfoldable pub announce_all : StdMap String → Sending
  unfolding times anounce_each
  announce_all namespaces = times network_count (anounce_each namespaces)

  unfoldable pub announce : StdMap String → Sending
  unfolding suppress announce_all
  announce namespaces = do suppress namespaces; announce_all namespaces

  unfoldable pub reply_each : StdMap String → Sending
  unfolding send_response create_response
  reply_each [] = pure tt
  reply_each ((nt, location) ∷ rest) = do
    send_response (create_response h config nt location)
    reply_each rest

  -- The answer to a search for one namespace.
  unfoldable pub reply_found : String → Option String → Sending
  unfolding send_response create_response
  reply_found st none = pure tt
  reply_found st (some location) = send_response (create_response h config st location)

  -- The M-SEARCH branch of `handle_receive`.
  unfoldable pub handle_search : StdMap String → String → Sending
  unfolding reply_each find reply_found
  handle_search namespaces st =
      if st == ssdp_ns_all then reply_each namespaces else reply_found st (find st namespaces)

  unfoldable pub handle_receive : StdMap String → Request → Sending
  unfolding contains handle_search
  handle_receive namespaces request =
      if contains (request.parameter ssdp_header_usn) config.uuid
      then pure tt
      else if request.method == ssdp_msearch
      then handle_search namespaces (request.parameter ssdp_header_st)
      else if request.method == ssdp_notify
      then pure tt
      else lift (err assertion)

-- The difference of two clock readings in nanoseconds as seconds of type `unsigned int`.
unfoldable pub seconds : (announce_time end_time : ℕ) → ℕ
seconds announce_time end_time =
    if leb announce_time end_time
    then (end_time - announce_time) / 1000000000 % 2 ^ 32
    else (2 ^ 32 - (announce_time - end_time) / 1000000000 % 2 ^ 32) % 2 ^ 32

module _ (net : Network) (h : Host) (config : Config) (namespaces : StdMap String) where
  -- The body of the loop of `annouceThread`, between two readings of the clock; the result is the new
  -- `_announce_time`.
  unfoldable pub reannounce : (announce_time end_time now : ℕ) → Exec (List Datagram) ℕ
  unfolding seconds announce_all
  reannounce announce_time end_time now =
      if leb 60 (seconds announce_time end_time)
      then (do announce_all net h config namespaces; pure now)
      else pure announce_time

  -- `annouceThread` for the readings that its passes take until the flag is reset.
  unfoldable pub announce_thread : ℕ → List (ℕ × ℕ) → Exec (List Datagram) ℕ
  unfolding reannounce
  announce_thread announce_time [] = pure announce_time
  announce_thread announce_time ((end_time, now) ∷ rest) = do
    announce_time' ← reannounce announce_time end_time now
    announce_thread announce_time' rest

-- `parse_keep_alive`, over `boost::erase_all_copy` and `boost::lexical_cast< time_t >`.
module _ (erase_all : String → String → String) (lexical_cast : String → Option ℤ) where
  unfoldable pub parse_keep_alive : String → Result ℤ
  unfolding begins_with drop_prefix
  parse_keep_alive cache_control =
      let clean = erase_all cache_control " " in
      if begins_with clean ssdp_option_max_age
      then elim (lexical_cast (drop_prefix clean ssdp_option_max_age)) [
        | none ↦ err bad_cast
        | some t ↦ ok t
      ]
      else err assertion
