-- ===== src/Ssdp/Server/Replies.antt =====
-- What `SSDPServerImpl::handle_receive` answers.
use upnp.Prelude.{
  String, ◌≡◌, ◌≢◌, refl, ◌↔◌, inl, inr, Bool-cases, true, false, ◌==◌, Option, none, some, List,
  [], ◌∷◌, ◌++◌, map, ok, err, assertion, eq_iff, arith,
}
use mathlib.Core.List.{append_assoc, append-nil}
use upnp.Prelude.StdMap.{StdMap, find}
use upnp.Prelude.Text.{contains}
use upnp.Config.{Config}
use upnp.Server.Http.{Request}
use upnp.Ssdp.Headers.{
  Host, usn, ssdp_header_usn, ssdp_header_st, ssdp_request_line_ok, ssdp_ns_all, ssdp_msearch,
  ssdp_notify, create_header, create_response, anounce_headers, suppress_headers,
}
use upnp.Ssdp.Headers.Usn.{
  IsDistinct, usn-contains, create_response-usn, anounce_headers-usn, suppress_headers-usn,
}
use upnp.Ssdp.Server.{
  Datagram, reply, Network, reply_each, reply_found, send_response, handle_search, handle_receive,
}

-- The headers of the messages that a server of this configuration sends.
pub data OwnHeaders (h : Host) (config : Config) : StdMap String → Type 0 where
  response : (nt location : String) → OwnHeaders h config (create_response h config nt location)
  announcement : (nt location : String) → OwnHeaders h config (anounce_headers h config nt location)
  suppression : (nt : String) → OwnHeaders h config (suppress_headers h config nt)

ne_of : {s t : String} → s ≢ t → (s == t) ≡ false
ne_of {s} {t} ne = ground (arith, eq_iff s t)

module _ (net : Network) (h : Host) (config : Config) (namespaces : StdMap String) where
  own_usn :
      (distinct : IsDistinct h) (headers : StdMap String)
      → OwnHeaders h config headers
      → (nt : String) × (find (h.to_upper ssdp_header_usn) headers ≡ some (usn config nt))
  own_usn distinct headers (response nt location) =
      (nt, create_response-usn h distinct config nt location)
  own_usn distinct headers (announcement nt location) =
      (nt, anounce_headers-usn h distinct config nt location)
  own_usn distinct headers (suppression nt) = (nt, suppress_headers-usn h distinct config nt)

  -- A request with the USN of a message that the server itself sends (an answer, an announcement
  -- or a suppression) is ignored, where the headers that are set after the USN have other names.
  pub own_message_ignored :
      (distinct : IsDistinct h) (headers : StdMap String) (request : Request) (sent : List Datagram)
      → OwnHeaders h config headers
      → find (h.to_upper ssdp_header_usn) headers ≡ some (request.parameter ssdp_header_usn)
      → handle_receive net h config namespaces request sent ≡ (ok tt, sent)
  unfolding handle_receive
  own_message_ignored distinct headers request sent own found =
      let (nt, known) = own_usn distinct headers own in
      let same : request.parameter ssdp_header_usn ≡ usn config nt = cc in
      rw (same, usn-contains config nt)

  -- The answer to a search for a namespace.
  abbrev pub answer : String × String → Datagram
  answer (nt, location) =
      reply (create_header ssdp_request_line_ok (create_response h config nt location))

  reply_each-answers :
      (asked : StdMap String) (sent : List Datagram)
      → ((sent : List Datagram) (d : Datagram) → net.takes sent d ≡ true)
      → reply_each net h config asked sent ≡ (ok tt, sent ++ map answer asked)
  unfolding reply_each send_response
  reply_each-answers [] sent takes = rw append-nil
  reply_each-answers ((nt, location) ∷ asked) sent takes =
      let rest = reply_each-answers asked (sent ++ answer (nt, location) ∷ []) takes in
      rw takes (rw append_assoc at rest)

  reply_each-ok :
      (asked : StdMap String) (sent : List Datagram)
      → (reply_each net h config asked sent).0 ≡ ok tt
  unfolding reply_each send_response
  reply_each-ok [] sent = refl
  reply_each-ok ((nt, location) ∷ asked) sent = reply_each-ok asked _

  reply_found-ok :
      (st : String) (found : Option String) (sent : List Datagram)
      → (reply_found net h config st found sent).0 ≡ ok tt
  unfolding reply_found send_response
  reply_found-ok st none sent = refl
  reply_found-ok st (some location) sent = refl

  pub handle_search-ok :
      (st : String) (sent : List Datagram)
      → (handle_search net h config namespaces st sent).0 ≡ ok tt
  unfolding handle_search
  handle_search-ok st sent = elim (Bool-cases (st == ssdp_ns_all)) [
    | inl e ↦ rw e (reply_each-ok namespaces sent)
    | inr e ↦ rw e (reply_found-ok st (find st namespaces) sent)
  ]

  -- A search of another device for all services is answered once for each registered namespace, in
  -- their order, where the network takes every datagram.
  pub search_all_answers :
      (request : Request) (sent : List Datagram)
      → ((sent : List Datagram) (d : Datagram) → net.takes sent d ≡ true)
      → contains (request.parameter ssdp_header_usn) config.uuid ≡ false
      → request.method ≡ ssdp_msearch
      → request.parameter ssdp_header_st ≡ ssdp_ns_all
      → handle_receive net h config namespaces request sent ≡ (ok tt, sent ++ map answer namespaces)
  unfolding handle_receive handle_search
  search_all_answers request sent takes other m st =
      rw (other, m, st) (reply_each-answers namespaces sent takes)

  -- Whatever the network takes, the assertion of handle_receive fails exactly for a request of
  -- another device that is neither a search nor a notification.
  pub handle_receive-err_iff :
      (request : Request) (sent : List Datagram)
      → ((handle_receive net h config namespaces request sent).0 ≡ err assertion) ↔ (
          (contains (request.parameter ssdp_header_usn) config.uuid ≡ false)
          × (request.method ≢ ssdp_msearch)
          × (request.method ≢ ssdp_notify))
  unfolding handle_receive
  handle_receive-err_iff request sent = (
    λ e. elim (Bool-cases (contains (request.parameter ssdp_header_usn) config.uuid)) [
      | inl own ↦ cc (rw own at e)
      | inr other ↦ (
        other,
        λ m. cc (rw (other, m, handle_search-ok (request.parameter ssdp_header_st) sent) at e),
        λ m. cc (rw (other, m) at e),
      )
    ],
    λ (other, search, notify). rw (other, ne_of search, ne_of notify),
  )
