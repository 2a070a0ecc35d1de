-- ===== src/Ssdp/Server/Robust.antt =====
-- How long the server receives.
use upnp.Prelude.{
  String, ◌≡◌, ◌⊎◌, inl, inr, refl, sym, ap, subst, true, Bool-cases, List, [], ◌∷◌, All, Result,
  ok,
}
use upnp.Prelude.StdMap.{StdMap}
use upnp.Prelude.Text.{contains}
use upnp.Config.{Config}
use upnp.Server.Http.{Request}
use upnp.Ssdp.Headers.{Host, ssdp_header_usn, ssdp_header_st, ssdp_msearch, ssdp_notify}
use upnp.Ssdp.Server.{Datagram, Network, handle_receive}
use upnp.Ssdp.Server.Replies.{handle_search-ok}
use upnp.Ssdp.Connection.{Connection, received, rearm, handle_receive_from}
use upnp.Ssdp.Connection.Client.Search.{handled}

-- The requests that SSDP knows, and those of the server itself.
abbrev pub IsKnown : Config → Request → Type 0
IsKnown config request =
    (contains (request.parameter ssdp_header_usn) config.uuid ≡ true)
    ⊎ (request.method ≡ ssdp_msearch)
    ⊎ (request.method ≡ ssdp_notify)

-- The messages that complete the receive operations of a connection, in order: each completes the one
-- that is pending, as the one before has left it.
module _ {S M : Type 0} (handler : M → S → Result (Unit {0}) × S) where
  pub data Hears : Connection S → List M → Connection S → Type 0 where
    stays : {c : Connection S} → Hears c [] c
    hears :
        (m : M) (s : S) {ms : List M} {c : Connection S}
        → Hears (handle_receive_from handler (received m) s).1 ms c
        → Hears (record { pending = true; state = s }) (m ∷ ms) c

module _ (net : Network) (h : Host) (config : Config) (namespaces : StdMap String) where
  handle_receive-ok :
      (request : Request) (sent : List Datagram)
      → IsKnown config request
      → (handle_receive net h config namespaces request sent).0 ≡ ok tt
  unfolding handle_receive
  handle_receive-ok request sent (inl own) = rw own refl
  handle_receive-ok request sent (inr (inl m)) =
      elim (Bool-cases (contains (request.parameter ssdp_header_usn) config.uuid)) [
        | inl own ↦ rw own refl
        | inr other ↦
            rw (other, m)
              (handle_search-ok net h config namespaces (request.parameter ssdp_header_st) sent)
      ]
  handle_receive-ok request sent (inr (inr n)) =
      elim (Bool-cases (contains (request.parameter ssdp_header_usn) config.uuid)) [
        | inl own ↦ rw own refl
        | inr other ↦ rw (other, n) refl
      ]

  abbrev pub listening : List Datagram → Connection (List Datagram)
  listening sent = record { pending = true; state = sent }

  abbrev handler : Request → List Datagram → Result (Unit {0}) × List Datagram
  handler = handle_receive net h config namespaces

  heard :
      (request : Request) (sent : List Datagram)
      → IsKnown config request
      → (handle_receive_from handler (received request) sent).1 ≡ listening (handler request sent).1
  unfolding handle_receive_from
  heard request sent known =
      ap (λ result. (rearm handler (result, (handler request sent).1)).1)
        (handle_receive-ok request sent known)

  -- As long as each request received is a search, a notification or one with the UUID of the
  -- server, the receive operation that is pending completes with each of them in turn, and the
  -- connection goes on receiving, with a server that has handled them all in order.
  pub known-listens :
      (requests : List Request) (sent : List Datagram)
      → All (IsKnown config) requests
      → Hears handler (listening sent) requests (listening (handled handler requests sent))
  known-listens [] sent known = stays
  known-listens (request ∷ requests) sent (k, known) = hears request sent (
      subst (λ c. Hears handler c requests (listening (handled handler (request ∷ requests) sent)))
        (sym (heard request sent k)) (known-listens requests (handler request sent).1 known))
