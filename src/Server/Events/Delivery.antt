-- ===== src/Server/Events/Delivery.antt =====
-- What the requests to the control URLs do to the subscribers and to the event requests, against a
-- list of subscriptions.
use upnp.Prelude.{
  Bool, true, false, Bool-cases, ◌≡◌, refl, sym, ap, ◌∙◌, inl, inr, ◌==◌, eq_iff, List, [], ◌∷◌,
  map, All, Result, Result-cases, ok, if◌then◌else◌,
}
use upnp.Prelude.Text.{is_empty}
use upnp.Datastore.Redis.{Redis}
use upnp.Config.{Config}
use upnp.Xml.{XmlLib}
use upnp.Server.Http.{
  Request, Names, Call, write, parameter, status_ok, version_major, version_minor, protocol,
  publish, call,
}
use upnp.Server.Callback.{strip}
use upnp.Server.Control.Post.{cds_post-All, cms_post-All}
use upnp.Server.Control.{publish_callback, cds_method, cms_method, cds, cms}
use upnp.Server.Events.{
  Urls, EventNames, EventRequest, Events, Incoming, to_cds, to_cms, cds_request, cms_request,
  send_event, persist, on_message, receive_all, handle,
}
use upnp.Server.Events.Spec.{
  Subscription, content_directory, connection_manager, callback_urls, subscriptions, subscribe_all,
}

-- Nothing is published.
abbrev IsSilent : Call → Type 0
IsSilent (publish channel message) = ⊥
IsSilent _ = Unit

module _ (r : Redis) (urls : Urls) (names : EventNames)
    (client_get : EventRequest → Result (Unit {0}))
    (answers : (q : EventRequest) → client_get q ≡ ok tt) (xml : XmlLib) (http_names : Names)
    (config : Config) where
  receive_all-silent :
      (calls : List Call) (e : Events r.Db)
      → All IsSilent calls
      → receive_all r urls names client_get config calls e ≡ (ok tt, e)
  unfolding receive_all
  receive_all-silent [] e h = refl
  receive_all-silent (write text ∷ calls) e (_, h) = receive_all-silent calls e h
  receive_all-silent (parameter name value ∷ calls) e (_, h) = receive_all-silent calls e h
  receive_all-silent (status_ok ∷ calls) e (_, h) = receive_all-silent calls e h
  receive_all-silent (version_major number ∷ calls) e (_, h) = receive_all-silent calls e h
  receive_all-silent (version_minor number ∷ calls) e (_, h) = receive_all-silent calls e h
  receive_all-silent (protocol name ∷ calls) e (_, h) = receive_all-silent calls e h
  receive_all-silent (publish channel message ∷ calls) e (h, _) = absurd h

  -- The requests that are not subscriptions leave the events as they are.
  cds_other :
      (request : Request) (e : Events r.Db)
      → (request.method == "SUBSCRIBE") ≡ false
      → receive_all r urls names client_get config (cds r e.db xml http_names config request []).1 e
        ≡ (ok tt, e)
  unfolding cds cds_method publish_callback call receive_all on_message
  cds_other request e m = elim (Bool-cases (request.method == "UNSUBSCRIBE")) [
    | inl u ↦
        rw (m, u)
          (elim (Bool-cases (is_empty (request.parameter "Callback"))) [
            | inl empty ↦ rw empty refl
            | inr there ↦ rw there (elim (Result-cases (strip (request.parameter "Callback"))) [
              | inl (url, stripped) ↦ rw stripped refl
              | inr (fault, thrown) ↦ rw thrown refl
            ])
          ])
    | inr u ↦ elim (Bool-cases (request.method == "POST")) [
      | inl post ↦ receive_all-silent (cds r e.db xml http_names config request []).1 e (
          cds_post-All r e.db xml http_names config IsSilent (λ text. tt) tt tt request
            ((eq_iff request.method "POST").0 post))
      | inr other ↦ rw (m, u, other) refl
    ]
  ]

  cms_other :
      (request : Request) (e : Events r.Db)
      → (request.method == "SUBSCRIBE") ≡ false
      → receive_all r urls names client_get config (cms r e.db xml http_names config request []).1 e
        ≡ (ok tt, e)
  unfolding cms cms_method call receive_all on_message
  cms_other request e m = elim (Bool-cases (request.method == "UNSUBSCRIBE")) [
    | inl u ↦ rw (m, u) refl
    | inr u ↦ elim (Bool-cases (request.method == "POST")) [
      | inl post ↦ receive_all-silent (cms r e.db xml http_names config request []).1 e (
          cms_post-All r e.db xml http_names config IsSilent (λ text. tt) tt tt request
            ((eq_iff request.method "POST").0 post))
      | inr other ↦ rw (m, u, other) refl
    ]
  ]

  cds_subscribed :
      (request : Request) (e : Events r.Db)
      → (request.method == "SUBSCRIBE") ≡ true
      → receive_all r urls names client_get config (cds r e.db xml http_names config request []).1 e
        ≡ (
          ok tt,
          subscribe_all r urls names config (map content_directory (callback_urls request)) e,
        )
  unfolding cds cds_method publish_callback call receive_all on_message send_event persist
  cds_subscribed request e m = elim (Bool-cases (is_empty (request.parameter "Callback"))) [
    | inl empty ↦ rw (m, empty) refl
    | inr there ↦
        rw (m, there)
          (elim (Result-cases (strip (request.parameter "Callback"))) [
            | inl (url, stripped) ↦
                rw stripped (rw (answers (cds_request urls names config url)) refl)
            | inr (fault, thrown) ↦ rw thrown refl
          ])
  ]

  cms_subscribed :
      (request : Request) (e : Events r.Db)
      → (request.method == "SUBSCRIBE") ≡ true
      → receive_all r urls names client_get config (cms r e.db xml http_names config request []).1 e
        ≡ (
          ok tt,
          subscribe_all r urls names config (map connection_manager (callback_urls request)) e,
        )
  unfolding cms cms_method publish_callback call receive_all on_message send_event persist
  cms_subscribed request e m = elim (Bool-cases (is_empty (request.parameter "Callback"))) [
    | inl empty ↦ rw (m, empty) refl
    | inr there ↦
        rw (m, there)
          (elim (Result-cases (strip (request.parameter "Callback"))) [
            | inl (url, stripped) ↦ rw stripped (rw (answers (cms_request urls url)) refl)
            | inr (fault, thrown) ↦ rw thrown refl
          ])
  ]

  abbrev outcome_of : List Subscription → Events r.Db → Bool → Result (Unit {0}) × Events r.Db
  outcome_of ss e b = (ok tt, subscribe_all r urls names config (if b then ss else []) e)

  -- A request does to the events what its subscriptions ask.
  pub handled :
      (incoming : Incoming) (e : Events r.Db)
      → receive_all r urls names client_get config
          (handle r urls names client_get xml http_names e.db config incoming []).1
          e
        ≡ (ok tt, subscribe_all r urls names config (subscriptions incoming) e)
  unfolding handle
  handled (to_cds request) e = elim (Bool-cases (request.method == "SUBSCRIBE")) [
    | inl m ↦
        cds_subscribed request e m
        ∙ ap (outcome_of (map content_directory (callback_urls request)) e) (sym m)
    | inr m ↦
        cds_other request e m
        ∙ ap (outcome_of (map content_directory (callback_urls request)) e) (sym m)
  ]
  handled (to_cms request) e = elim (Bool-cases (request.method == "SUBSCRIBE")) [
    | inl m ↦
        cms_subscribed request e m
        ∙ ap (outcome_of (map connection_manager (callback_urls request)) e) (sym m)
    | inr m ↦
        cms_other request e m
        ∙ ap (outcome_of (map connection_manager (callback_urls request)) e) (sym m)
  ]
