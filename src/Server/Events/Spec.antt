-- ===== src/Server/Events/Spec.antt =====
-- The abstract service of subscriptions: what the requests to the control URLs subscribe to, and what
-- this makes of the subscribers and of the event requests.
use mathlib.Core.List.Memᴰ.{head, tail, not-nil, cases_cons}
use mathlib.Core.List.{Memᴰ, append_assoc, append-nil}
use upnp.Prelude.{
  String, ◌≡◌, refl, sym, subst, ◌∙◌, ◌⊎◌, ◌↔◌, inl, inr, ◌==◌, List, [], ◌∷◌, ◌++◌ as ◌+++◌, map,
  Result, ok, err, if◌then◌else◌,
}
use upnp.Prelude.Text.{is_empty}
use upnp.Datastore.Name
use upnp.Datastore.Redis.{Redis}
use upnp.Datastore.Data.Relations.{SortedSets}
use upnp.Config.{Config}
use upnp.Server.Http.{Request}
use upnp.Server.Callback.{strip}
use upnp.Server.Events.{
  Urls, EventNames, EventRequest, Events, Incoming, to_cds, to_cms, event_key, cds_request,
  cms_request,
}

-- The abstract service: which URL subscribes to what.
pub data Subscription : Type 0 where
  content_directory connection_manager : (url : String) → Subscription

-- The URL of a callback, if there is one.
abbrev url_of : Result String → List String
url_of (ok url) = url ∷ []
url_of (err e) = []

abbrev pub callback_urls : Request → List String
callback_urls request =
    if is_empty (request.parameter "Callback")
    then []
    else url_of (strip (request.parameter "Callback"))

-- What a request subscribes to.
abbrev pub subscriptions : Incoming → List Subscription
subscriptions (to_cds request) =
    if request.method == "SUBSCRIBE" then map content_directory (callback_urls request) else []
subscriptions (to_cms request) =
    if request.method == "SUBSCRIBE" then map connection_manager (callback_urls request) else []

abbrev pub all_subscriptions : List Incoming → List Subscription
all_subscriptions [] = []
all_subscriptions (incoming ∷ rest) = subscriptions incoming +++ all_subscriptions rest

-- The URLs that subscribe to the content directory.
abbrev pub subscribers : List Subscription → List String
subscribers [] = []
subscribers (content_directory url ∷ rest) = url ∷ subscribers rest
subscribers (connection_manager url ∷ rest) = subscribers rest

module _ (r : Redis) (urls : Urls) (names : EventNames) (config : Config) where
  -- The first event of a subscription.
  abbrev pub first_event : Subscription → EventRequest
  first_event (content_directory url) = cds_request urls names config url
  first_event (connection_manager url) = cms_request urls url

  abbrev pub subscribe : Subscription → Events r.Db → Events r.Db
  subscribe (content_directory url) e = record {
    db = r.command e.db (Name.zadd ∷ event_key ∷ "0" ∷ url ∷ []);
    sent = e.sent +++ cds_request urls names config url ∷ [];
  }
  subscribe (connection_manager url) e = record e { sent = e.sent +++ cms_request urls url ∷ [] }

  abbrev pub subscribe_all : List Subscription → Events r.Db → Events r.Db
  subscribe_all [] e = e
  subscribe_all (s ∷ ss) e = subscribe_all ss (subscribe s e)

  pub subscribe_all-append :
      (ss ts : List Subscription) (e : Events r.Db)
      → subscribe_all (ss +++ ts) e ≡ subscribe_all ts (subscribe_all ss e)
  subscribe_all-append [] ts e = refl
  subscribe_all-append (s ∷ ss) ts e = subscribe_all-append ss ts (subscribe s e)

  pub subscribe_all-sent :
      (ss : List Subscription) (e : Events r.Db)
      → (subscribe_all ss e).sent ≡ e.sent +++ map first_event ss
  subscribe_all-sent [] e = sym (append-nil e.sent)
  subscribe_all-sent (content_directory url ∷ ss) e =
      subscribe_all-sent ss (subscribe (content_directory url) e)
      ∙ append_assoc e.sent (first_event (content_directory url) ∷ []) (map first_event ss)
  subscribe_all-sent (connection_manager url ∷ ss) e =
      subscribe_all-sent ss (subscribe (connection_manager url) e)
      ∙ append_assoc e.sent (first_event (connection_manager url) ∷ []) (map first_event ss)

  module _ (sets : SortedSets r) where
    open sets use {In, zadd_in, zadd_keep, zadd_only}

    pub subscribe_all-In :
        (ss : List Subscription) (e : Events r.Db) (url : String)
        → In (subscribe_all ss e).db event_key url
          ↔ (In e.db event_key url ⊎ Memᴰ url (subscribers ss))
    subscribe_all-In [] e url =
        (inl, λ h. elim h [ inl in_db ↦ in_db | inr m ↦ absurd (not-nil m) ])
    subscribe_all-In (content_directory other ∷ ss) e url =
        let (out, back) = subscribe_all-In ss (subscribe (content_directory other) e) url in
        (λ h. split_before (out h), λ h. back (join_after h))
      where
        split_before :
            In (subscribe (content_directory other) e).db event_key url ⊎ Memᴰ url (subscribers ss)
            → In e.db event_key url ⊎ Memᴰ url (other ∷ subscribers ss)
        split_before (inr m) = inr (tail m)
        split_before (inl h) = elim (zadd_only e.db event_key "0" url other h) [
          | inl in_db ↦ inl in_db
          | inr same ↦ inr (head same)
        ]

        join_after :
            In e.db event_key url ⊎ Memᴰ url (other ∷ subscribers ss)
            → In (subscribe (content_directory other) e).db event_key url
              ⊎ Memᴰ url (subscribers ss)
        join_after (inl h) = inl (zadd_keep e.db event_key "0" url other h)
        join_after (inr m) = elim (cases_cons m) [
          | inl same ↦ inl (
              subst (In (subscribe (content_directory other) e).db event_key) (sym same)
                (zadd_in e.db event_key "0" other))
          | inr m' ↦ inr m'
        ]
    subscribe_all-In (connection_manager other ∷ ss) e url =
        subscribe_all-In ss (subscribe (connection_manager other) e) url
