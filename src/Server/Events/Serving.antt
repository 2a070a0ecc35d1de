-- ===== src/Server/Events/Serving.antt =====
-- The requests to the two control URLs, as far as the process goes on, against a list of subscriptions.
use mathlib.Core.List.{append-nil}
use upnp.Prelude.{
  Bool, true, Bool-cases, ◌≡◌, refl, sym, ap, ◌∙◌, ◌⊎◌, inl, inr, List, [], ◌∷◌, ◌++◌ as ◌+++◌,
  Fault, Result, Result-cases, ok, err, if◌then◌else◌,
}
use upnp.Datastore.Redis.{Redis}
use upnp.Config.{Config}
use upnp.Xml.{XmlLib}
use upnp.Server.Http.{Names}
use upnp.Server.Events.{
  Urls, EventNames, EventRequest, Events, Incoming, deliver, is_ending, after_handler, handle,
  serve_one, serve,
}
use upnp.Server.Events.Delivery.{handled}
use upnp.Server.Events.Spec.{
  Subscription, subscriptions, all_subscriptions, subscribe_all, subscribe_all-append,
}

module _ (r : Redis) (urls : Urls) (names : EventNames)
    (client_get : EventRequest → Result (Unit {0}))
    (answers : (q : EventRequest) → client_get q ≡ ok tt) (xml : XmlLib) (http_names : Names)
    (config : Config) (survives : Fault → Bool) (subscribed : Bool) where
  -- What the subscriber gets to know of.
  abbrev pub heard : List Subscription → List Subscription
  heard ss = if subscribed then ss else []

  abbrev pub after : List Incoming → Events r.Db → Events r.Db
  after served e = subscribe_all r urls names config (heard (all_subscriptions served)) e

  -- All requests are served, or the last one that is served ends the process.
  abbrev pub Ended : Events r.Db → (served unserved : List Incoming) → Result (Unit {0}) → Type 0
  Ended e served unserved result =
      ((result ≡ ok tt) × (unserved ≡ []))
      ⊎ ((before : List Incoming) × (last : Incoming) × (fault : Fault) × (result ≡ err fault)
          × (served ≡ before +++ last ∷ [])
          × (is_ending survives fault ≡ true)
          × ((handle r urls names client_get xml http_names (after before e).db config last []).0
              ≡ err fault))

  after_handler-err :
      (result : Result (Unit {0})) (fault : Fault)
      → after_handler survives result ≡ err fault
      → (result ≡ err fault) × (is_ending survives fault ≡ true)
  after_handler-err (ok _) fault h = cc
  after_handler-err (err f) fault h = elim (Bool-cases (is_ending survives f)) [
    | inl e ↦
        let same : f ≡ fault = cc (rw e at h) in
        (ap err same, ap (is_ending survives) (sym same) ∙ e)
    | inr e ↦ absurd (cc (rw e at h))
  ]

  after-nil : (e : Events r.Db) → e ≡ after [] e
  after-nil e = elim (Bool-cases subscribed) [ inl s ↦ rw s refl | inr s ↦ rw s refl ]

  after-cons :
      (incoming : Incoming) (rest : List Incoming) (e : Events r.Db)
      → after rest (after (incoming ∷ []) e) ≡ after (incoming ∷ rest) e
  after-cons incoming rest e = elim (Bool-cases subscribed) [
    | inl s ↦
        rw (s, append-nil)
          (sym (
            subscribe_all-append r urls names config (subscriptions incoming)
              (all_subscriptions rest) e))
    | inr s ↦ rw s refl
  ]

  serve_one_lem :
      (incoming : Incoming) (e : Events r.Db)
      → serve_one r urls names client_get xml http_names survives subscribed config incoming e ≡ (
        after_handler survives
            (handle r urls names client_get xml http_names e.db config incoming []).0,
        after (incoming ∷ []) e,
      )
  unfolding serve_one deliver
  serve_one_lem incoming e = elim (Bool-cases subscribed) [
    | inl s ↦
        rw (s, handled r urls names client_get answers xml http_names config incoming e, append-nil)
          refl
    | inr s ↦ rw s refl
  ]

  abbrev Served : List Incoming → Events r.Db → Result (Unit {0}) × Events r.Db → Type 0
  Served requests e (result, e') =
      (served unserved : List Incoming) × (requests ≡ served +++ unserved)
      × (e' ≡ after served e)
      × Ended e served unserved result

  -- The handler of the first request, and what it published is done.
  abbrev first_result : Incoming → Events r.Db → Result (Unit {0})
  first_result incoming e =
      (handle r urls names client_get xml http_names e.db config incoming []).0

  Served-more :
      (incoming : Incoming) (rest : List Incoming) (e : Events r.Db)
      (outcome : Result (Unit {0}) × Events r.Db)
      → Served rest (after (incoming ∷ []) e) outcome
      → Served (incoming ∷ rest) e outcome
  Served-more incoming rest e outcome (served, unserved, split, events, ended) = (
    incoming ∷ served,
    unserved,
    ap (◌∷◌ incoming) split,
    events ∙ after-cons incoming served e,
    elim ended [
      | inl all ↦ inl all
      | inr (before, last, fault, is_fault, is_last, ending, from) ↦ inr (
        incoming ∷ before,
        last,
        fault,
        is_fault,
        ap (◌∷◌ incoming) is_last,
        ending,
        ap (first_result last) (sym (after-cons incoming before e)) ∙ from,
      )
    ],
  )

  serve-Served :
      (requests : List Incoming) (e : Events r.Db)
      → Served requests e
          (serve r urls names client_get xml http_names survives subscribed config requests e)
  unfolding serve
  serve-Served [] e = ([], [], refl, after-nil e, inl (refl, refl))
  serve-Served (incoming ∷ rest) e =
      elim (Result-cases (after_handler survives (first_result incoming e))) [
        | inl (tt, goes_on) ↦
            rw (serve_one_lem incoming e, goes_on)
              (Served-more incoming rest e
                (serve r urls names client_get xml http_names survives subscribed config rest
                  (after (incoming ∷ []) e))
                (serve-Served rest (after (incoming ∷ []) e)))
        | inr (fault, stops) ↦
            let (from, ending) = after_handler-err (first_result incoming e) fault stops in
            rw (serve_one_lem incoming e, stops)
              (
                incoming ∷ [],
                rest,
                refl,
                refl,
                inr (
                  [],
                  incoming,
                  fault,
                  refl,
                  refl,
                  ending,
                  ap (first_result incoming) (sym (after-nil e)) ∙ from,
                ),
              )
      ]

  -- What a request did stays done, whatever follows.
  pub serve_first :
      (incoming : Incoming) (rest : List Incoming) (e : Events r.Db)
      → (served : List Incoming) × ((serve r urls names client_get xml http_names survives
            subscribed config
            (incoming ∷ rest)
            e).1
          ≡ after (incoming ∷ served) e)
  unfolding serve
  serve_first incoming rest e =
      elim (Result-cases (after_handler survives (first_result incoming e))) [
        | inl (tt, goes_on) ↦
            let (served, unserved, split, events, ended) =
              serve-Served rest (after (incoming ∷ []) e) in
            (served, rw (serve_one_lem incoming e, goes_on) (events ∙ after-cons incoming served e))
        | inr (fault, stops) ↦ ([], rw (serve_one_lem incoming e, stops) refl)
      ]

  -- Behind requests that are all served.
  pub serve_behind :
      (before rest : List Incoming) (e : Events r.Db)
      → (serve r urls names client_get xml http_names survives subscribed config before e).0 ≡ ok tt
      → serve r urls names client_get xml http_names survives subscribed config (before +++ rest) e
        ≡ serve r urls names client_get xml http_names survives subscribed config rest
            (after before e)
  unfolding serve
  serve_behind [] rest e h =
      ap (serve r urls names client_get xml http_names survives subscribed config rest)
        (after-nil e)
  serve_behind (incoming ∷ before) rest e h =
      elim (Result-cases (after_handler survives (first_result incoming e))) [
        | inl (tt, goes_on) ↦
            rw (serve_one_lem incoming e, goes_on)
              (serve_behind before rest (after (incoming ∷ []) e)
                  (rw (serve_one_lem incoming e, goes_on) at h)
                ∙ ap (serve r urls names client_get xml http_names survives subscribed config rest)
                    (after-cons incoming before e))
        | inr (fault, stops) ↦ absurd (cc (rw (serve_one_lem incoming e, stops) at h))
      ]
