-- ===== src/Server/Headers/Length.antt =====
-- The length that a response of the control URL of the content directory names.
use Prim.Native.String.{◌++◌ as ◌+++◌}
use upnp.Prelude.{
  ℕ, String, Bool-cases, Option-cases, Result-cases, false, ◌≡◌, refl, ap, ◌∙◌, ◌==◌, eq_refl, inl,
  inr, Option, none, some, List, [], ◌∷◌, ◌++◌, ok, arith,
}
use upnp.Prelude.Exec.{◌>>◌}
use upnp.Prelude.Number.{pos, to_string, int_add}
use upnp.Config.{Config}
use upnp.Datastore.Redis.{Redis}
use upnp.Xml.{XmlLib}
use upnp.Ssdp.Headers.{Host, server_text}
use upnp.Server.Http.{
  Request, Names, Call, Handler, parameter, version_major, version_minor, protocol, call,
}
use upnp.Server.Control.{cds}
use upnp.Server.Control.Post.{cds_post-All}
use upnp.Server.Headers.{
  is_zero, StatusLine, Response, Clock, HeaderNames, length_unless_there, set_expires,
  expires_if_set, execute, ctl_cds,
}
use upnp.Server.Headers.Calls.{
  header, written, is_some, header-snoc, header-kept, header-other, header-none, written-append,
}

-- The length that a response should name: the one that a handler has set, or what was written.
abbrev length_text : ℕ → Option String → String
length_text size none = to_string (pos size)
length_text size (some set) = set

abbrev pub length_of : (String → ℕ) → HeaderNames → List Call → String
length_of bytes names calls = length_text (written bytes calls) (header names.content_length calls)

-- The other headers have other names.
pub record OtherNames (names : HeaderNames) : Type 0 where
  pub expires : (names.expires == names.content_length) ≡ false
  pub date : (names.date == names.content_length) ≡ false
  pub server : (names.server == names.content_length) ≡ false
  pub sid : ("SID" == names.content_length) ≡ false
  pub ext : ("EXT" == names.content_length) ≡ false

-- What the HTTP library documents of a response: it has the parameters that were set, and `tellp` is
-- what was written.
pub record IsResponse (response : Response) (bytes : String → ℕ) : Type 0 where
  pub contains :
      (calls : List Call) (name : String)
      → response.contains_parameter calls name ≡ is_some (header name calls)
  pub position : (calls : List Call) → response.tellp calls ≡ pos (written bytes calls)

module _ (response : Response) (clock : Clock) (names : HeaderNames) (others : OtherNames names)
    (bytes : String → ℕ) (lawful : IsResponse response bytes) where
  expires-kept :
      (now : clock.Tm) (calls : List Call)
      → header names.content_length (expires_if_set response clock names now calls).1
        ≡ header names.content_length calls
  unfolding expires_if_set set_expires call
  expires-kept now calls = elim (Bool-cases (is_zero (response.expires calls))) [
    | inl z ↦ rw z refl
    | inr z ↦ rw z (elim (Result-cases (int_add (clock.tm_sec now) (response.expires calls))) [
      | inl (second, e) ↦
          rw e (header-other names.content_length calls names.expires _ others.expires)
      | inr (fault, e) ↦ rw e refl
    ])
  ]

  length-set :
      (calls : List Call)
      → header names.content_length (length_unless_there response clock names calls).1
        ≡ some (length_of bytes names calls)
  unfolding length_unless_there call
  length-set calls = elim (Option-cases (header names.content_length calls)) [
    | inl e ↦
        rw (lawful.contains calls names.content_length, e, lawful.position calls)
          (header-snoc names.content_length calls _ ∙ rw (eq_refl names.content_length) refl)
    | inr (v, e) ↦ rw (lawful.contains calls names.content_length, e) e
  ]

  -- A call that neither writes nor sets the length.
  length_of-snoc :
      (calls : List Call) (c : Call)
      → header names.content_length (c ∷ []) ≡ none
      → written bytes (c ∷ []) ≡ 0
      → length_of bytes names (calls ++ c ∷ []) ≡ length_of bytes names calls
  length_of-snoc calls c h w =
      ap (λ size. length_text size (header names.content_length (calls ++ c ∷ [])))
        (omega (arith, written-append bytes calls (c ∷ []), w))
      ∙ ap (length_text (written bytes calls)) (header-kept names.content_length calls c h)

  module _ (host : Host) (config : Config) (first second : clock.Tm) where
    -- What `execute` does behind the length.
    abbrev others_set : Handler
    others_set =
        expires_if_set response clock names first
        >> (call (parameter names.date (clock.time_to_string (clock.mktime second)))
            >> (call (parameter names.server (server_text host))
                >> (call (parameter "SID" ("uuid:" +++ config.uuid))
                    >> call (parameter "EXT" (clock.time_to_string (clock.mktime second))))))

    others_set-kept :
        (calls : List Call)
        → header names.content_length (others_set calls).1 ≡ header names.content_length calls
    unfolding call
    others_set-kept calls =
        elim (Result-cases (expires_if_set response clock names first calls).0) [
          | inl (_, e) ↦
              let time = clock.time_to_string (clock.mktime second) in
              let dated : List Call =
                (expires_if_set response clock names first calls).1
                ++ parameter names.date time ∷ [] in
              let served : List Call = dated ++ parameter names.server (server_text host) ∷ [] in
              let named : List Call = served ++ parameter "SID" ("uuid:" +++ config.uuid) ∷ [] in
              rw e (
                header-other names.content_length named "EXT" time others.ext
                ∙ header-other names.content_length served "SID" ("uuid:" +++ config.uuid)
                    others.sid
                ∙ header-other names.content_length dated names.server (server_text host)
                    others.server
                ∙ header-other names.content_length
                    (expires_if_set response clock names first calls).1 names.date time others.date
                ∙ expires-kept first calls)
          | inr (_, e) ↦ rw e (expires-kept first calls)
        ]

    length_returns :
        (calls : List Call) → (length_unless_there response clock names calls).0 ≡ ok tt
    unfolding length_unless_there call
    length_returns calls =
        elim (Bool-cases (response.contains_parameter calls names.content_length)) [
          | inl e ↦ rw e refl
          | inr e ↦ rw e refl
        ]

    -- UpnpHeaders::execute leaves the Content-Length that a handler has set, and else sets it to
    -- the number of bytes written, also where the addition of the expiry overflows; where the HTTP
    -- library documents the parameters and the position of a response and the other headers have
    -- other names.
    pub execute-content_length :
        (line : StatusLine) (calls : List Call)
        → header names.content_length
            (execute response clock names host config line first second calls).1
          ≡ some (length_of bytes names calls)
    unfolding execute call
    execute-content_length line calls =
        let major : List Call = calls ++ version_major line.version_major ∷ [] in
        let minor : List Call = major ++ version_minor line.version_minor ∷ [] in
        let after : List Call = minor ++ protocol line.protocol ∷ [] in
        rw (length_returns after) (
          others_set-kept (length_unless_there response clock names after).1
          ∙ length-set after
          ∙ ap some (
              length_of-snoc minor (protocol line.protocol) refl refl
              ∙ length_of-snoc major (version_minor line.version_minor) refl refl
              ∙ length_of-snoc calls (version_major line.version_major) refl refl))

    -- A POST to the control URL of the content directory whose handler returns is answered with
    -- the number of bytes that were written as its Content-Length, where the HTTP library
    -- documents the parameters and the position of a response and the other headers have other
    -- names.
    pub ctl_cds_post :
        (r : Redis) (db : r.Db) (xml : XmlLib) (http_names : Names) (request : Request)
        (line : StatusLine)
        → request.method ≡ "POST"
        → (http_names.content_type == names.content_length) ≡ false
        → (cds r db xml http_names config request []).0 ≡ ok tt
        → header names.content_length
            (ctl_cds response clock names r db xml http_names host config request line first second
              []).1
          ≡ some (to_string (pos (written bytes (cds r db xml http_names config request []).1)))
    unfolding ctl_cds
    ctl_cds_post r db xml http_names request line post differ returns =
        let calls : List Call = (cds r db xml http_names config request []).1 in
        let unset : header names.content_length calls ≡ none =
          header-none names.content_length calls (
            cds_post-All r db xml http_names config
              (λ c. header names.content_length (c ∷ []) ≡ none) (λ text. refl) (rw differ refl)
              refl request post) in
        rw returns (
          execute-content_length line calls
          ∙ ap (λ set. some (length_text (written bytes calls) set)) unset)
