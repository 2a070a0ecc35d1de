-- ===== src/Ssdp/Event/Own.antt =====
-- The messages that the server sends, as another instance of the program reads them.
use mathlib.Core.List.Memᴰ.{head, tail}
use mathlib.Core.List.{Memᴰ}
use upnp.Prelude.{
  String, Bool, true, false, ◌≡◌, refl, ap, subst, ◌∙◌, Option, none, some, [], ◌∷◌, ok,
}
use upnp.Prelude.Number.{ℤ, pos}
use upnp.Prelude.StdMap.{StdMap, find}
use upnp.Prelude.StdMap.Assigned.{put_all, Unset, Distinct, find-put_all, find-put_all-Unset}
use upnp.Config.{Config}
use upnp.Ssdp.Headers.{
  Host, ssdp_header_server, ssdp_header_date, ssdp_header_st, ssdp_header_nts, ssdp_header_usn,
  ssdp_header_location, ssdp_header_nt, ssdp_header_ext, ssdp_status_alive, announce_interval, usn,
  multicast_endpoint, server_text, max_age, create_response, anounce_headers,
}
use upnp.Ssdp.Server.{parse_keep_alive}
use upnp.Ssdp.Event.{Message, parse_request, parse_response}

abbrev pub text_of : Option String → String
text_of none = ""
text_of (some text) = text

abbrev pub is_there : Option String → Bool
is_there none = false
is_there (some text) = true

-- A message with these headers, whose names the HTTP library looks up without regard to case.
pub record Reads (h : Host) (headers : StdMap String) (m : Message) : Type 0 where
  pub contains :
      (name : String) → m.contains_parameter name ≡ is_there (find (h.to_upper name) headers)
  pub value : (name : String) → m.parameter name ≡ text_of (find (h.to_upper name) headers)

-- The headers of an announcement, the last one that is set first.
abbrev pub announced_headers : Host → Config → String → String → StdMap String
announced_headers h config nt location =
    (h.content_length, "0")
    ∷ (h.to_upper ssdp_header_date, "Mon, 16 Oct 2017 09:59:53 GMT")
    ∷ (h.to_upper ssdp_header_ext, "")
    ∷ (h.to_upper ssdp_header_nts, ssdp_status_alive)
    ∷ (h.to_upper ssdp_header_usn, usn config nt)
    ∷ (h.to_upper ssdp_header_nt, nt)
    ∷ (h.to_upper ssdp_header_server, server_text h)
    ∷ (h.to_upper ssdp_header_location, location)
    ∷ (h.to_upper h.cache_control, max_age)
    ∷ (h.to_upper h.host, multicast_endpoint config)
    ∷ []

anounce_headers-put_all :
    (h : Host) (config : Config) (nt location : String)
    → anounce_headers h config nt location ≡ put_all (announced_headers h config nt location)
unfolding anounce_headers
anounce_headers-put_all h config nt location = refl

-- The headers of an answer, the last one that is set first.
abbrev pub answered_headers : Host → Config → String → String → StdMap String
answered_headers h config nt location =
    (h.content_length, "0")
    ∷ (h.to_upper h.date, "Mon, 16 Oct 2017 09:59:53 GMT")
    ∷ (h.to_upper ssdp_header_ext, "")
    ∷ (h.to_upper ssdp_header_usn, usn config nt)
    ∷ (h.to_upper ssdp_header_st, nt)
    ∷ (h.to_upper ssdp_header_server, server_text h)
    ∷ (h.to_upper ssdp_header_location, location)
    ∷ (h.to_upper h.cache_control, max_age)
    ∷ []

create_response-put_all :
    (h : Host) (config : Config) (nt location : String)
    → create_response h config nt location ≡ put_all (answered_headers h config nt location)
unfolding create_response
create_response-put_all h config nt location = refl

-- The parameters of a message whose headers were set in this way.
module _ (h : Host) (set : StdMap String) (m : Message) (reads : Reads h (put_all set) m) where
  known :
      Distinct set
      → (name value : String) → Memᴰ (h.to_upper name, value) set
      → m.parameter name ≡ value
  known distinct name value member =
      reads.value name ∙ ap text_of (find-put_all (h.to_upper name) value set distinct member)

  there :
      Distinct set
      → (name value : String) → Memᴰ (h.to_upper name, value) set
      → m.contains_parameter name ≡ true
  there distinct name value member =
      reads.contains name ∙ ap is_there (find-put_all (h.to_upper name) value set distinct member)

  missing : (name : String) → Unset (h.to_upper name) set → m.parameter name ≡ ""
  missing name unset =
      reads.value name ∙ ap text_of (find-put_all-Unset (h.to_upper name) set unset)

-- boost: no blank is there to be erased, and the number is read.
pub record ReadsAge (erase_all : String → String → String) (lexical_cast : String → Option ℤ)
    : Type 0 where
  pub no_blank : erase_all "max-age=1800" " " ≡ "max-age=1800"
  pub number : lexical_cast "1800" ≡ some (pos 1800)

module _ (erase_all : String → String → String) (lexical_cast : String → Option ℤ)
    (age : ReadsAge erase_all lexical_cast) where
  max_age_read : parse_keep_alive erase_all lexical_cast max_age ≡ ok (pos announce_interval)
  unfolding parse_keep_alive max_age
  max_age_read = rw (age.no_blank, age.number) refl

  module _ (h : Host) (config : Config) (nt location : String) (now : ℤ) (m : Message) where
    -- An announcement of the server is read by parseRequest as the event with its location,
    -- namespace, status, server, USN and life time, where the names of its headers differ, the
    -- HTTP library looks names up as they are upper-cased, and boost reads the life time.
    pub parse_request-anounce_headers :
        Reads h (anounce_headers h config nt location) m
        → Distinct (announced_headers h config nt location)
        → parse_request erase_all lexical_cast h now m
          ≡ ok (record {
            host = multicast_endpoint config;
            location = location;
            nt = nt;
            nts = ssdp_status_alive;
            server = server_text h;
            usn = usn config nt;
            last_seen = now;
            cache_control = pos announce_interval;
          })
    unfolding parse_request
    parse_request-anounce_headers reads distinct =
        let set = announced_headers h config nt location in
        let as_set =
          subst (λ headers. Reads h headers m) (anounce_headers-put_all h config nt location)
            reads in
        let age_member : Memᴰ (h.to_upper h.cache_control, max_age) set =
          tail (tail (tail (tail (tail (tail (tail (tail (head refl)))))))) in
        rw
          (
            there h set m as_set distinct h.cache_control max_age age_member,
            known h set m as_set distinct h.cache_control max_age age_member,
            max_age_read,
            known h set m as_set distinct h.host (multicast_endpoint config)
                (tail (tail (tail (tail (tail (tail (tail (tail (tail (head refl)))))))))),
            known h set m as_set distinct ssdp_header_location location
                (tail (tail (tail (tail (tail (tail (tail (head refl)))))))),
            known h set m as_set distinct ssdp_header_nt nt
                (tail (tail (tail (tail (tail (head refl)))))),
            known h set m as_set distinct ssdp_header_nts ssdp_status_alive
                (tail (tail (tail (head refl)))),
            known h set m as_set distinct ssdp_header_server (server_text h)
                (tail (tail (tail (tail (tail (tail (head refl))))))),
            known h set m as_set distinct ssdp_header_usn (usn config nt)
                (tail (tail (tail (tail (head refl))))),
          )
          refl

    -- An answer of the server is read by parseResponse as the event with its location, namespace,
    -- server, USN and life time, without host and status, where the names of its headers differ
    -- and are not those of the host and the status, the HTTP library looks names up as they are
    -- upper-cased, and boost reads the life time.
    pub parse_response-create_response :
        Reads h (create_response h config nt location) m
        → Distinct (answered_headers h config nt location)
        → Unset (h.to_upper h.host) (answered_headers h config nt location)
        → Unset (h.to_upper ssdp_header_nts) (answered_headers h config nt location)
        → parse_response erase_all lexical_cast h now m
          ≡ ok (record {
            host = "";
            location = location;
            nt = nt;
            nts = "";
            server = server_text h;
            usn = usn config nt;
            last_seen = now;
            cache_control = pos announce_interval;
          })
    unfolding parse_response
    parse_response-create_response reads distinct no_host no_nts =
        let set = answered_headers h config nt location in
        let as_set =
          subst (λ headers. Reads h headers m) (create_response-put_all h config nt location)
            reads in
        let age_member : Memᴰ (h.to_upper h.cache_control, max_age) set =
          tail (tail (tail (tail (tail (tail (tail (head refl))))))) in
        rw
          (
            there h set m as_set distinct h.cache_control max_age age_member,
            known h set m as_set distinct h.cache_control max_age age_member,
            max_age_read,
            missing h set m as_set h.host no_host,
            known h set m as_set distinct ssdp_header_location location
                (tail (tail (tail (tail (tail (tail (head refl))))))),
            known h set m as_set distinct ssdp_header_st nt (tail (tail (tail (tail (head refl))))),
            missing h set m as_set ssdp_header_nts no_nts,
            known h set m as_set distinct ssdp_header_server (server_text h)
                (tail (tail (tail (tail (tail (head refl)))))),
            known h set m as_set distinct ssdp_header_usn (usn config nt)
                (tail (tail (tail (head refl)))),
          )
          refl
