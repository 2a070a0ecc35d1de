-- ===== src/Server/Http.antt =====
-- The HTTP library, which the repository takes from outside, and publishing to Redis: what a handler
-- reads of a request, and the calls that it makes of the response and of the publisher.
use upnp.Prelude.{ℕ, String, List, [], ◌∷◌, ◌++◌, ok}
use upnp.Prelude.Exec.{Exec}

pub record Request : Type 0 where
  pub method : String
  pub parameter : String → String
  pub str : String

-- `http::header`, `http::mime` and `http::http_status` as far as they are used.
pub record Names : Type 0 where
  pub content_length : String
  pub content_type : String
  pub mime_xml : String
  pub mime_json : String
  pub mime_png : String

pub data Call : Type 0 where
  write : (text : String) → Call
  parameter : (name value : String) → Call
  status_ok : Call
  version_major version_minor : (number : ℕ) → Call
  protocol : (name : String) → Call
  publish : (channel message : String) → Call

-- A handler that always answers `http_status::OK`, by the calls that it makes, also before a throw.
abbrev pub Handler : Type 0
Handler = Exec (List Call) (Unit {0})

unfoldable pub call : Call → Handler
call c calls = (ok tt, calls ++ c ∷ [])
