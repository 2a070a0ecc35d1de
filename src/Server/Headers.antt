-- ===== src/Server/Headers.antt =====
-- `UpnpHeaders::execute` of src/upnpheaders.cpp, which main.cpp runs behind `Server::cds`.
pub mod Calls
pub mod Length
use Prim.Native.String.{◌++◌}
use upnp.Prelude.{ℕ, String, Bool, true, false, nat_eq, List, Result, ok, err, if◌then◌else◌, ◌||◌}
use upnp.Prelude.Exec.{Exec, ◌>>=◌, ◌>>◌, pure, lift}
use upnp.Prelude.Number.{ℤ, pos, negsuc, to_string, int_add}
use upnp.Config.{Config}
use upnp.Datastore.Redis.{Redis}
use upnp.Xml.{XmlLib}
use upnp.Ssdp.Headers.{Host, server_text}
use upnp.Server.Http.{
  Request, Names, Call, Handler, parameter, version_major, version_minor, protocol, call,
}
use upnp.Server.Control.{cds}

-- What is read of the request.
pub record StatusLine : Type 0 where
  pub version_major : ℕ
  pub version_minor : ℕ
  pub protocol : String

-- What is read of a response, by the calls that were made of it.
pub record Response : Type 0 where
  pub contains_parameter : List Call → String → Bool
  pub tellp : List Call → ℤ
  pub expires : List Call → ℤ

-- `gmtime` at a reading of the clock, and the C functions on a `struct tm`.
pub record Clock : Type 1 where
  pub Tm : Type 0
  pub tm_sec : Tm → ℤ
  pub set_tm_sec : Tm → ℤ → Tm
  pub mktime : Tm → Tm
  pub time_to_string : Tm → String

pub record HeaderNames : Type 0 where
  pub content_length : String
  pub expires : String
  pub date : String
  pub server : String

abbrev pub is_zero : ℤ → Bool
is_zero (pos n) = nat_eq n 0
is_zero (negsuc n) = false

module _ (response : Response) (clock : Clock) (names : HeaderNames) where
  -- `if( !response.contains_parameter( CONTENT_LENGTH ) )`
  unfoldable pub length_unless_there : Handler
  unfolding call to_string
  length_unless_there calls =
      if response.contains_parameter calls names.content_length
      then pure tt calls
      else call (parameter names.content_length (to_string (response.tellp calls))) calls

  -- `then_tm.tm_sec += response.expires()`, and the header.
  unfoldable pub set_expires : clock.Tm → ℤ → Handler
  unfolding int_add call
  set_expires now expires = do
    second ← lift (int_add (clock.tm_sec now) expires)
    call (
        parameter names.expires (clock.time_to_string (clock.mktime (clock.set_tm_sec now second))))

  -- `if( response.expires() )`
  unfoldable pub expires_if_set : clock.Tm → Handler
  unfolding set_expires
  expires_if_set now calls =
      if is_zero (response.expires calls)
      then pure tt calls
      else set_expires now (response.expires calls) calls

  -- `first` and `second` are the two readings of the clock.
  unfoldable pub execute : Host → Config → StatusLine → (first second : clock.Tm) → Handler
  unfolding call length_unless_there expires_if_set server_text
  execute host config request first second = do
    call (version_major request.version_major)
    call (version_minor request.version_minor)
    call (protocol request.protocol)
    length_unless_there
    expires_if_set first
    call (parameter names.date (clock.time_to_string (clock.mktime second)))
    call (parameter names.server (server_text host))
    call (parameter "SID" ("uuid:" ++ config.uuid))
    call (parameter "EXT" (clock.time_to_string (clock.mktime second)))

  -- What main.cpp binds to `/ctl/cds`: the handler, and then the headers.
  unfoldable pub ctl_cds :
      (r : Redis)
      → r.Db
      → XmlLib
      → Names
      → Host
      → Config
      → Request
      → StatusLine
      → (first second : clock.Tm) → Handler
  unfolding cds execute
  ctl_cds r db xml http_names host config request line first second = do
    cds r db xml http_names config request
    execute host config line first second
