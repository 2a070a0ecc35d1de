-- ===== src/Ssdp/Event.antt =====
-- The SSDP events of other devices: `SsdpEvent` of src/_utils.h, and how src/ssdpserver.cpp reads one
-- from a notification and from an answer.
pub mod Own
pub mod Asked
use Prim.Native.String.{◌++◌}
use upnp.Prelude.{String, Bool, Option, Result, ok, err, assertion, ◌>>=◌, if◌then◌else◌}
use upnp.Prelude.Number.{ℤ, pos, to_string}
use upnp.Ssdp.Headers.{
  Host, ssdp_header_location, ssdp_header_nt, ssdp_header_nts, ssdp_header_server, ssdp_header_st,
  ssdp_header_usn,
}
use upnp.Ssdp.Server.{parse_keep_alive}

-- What is read of an HTTP request or response.
pub record Message : Type 0 where
  pub contains_parameter : String → Bool
  pub parameter : String → String

pub record SsdpEvent : Type 0 where
  pub host : String
  pub location : String
  pub nt : String
  pub nts : String
  pub server : String
  pub usn : String
  pub last_seen : ℤ
  pub cache_control : ℤ

-- `operator<<`, which prints the event as JSON.
unfoldable pub print_event : SsdpEvent → String
unfolding to_string
print_event e =
    "{\"host\":\""
    ++ (e.host
        ++ ("\",\"location\":\""
            ++ (e.location
                ++ ("\",\"nt\":\""
                    ++ (e.nt
                        ++ ("\","
                            ++ ("\"nts\":\""
                                ++ (e.nts
                                    ++ ("\",\"server\":\""
                                        ++ (e.server
                                            ++ ("\",\"usn\":\""
                                                ++ (e.usn
                                                    ++ ("\","
                                                        ++ ("\"last_seen\":"
                                                            ++ (to_string e.last_seen
                                                            ++ (",\"cache_control\":"
                                                            ++ (to_string e.cache_control
                                                            ++ "}")))))))))))))))))

-- Over boost as `parse_keep_alive` is; `now` is `std::time( 0 )`.
module _ (erase_all : String → String → String) (lexical_cast : String → Option ℤ) (h : Host)
    (now : ℤ) where
  unfoldable pub parse_request : Message → Result SsdpEvent
  unfolding parse_keep_alive
  parse_request request =
      (if request.contains_parameter h.cache_control
        then parse_keep_alive erase_all lexical_cast (request.parameter h.cache_control)
        else ok (pos 0))
      >>= λ cache_control. ok (record {
        host = request.parameter h.host;
        location = request.parameter ssdp_header_location;
        nt = request.parameter ssdp_header_nt;
        nts = request.parameter ssdp_header_nts;
        server = request.parameter ssdp_header_server;
        usn = request.parameter ssdp_header_usn;
        last_seen = now;
        cache_control = cache_control;
      })

  unfoldable pub parse_response : Message → Result SsdpEvent
  unfolding parse_keep_alive
  parse_response response =
      (if response.contains_parameter h.cache_control
        then parse_keep_alive erase_all lexical_cast (response.parameter h.cache_control)
        else err assertion)
      >>= λ cache_control. ok (record {
        host = response.parameter h.host;
        location = response.parameter ssdp_header_location;
        nt = response.parameter ssdp_header_st;
        nts = response.parameter ssdp_header_nts;
        server = response.parameter ssdp_header_server;
        usn = response.parameter ssdp_header_usn;
        last_seen = now;
        cache_control = cache_control;
      })
