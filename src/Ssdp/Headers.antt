-- ===== src/Ssdp/Headers.antt =====
-- The constants of src/ssdpserver.cpp, the headers of the messages, and `create_header` and `uname` of
-- src/_utils.h.
pub mod Usn
use Prim.Native.String.{◌++◌}
use upnp.Prelude.{ℕ, String, List, [], ◌∷◌}
use upnp.Prelude.Number.{pos, to_string}
use upnp.Prelude.StdMap.{StdMap, put}
use upnp.Config.{Config}

-- What is taken from outside the repository: names of `http::header`, `boost::to_upper_copy`, the
-- fields of `utsname`, and the trimmed text of `ctime` at the time of the call.
pub record Host : Type 0 where
  pub to_upper : String → String
  pub host : String
  pub cache_control : String
  pub date : String
  pub content_length : String
  pub sysname : String
  pub version : String
  pub time_string : String

abbrev pub ssdp_thread_sleep : ℕ
ssdp_thread_sleep = 5000

abbrev pub network_count : ℕ
network_count = 3

abbrev pub announce_interval : ℕ
announce_interval = 1800

-- The names of the headers and their values.
abbrev pub ssdp_header_server : String
ssdp_header_server = "Server"

abbrev pub ssdp_header_date : String
ssdp_header_date = "Date"

abbrev pub ssdp_header_st : String
ssdp_header_st = "St"

abbrev pub ssdp_header_nts : String
ssdp_header_nts = "Nts"

abbrev pub ssdp_header_usn : String
ssdp_header_usn = "Usn"

abbrev pub ssdp_header_location : String
ssdp_header_location = "Location"

abbrev pub ssdp_header_nt : String
ssdp_header_nt = "Nt"

abbrev pub ssdp_header_mx : String
ssdp_header_mx = "Mx"

abbrev pub ssdp_header_man : String
ssdp_header_man = "Man"

abbrev pub ssdp_header_ext : String
ssdp_header_ext = "Ext"

abbrev pub ssdp_option_max_age : String
ssdp_option_max_age = "max-age="

abbrev pub ssdp_request_line_ok : String
ssdp_request_line_ok = "HTTP/1.1 200 OK"

abbrev pub ssdp_status_discover : String
ssdp_status_discover = "ssdp:discover"

abbrev pub ssdp_status_alive : String
ssdp_status_alive = "ssdp:alive"

abbrev pub ssdp_status_bye : String
ssdp_status_bye = "ssdp:byebye"

abbrev pub ssdp_ns_all : String
ssdp_ns_all = "ssdp:all"

abbrev pub ssdp_msearch : String
ssdp_msearch = "M-SEARCH"

abbrev pub ssdp_notify : String
ssdp_notify = "NOTIFY"

abbrev pub ssdp_header_request_line : String
ssdp_header_request_line = "NOTIFY * HTTP/1.1"

abbrev pub ssdp_header_search_request_line : String
ssdp_header_search_request_line = "M-SEARCH * HTTP/1.1"

unfoldable pub uname : Host → String
uname h = h.sysname ++ ("/" ++ h.version)

unfoldable pub header_lines : StdMap String → String
header_lines [] = ""
header_lines ((name, value) ∷ rest) = name ++ (": " ++ (value ++ ("\r\n" ++ header_lines rest)))

unfoldable pub create_header : String → StdMap String → String
unfolding header_lines
create_header request_line headers = request_line ++ ("\r\n" ++ (header_lines headers ++ "\r\n"))

unfoldable pub usn : Config → String → String
usn config nt = "uuid:" ++ (config.uuid ++ ("::" ++ nt))

unfoldable pub multicast_endpoint : Config → String
multicast_endpoint config = config.multicast_address ++ (":" ++ config.multicast_port)

unfoldable pub server_text : Host → String
unfolding uname
server_text h = uname h ++ " DLNADOC/1.50 UPnP/1.0 SSDP/1.0.0"

unfoldable pub max_age : String
unfolding to_string
max_age = ssdp_option_max_age ++ to_string (pos announce_interval)

-- `SSDPServerImpl::create_response`
unfoldable pub create_response : Host → Config → String → String → StdMap String
unfolding put usn server_text max_age
create_response h config nt location = put h.content_length "0" (
    put (h.to_upper h.date) "Mon, 16 Oct 2017 09:59:53 GMT" (
      put (h.to_upper ssdp_header_ext) "" (
        put (h.to_upper ssdp_header_usn) (usn config nt) (
          put (h.to_upper ssdp_header_st) nt (
            put (h.to_upper ssdp_header_server) (server_text h) (
              put (h.to_upper ssdp_header_location) location
                (put (h.to_upper h.cache_control) max_age [])))))))

-- The headers that `SSDPServerImpl::send_anounce` sends.
unfoldable pub anounce_headers : Host → Config → String → String → StdMap String
unfolding put usn server_text max_age multicast_endpoint
anounce_headers h config nt location = put h.content_length "0" (
    put (h.to_upper ssdp_header_date) "Mon, 16 Oct 2017 09:59:53 GMT" (
      put (h.to_upper ssdp_header_ext) "" (
        put (h.to_upper ssdp_header_nts) ssdp_status_alive (
          put (h.to_upper ssdp_header_usn) (usn config nt) (
            put (h.to_upper ssdp_header_nt) nt (
              put (h.to_upper ssdp_header_server) (server_text h) (
                put (h.to_upper ssdp_header_location) location (
                  put (h.to_upper h.cache_control) max_age
                    (put (h.to_upper h.host) (multicast_endpoint config) [])))))))))

-- The headers that `SSDPServerImpl::send_suppress` sends.
unfoldable pub suppress_headers : Host → Config → String → StdMap String
unfolding put usn server_text multicast_endpoint
suppress_headers h config nt = put (h.to_upper h.content_length) "0" (
    put (h.to_upper ssdp_header_date) h.time_string (
      put (h.to_upper ssdp_header_ext) "" (
        put (h.to_upper ssdp_header_server) (server_text h) (
          put (h.to_upper ssdp_header_nts) ssdp_status_bye (
            put (h.to_upper ssdp_header_usn) (usn config nt) (
              put (h.to_upper ssdp_header_nt) nt
                (put (h.to_upper h.host) (multicast_endpoint config) [])))))))

-- The headers that `SSDPServerImpl::search` sends.
unfoldable pub search_headers : Host → Config → String → StdMap String
unfolding put multicast_endpoint
search_headers h config service = put (h.to_upper h.content_length) "0" (
    put (h.to_upper ssdp_header_man) ssdp_status_discover (
      put (h.to_upper ssdp_header_mx) "2" (
        put (h.to_upper ssdp_header_st) service
          (put (h.to_upper h.host) (multicast_endpoint config) []))))
