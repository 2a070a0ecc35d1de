-- ===== src/Ssdp/Headers/Usn.antt =====
-- The USN that the messages of the server carry.
use Prim.Native.String.{◌++◌}
use upnp.Prelude.{String, ◌≡◌, ◌≢◌, true, eq_iff, Option, some, arith}
use upnp.Prelude.StdMap.{StdMap, find, put, find-put}
use upnp.Prelude.Text.{contains, contains-append}
use upnp.Config.{Config}
use upnp.Ssdp.Headers.{
  Host, ssdp_header_usn, ssdp_header_ext, ssdp_header_nts, ssdp_header_date, ssdp_header_server,
  usn, create_response, anounce_headers, suppress_headers,
}

pub usn-contains : (config : Config) (nt : String) → contains (usn config nt) config.uuid ≡ true
unfolding usn
usn-contains config nt = contains-append "uuid:" config.uuid ("::" ++ nt)

-- No header that is set after the USN has its name.
pub record IsDistinct (h : Host) : Type 0 where
  pub content_length : h.content_length ≢ h.to_upper ssdp_header_usn
  pub upper_length : h.to_upper h.content_length ≢ h.to_upper ssdp_header_usn
  pub response_date : h.to_upper h.date ≢ h.to_upper ssdp_header_usn
  pub date : h.to_upper ssdp_header_date ≢ h.to_upper ssdp_header_usn
  pub ext : h.to_upper ssdp_header_ext ≢ h.to_upper ssdp_header_usn
  pub nts : h.to_upper ssdp_header_nts ≢ h.to_upper ssdp_header_usn
  pub server : h.to_upper ssdp_header_server ≢ h.to_upper ssdp_header_usn

find-put_same : (k v : String) (m : StdMap String) → find k (put k v m) ≡ some v
find-put_same k v m = ground (arith, find-put k k v m, eq_iff k k)

find-put_other :
    (k j v : String) (m : StdMap String) {a : Option String}
    → k ≢ j
    → find j m ≡ a
    → find j (put k v m) ≡ a
find-put_other k j v m ne h = ground (arith, find-put k j v m, eq_iff k j)

module _ (h : Host) (distinct : IsDistinct h) (config : Config) where
  pub create_response-usn :
      (nt location : String)
      → find (h.to_upper ssdp_header_usn) (create_response h config nt location)
        ≡ some (usn config nt)
  unfolding create_response
  create_response-usn nt location = find-put_other _ _ _ _ distinct.content_length (
      find-put_other _ _ _ _ distinct.response_date
        (find-put_other _ _ _ _ distinct.ext (find-put_same _ _ _)))

  pub anounce_headers-usn :
      (nt location : String)
      → find (h.to_upper ssdp_header_usn) (anounce_headers h config nt location)
        ≡ some (usn config nt)
  unfolding anounce_headers
  anounce_headers-usn nt location = find-put_other _ _ _ _ distinct.content_length (
      find-put_other _ _ _ _ distinct.date (
        find-put_other _ _ _ _ distinct.ext
          (find-put_other _ _ _ _ distinct.nts (find-put_same _ _ _))))

  pub suppress_headers-usn :
      (nt : String)
      → find (h.to_upper ssdp_header_usn) (suppress_headers h config nt) ≡ some (usn config nt)
  unfolding suppress_headers
  suppress_headers-usn nt = find-put_other _ _ _ _ distinct.upper_length (
      find-put_other _ _ _ _ distinct.date (
        find-put_other _ _ _ _ distinct.ext (
          find-put_other _ _ _ _ distinct.server
            (find-put_other _ _ _ _ distinct.nts (find-put_same _ _ _)))))
