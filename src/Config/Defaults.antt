-- ===== src/Config/Defaults.antt =====
-- What `validate` leaves of a configuration and what it fills in.
use upnp.Prelude.{
  String, Bool, true, false, ◌≡◌, ◌↔◌, Fault, Option-cases, refl, sym, ◌∙◌, ◌&&◌, not, ◌==◌, some,
  All, ap, subst, List, [], ◌∷◌, none, ok, err, null_pointer, >>=-eq-ok, arith, Bool-cases, inl,
  inr, ◌⊎◌,
}
use upnp.Prelude.Text.{is_empty}
use upnp.Config.{Config, Interface, Address, last_ip, get_ip, or_default, listen_default, validate}

-- A field that is set is kept.
abbrev Kept : String → String → Type 0
Kept old new = (is_empty old ≡ true) ⊎ (new ≡ old)

or_default_set : (f v : String) → is_empty v ≡ false → is_empty (or_default f v) ≡ false
unfolding or_default
or_default_set f v h = ground arith

or_default-Kept : (f v : String) → Kept f (or_default f v)
unfolding or_default
or_default-Kept f v = elim (Bool-cases (is_empty f)) [ inl e ↦ inl e | inr e ↦ inr (rw e) ]

or_default_empty : (f : String) → or_default f "" ≡ f
unfolding or_default is_empty
or_default_empty String.[] = refl
or_default_empty (String.◌∷◌ c f) = refl

-- The fields that the server needs are set.
pub record IsComplete (c : Config) : Type 0 where
  pub listen_address : is_empty c.listen_address ≡ false
  pub http_port : is_empty c.http_port ≡ false
  pub multicast_address : is_empty c.multicast_address ≡ false
  pub multicast_port : is_empty c.multicast_port ≡ false
  pub name : is_empty c.name ≡ false
  pub uuid : is_empty c.uuid ≡ false

pub record KeepsSet (c c' : Config) : Type 0 where
  pub listen_address : Kept c.listen_address c'.listen_address
  pub http_port : Kept c.http_port c'.http_port
  pub multicast_address : Kept c.multicast_address c'.multicast_address
  pub multicast_port : Kept c.multicast_port c'.multicast_port
  pub name : Kept c.name c'.name
  pub cds_uri : c'.cds_uri ≡ c.cds_uri
  pub uuid : Kept c.uuid c'.uuid

filled : Config → String → Config
filled c listen = record {
  listen_address = listen;
  http_port = or_default c.http_port "9003";
  multicast_address = or_default c.multicast_address "239.255.255.250";
  multicast_port = or_default c.multicast_port "1900";
  name = or_default c.name "Squawk Media Server: 1.0";
  cds_uri = or_default c.cds_uri "";
  uuid = or_default c.uuid "7499a4b3-8c03-49a2-9bce-aebbf4512dc8";
}

filled-IsComplete :
    (c : Config) (listen : String) → is_empty listen ≡ false → IsComplete (filled c listen)
unfolding filled is_empty
filled-IsComplete c listen set = record {
  listen_address = set;
  http_port = or_default_set _ "9003" refl;
  multicast_address = or_default_set _ "239.255.255.250" refl;
  multicast_port = or_default_set _ "1900" refl;
  name = or_default_set _ "Squawk Media Server: 1.0" refl;
  uuid = or_default_set _ "7499a4b3-8c03-49a2-9bce-aebbf4512dc8" refl;
}

filled-KeepsSet :
    (c : Config) (listen : String) → Kept c.listen_address listen → KeepsSet c (filled c listen)
unfolding filled
filled-KeepsSet c listen kept = record {
  listen_address = kept;
  http_port = or_default-Kept _ _;
  multicast_address = or_default-Kept _ _;
  multicast_port = or_default-Kept _ _;
  name = or_default-Kept _ _;
  cds_uri = or_default_empty _;
  uuid = or_default-Kept _ _;
}

listen_default-Kept :
    (ifs : List Interface) (old new : String) → listen_default ifs old ≡ ok new → Kept old new
unfolding listen_default
listen_default-Kept ifs old new h = elim (Bool-cases (is_empty old)) [
  | inl e ↦ inl e
  | inr e ↦ inr (cc (rw e at h))
]

-- What inet_ntop prints for an address of an interface is not empty.
abbrev pub IsPrinted : Interface → Type 0
IsPrinted ifa = (a : Address) → ifa.addr ≡ some a → is_empty a.text ≡ false

last_ip_set :
    (ifs : List Interface) (ip ip' : String)
    → All IsPrinted ifs
    → is_empty ip ≡ false
    → last_ip ip ifs ≡ ok ip'
    → is_empty ip' ≡ false
unfolding last_ip
last_ip_set [] ip ip' printed set h = cc
last_ip_set (ifa ∷ rest) ip ip' (first, printed) set h = elim (Option-cases ifa.addr) [
  | inl e ↦ absurd (cc (rw (e, last_ip) at h))
  | inr (a, e) ↦ elim (Bool-cases (a.is_inet && not (ifa.name == "lo"))) [
    | inl used ↦ last_ip_set rest a.text ip' printed (first a e) (rw (e, last_ip, used) at h)
    | inr skipped ↦ last_ip_set rest ip ip' printed set (rw (e, last_ip, skipped) at h)
  ]
]

listen_default_set :
    (ifs : List Interface) (old new : String)
    → All IsPrinted ifs
    → listen_default ifs old ≡ ok new
    → is_empty new ≡ false
unfolding listen_default get_ip is_empty
listen_default_set ifs old new printed h = elim (Bool-cases (is_empty old)) [
  | inl e ↦ last_ip_set ifs "127.0.0.1" new printed refl (rw e at h)
  | inr e ↦ let same : old ≡ new = cc (rw e at h) in ap is_empty (sym same) ∙ e
]

-- Where the addresses of the interfaces print as texts that are not empty and validate returns, it
-- returns true, every field that the server needs is set, the listen address included, every field
-- that was set before is unchanged, and so is the CDS URI.
pub validate-IsComplete :
    (ifs : List Interface) (c c' : Config) (b : Bool)
    → All IsPrinted ifs
    → validate ifs c ≡ ok (b, c')
    → (b ≡ true) × IsComplete c' × KeepsSet c c'
unfolding validate filled
validate-IsComplete ifs c c' b printed h =
    let (listen, found, same) = >>=-eq-ok (listen_default ifs c.listen_address) _ h in
    let is_filled : filled c listen ≡ c' = cc in
    (
      cc,
      subst IsComplete is_filled (
          filled-IsComplete c listen
            (listen_default_set ifs c.listen_address listen printed found)),
      subst (KeepsSet c) is_filled (filled-KeepsSet c listen (listen_default-Kept ifs _ _ found)),
    )

-- A configuration that is complete is left as it is by validate.
validate_kept : (ifs : List Interface) (c : Config) → IsComplete c → validate ifs c ≡ ok (true, c)
unfolding validate
validate_kept ifs c h =
    rw (h.listen_address, h.http_port, h.multicast_address, h.multicast_port, h.name, h.uuid)
      (ap (λ u. ok (true, record c { cds_uri = u }))
        (unfold or_default in or_default_empty c.cds_uri))

-- An interface whose `ifa_addr` is null.
abbrev pub HasNull : List Interface → Type 0
HasNull [] = ⊥
HasNull (ifa ∷ rest) = (ifa.addr ≡ none) ⊎ HasNull rest

last_ip-null :
    (ifs : List Interface) (ip : String) → HasNull ifs → last_ip ip ifs ≡ err null_pointer
unfolding last_ip
last_ip-null [] ip h = absurd h
last_ip-null (ifa ∷ rest) ip (inl e) = rw (e, last_ip)
last_ip-null (ifa ∷ rest) ip (inr h) = elim (Option-cases ifa.addr) [
  | inl e ↦ rw (e, last_ip)
  | inr (a, e) ↦ rw (e, last_ip) (last_ip-null rest _ h)
]

last_ip-HasNull :
    (ifs : List Interface) (ip : String) (f : Fault) → last_ip ip ifs ≡ err f → HasNull ifs
unfolding last_ip
last_ip-HasNull [] ip f h = cc
last_ip-HasNull (ifa ∷ rest) ip f h = elim (Option-cases ifa.addr) [
  | inl e ↦ inl e
  | inr (a, e) ↦ inr (last_ip-HasNull rest _ f (rw (e, last_ip) at h))
]

-- _get_ip reads through a null pointer exactly when getifaddrs gives some interface without an
-- address.
pub get_ip-null_iff : (ifs : List Interface) → (get_ip ifs ≡ err null_pointer) ↔ HasNull ifs
unfolding get_ip
get_ip-null_iff ifs = (last_ip-HasNull ifs "127.0.0.1" null_pointer, last_ip-null ifs "127.0.0.1")
