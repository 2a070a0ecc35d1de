-- ===== src/Tests/Browsing.antt =====
-- Browse requests and a search at concrete inputs.
use upnp.Prelude.{
  ◌⊎◌, Bool, true, false, ◌≡◌, ◌↔◌, refl, [], ◌∷◌, ok, err, invalid_argument, null_pointer,
}
use upnp.Prelude.Number.{stoi, pos}
use upnp.Xml.{XmlLib, root}
use upnp.Command.Laws.{Arguments, envelope}
use upnp.Server.Control.{cds}
use upnp.Server.Browse.Unread.{cds_browse_unread}
use upnp.Ssdp.Server.{Network}
use upnp.Ssdp.Connection.Client.{search}
use upnp.Ssdp.Connection.Client.Scope.{search-null_iff}
use upnp.Tests.Toy.{toy_network, toy, toy_host, empty_store, toy_config, toy_names, toy_request}

abbrev unread : Arguments
unread = ("ObjectID", "7") ∷ ("StartingIndex", "0") ∷ ("RequestedCount", "all") ∷ []

abbrev unread_xml : XmlLib
unread_xml = record { parse = λ text. root (envelope "Browse" unread); print = λ doc. "<doc/>" }

cds_browse_unread_example :
    cds toy empty_store unread_xml toy_names toy_config (toy_request "POST" "") []
    ≡ (err invalid_argument, [])
unfolding stoi
cds_browse_unread_example =
    cds_browse_unread toy empty_store unread_xml toy_names toy_config (toy_request "POST" "") unread
      invalid_argument refl refl refl

abbrev no_sockets : Network
no_sockets = record toy_network { client_opens = λ sent. false }

search-null_iff_example :
    (((search no_sockets toy_host toy_config "ssdp:all" []).0 ≡ err null_pointer)
      ↔ (◌≡◌ {A = Bool} true false ⊎ ◌≡◌ {A = Bool} false false))
    × (((search no_sockets toy_host toy_config "ssdp:all" []).0 ≡ ok tt)
        ↔ (◌≡◌ {A = Bool} true true × ◌≡◌ {A = Bool} false true))
unfolding stoi
search-null_iff_example =
    search-null_iff no_sockets toy_host toy_config (pos 1900) "ssdp:all" [] refl
