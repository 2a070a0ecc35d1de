-- ===== src/Main/Routes.antt =====
-- The routes of main.cpp: the pattern of each, what is called, and what is run behind it.
pub mod Icons
use upnp.Prelude.{ℕ, String, List, [], ◌∷◌, length, take, leb, err, out_of_range, if◌then◌else◌}
use upnp.Prelude.Exec.{Exec, ◌>>=◌, ◌>>◌, lift}
use upnp.Config.{Config}
use upnp.Datastore.Redis.{Redis}
use upnp.Xml.{XmlLib}
use upnp.Server.Http.{Request, Names, Handler, write, parameter, call}
use upnp.Server.Texts.{cds_description, cms_description}
use upnp.Server.Control
use upnp.Main.{IconFile, icon_file, png, png_len}

pub data Target : Type 0 where
  server_config description content_directory_description connection_manager_description
        content_directory connection_manager icon :
      Target

-- `http::mod::Http()` or `upnp::UpnpHeaders`.
pub data Finish : Type 0 where
  http upnp_headers : Finish

pub record Route : Type 0 where
  pub pattern : String
  pub target : Target
  pub finish : Finish

-- The calls of `bind`, in their order.
abbrev pub routes : List Route
routes =
    record { pattern = "^\\/config$"; target = server_config; finish = http }
    ∷ record { pattern = "^\\/root.xml$"; target = description; finish = http }
    ∷ record { pattern = "^\\/cds.xml$"; target = content_directory_description; finish = http }
    ∷ record { pattern = "^\\/cms.xml"; target = connection_manager_description; finish = http }
    ∷ record { pattern = "^/ctl/cds$"; target = content_directory; finish = upnp_headers }
    ∷ record { pattern = "^/ctl/cms$"; target = connection_manager; finish = http }
    ∷ record { pattern = "^\\/+squawk([[:digit:]]+).png$"; target = icon; finish = http }
    ∷ []

-- `response.write( bytes, n )`, where `text_of` is the text of these bytes: past the end of the array is
-- nothing that may be read.
unfoldable pub write_bytes : (List ℕ → String) → List ℕ → ℕ → Handler
unfolding call
write_bytes text_of bytes n =
    if leb n (length bytes) then call (write (text_of (take n bytes))) else lift (err out_of_range)

-- `key` is the digits of the path.
module _ (r : Redis) (db : r.Db) (xml : XmlLib) (names : Names) (text_of : List ℕ → String) where
  unfoldable pub respond : Config → Request → (key : String) → Target → Handler
  unfolding call icon_file write_bytes Control.config Control.description Control.cds Control.cms
  respond config request key server_config = Control.config r db xml names
  respond config request key description = Control.description r db xml names config
  respond config request key content_directory_description = do
    call (write cds_description)
    call (parameter names.content_type names.mime_xml)
  respond config request key connection_manager_description = do
    call (write cms_description)
    call (parameter names.content_type names.mime_xml)
  respond config request key content_directory = Control.cds r db xml names config request
  respond config request key connection_manager = Control.cms r db xml names config request
  respond config request key icon = do
    write_bytes text_of (png (icon_file key)) (png_len (icon_file key))
    call (parameter names.content_type names.mime_png)
