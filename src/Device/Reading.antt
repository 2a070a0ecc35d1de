-- ===== src/Device/Reading.antt =====
-- The description that `Server::description` builds, as `parse` of src/device.h reads it.
use Prim.Native.String.{◌++◌}
use upnp.Prelude.{String, ◌≡◌, refl, List, [], ◌∷◌, ap, ◌∙◌, ok}
use upnp.Prelude.Number.{ℤ, pos}
use upnp.Prelude.Text.{c_str}
use mathlib.Core.List
use upnp.Config.{Config}
use upnp.Xml.{empty_doc, XmlLib}
use upnp.Xml.Tree.{read_back}
use upnp.Server.Documents.{description_doc, description_text}
use upnp.Device
use upnp.Device.{Icon, Service, Device}

abbrev read_icons : List Icon
read_icons =
    record {
      width = pos 48;
      height = pos 48;
      depth = pos 24;
      mime_type = "image/png";
      url = "/squawk48.png";
    }
    ∷ record {
      width = pos 64;
      height = pos 64;
      depth = pos 24;
      mime_type = "image/png";
      url = "/squawk64.png";
    }
    ∷ record {
      width = pos 128;
      height = pos 128;
      depth = pos 24;
      mime_type = "image/png";
      url = "/squawk128.png";
    }
    ∷ []

abbrev read_services : List Service
read_services =
    record {
      service_type = "urn:schemas-upnp-org:service:ContentDirectory:1";
      service_id = "urn:upnp-org:serviceId:ContentDirectory";
      scpd_url = "/cds.xml";
      control_url = "/ctl/cds";
      event_sub_url = "/ctl/cds";
    }
    ∷ record {
      service_type = "urn:schemas-upnp-org:service:ConnectionManager:1";
      service_id = "urn:upnp-org:serviceId:ConnectionManager";
      scpd_url = "/cms.xml";
      control_url = "/ctl/cms";
      event_sub_url = "/ctl/cms";
    }
    ∷ []

-- One after the other to the end, as `push_back` does.
abbrev pub push_all : {A : Type 0} → List A → List A → List A
push_all xs [] = xs
push_all xs (y ∷ ys) = push_all (List.◌++◌ xs (y ∷ [])) ys

-- The device of a description of this configuration: the URL of the model is not read.
abbrev pub described : Config → Device → Device
described config device = record device {
  version_major = pos 1;
  version_minor = pos 0;
  device_type = "urn:schemas-upnp-org:device:MediaServer:1";
  friendly_name = c_str config.name;
  manufacturer = "loudlabs";
  manufacturer_url = "https://github.com/squawkcpp";
  model_description = "Squawk Content Directory Server.";
  model_name = "Squawk Media Server";
  model_number = "0";
  serial_number = "0";
  udn = c_str ("uuid:" ++ config.uuid);
  presentation_url = "/";
  images = push_all device.images read_icons;
  services = push_all device.services read_services;
}

read_described :
    (unfit : String → ℤ) (config : Config) (device : Device)
    → Device.read_document unfit (read_back 5 (description_doc config empty_doc).1) device
      ≡ ok (described config device)
unfolding Device.read_document Device.atoi Device.add_icon Device.add_service read_back
    description_doc
read_described unfit config device = refl

-- Where the XML library reads a printed description as the tree that was built, parse fills a
-- device from the server's own description: versions, texts, three icons and two services are
-- added to those it has; its model URL stays as it was.
pub parse-description :
    (unfit : String → ℤ) (xml : XmlLib) (config : Config) (device : Device)
    → xml.parse (c_str (description_text xml config))
      ≡ read_back 5 (description_doc config empty_doc).1
    → Device.parse unfit xml (description_text xml config) device ≡ ok (described config device)
unfolding Device.parse
parse-description unfit xml config device h =
    ap (λ p. Device.read_document unfit p device) h ∙ read_described unfit config device
