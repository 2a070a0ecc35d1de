-- ===== src/Device.antt =====
-- src/device.h: a device in the network, its icons and services, and `parse`, which reads them from a
-- device description.
pub mod Reading
use upnp.Prelude.{
  ℕ, ◌^◌, String, ◌==◌, Bool, List, [], ◌∷◌, ◌++◌, Result, ok, err, out_of_range, parse_error,
  null_pointer, leb, if◌then◌else◌,
}
use upnp.Prelude.Number.{ℤ, pos, stoi}
use upnp.Prelude.Text.{c_str}
use upnp.Xml.{XmlNode, local_name, value, for_children, Parsed, malformed, no_root, root, XmlLib}
use upnp.Ssdp.Server.{seconds}

pub record Icon : Type 0 where
  pub width : ℤ
  pub height : ℤ
  pub depth : ℤ
  pub mime_type : String
  pub url : String

abbrev pub new_icon : Icon
new_icon = record { width = pos 0; height = pos 0; depth = pos 0; mime_type = ""; url = "" }

pub record Service : Type 0 where
  pub service_type : String
  pub service_id : String
  pub scpd_url : String
  pub control_url : String
  pub event_sub_url : String

abbrev pub new_service : Service
new_service = record {
  service_type = "";
  service_id = "";
  scpd_url = "";
  control_url = "";
  event_sub_url = "";
}

-- Times are readings of the clock in nanoseconds.
pub record Device : Type 0 where
  pub version_major : ℤ
  pub version_minor : ℤ
  pub device_type : String
  pub friendly_name : String
  pub manufacturer : String
  pub manufacturer_url : String
  pub model_description : String
  pub model_name : String
  pub model_number : String
  pub model_url : String
  pub serial_number : String
  pub udn : String
  pub upc : String
  pub presentation_url : String
  pub url_base : String
  pub images : List Icon
  pub services : List Service
  pub timestamp : ℕ
  pub timeout : ℕ

-- The constructor leaves the two versions as they are in memory.
abbrev pub new_device : (major minor : ℤ) (now : ℕ) → Device
new_device major minor now = record {
  version_major = major;
  version_minor = minor;
  device_type = "";
  friendly_name = "";
  manufacturer = "";
  manufacturer_url = "";
  model_description = "";
  model_name = "";
  model_number = "";
  model_url = "";
  serial_number = "";
  udn = "";
  upc = "";
  presentation_url = "";
  url_base = "";
  images = [];
  services = [];
  timestamp = now;
  timeout = 1800;
}

unfoldable pub add_icon : Icon → Device → Device
add_icon icon device = record device { images = device.images ++ icon ∷ [] }

unfoldable pub add_service : Service → Device → Device
add_service service device = record device { services = device.services ++ service ∷ [] }

unfoldable pub touch : ℕ → Device → Device
touch now device = record device { timestamp = now }

-- `timeout()` at the time `now`
unfoldable pub timed_out : ℕ → Device → Bool
unfolding seconds
timed_out now device = leb device.timeout (seconds device.timestamp now)

-- `atoi` of a number that does not fit an `int` is undefined: what it gives is a parameter.
module _ (unfit : String → ℤ) where
  unfoldable pub atoi : String → ℤ
  unfolding stoi
  atoi text = elim (stoi text) [ ok n ↦ n | err out_of_range ↦ unfit text | err _ ↦ pos 0 ]

  unfoldable pub read_version : XmlNode → Device → Device
  unfolding atoi
  read_version n device =
      if local_name n == "major"
      then record device { version_major = atoi (value n) }
      else if local_name n == "minor"
      then record device { version_minor = atoi (value n) }
      else device

  unfoldable pub read_icon : XmlNode → Icon → Icon
  unfolding atoi
  read_icon n icon =
      if local_name n == "mimetype"
      then record icon { mime_type = value n }
      else if local_name n == "width"
      then record icon { width = atoi (value n) }
      else if local_name n == "height"
      then record icon { height = atoi (value n) }
      else if local_name n == "depth"
      then record icon { depth = atoi (value n) }
      else if local_name n == "url"
      then record icon { url = value n }
      else icon

  unfoldable pub read_icon_list : XmlNode → Device → Device
  unfolding for_children read_icon add_icon
  read_icon_list n device = add_icon (for_children "*" n read_icon new_icon) device

  unfoldable pub read_service : XmlNode → Service → Service
  read_service n service =
      if local_name n == "serviceType"
      then record service { service_type = value n }
      else if local_name n == "serviceId"
      then record service { service_id = value n }
      else if local_name n == "SCPDURL"
      then record service { scpd_url = value n }
      else if local_name n == "controlURL"
      then record service { control_url = value n }
      else if local_name n == "eventSubURL"
      then record service { event_sub_url = value n }
      else service

  unfoldable pub read_service_list : XmlNode → Device → Device
  unfolding for_children read_service add_service
  read_service_list n device = add_service (for_children "*" n read_service new_service) device

  -- The function on the nodes below `device`.
  unfoldable pub read_device : XmlNode → Device → Device
  unfolding for_children read_icon_list read_service_list
  read_device n device =
      if local_name n == "deviceType"
      then record device { device_type = value n }
      else if local_name n == "presentationURL"
      then record device { presentation_url = value n }
      else if local_name n == "friendlyName"
      then record device { friendly_name = value n }
      else if local_name n == "manufacturer"
      then record device { manufacturer = value n }
      else if local_name n == "manufacturerURL"
      then record device { manufacturer_url = value n }
      else if local_name n == "modelNumber"
      then record device { model_number = value n }
      else if local_name n == "modelDescription"
      then record device { model_description = value n }
      else if local_name n == "modelName"
      then record device { model_name = value n }
      else if local_name n == "UDN"
      then record device { udn = value n }
      else if local_name n == "urlBase"
      then record device { url_base = value n }
      else if local_name n == "serialNumber"
      then record device { serial_number = value n }
      else if local_name n == "iconList"
      then for_children "icon" n read_icon_list device
      else if local_name n == "serviceList"
      then for_children "service" n read_service_list device
      else device

  -- The function on the nodes below the root.
  unfoldable pub read_body : XmlNode → Device → Device
  unfolding for_children read_version read_device
  read_body n device =
      if local_name n == "specVersion"
      then for_children "*" n read_version device
      else if local_name n == "device"
      then for_children "*" n read_device device
      else if local_name n == "URLBase"
      then record device { url_base = value n }
      else device

  unfoldable pub read_document : Parsed → Device → Result Device
  unfolding for_children read_body
  read_document malformed device = err parse_error
  read_document no_root device = err null_pointer
  read_document (root n) device = ok (for_children "*" n read_body device)

  -- `parse( xml, device )`, whose text is read as a C string.
  unfoldable pub parse : XmlLib → String → Device → Result Device
  unfolding read_document c_str
  parse xml text device = read_document (xml.parse (c_str text)) device
