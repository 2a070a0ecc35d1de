-- ===== src/Server/Documents.antt =====
-- The documents that `Server::description` and `Server::cms` of src/server.cpp build.
use Prim.Native.String.{◌++◌}
use upnp.Prelude.{ℕ, String}
use upnp.Config.{Config}
use upnp.Xml.{empty_doc, XmlLib}
use upnp.Server.Soap.{Build, ◌>>=◌, ◌>>◌, add, set}

unfoldable pub protocol_doc : Build (Unit {0})
unfolding add set
protocol_doc = do
  root_n ← add 0 "s:Envelope" ""
  set root_n "xmlns:s" "http://schemas.xmlsoap.org/soap/envelope/"
  set root_n "xmlns:xsi" "http://www.w3.org/2001/XMLSchema-instance"
  set root_n "s:encodingStyle" "http://schemas.xmlsoap.org/soap/encoding/"
  body_n ← add root_n "s:Body" ""
  response_n ← add body_n "u:GetProtocolInfoResponse" ""
  set response_n "xmlns:u" "urn:schemas-upnp-org:service:ConnectionManager:1"
  source_n ←
      add response_n "Source"
        "http-get:*:audio/mpeg:*,http-get:*:text/plain:*,http-get:*:video/mp4:*,http-get:*:video/mpeg:*,http-get:*:video/quicktime:*"
  set source_n "xsi:type" "xsd:string"
  sink_n ← add response_n "Sink" ""
  set sink_n "xsi:type" "xsd:string"

unfoldable pub protocol_info : XmlLib → String
unfolding protocol_doc
protocol_info xml = "<?xml version=\"1.0\"?>\n" ++ xml.print (protocol_doc empty_doc).1

unfoldable pub icon_list : ℕ → Build ℕ
unfolding add
icon_list device_n = do
  icon_list ← add device_n "iconList" ""
  icon_48 ← add icon_list "icon" ""
  add icon_48 "mimetype" "image/png"
  add icon_48 "width" "48"
  add icon_48 "height" "48"
  add icon_48 "depth" "24"
  add icon_48 "url" "/squawk48.png"
  icon_64 ← add icon_list "icon" ""
  add icon_64 "mimetype" "image/png"
  add icon_64 "width" "64"
  add icon_64 "height" "64"
  add icon_64 "depth" "24"
  add icon_64 "url" "/squawk64.png"
  icon_128 ← add icon_list "icon" ""
  add icon_128 "mimetype" "image/png"
  add icon_128 "width" "128"
  add icon_128 "height" "128"
  add icon_128 "depth" "24"
  add icon_128 "url" "/squawk128.png"

unfoldable pub service_list : ℕ → Build ℕ
unfolding add
service_list device_n = do
  service_list ← add device_n "serviceList" ""
  service_cds ← add service_list "service" ""
  add service_cds "serviceType" "urn:schemas-upnp-org:service:ContentDirectory:1"
  add service_cds "serviceId" "urn:upnp-org:serviceId:ContentDirectory"
  add service_cds "controlURL" "/ctl/cds"
  add service_cds "eventSubURL" "/ctl/cds"
  add service_cds "SCPDURL" "/cds.xml"
  service_cms ← add service_list "service" ""
  add service_cms "serviceType" "urn:schemas-upnp-org:service:ConnectionManager:1"
  add service_cms "serviceId" "urn:upnp-org:serviceId:ConnectionManager"
  add service_cms "controlURL" "/ctl/cms"
  add service_cms "eventSubURL" "/ctl/cms"
  add service_cms "SCPDURL" "/cms.xml"

unfoldable pub description_doc : Config → Build ℕ
unfolding add set icon_list service_list
description_doc config = do
  root_n ← add 0 "root" ""
  set root_n "xmlns" "urn:schemas-upnp-org:device-1-0"
  spec_n ← add root_n "specVersion" ""
  add spec_n "major" "1"
  add spec_n "minor" "0"
  device_n ← add root_n "device" ""
  add device_n "deviceType" "urn:schemas-upnp-org:device:MediaServer:1"
  add device_n "friendlyName" config.name
  add device_n "manufacturer" "loudlabs"
  add device_n "manufacturerURL" "https://github.com/squawkcpp"
  add device_n "modelDescription" "Squawk Content Directory Server."
  add device_n "modelName" "Squawk Media Server"
  add device_n "modelNumber" "0"
  add device_n "modelURL" "https://github.com/squawkcpp"
  add device_n "serialNumber" "0"
  add device_n "UDN" ("uuid:" ++ config.uuid)
  dlna_doc_n ← add device_n "dlna:X_DLNADOC" "DMS-1.50"
  set dlna_doc_n "xmlns:dlna" "urn:schemas-dlna-org:device-1-0"
  add device_n "presentationURL" "/"
  icon_list device_n
  service_list device_n

unfoldable pub description_text : XmlLib → Config → String
unfolding description_doc
description_text xml config =
    "<?xml version=\"1.0\"?>\r\n" ++ xml.print (description_doc config empty_doc).1
