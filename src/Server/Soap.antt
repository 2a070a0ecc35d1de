-- ===== src/Server/Soap.antt =====
-- `soap_envelope` of src/_utils.h.
use Prim.Native.String.{◌++◌}
use upnp.Prelude.{ℕ, String}
use upnp.Prelude.Number.{ℤ, to_string}
use upnp.Xml.{Doc, empty_doc, element, attr, XmlLib}

-- A part of a document being built.
abbrev pub Build : Type 0 → Type 0
Build A = Doc → A × Doc

infixl 5 ◌>>=◌ ◌>>◌
abbrev pub ◌>>=◌ : {A B : Type 0} → Build A → (A → Build B) → Build B
◌>>=◌ m f doc = let (a, doc') = m doc in f a doc'

abbrev pub ◌>>◌ : {A B : Type 0} → Build A → Build B → Build B
m >> k = m >>= λ _. k

unfoldable pub add : ℕ → String → String → Build ℕ
unfolding element
add parent name value doc = let (doc', node) = element doc parent name value in (node, doc')

unfoldable pub set : ℕ → String → String → Build (Unit {0})
unfolding attr
set node name value doc = (tt, attr doc node name value)

unfoldable pub envelope_doc : String → ℤ → ℤ → Build (Unit {0})
unfolding add set to_string
envelope_doc body results total = do
  root_n ← add 0 "s:Envelope" ""
  set root_n "xmlns:s" "http://schemas.xmlsoap.org/soap/envelope/"
  set root_n "xmlns:xsi" "http://www.w3.org/2001/XMLSchema-instance"
  set root_n "s:encodingStyle" "http://schemas.xmlsoap.org/soap/encoding/"
  body_n ← add root_n "s:Body" ""
  browse_n ← add body_n "u:BrowseResponse" ""
  set browse_n "xmlns:u" "urn:schemas-upnp-org:service:ContentDirectory:1"
  result_n ← add browse_n "Result" body
  set result_n "xsi:type" "xsd:string"
  number_n ← add browse_n "NumberReturned" (to_string results)
  set number_n "xsi:type" "xsd:int"
  total_n ← add browse_n "TotalMatches" (to_string total)
  set total_n "xsi:type" "xsd:int"
  update_n ← add browse_n "UpdateID" "1"
  set update_n "xsi:type" "xsd:int"

unfoldable pub soap_envelope : XmlLib → String → ℤ → ℤ → String
unfolding envelope_doc
soap_envelope xml body results total =
    "<?xml version=\"1.0\"?>\n" ++ xml.print (envelope_doc body results total empty_doc).1
