-- ===== src/Tests/Requests.antt =====
-- Requests, responses and the documents in them at concrete inputs.
use upnp.Prelude.{
  List, Result, String, ◌≡◌, ◌↔◌, refl, true, false, none, [], ◌∷◌, ok, err, out_of_range, eq_iff,
}
use upnp.Prelude.Number.{read_integer, pos, stoi}
use upnp.Prelude.StdMap
use upnp.Prelude.StdMap.{StdMap}
use upnp.Prelude.Text.{c_str}
use upnp.Datastore.Param
use upnp.Datastore.Data
use upnp.Xml.{root, XmlLib, empty_doc}
use upnp.Xml.Tree.{read_back}
use upnp.Command
use upnp.Command.{UpnpCommand, CommandType, browse, nothing, parse_request}
use upnp.Command.Laws.{envelope, last_value, parse_request-envelope}
use upnp.Didl
use upnp.Didl.{Didl, new_didl, is_container, class_name}
use upnp.Didl.Write.{
  write, write_item, root_of, write_body, at, write_title, write_details, optional_element,
  write_art, write_thumb, write_res, done,
}
use upnp.Didl.Write.Count.{Ends, IsCounted-new_didl, write-Ends}
use upnp.Server.Http.{write as write_call, parameter}
use upnp.Server.Callback.{strip, strip-err_iff}
use upnp.Didl.Write.Inside.{children_of}
use upnp.Server.Browse.{browse_children, browse_count, object_key}
use upnp.Server.Soap.{soap_envelope}
use upnp.Server.Browse.Response.{children_response, cds_browse_children, cds_browse_missing}
use upnp.Server.Browse.Objects.{browse_children-count}
use upnp.Server.Documents.{description_doc, description_text}
use upnp.Server.Control.{cds}
use upnp.Device
use upnp.Device.{Device, new_device}
use upnp.Device.Reading.{described, parse-description}
use upnp.Tests.Toy.{arguments, toy_xml, toy_names, toy_request, toy, empty_store, toy_config}

-- A library that reads every text as the description.
abbrev description_xml : XmlLib
description_xml = record {
  parse = λ text. read_back 5 (description_doc toy_config empty_doc).1;
  print = λ doc. "<root/>";
}

parse_request-envelope_example :
    (c : UpnpCommand) × (parse_request toy_xml "<s:Envelope/>" ≡ ok c)
    × (c.type ≡ Command.parse "Browse")
    × ((key : String) → StdMap.find key c.values ≡ last_value key arguments none)
unfolding c_str
parse_request-envelope_example =
    parse_request-envelope toy_xml "<s:Envelope/>" "Browse" arguments refl

-- A store whose nodes are all folders, below each of which the three keys are listed.
abbrev folders : toy.Db
folders = (λ k m. false, Param.cls ∷ "folder" ∷ Param.name ∷ "n" ∷ Param.parent ∷ "root" ∷ [])

abbrev didl_of : Result Didl → Didl
didl_of (ok d) = d
didl_of (err e) = new_didl toy_config

-- The document with the three folders.
abbrev browsed : Didl
browsed = didl_of (browse_children toy folders toy_config "root" (pos 0) (pos 3))

browse_children-count_example : children_of browsed.root_node browsed.doc.ops ≡ 3
unfolding browse_children Didl.count read_integer StdMap.find write_item root_of Didl.add_element
    write_body Didl.add_attr at write_title write_details optional_element write_art write_thumb
    write_res done
browse_children-count_example =
    browse_children-count toy folders toy_config "root" (pos 0) (pos 3) browsed refl

abbrev children_arguments : List (String × String)
children_arguments =
    ("ObjectID", "0")
    ∷ ("BrowseFlag", "BrowseDirectChildren")
    ∷ ("StartingIndex", "0")
    ∷ ("RequestedCount", "3")
    ∷ []

abbrev children_xml : XmlLib
children_xml = record {
  parse = λ text. root (envelope "Browse" children_arguments);
  print = λ doc. "<doc/>";
}

cds_browse_children_example :
    cds toy folders children_xml toy_names toy_config (toy_request "POST" "") [] ≡ (
      ok tt,
      write_call (children_response toy folders children_xml toy_config "0" browsed)
          ∷ parameter "Content-Type" "text/xml"
          ∷ [],
    )
unfolding browse_children Didl.count read_integer StdMap.find write_item root_of Didl.add_element
    write_body Didl.add_attr at write_title write_details optional_element write_art write_thumb
    write_res done browse_count object_key stoi
cds_browse_children_example =
    cds_browse_children toy folders children_xml toy_config toy_names (toy_request "POST" "")
      children_arguments "0" (pos 0) (pos 3) browsed refl refl
      (record {
        browse_flag = refl;
        object = refl;
        index_text = "0";
        starts = refl;
        index_read = refl;
        count_text = "3";
        counts = refl;
        count_read = refl;
      })
      refl

abbrev audio_values : StdMap String
audio_values = (Param.cls, "audio") ∷ (Param.name, "song") ∷ (Param.parent, "p") ∷ []

write-Ends_example :
    Ends
      (write toy empty_store "7" audio_values (new_didl toy_config)).0
      (write toy empty_store "7" audio_values (new_didl toy_config)).1
write-Ends_example =
    write-Ends toy empty_store "7" audio_values (new_didl toy_config)
      (IsCounted-new_didl toy_config)

strip-err_iff_example : (strip "<" ≡ err out_of_range) ↔ ◌≡◌ {A = String} "<" "<"
strip-err_iff_example = strip-err_iff "<" (λ h. let same : false ≡ true = (eq_iff "<" "").1 h in cc)

parse-description_example :
    Device.parse
      (λ text. pos 0)
      description_xml
      (description_text description_xml toy_config)
      (new_device (pos 0) (pos 0) 0)
    ≡ ok (described toy_config (new_device (pos 0) (pos 0) 0))
parse-description_example =
    parse-description (λ text. pos 0) description_xml toy_config (new_device (pos 0) (pos 0) 0) refl

-- A library that finds no element in any text.

abbrev metadata_arguments : List (String × String)
metadata_arguments =
    ("ObjectID", "7")
    ∷ ("BrowseFlag", "BrowseMetadata")
    ∷ ("StartingIndex", "0")
    ∷ ("RequestedCount", "0")
    ∷ []

abbrev metadata_xml : XmlLib
metadata_xml = record {
  parse = λ text. root (envelope "Browse" metadata_arguments);
  print = λ doc. "<doc/>";
}

cds_browse_missing_example :
    (cds toy empty_store metadata_xml toy_names toy_config (toy_request "POST" "") [] ≡ (
      ok tt,
      write_call (
            soap_envelope metadata_xml
              (Didl.str metadata_xml (new_didl toy_config))
              (pos 1)
              (pos 1))
          ∷ parameter "Content-Type" "text/xml"
          ∷ [],
    ))
    × (children_of (new_didl toy_config).root_node (new_didl toy_config).doc.ops ≡ 0)
unfolding stoi Data.node
cds_browse_missing_example =
    cds_browse_missing toy empty_store metadata_xml toy_config toy_names (toy_request "POST" "")
      metadata_arguments "7" (pos 0) (pos 0) refl refl
      (record {
        browse_flag = refl;
        object = refl;
        index_text = "0";
        starts = refl;
        index_read = refl;
        count_text = "0";
        counts = refl;
        count_read = refl;
      })
      refl
