-- ===== src/Datastore/Key.antt =====
-- The key names of `namespace key` of src/datastore.h that the program uses.
use upnp.Prelude.{String}

abbrev pub config : String
config = "config:cds"

abbrev pub fs : String
fs = "fs"

abbrev pub index : String
index = "cds_index"

abbrev pub key : String
key = "key"

abbrev pub list : String
list = "list"

abbrev pub mime : String
mime = "fs:mime"

abbrev pub tag : String
tag = "tag"

abbrev pub type : String
type = "type"
