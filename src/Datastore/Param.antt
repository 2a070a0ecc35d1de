-- ===== src/Datastore/Param.antt =====
-- The field names of `namespace param` of src/datastore.h that the program uses.
use upnp.Prelude.{String}

abbrev pub album : String
album = "album"

abbrev pub artist : String
artist = "artist"

abbrev pub audio : String
audio = "audio"

abbrev pub cls : String
cls = "cls"

abbrev pub comment : String
comment = "comment"

abbrev pub cover : String
cover = "cover"

abbrev pub ebook : String
ebook = "ebook"

abbrev pub episode : String
episode = "episode"

abbrev pub file : String
file = "file"

abbrev pub folder : String
folder = "folder"

abbrev pub genre : String
genre = "genre"

abbrev pub image : String
image = "image"

abbrev pub med : String
med = "med"

abbrev pub movie : String
movie = "movie"

abbrev pub name : String
name = "name"

abbrev pub parent : String
parent = "parent"

abbrev pub season : String
season = "season"

abbrev pub serie : String
serie = "serie"

abbrev pub thumb : String
thumb = "thumb"

abbrev pub track : String
track = "track"

abbrev pub year : String
year = "year"
