-- ===== src/Datastore/Name.antt =====
-- The Redis command names of `namespace redis` of src/datastore.h that the program uses.
use upnp.Prelude.{String}

abbrev pub exists : String
exists = "EXISTS"

abbrev pub ft_search : String
ft_search = "FT.SEARCH"

abbrev pub hget : String
hget = "HGET"

abbrev pub hgetall : String
hgetall = "HGETALL"

abbrev pub hmset : String
hmset = "HMSET"

abbrev pub lrange : String
lrange = "LRANGE"

abbrev pub sadd : String
sadd = "SADD"

abbrev pub zadd : String
zadd = "ZADD"

abbrev pub zcard : String
zcard = "ZCARD"

abbrev pub zrange : String
zrange = "ZRANGE"

abbrev pub zrem : String
zrem = "ZREM"

abbrev pub zrevrange : String
zrevrange = "ZREVRANGE"
