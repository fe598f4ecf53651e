-- ===== src/Protocol/Spdy3.antt =====
-- The magic header names of SPDY v3: src/mod_spdy/common/protocol_util.cc.
use mod_spdy.Frame.{Bytes}
use mod_spdy.Protocol.Text.{codes}

abbrev pub host : Bytes
host = codes ":host"

abbrev pub method : Bytes
method = codes ":method"

abbrev pub path : Bytes
path = codes ":path"

abbrev pub scheme : Bytes
scheme = codes ":scheme"

abbrev pub status : Bytes
status = codes ":status"

abbrev pub version : Bytes
version = codes ":version"
