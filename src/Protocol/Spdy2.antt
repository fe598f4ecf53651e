-- ===== src/Protocol/Spdy2.antt =====
-- The magic header names of SPDY v2: src/mod_spdy/common/protocol_util.cc.
use mod_spdy.Frame.{Bytes}
use mod_spdy.Protocol.Text.{codes}

abbrev pub method : Bytes
method = codes "method"

abbrev pub scheme : Bytes
scheme = codes "scheme"

abbrev pub status : Bytes
status = codes "status"

abbrev pub url : Bytes
url = codes "url"

abbrev pub version : Bytes
version = codes "version"
