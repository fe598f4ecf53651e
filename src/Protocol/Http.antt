-- ===== src/Protocol/Http.antt =====
-- Names and values of HTTP headers: the namespace http of src/mod_spdy/common/protocol_util.cc.
use mod_spdy.Frame.{Bytes}
use mod_spdy.Protocol.Text.{codes}

abbrev pub accept_encoding : Bytes
accept_encoding = codes "accept-encoding"

abbrev pub connection : Bytes
connection = codes "connection"

abbrev pub content_length : Bytes
content_length = codes "content-length"

abbrev pub host : Bytes
host = codes "host"

abbrev pub keep_alive : Bytes
keep_alive = codes "keep-alive"

abbrev pub proxy_connection : Bytes
proxy_connection = codes "proxy-connection"

abbrev pub transfer_encoding : Bytes
transfer_encoding = codes "transfer-encoding"

abbrev pub chunked : Bytes
chunked = codes "chunked"

abbrev pub gzip_deflate : Bytes
gzip_deflate = codes "gzip,deflate"
