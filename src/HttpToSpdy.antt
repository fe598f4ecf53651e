-- ===== src/HttpToSpdy.antt =====
-- From a parsed HTTP response to SPDY frames: HttpToSpdyConverter::ConverterImpl of
-- src/mod_spdy/common/http_to_spdy_converter.cc. The parser's calls are a list of `Call`s; what the
-- SpdyReceiver gets is recorded, the newest first. LOG(DFATAL) goes on, as it does in a release.
pub mod Delivery
pub mod Closed
pub mod Names
use mod_spdy.Common.{
  ℕ, zero, suc, ltb, leb, length, take, drop, Bool, true, false, not, ◌&&◌, ◌||◌, List, [], ◌∷◌,
  ◌++◌, if◌then◌else◌,
}
use mod_spdy.Frame.{Bytes, HeaderBlock, no_bytes}
use mod_spdy.Protocol.{SpdyVersion, has_stream_windows}
use mod_spdy.Protocol.Spdy2
use mod_spdy.Protocol.Spdy3
use mod_spdy.Protocol.Headers.{assign, is_invalid_spdy_response_header, merge_in_header}

-- kTargetDataFrameBytes
abbrev pub target_data_frame_bytes : ℕ
target_data_frame_bytes = 4096

-- ReceiveSynReply and ReceiveData of the SpdyReceiver.
pub data Received : Type 0 where
  receives_syn_reply : HeaderBlock → (fin : Bool) → Received
  receives_data : Bytes → (fin : Bool) → Received

pub record Converter : Type 0 where
  pub spdy_version : SpdyVersion
  pub headers : HeaderBlock
  pub data_buffer : Bytes
  pub sent_flag_fin : Bool
  pub received : List Received

unfoldable pub create : SpdyVersion → Converter
create version = record {
  spdy_version = version;
  headers = [];
  data_buffer = [];
  sent_flag_fin = false;
  received = [];
}

-- SendDataFrame
unfoldable pub send_data_frame : Bytes → Bool → Converter → Converter
send_data_frame bytes fin c = if c.sent_flag_fin then c else record c {
  sent_flag_fin = c.sent_flag_fin || fin;
  received = receives_data bytes fin ∷ c.received;
}

-- The loop of SendDataIfNecessary, with what is left in the end; fuel is the size of the data.
unfoldable pub send_whole_frames : (target fuel : ℕ) → Bytes → Converter → Bytes × Converter
unfolding send_data_frame
send_whole_frames target zero bytes c = (bytes, c)
send_whole_frames target (suc fuel) bytes c =
    let rest =
      send_whole_frames target fuel (drop target bytes)
        (send_data_frame (take target bytes) false c) in
    if ltb target (length bytes) then rest else (bytes, c)

-- What follows the loop.
unfoldable pub send_rest : Bool → Bool → Bytes × Converter → Converter
unfolding send_data_frame
send_rest flush fin (rest, c) =
    if fin || ((flush && not (no_bytes rest)) || leb target_data_frame_bytes (length rest))
    then record (send_data_frame rest fin c) { data_buffer = [] }
    else record c { data_buffer = rest }

-- SendDataIfNecessary
unfoldable pub send_data_if_necessary : Bool → Bool → Converter → Converter
unfolding send_whole_frames send_rest
send_data_if_necessary flush fin c =
    send_rest flush fin
      (send_whole_frames target_data_frame_bytes (length c.data_buffer) c.data_buffer c)

-- OnStatusLine, without the phrase, which it does not use.
unfoldable pub on_status_line : Bytes → Bytes → Converter → Converter
on_status_line version status_code c = record c {
  headers =
      if has_stream_windows c.spdy_version
      then assign Spdy3.status status_code (assign Spdy3.version version c.headers)
      else assign Spdy2.status status_code (assign Spdy2.version version c.headers);
}

-- OnLeadingHeader
unfoldable pub on_leading_header : Bytes → Bytes → Converter → Converter
on_leading_header key value c =
    if is_invalid_spdy_response_header key
    then c
    else record c { headers = merge_in_header key value c.headers }

-- OnLeadingHeadersComplete
unfoldable pub on_leading_headers_complete : Bool → Converter → Converter
on_leading_headers_complete fin c = if c.sent_flag_fin then c else record c {
  headers = [];
  sent_flag_fin = c.sent_flag_fin || fin;
  received = receives_syn_reply c.headers fin ∷ c.received;
}

-- OnData
unfoldable pub on_data : Bytes → Bool → Converter → Converter
unfolding send_data_if_necessary
on_data bytes fin c =
    send_data_if_necessary false fin (record c { data_buffer = c.data_buffer ++ bytes })

-- The calls of the parser, and Flush.
pub data Call : Type 0 where
  status_line : (version status_code : Bytes) → Call
  leading_header : (key value : Bytes) → Call
  leading_headers_complete : (fin : Bool) → Call
  body_data : Bytes → (fin : Bool) → Call
  flush : Call

unfoldable pub call : Call → Converter → Converter
unfolding on_status_line on_leading_header on_leading_headers_complete on_data
    send_data_if_necessary
call (status_line version status_code) c = on_status_line version status_code c
call (leading_header key value) c = on_leading_header key value c
call (leading_headers_complete fin) c = on_leading_headers_complete fin c
call (body_data bytes fin) c = on_data bytes fin c
call flush c = send_data_if_necessary true false c

-- A run of calls, the newest first.
unfoldable pub call_all : List Call → Converter → Converter
unfolding call
call_all [] c = c
call_all (k ∷ older) c = call k (call_all older c)
