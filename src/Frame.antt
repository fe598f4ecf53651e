-- ===== src/Frame.antt =====
-- The frames that the program builds and reads. The classes net::Spdy...IR belong to Chromium and
-- are not part of the repository; a frame is here what the code sets in it or reads from it, and a
-- field that the code leaves alone is 0 or false.
use mod_spdy.Common.{ℕ, Bool, true, false, List, [], ◌∷◌}

-- A std::string, by its bytes.
abbrev pub Bytes : Type 0
Bytes = List ℕ

-- `empty()`
abbrev pub no_bytes : Bytes → Bool
no_bytes [] = true
no_bytes (b ∷ bs) = false

-- net::SpdyHeaderBlock, a std::map, in the order of its keys.
abbrev pub HeaderBlock : Type 0
HeaderBlock = List (Bytes × Bytes)

-- net::SpdyRstStreamStatus, as far as the code names its values; the last stands for the rest.
pub data RstStreamStatus : Type 0 where
  protocol_error invalid_stream refused_stream cancel flow_control_error internal_error :
      RstStreamStatus
  other_rst_stream : ℕ → RstStreamStatus

-- net::SpdyGoAwayStatus; the last stands for the values that are none of these.
pub data GoAwayStatus : Type 0 where
  goaway_ok goaway_protocol_error goaway_internal_error : GoAwayStatus
  other_goaway : ℕ → GoAwayStatus

-- net::SpdySettingsIds; the last stands for the values that are none of these.
pub data SettingsId : Type 0 where
  upload_bandwidth download_bandwidth round_trip_time max_concurrent_streams current_cwnd
        download_retrans_rate initial_window_size :
      SettingsId
  other_settings : ℕ → SettingsId

pub data Frame : Type 0 where
  syn_stream :
      (stream_id associated_stream_id priority slot : ℕ) (fin unidirectional : Bool)
      → HeaderBlock
      → Frame
  syn_reply : (stream_id : ℕ) (fin : Bool) → HeaderBlock → Frame
  rst_stream : (stream_id : ℕ) → RstStreamStatus → Frame
  settings : SettingsId → (value : ℕ) → Frame
  ping : (unique_id : ℕ) → Frame
  goaway : (last_stream_id : ℕ) → GoAwayStatus → Frame
  headers : (stream_id : ℕ) (fin : Bool) → HeaderBlock → Frame
  window_update : (stream_id delta : ℕ) → Frame
  data_frame : (stream_id : ℕ) (fin : Bool) → Bytes → Frame
