-- ===== src/ServerConfig.antt =====
-- The settings of a server: src/mod_spdy/common/spdy_server_config.cc and .h.
pub mod Merging
use mod_spdy.Common.{ℤ, pos, Bool, true, false, ◌||◌, if◌then◌else◌}
use mod_spdy.Protocol.{SpdyVersion, version_none}

-- SpdyServerConfig::Option
pub record Setting (A : Type 0) : Type 0 where
  pub was_set : Bool
  pub value : A

module _ {A : Type 0} where
  unfoldable pub default : A → Setting A
  default a = record { was_set = false; value = a }

  unfoldable pub set : A → Setting A → Setting A
  set a s = record { was_set = true; value = a }

  unfoldable pub merge : Setting A → Setting A → Setting A
  merge a b = record {
    was_set = a.was_set || b.was_set;
    value = if a.was_set then a.value else b.value;
  }

pub record ServerConfig : Type 0 where
  pub spdy_enabled : Setting Bool
  pub max_streams_per_connection : Setting ℤ
  pub min_threads_per_process : Setting ℤ
  pub max_threads_per_process : Setting ℤ
  pub max_server_push_depth : Setting ℤ
  pub send_version_header : Setting Bool
  pub server_push_discovery_enabled : Setting Bool
  pub server_push_discovery_send_debug_headers : Setting Bool
  pub use_spdy_version_without_ssl : Setting SpdyVersion
  pub vlog_level : Setting ℤ

unfoldable pub create : ServerConfig
unfolding default
create = record {
  spdy_enabled = default false;
  max_streams_per_connection = default (pos 100);
  min_threads_per_process = default (pos 2);
  max_threads_per_process = default (pos 10);
  max_server_push_depth = default (pos 1);
  send_version_header = default true;
  server_push_discovery_enabled = default false;
  server_push_discovery_send_debug_headers = default false;
  use_spdy_version_without_ssl = default version_none;
  vlog_level = default (pos 0);
}

-- MergeFrom
unfoldable pub merge_from : ServerConfig → ServerConfig → ServerConfig
unfolding merge
merge_from a b = record {
  spdy_enabled = merge a.spdy_enabled b.spdy_enabled;
  max_streams_per_connection = merge a.max_streams_per_connection b.max_streams_per_connection;
  min_threads_per_process = merge a.min_threads_per_process b.min_threads_per_process;
  max_threads_per_process = merge a.max_threads_per_process b.max_threads_per_process;
  max_server_push_depth = merge a.max_server_push_depth b.max_server_push_depth;
  send_version_header = merge a.send_version_header b.send_version_header;
  server_push_discovery_enabled =
      merge a.server_push_discovery_enabled b.server_push_discovery_enabled;
  server_push_discovery_send_debug_headers =
      merge a.server_push_discovery_send_debug_headers b.server_push_discovery_send_debug_headers;
  use_spdy_version_without_ssl =
      merge a.use_spdy_version_without_ssl b.use_spdy_version_without_ssl;
  vlog_level = merge a.vlog_level b.vlog_level;
}
