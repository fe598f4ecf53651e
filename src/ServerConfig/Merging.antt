-- ===== src/ServerConfig/Merging.antt =====
-- Configurations merged in a chain in spdy_server_config.cc.
use mod_spdy.Common.{
  ℤ, pos, Bool, true, false, ◌≡◌, refl, ap, ◌∙◌, List, [], ◌∷◌, Option, none, some,
}
use mod_spdy.Protocol.{SpdyVersion, version_none}
use mod_spdy.ServerConfig.{Setting, default, set, merge, ServerConfig, create, merge_from}

-- What was asked of the setters, none where a setter was not called.
pub record Directives : Type 0 where
  pub spdy_enabled : Option Bool
  pub max_streams_per_connection : Option ℤ
  pub min_threads_per_process : Option ℤ
  pub max_threads_per_process : Option ℤ
  pub max_server_push_depth : Option ℤ
  pub send_version_header : Option Bool
  pub server_push_discovery_enabled : Option Bool
  pub server_push_discovery_send_debug_headers : Option Bool
  pub use_spdy_version_without_ssl : Option SpdyVersion
  pub vlog_level : Option ℤ

-- A setter, or none.
unfoldable pub set_to : {A : Type 0} → Option A → Setting A → Setting A
unfolding set
set_to none s = s
set_to (some a) s = set a s

-- A new configuration after the setters.
unfoldable pub configure : Directives → ServerConfig
unfolding create set_to
configure d = record {
  spdy_enabled = set_to d.spdy_enabled create.spdy_enabled;
  max_streams_per_connection =
      set_to d.max_streams_per_connection create.max_streams_per_connection;
  min_threads_per_process = set_to d.min_threads_per_process create.min_threads_per_process;
  max_threads_per_process = set_to d.max_threads_per_process create.max_threads_per_process;
  max_server_push_depth = set_to d.max_server_push_depth create.max_server_push_depth;
  send_version_header = set_to d.send_version_header create.send_version_header;
  server_push_discovery_enabled =
      set_to d.server_push_discovery_enabled create.server_push_discovery_enabled;
  server_push_discovery_send_debug_headers =
      set_to d.server_push_discovery_send_debug_headers
        create.server_push_discovery_send_debug_headers;
  use_spdy_version_without_ssl =
      set_to d.use_spdy_version_without_ssl create.use_spdy_version_without_ssl;
  vlog_level = set_to d.vlog_level create.vlog_level;
}

-- The first that there is.
abbrev pub or_else : {A : Type 0} → Option A → Option A → Option A
or_else none o = o
or_else (some a) o = some a

unfoldable pub first_of : List Directives → Directives
first_of [] = record {
  spdy_enabled = none;
  max_streams_per_connection = none;
  min_threads_per_process = none;
  max_threads_per_process = none;
  max_server_push_depth = none;
  send_version_header = none;
  server_push_discovery_enabled = none;
  server_push_discovery_send_debug_headers = none;
  use_spdy_version_without_ssl = none;
  vlog_level = none;
}
first_of (d ∷ ds) = record {
  spdy_enabled = or_else d.spdy_enabled (first_of ds).spdy_enabled;
  max_streams_per_connection =
      or_else d.max_streams_per_connection (first_of ds).max_streams_per_connection;
  min_threads_per_process = or_else d.min_threads_per_process (first_of ds).min_threads_per_process;
  max_threads_per_process = or_else d.max_threads_per_process (first_of ds).max_threads_per_process;
  max_server_push_depth = or_else d.max_server_push_depth (first_of ds).max_server_push_depth;
  send_version_header = or_else d.send_version_header (first_of ds).send_version_header;
  server_push_discovery_enabled =
      or_else d.server_push_discovery_enabled (first_of ds).server_push_discovery_enabled;
  server_push_discovery_send_debug_headers =
      or_else d.server_push_discovery_send_debug_headers
        (first_of ds).server_push_discovery_send_debug_headers;
  use_spdy_version_without_ssl =
      or_else d.use_spdy_version_without_ssl (first_of ds).use_spdy_version_without_ssl;
  vlog_level = or_else d.vlog_level (first_of ds).vlog_level;
}

-- The chain of MergeFrom, the configuration that counts most first.
unfoldable pub merge_chain : List Directives → ServerConfig
unfolding merge_from configure
merge_chain [] = create
merge_chain (d ∷ ds) = merge_from (configure d) (merge_chain ds)

merge-set_to :
    {A : Type 0} (a : A) (o p : Option A)
    → merge (set_to o (default a)) (set_to p (default a)) ≡ set_to (or_else o p) (default a)
unfolding merge set_to set default
merge-set_to a none none = refl
merge-set_to a none (some b) = refl
merge-set_to a (some c) none = refl
merge-set_to a (some c) (some b) = refl

merge_from-configure :
    (d e : Directives)
    → merge_from (configure d) (configure e)
      ≡ configure (record {
        spdy_enabled = or_else d.spdy_enabled e.spdy_enabled;
        max_streams_per_connection =
            or_else d.max_streams_per_connection e.max_streams_per_connection;
        min_threads_per_process = or_else d.min_threads_per_process e.min_threads_per_process;
        max_threads_per_process = or_else d.max_threads_per_process e.max_threads_per_process;
        max_server_push_depth = or_else d.max_server_push_depth e.max_server_push_depth;
        send_version_header = or_else d.send_version_header e.send_version_header;
        server_push_discovery_enabled =
            or_else d.server_push_discovery_enabled e.server_push_discovery_enabled;
        server_push_discovery_send_debug_headers =
            or_else d.server_push_discovery_send_debug_headers
              e.server_push_discovery_send_debug_headers;
        use_spdy_version_without_ssl =
            or_else d.use_spdy_version_without_ssl e.use_spdy_version_without_ssl;
        vlog_level = or_else d.vlog_level e.vlog_level;
      })
unfolding merge_from configure create default
merge_from-configure d e =
    simp
      (
        merge-set_to false d.spdy_enabled e.spdy_enabled,
        merge-set_to {A = ℤ} (pos 100) d.max_streams_per_connection e.max_streams_per_connection,
        merge-set_to {A = ℤ} (pos 2) d.min_threads_per_process e.min_threads_per_process,
        merge-set_to {A = ℤ} (pos 10) d.max_threads_per_process e.max_threads_per_process,
        merge-set_to {A = ℤ} (pos 1) d.max_server_push_depth e.max_server_push_depth,
        merge-set_to true d.send_version_header e.send_version_header,
        merge-set_to false d.server_push_discovery_enabled e.server_push_discovery_enabled,
        merge-set_to false d.server_push_discovery_send_debug_headers
            e.server_push_discovery_send_debug_headers,
        merge-set_to version_none d.use_spdy_version_without_ssl e.use_spdy_version_without_ssl,
        merge-set_to {A = ℤ} (pos 0) d.vlog_level e.vlog_level,
      )
      refl

-- A chain of configurations, each of which starts anew and has some of its setters called, merges into
-- the configuration in which each setting has the value of the first one that sets it, and its
-- default where none does.
pub merge_chain-first_of : (ds : List Directives) → merge_chain ds ≡ configure (first_of ds)
unfolding merge_chain first_of configure create set_to
merge_chain-first_of [] = refl
merge_chain-first_of (d ∷ ds) =
    ap (merge_from (configure d)) (merge_chain-first_of ds) ∙ merge_from-configure d (first_of ds)
