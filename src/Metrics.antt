-- ===== src/Metrics.antt =====
-- lib/mp1/metrics/metrics.go: measurements in the log. The clock is an argument, in nanoseconds.
use cs425_mps.Base.{Bool, true, List, [], ◌∷◌, ◌++◌, if◌then◌else◌}
use cs425_mps.Base.Int.{ℤ}
use cs425_mps.Base.Text.{Str, codes, str_eq}
use cs425_mps.Base.Result.{Result, ok, err}
use cs425_mps.Codec.{Codec, Bytes}
use cs425_mps.Strings.{format_int}

-- A line of the log, with the logger that wrote it.
pub data LogLine : Type 0 where
  failure bandwidth delay : Bytes → LogLine

pub record Metrics : Type 0 where
  pub enable_log : Bool
  pub logged : List LogLine

abbrev pub new_metrics : Metrics
new_metrics = record { enable_log = true; logged = [] }

-- `value` is that of METRICS in the environment, empty if it is not set.
unfoldable pub setup_metrics : Str → Metrics → Metrics
setup_metrics value t = record t { enable_log = str_eq value (codes "y") }

pub record BandwidthLogEntry : Type 0 where
  pub node_id : Str
  pub timestamp : Str
  pub bytes_size : ℤ

pub record DelayLogEntry : Type 0 where
  pub node_id : Str
  pub msg_id : Str
  pub timestamp : Str

unfoldable pub now_unix_nana : ℤ → Str
now_unix_nana now = format_int now

unfoldable pub new_bandwidth_log_entry : ℤ → Str → ℤ → BandwidthLogEntry
new_bandwidth_log_entry now node_id bytes_size = record {
  node_id = node_id;
  timestamp = now_unix_nana now;
  bytes_size = bytes_size;
}

unfoldable pub new_delay_log_entry : ℤ → Str → Str → DelayLogEntry
new_delay_log_entry now node_id msg_id = record {
  node_id = node_id;
  msg_id = msg_id;
  timestamp = now_unix_nana now;
}

unfoldable pub encode_bandwidth : Codec BandwidthLogEntry → BandwidthLogEntry → Result Bytes
encode_bandwidth c b = c.marshal b

unfoldable pub encode_delay : Codec DelayLogEntry → DelayLogEntry → Result Bytes
encode_delay c d = c.marshal d

unfoldable pub put_line : LogLine → Metrics → Metrics
put_line l t = record t { logged = t.logged ++ l ∷ [] }

-- An entry that does not encode is an error in the log, whether or not measurements are logged.
unfoldable pub log_bandwidth : Codec BandwidthLogEntry → BandwidthLogEntry → Metrics → Metrics
log_bandwidth c b t = elim (encode_bandwidth c b) [
  | err e ↦ put_line (failure (codes "encode bandwidth log entry failed")) t
  | ok encoded ↦ if t.enable_log then put_line (bandwidth encoded) t else t
]

unfoldable pub log_delay : Codec DelayLogEntry → DelayLogEntry → Metrics → Metrics
log_delay c d t = elim (encode_delay c d) [
  | err e ↦ put_line (failure (codes "encode delay log entry failed")) t
  | ok encoded ↦ if t.enable_log then put_line (delay encoded) t else t
]
