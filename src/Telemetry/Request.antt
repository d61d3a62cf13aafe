-- ===== src/Telemetry/Request.antt =====
-- The request of the telemetry client: `TelemetrySample`
-- (core-engine/include/system/telemetry_http_client.hpp), `to_json` and the text that `post_sample`
-- sends (core-engine/src/system/telemetry_http_client.cpp). How `operator<<` writes a `double` is a
-- parameter.
use network_simulator_platfo.Common.{ℕ, List, [], ◌∷◌, ◌++◌, length, if◌then◌else◌}
use network_simulator_platfo.Common.Words.{Bytes}
use network_simulator_platfo.Common.Decimal.{to_decimal}
use network_simulator_platfo.Monitor.{MetricEvent}
use network_simulator_platfo.Telemetry.{TelemetryEndpoint, escape_json, quote}

pub record TelemetrySample (D : Type 0) : Type 0 where
  pub timestamp_us : ℕ
  pub source_node : Bytes
  pub dest_node : Bytes
  pub packet_size : ℕ
  pub latency_ns : D
  pub dropped_packets : ℕ
  pub throughput_kbps : D

-- The text in front of the value of `timestamp_us`.
abbrev pub timestamp_us_key : Bytes
timestamp_us_key =
    123 ∷ 34 ∷ 116 ∷ 105 ∷ 109 ∷ 101 ∷ 115 ∷ 116 ∷ 97 ∷ 109 ∷ 112 ∷ 95 ∷ 117 ∷ 115 ∷ 34 ∷ 58 ∷ []

-- The text in front of the value of `source_node`.
abbrev pub source_node_key : Bytes
source_node_key =
    44 ∷ 34 ∷ 115 ∷ 111 ∷ 117 ∷ 114 ∷ 99 ∷ 101 ∷ 95 ∷ 110 ∷ 111 ∷ 100 ∷ 101 ∷ 34 ∷ 58 ∷ 34 ∷ []

-- The text in front of the value of `dest_node`.
abbrev pub dest_node_key : Bytes
dest_node_key = 44 ∷ 34 ∷ 100 ∷ 101 ∷ 115 ∷ 116 ∷ 95 ∷ 110 ∷ 111 ∷ 100 ∷ 101 ∷ 34 ∷ 58 ∷ 34 ∷ []

-- The text in front of the value of `packet_size`.
abbrev pub packet_size_key : Bytes
packet_size_key =
    44 ∷ 34 ∷ 112 ∷ 97 ∷ 99 ∷ 107 ∷ 101 ∷ 116 ∷ 95 ∷ 115 ∷ 105 ∷ 122 ∷ 101 ∷ 34 ∷ 58 ∷ []

-- The text in front of the value of `latency_ns`.
abbrev pub latency_ns_key : Bytes
latency_ns_key = 44 ∷ 34 ∷ 108 ∷ 97 ∷ 116 ∷ 101 ∷ 110 ∷ 99 ∷ 121 ∷ 95 ∷ 110 ∷ 115 ∷ 34 ∷ 58 ∷ []

-- The text in front of the value of `dropped_packets`.
abbrev pub dropped_packets_key : Bytes
dropped_packets_key =
    44 ∷ 34 ∷ 100 ∷ 114 ∷ 111 ∷ 112 ∷ 112 ∷ 101 ∷ 100 ∷ 95 ∷ 112 ∷ 97 ∷ 99 ∷ 107 ∷ 101 ∷ 116 ∷ 115
    ∷ 34 ∷ 58 ∷ []

-- The text in front of the value of `throughput_kbps`.
abbrev pub throughput_kbps_key : Bytes
throughput_kbps_key =
    44 ∷ 34 ∷ 116 ∷ 104 ∷ 114 ∷ 111 ∷ 117 ∷ 103 ∷ 104 ∷ 112 ∷ 117 ∷ 116 ∷ 95 ∷ 107 ∷ 98 ∷ 112 ∷ 115
    ∷ 34 ∷ 58 ∷ []

-- "POST "
abbrev pub post : Bytes
post = 80 ∷ 79 ∷ 83 ∷ 84 ∷ 32 ∷ []

-- "HTTP/1.1"
abbrev pub version : Bytes
version = 72 ∷ 84 ∷ 84 ∷ 80 ∷ 47 ∷ 49 ∷ 46 ∷ 49 ∷ []

-- "Host"
abbrev pub host_key : Bytes
host_key = 72 ∷ 111 ∷ 115 ∷ 116 ∷ []

-- "Content-Type"
abbrev pub type_key : Bytes
type_key = 67 ∷ 111 ∷ 110 ∷ 116 ∷ 101 ∷ 110 ∷ 116 ∷ 45 ∷ 84 ∷ 121 ∷ 112 ∷ 101 ∷ []

-- "application/json"
abbrev pub json_type : Bytes
json_type =
    97 ∷ 112 ∷ 112 ∷ 108 ∷ 105 ∷ 99 ∷ 97 ∷ 116 ∷ 105 ∷ 111 ∷ 110 ∷ 47 ∷ 106 ∷ 115 ∷ 111 ∷ 110 ∷ []

-- "Content-Length"
abbrev pub size_key : Bytes
size_key = 67 ∷ 111 ∷ 110 ∷ 116 ∷ 101 ∷ 110 ∷ 116 ∷ 45 ∷ 76 ∷ 101 ∷ 110 ∷ 103 ∷ 116 ∷ 104 ∷ []

-- "Connection"
abbrev pub connection_key : Bytes
connection_key = 67 ∷ 111 ∷ 110 ∷ 110 ∷ 101 ∷ 99 ∷ 116 ∷ 105 ∷ 111 ∷ 110 ∷ []

-- "close"
abbrev pub close : Bytes
close = 99 ∷ 108 ∷ 111 ∷ 115 ∷ 101 ∷ []

-- "\r\n"
abbrev pub line_end : Bytes
line_end = 13 ∷ 10 ∷ []

-- ": "
abbrev pub separator : Bytes
separator = 58 ∷ 32 ∷ []

-- What a series of `operator<<` writes.
abbrev pub written : List Bytes → Bytes
written [] = []
written (text ∷ texts) = text ++ written texts

module _ {D : Type 0} (shown : D → Bytes) where
  unfoldable pub to_json : TelemetrySample D → Bytes
  to_json sample = written (
      timestamp_us_key
      ∷ to_decimal sample.timestamp_us
      ∷ source_node_key
      ∷ escape_json sample.source_node
      ∷ (quote ∷ [])
      ∷ dest_node_key
      ∷ escape_json sample.dest_node
      ∷ (quote ∷ [])
      ∷ packet_size_key
      ∷ to_decimal sample.packet_size
      ∷ latency_ns_key
      ∷ shown sample.latency_ns
      ∷ dropped_packets_key
      ∷ to_decimal sample.dropped_packets
      ∷ throughput_kbps_key
      ∷ shown sample.throughput_kbps
      ∷ (125 ∷ [])
      ∷ [])

-- What `post_sample` writes into `request`.
unfoldable pub request : TelemetryEndpoint → Bytes → Bytes
request endpoint body = written (
    post
    ∷ endpoint.path
    ∷ (32 ∷ [])
    ∷ version
    ∷ line_end
    ∷ host_key
    ∷ separator
    ∷ endpoint.host
    ∷ (58 ∷ [])
    ∷ endpoint.port
    ∷ line_end
    ∷ type_key
    ∷ separator
    ∷ json_type
    ∷ line_end
    ∷ size_key
    ∷ separator
    ∷ to_decimal (length body)
    ∷ line_end
    ∷ connection_key
    ∷ separator
    ∷ close
    ∷ line_end
    ∷ line_end
    ∷ body
    ∷ [])

-- The sample of `post_metric_event`; the cast of the latency to `double` is a parameter.
unfoldable pub sample_of : {D : Type 0} → (ℕ → D) → MetricEvent → D → TelemetrySample D
sample_of as_double event throughput_kbps = record {
  timestamp_us = event.timestamp_us;
  source_node = event.source_node;
  dest_node = event.dest_node;
  packet_size = event.packet_size;
  latency_ns = as_double event.latency_ns;
  dropped_packets = if event.dropped then 1 else 0;
  throughput_kbps = throughput_kbps;
}
