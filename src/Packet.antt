-- ===== src/Packet.antt =====
-- The packet layer: core-engine/include/core/packet.hpp and core-engine/src/core/packet.cpp.
-- A byte is a number below 256; a read past the end of `payload` is `none`.
pub mod Zeros
pub mod RoundTrip
mod Tests
use network_simulator_platfo.Common.{
  ℕ, ◌+◌, ◌*◌, ◌/◌, ◌%◌, ◌^◌, List, [], ◌∷◌, ◌++◌, Option, none, some, length, get_or, take, drop,
  ltb, if◌then◌else◌,
}
use network_simulator_platfo.Common.Words.{Bytes}
use Zeros.{zeros}

pub record PacketHeader : Type 0 where
  pub version : ℕ
  pub type : ℕ
  pub length : ℕ

pub record Packet : Type 0 where
  pub header : PacketHeader
  pub payload : Bytes

-- The MTU, `sizeof(payload)`.
abbrev pub mtu : ℕ
mtu = 1500

-- `sizeof(PacketHeader)`, which is packed.
abbrev pub header_size : ℕ
header_size = 6

-- `memset(this, 0, sizeof(Packet))`
unfoldable pub zeroed : Packet
zeroed = record { header = record { version = 0; type = 0; length = 0 }; payload = zeros mtu }

-- `memcpy(dst, src, n)`, where `src` holds at least n bytes.
unfoldable pub memcpy : Bytes → Bytes → ℕ → Bytes
memcpy dst src n = take n src ++ drop n dst

abbrev pub clamp_mtu : ℕ → ℕ
clamp_mtu len = if ltb mtu len then mtu else len

-- `Packet(msg_type, data, len)`; `none` is the null pointer.
unfoldable pub of_pointer : ℕ → Option Bytes → ℕ → Packet
unfolding zeroed memcpy
of_pointer msg_type source len =
    let n = clamp_mtu len in
    record {
      header = record { version = 1; type = msg_type; length = n };
      payload = elim source [
        | none ↦ zeroed.payload
        | some bytes ↦ if ltb 0 n then memcpy zeroed.payload bytes n else zeroed.payload
      ];
    }

-- `Packet(msg_type, data)`
unfoldable pub of_vector : ℕ → Bytes → Packet
unfolding zeroed memcpy
of_vector msg_type bytes =
    let n = clamp_mtu (length bytes) in
    record {
      header = record { version = 1; type = msg_type; length = n };
      payload = if ltb 0 n then memcpy zeroed.payload bytes n else zeroed.payload;
    }

-- The bytes of `htonl(n)` in memory.
abbrev pub htonl : ℕ → Bytes
htonl n = (n / 2 ^ 24 % 256) ∷ (n / 2 ^ 16 % 256) ∷ (n / 2 ^ 8 % 256) ∷ (n % 256) ∷ []

-- `none` where the copy would read past `payload`.
unfoldable pub serialize : Packet → Option Bytes
serialize p =
    let h = p.header in
    let head : Bytes = h.version ∷ h.type ∷ htonl h.length in
    if ltb mtu h.length
    then none
    else some (head ++ (if ltb 0 h.length then take h.length p.payload else []))

pub data ParseError : Type 0 where
  too_small exceeds_mtu truncated : ParseError

pub data Parsed : Type 0 where
  ok : Packet → Parsed
  throws : ParseError → Parsed

-- The header that `memcpy` and `ntohl` read from the first six bytes.
unfoldable pub read_header : Bytes → PacketHeader
read_header raw = record {
  version = get_or raw 0 0;
  type = get_or raw 1 0;
  length =
      get_or raw 2 0 * 2 ^ 24 + get_or raw 3 0 * 2 ^ 16 + get_or raw 4 0 * 2 ^ 8 + get_or raw 5 0;
}

unfoldable pub deserialize : Bytes → Parsed
unfolding zeroed
deserialize raw =
    let h = read_header raw in
    let size = length raw in
    if ltb size header_size
    then throws too_small
    else if ltb mtu h.length
    then throws exceeds_mtu
    else if ltb size (header_size + h.length)
    then throws truncated
    else ok (record {
      header = h;
      payload =
          if ltb 0 h.length
          then memcpy zeroed.payload (drop header_size raw) h.length
          else zeroed.payload;
    })
