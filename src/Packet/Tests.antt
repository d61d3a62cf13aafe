-- ===== src/Packet/Tests.antt =====
-- Runs of the packet layer (core-engine/src/core/packet.cpp) on concrete inputs.
use network_simulator_platfo.Common.{◌+◌, ◌≡◌, refl, [], ◌∷◌, ◌++◌, some, take, arith}
use network_simulator_platfo.Common.Words.{Bytes}
use network_simulator_platfo.Packet.{
  of_vector, serialize, deserialize, read_header, ok, throws, truncated, header_size,
}
use network_simulator_platfo.Packet.RoundTrip.{
  IsWellFormed, deserialize-serialize, deserialize-of_vector, serialize-deserialize,
}

abbrev greeting : Bytes
greeting = 104 ∷ 105 ∷ []

abbrev greeting_bytes : Bytes
greeting_bytes = 1 ∷ 0 ∷ 0 ∷ 0 ∷ 0 ∷ 2 ∷ 104 ∷ 105 ∷ []

serialize-greeting : serialize (of_vector 0 greeting) ≡ some greeting_bytes
unfolding serialize of_vector
serialize-greeting = refl

deserialize-truncated : deserialize (1 ∷ 0 ∷ 0 ∷ 0 ∷ 0 ∷ 2 ∷ 104 ∷ []) ≡ throws truncated
unfolding deserialize read_header
deserialize-truncated = refl

deserialize-serialize_example :
    (bytes : Bytes) × (serialize (of_vector 0 greeting) ≡ some bytes)
    × (deserialize (bytes ++ 9 ∷ []) ≡ ok (of_vector 0 greeting))
deserialize-serialize_example =
    deserialize-serialize (of_vector 0 greeting) (9 ∷ [])
      (deserialize-of_vector 0 greeting [] (omega arith)).0

greeting_read : deserialize greeting_bytes ≡ ok (of_vector 0 greeting)
unfolding deserialize read_header of_vector
greeting_read = refl

serialize-deserialize_example :
    IsWellFormed (of_vector 0 greeting)
    × (serialize (of_vector 0 greeting)
        ≡ some (take (header_size + (of_vector 0 greeting).header.length) greeting_bytes))
serialize-deserialize_example =
    serialize-deserialize greeting_bytes (of_vector 0 greeting) (ground arith) greeting_read
