-- ===== src/Packet/RoundTrip.antt =====
-- What `serialize` writes `deserialize` reads back, and the other way round.
use network_simulator_platfo.Common.{
  subst, length-drop, take-add, take_all, sym, Bool-cases, ltb, inl, inr, ◌+◌, ◌*◌, ◌^◌, take, some,
  All, [], ℕ, ◌+◌, ◌-◌, ◌≤◌, ◌<◌, ◌≡◌, ap, ◌∙◌, length-append, length-eq-zero, take_of_length,
  length-take_le, take-append-drop, drop_of_length, length-take_le, take-append-drop,
  drop_of_length, [], ◌∷◌, ◌++◌, some, arith, length, take, drop, All,
}
use network_simulator_platfo.Common.Words.{Bytes}
use network_simulator_platfo.Packet.Zeros.{zeros, length-zeros, drop-zeros}
use network_simulator_platfo.Packet.{
  clamp_mtu, htonl, read_header, memcpy, Packet, PacketHeader, ok, mtu, header_size, of_vector,
  serialize, deserialize,
}

-- The fields fit their types, the length is within the MTU, and the payload is zero behind it.
pub record IsWellFormed (p : Packet) : Type 0 where
  pub version_byte : p.header.version < 256
  pub type_byte : p.header.type < 256
  pub within_mtu : p.header.length ≤ mtu
  pub full_payload : length p.payload ≡ mtu
  pub zero_tail : drop p.header.length p.payload ≡ zeros (mtu - p.header.length)

-- The six header bytes followed by the payload.
abbrev wire : PacketHeader → Bytes → Bytes
wire h body = (h.version ∷ h.type ∷ htonl h.length) ++ body

read_header-wire :
    (h : PacketHeader) (body : Bytes) → h.length ≤ mtu → read_header (wire h body) ≡ h
unfolding read_header
read_header-wire h body le = ground arith

memcpy-zeros-take : (n : ℕ) (src : Bytes) → memcpy (zeros mtu) src n ≡ take n src ++ zeros (mtu - n)
unfolding memcpy
memcpy-zeros-take n src = rw (drop-zeros n mtu)

memcpy-zeros :
    (n : ℕ) (src rest : Bytes)
    → length src ≡ n
    → memcpy (zeros mtu) (src ++ rest) n ≡ src ++ zeros (mtu - n)
unfolding memcpy
memcpy-zeros n src rest h = rw (take_of_length n src rest h, drop-zeros n mtu)

deserialize-wire :
    (h : PacketHeader) (body rest : Bytes)
    → h.length ≤ mtu
    → length body ≡ h.length
    → deserialize (wire h (body ++ rest))
      ≡ ok (record { header = h; payload = body ++ zeros (mtu - h.length) })
unfolding deserialize
deserialize-wire h body rest le len = rw (read_header-wire h (body ++ rest) le) (
    ground
      (arith, length-append body rest, memcpy-zeros h.length body rest len, length-eq-zero body))

-- The bytes that stand for a well-formed packet.
serialize_lem :
    (p : Packet)
    → p.header.length ≤ mtu
    → serialize p ≡ some (wire p.header (take p.header.length p.payload))
unfolding serialize
serialize_lem p le = ground arith

-- A well-formed packet is serialized without a read past its payload, and the bytes, whatever
-- follows them in the buffer, are parsed to the same packet.
pub deserialize-serialize :
    (p : Packet) (rest : Bytes)
    → IsWellFormed p
    → (bytes : Bytes) × (serialize p ≡ some bytes) × (deserialize (bytes ++ rest) ≡ ok p)
deserialize-serialize p rest w = (
  wire p.header (take p.header.length p.payload),
  serialize_lem p w.within_mtu,
  deserialize-wire p.header (take p.header.length p.payload) rest w.within_mtu
        (length-take_le p.header.length p.payload (omega arith))
      ∙ ap (λ b. ok (record { header = p.header; payload = b }))
          (rw (← w.zero_tail) (take-append-drop p.header.length p.payload)),
)

-- A packet whose payload is a body of at most 1500 bytes, and zeros.
abbrev filled : PacketHeader → Bytes → Packet
filled h body = record { header = h; payload = body ++ zeros (mtu - h.length) }

filled-IsWellFormed :
    (h : PacketHeader) (body : Bytes)
    → h.version < 256
    → h.type < 256
    → h.length ≤ mtu
    → length body ≡ h.length
    → IsWellFormed (filled h body)
filled-IsWellFormed h body v t le len = record {
  version_byte = v;
  type_byte = t;
  within_mtu = le;
  full_payload =
      omega (arith, length-append body (zeros (mtu - h.length)), length-zeros (mtu - h.length));
  zero_tail = drop_of_length h.length body (zeros (mtu - h.length)) len;
}

of_vector-filled :
    (msg_type : ℕ) (source : Bytes)
    → of_vector msg_type source
      ≡ filled
          (record { version = 1; type = msg_type; length = clamp_mtu (length source) })
          (take (clamp_mtu (length source)) source)
unfolding of_vector
of_vector-filled msg_type source =
    ground (arith, memcpy-zeros-take (clamp_mtu (length source)) source)

deserialize_inv :
    (raw : Bytes) (p : Packet)
    → deserialize raw ≡ ok p
    → (header_size + p.header.length ≤ length raw)
      × (p.header.length ≤ mtu)
      × (p ≡ filled (read_header raw) (take p.header.length (drop header_size raw)))
unfolding deserialize
deserialize_inv raw p e =
    ground (arith, memcpy-zeros-take (read_header raw).length (drop header_size raw))

take-clamp : (source : Bytes) → take (clamp_mtu (length source)) source ≡ take mtu source
take-clamp source = elim (Bool-cases (ltb mtu (length source))) [
  | inl long ↦ rw long
  | inr short ↦
      rw short
        (take_all (length source) source (omega arith) ∙ sym (take_all mtu source (ground arith)))
]

-- A packet made from a vector is well-formed, its payload is the vector cut off at the MTU, and
-- parsing its bytes gives the packet back.
pub deserialize-of_vector :
    (msg_type : ℕ) (source rest : Bytes)
    → msg_type < 256
    → let p = of_vector msg_type source in
      IsWellFormed p
      × (take p.header.length p.payload ≡ take mtu source)
      × (bytes : Bytes) × (serialize p ≡ some bytes)
      × (deserialize (bytes ++ rest) ≡ ok p)
deserialize-of_vector msg_type source rest h =
    let n = clamp_mtu (length source) in
    let f = of_vector-filled msg_type source in
    let len : length (take n source) ≡ n = length-take_le n source (ground arith) in
    let w : IsWellFormed (of_vector msg_type source) =
      rw f (filled-IsWellFormed _ (take n source) (omega arith) h (ground arith) len) in
    let cut : take n (take n source ++ zeros (mtu - n)) ≡ take mtu source =
      take_of_length n (take n source) _ len ∙ take-clamp source in
    let (bytes, written, parsed) = deserialize-serialize (of_vector msg_type source) rest w in
    (w, rw f cut, bytes, written, parsed)

htonl-value :
    (a b c d : ℕ)
    → a < 256
    → b < 256
    → c < 256
    → d < 256
    → htonl (a * 2 ^ 24 + b * 2 ^ 16 + c * 2 ^ 8 + d) ≡ a ∷ b ∷ c ∷ d ∷ []
htonl-value a b c d ha hb hc hd = ground arith

-- Reading a header and writing it again gives the six bytes.
wire-read_header :
    (raw body : Bytes)
    → All (λ b. b < 256) raw
    → header_size ≤ length raw
    → (wire (read_header raw) body ≡ take header_size raw ++ body)
      × ((read_header raw).version < 256)
      × ((read_header raw).type < 256)
unfolding read_header
wire-read_header (v ∷ t ∷ a ∷ b ∷ c ∷ d ∷ raw) body h le =
    ground (arith, htonl-value a b c d h.1.1.0 h.1.1.1.0 h.1.1.1.1.0 h.1.1.1.1.1.0)
wire-read_header _ body h le = absurd (omega arith)

-- Bytes, each below 256, that are accepted give a well-formed packet, and serializing that packet
-- writes those bytes again, less what follows the payload in the buffer.
pub serialize-deserialize :
    (raw : Bytes) (p : Packet)
    → All (λ b. b < 256) raw
    → deserialize raw ≡ ok p
    → IsWellFormed p × (serialize p ≡ some (take (header_size + p.header.length) raw))
serialize-deserialize raw p h e =
    let (enough, within, same) = deserialize_inv raw p e in
    let body = take p.header.length (drop header_size raw) in
    let (again, v, t) = wire-read_header raw body h (omega arith) in
    let header : p.header ≡ read_header raw = ap (λ q. q.header) same in
    let len : length body ≡ p.header.length =
      length-take_le p.header.length (drop header_size raw)
        (omega (arith, length-drop header_size raw)) in
    let kept : take p.header.length p.payload ≡ body =
      ap (λ q. take p.header.length q.payload) same ∙ take_of_length p.header.length body _ len in
    (
      subst IsWellFormed (sym same) (
          filled-IsWellFormed (read_header raw) body v t (rw header at within)
            (len ∙ ap (λ k. k.length) header)),
      serialize_lem p within
          ∙ ap some (
              ap (wire p.header) kept
              ∙ ap (λ k. wire k body) header
              ∙ again
              ∙ sym (take-add header_size p.header.length raw)),
    )
