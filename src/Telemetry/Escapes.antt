-- ===== src/Telemetry/Escapes.antt =====
-- A reader of JSON strings reads back what `escape_json`
-- (core-engine/src/system/telemetry_http_client.cpp) writes.
use network_simulator_platfo.Common.{
  ℕ, ◌≤◌, ◌≡◌, ◌≢◌, Bool-cases, ◌⊎◌, inl, inr, refl, ◌∙◌, sym, ap, Option, none, some, [], ◌∷◌,
  ◌++◌, append_assoc, arith, All, ltb, ◌==◌, if◌then◌else◌,
}
use network_simulator_platfo.Common.Words.{Bytes}
use network_simulator_platfo.Telemetry.{backslash, quote, escape_char, escape_json}

-- The character that an escape of one letter stands for.
abbrev pub unescape_char : ℕ → Option ℕ
unescape_char c =
    if c == backslash
    then some backslash
    else if c == quote
    then some quote
    else if c == b'n'
    then some 10
    else if c == b'r'
    then some 13
    else if c == b't'
    then some 9
    else none

abbrev pub cons_to : ℕ → Option (Bytes × Bytes) → Option (Bytes × Bytes)
cons_to c none = none
cons_to c (some (text, rest)) = some (c ∷ text, rest)

abbrev pub cons_some : Option ℕ → Option (Bytes × Bytes) → Option (Bytes × Bytes)
cons_some none r = none
cons_some (some c) r = cons_to c r

-- The text of a JSON string up to its closing quote, and what follows the quote; `none` where a
-- control character stands in the string, an escape is unknown, or the quote is missing.
unfoldable pub read_string : Bytes → Option (Bytes × Bytes)
read_string [] = none
read_string (c ∷ []) = if c == quote then some ([], []) else none
read_string (c ∷ d ∷ cs) =
    let escaped = read_string cs in
    let plain = read_string (d ∷ cs) in
    if c == quote
    then some ([], d ∷ cs)
    else if c == backslash
    then cons_some (unescape_char d) escaped
    else if ltb c 32
    then none
    else cons_to c plain

-- The control characters that JSON wants escaped and `escape_json` escapes.
abbrev pub Writable : ℕ → Type 0
Writable c = (32 ≤ c) ⊎ ((c ≡ 9) ⊎ ((c ≡ 10) ⊎ (c ≡ 13)))

-- `escape_char` writes one of the five escapes, or the character itself.
abbrev IsEscape : ℕ → Bytes → Type 0
IsEscape c bytes =
    ((letter : ℕ) × (bytes ≡ backslash ∷ letter ∷ []) × (unescape_char letter ≡ some c))
    ⊎ ((bytes ≡ c ∷ []) × (c ≢ quote) × (c ≢ backslash) × (32 ≤ c))

escape_char-IsEscape : (c : ℕ) → Writable c → IsEscape c (escape_char c)
unfolding escape_char
escape_char-IsEscape c w = elim (Bool-cases (c == backslash)) [
  | inl e ↦ inl (backslash, ground arith, ground arith)
  | inr n₁ ↦ elim (Bool-cases (c == quote)) [
    | inl e ↦ inl (quote, ground arith, ground arith)
    | inr n₂ ↦ elim (Bool-cases (c == 10)) [
      | inl e ↦ inl (b'n', ground arith, ground arith)
      | inr n₃ ↦ elim (Bool-cases (c == 13)) [
        | inl e ↦ inl (b'r', ground arith, ground arith)
        | inr n₄ ↦ elim (Bool-cases (c == 9)) [
          | inl e ↦ inl (b't', ground arith, ground arith)
          | inr n₅ ↦ inr (ground arith, ground arith, ground arith, ground arith)
        ]
      ]
    ]
  ]
]

read_escaped :
    (c : ℕ) (bytes : Bytes) (d : ℕ) (cs : Bytes)
    → IsEscape c bytes
    → read_string (bytes ++ d ∷ cs) ≡ cons_to c (read_string (d ∷ cs))
unfolding read_string
read_escaped c bytes d cs (inl (letter, e, u)) = rw (e, u, read_string)
read_escaped c bytes d cs (inr (e, not_quote, not_backslash, printable)) =
    rw (e, read_string) (ground arith)

nonempty : (xs rest : Bytes) → (d : ℕ) × (cs : Bytes) × (xs ++ quote ∷ rest ≡ d ∷ cs)
nonempty [] rest = (quote, rest, refl)
nonempty (x ∷ xs) rest = (x, xs ++ quote ∷ rest, refl)

-- A text without control characters but tabs, line feeds and carriage returns, written between
-- quotes with its characters escaped, is read back as it is by a reader of JSON strings, which goes
-- on behind the closing quote.
pub read_string-escape_json :
    (text rest : Bytes)
    → All Writable text
    → read_string (escape_json text ++ quote ∷ rest) ≡ some (text, rest)
unfolding escape_json read_string
read_string-escape_json [] rest w = closing rest
  where
    closing : (rest : Bytes) → read_string (quote ∷ rest) ≡ some ([], rest)
    closing [] = refl
    closing (c ∷ cs) = refl
read_string-escape_json (c ∷ text) rest w =
    let (d, cs, more) = nonempty (escape_json text) rest in
    ap read_string (append_assoc (escape_char c) (escape_json text) (quote ∷ rest))
    ∙ ap (λ u. read_string (escape_char c ++ u)) more
    ∙ read_escaped c (escape_char c) d cs (escape_char-IsEscape c w.0)
    ∙ ap (λ u. cons_to c (read_string u)) (sym more)
    ∙ ap (cons_to c) (read_string-escape_json text rest w.1)
