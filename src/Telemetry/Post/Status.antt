-- ===== src/Telemetry/Post/Status.antt =====
-- What `status_is_success` (core-engine/src/system/telemetry_http_client.cpp) accepts.
use network_simulator_platfo.Common.{
  ℕ, ◌+◌, ◌≤◌, ◌<◌, ◌≡◌, ◌≢◌, ◌↔◌, ◌⊎◌, inl, inr, refl, ◌∙◌, sym, ap, Bool, true, false, Option,
  none, some, [], ◌∷◌, ◌++◌, append-nil, arith, length, take, drop, All, length-append, leb, ◌==◌,
  if◌then◌else◌, Bool-cases,
}
use network_simulator_platfo.Common.Words.{Bytes}
use network_simulator_platfo.Http.Number.{is_space, skip_spaces, read_digits, starts_with_digit}
use network_simulator_platfo.Telemetry.{split_first}
use network_simulator_platfo.Telemetry.Endpoint.{split_first-append, split_first-none}
use network_simulator_platfo.Telemetry.Post.{stoi_amount, stoi_sign, is_success, status_is_success}

-- A response whose first space is followed by a number of three digits from 200 to 299.
pub record IsSuccess (response : Bytes) : Type 0 where
  pub front : Bytes
  pub no_space : All (λ c. c ≢ 32) front
  pub tens : ℕ
  pub units : ℕ
  pub rest : Bytes
  pub is_tens : (b'0' ≤ tens) × (tens ≤ b'9')
  pub is_units : (b'0' ≤ units) × (units ≤ b'9')
  pub text : response ≡ front ++ 32 ∷ b'2' ∷ tens ∷ units ∷ rest

-- `stoi` behind its spaces, with the test of its number.
abbrev signed : Bytes → Option Bool
signed cs = elim (stoi_sign cs) [ none ↦ none | some status ↦ some (is_success status) ]

abbrev judged : Bytes → Option Bool
judged cs = signed (skip_spaces cs)

amount : Bool → Bytes → Option Bool
amount negative cs = elim (stoi_amount negative cs) [
  | none ↦ none
  | some status ↦ some (is_success status)
]

two_digits : (x y : ℕ) → read_digits 0 (x ∷ y ∷ []) < 100
unfolding read_digits
two_digits x y = ground arith

one_digit : (x : ℕ) → read_digits 0 (x ∷ []) < 100
unfolding read_digits
one_digit x = ground arith

small_amount :
    (negative : Bool) (cs : Bytes) → read_digits 0 cs < 100 → amount negative cs ≢ some true
unfolding amount stoi_amount
small_amount negative cs h e = ground (arith, h, e)

negative_amount : (cs : Bytes) → amount true cs ≢ some true
unfolding amount stoi_amount
negative_amount cs e = ground (arith, e)

signed-amount :
    (c : ℕ) (cs : Bytes)
    → signed (c ∷ cs) ≡ (
        if c == b'-'
        then amount true cs
        else if c == b'+'
        then amount false cs
        else amount false (c ∷ cs))
unfolding stoi_sign amount
signed-amount c cs = cases (c == b'-') (c == b'+')
  where
    cases :
        (minus plus : Bool)
        → elim (if minus
            then stoi_amount true cs
            else if plus
            then stoi_amount false cs
            else stoi_amount false (c ∷ cs)) [ none ↦ none | some st ↦ some (is_success st) ]
          ≡ (if minus
              then amount true cs
              else if plus
              then amount false cs
              else amount false (c ∷ cs))
    cases true plus = refl
    cases false true = refl
    cases false false = refl

no_digits : (negative : Bool) → amount negative [] ≢ some true
unfolding amount stoi_amount starts_with_digit
no_digits negative e = cc

short : (cs : Bytes) → length cs ≤ 2 → signed cs ≢ some true
unfolding stoi_sign
short [] h e = cc
short (x ∷ []) h e = ground (
  arith,
  e,
  signed-amount x [],
  no_digits true,
  no_digits false,
  small_amount false (x ∷ []) (one_digit x),
)
short (x ∷ y ∷ []) h e = ground (
  arith,
  e,
  signed-amount x (y ∷ []),
  small_amount true (y ∷ []) (one_digit y),
  small_amount false (y ∷ []) (one_digit y),
  small_amount false (x ∷ y ∷ []) (two_digits x y),
)
short (x ∷ y ∷ z ∷ cs) h e = absurd (omega arith)

length-skip_spaces : (cs : Bytes) → length (skip_spaces cs) ≤ length cs
unfolding skip_spaces
length-skip_spaces [] = omega arith
length-skip_spaces (c ∷ cs) = ground (arith, length-skip_spaces cs)

three_digits :
    (x y z : ℕ)
    → amount false (x ∷ y ∷ z ∷ []) ≡ some true
    → (x ≡ b'2') × ((b'0' ≤ y) × (y ≤ b'9')) × ((b'0' ≤ z) × (z ≤ b'9'))
unfolding amount stoi_amount read_digits starts_with_digit
three_digits x y z h = ground (arith, h)

judged_success :
    (x y z : ℕ)
    → judged (x ∷ y ∷ z ∷ []) ≡ some true
    → (x ≡ b'2') × ((b'0' ≤ y) × (y ≤ b'9')) × ((b'0' ≤ z) × (z ≤ b'9'))
unfolding skip_spaces
judged_success x y z h = elim (Bool-cases (is_space x)) [
  | inl e ↦ absurd (
      short (skip_spaces (y ∷ z ∷ [])) (omega (arith, length-skip_spaces (y ∷ z ∷ [])))
        (rw (e, skip_spaces) at h))
  | inr e ↦
      let is : signed (x ∷ y ∷ z ∷ []) ≡ some true = rw (e, skip_spaces) at h in
      three_digits x y z (
        ground (
          arith,
          is,
          signed-amount x (y ∷ z ∷ []),
          negative_amount (y ∷ z ∷ []),
          small_amount false (y ∷ z ∷ []) (two_digits y z),
        ))
]

success_judged :
    (y z : ℕ)
    → (b'0' ≤ y) × (y ≤ b'9')
    → (b'0' ≤ z) × (z ≤ b'9')
    → judged (b'2' ∷ y ∷ z ∷ []) ≡ some true
unfolding stoi_sign stoi_amount skip_spaces read_digits starts_with_digit
success_judged y z h k = ground arith

drop_behind : (front rest : Bytes) → drop (length front + 1) (front ++ 32 ∷ rest) ≡ rest
drop_behind [] rest = refl
drop_behind (c ∷ front) rest = ground (arith, drop_behind front rest)

split_first-space :
    (text : Bytes)
    → let (front, back) = split_first 32 text in
      All (λ c. c ≢ 32) front
      × (text ≡ front ++ back)
      × ((back ≡ []) ⊎ ((rest : Bytes) × (back ≡ 32 ∷ rest)))
unfolding split_first
split_first-space [] = (tt, refl, inl refl)
split_first-space (c ∷ cs) = elim (Bool-cases (c == 32)) [
  | inl e ↦ rw (e, split_first) (tt, refl, inr (cs, ground arith))
  | inr e ↦
      let (plain, text, back) = split_first-space cs in
      rw (e, split_first) ((λ h. ground arith, plain), ap (◌∷◌ c) text, back)
]

status_at :
    (front rest : Bytes)
    → All (λ c. c ≢ 32) front
    → status_is_success (front ++ 32 ∷ rest)
      ≡ (if leb (length rest) 2 then some false else judged (take 3 rest))
unfolding status_is_success
status_at front rest plain =
    let parts = split_first-append 32 front rest plain in
    let size : leb (length (front ++ 32 ∷ rest)) (length front + 3) ≡ leb (length rest) 2 =
      ground (arith, length-append front (32 ∷ rest)) in
    let some_back : (length (32 ∷ rest) == 0) ≡ false = ground arith in
    rw (parts, some_back, status_is_success) (rw size (rw (drop_behind front rest) refl))

pub status_none : (text : Bytes) → All (λ c. c ≢ 32) text → status_is_success text ≡ some false
unfolding status_is_success
status_none text plain = rw (split_first-none 32 text plain, status_is_success) refl

three : (x y z : ℕ) (rest : Bytes) → leb (length (x ∷ y ∷ z ∷ rest)) 2 ≡ false
three x y z rest = ground arith

-- It is true exactly where the first space of the response is followed by such a number.
pub status_is_success_iff :
    (response : Bytes) → (status_is_success response ≡ some true) ↔ IsSuccess response
status_is_success_iff response = (
  λ h.
      let (plain, text, back) = split_first-space response in
      found (split_first 32 response).0 (split_first 32 response).1 plain text back h,
  λ s.
      ap status_is_success s.text
      ∙ status_at s.front (b'2' ∷ s.tens ∷ s.units ∷ s.rest) s.no_space
      ∙ rw (three (b'2') s.tens s.units s.rest)
          (success_judged s.tens s.units s.is_tens s.is_units),
)
  where
    behind :
        (front rest : Bytes)
        → All (λ c. c ≢ 32) front
        → response ≡ front ++ 32 ∷ rest
        → (if leb (length rest) 2 then some false else judged (take 3 rest)) ≡ some true
        → IsSuccess response
    behind front [] plain text h = cc
    behind front (x ∷ []) plain text h = cc
    behind front (x ∷ y ∷ []) plain text h = cc
    behind front (x ∷ y ∷ z ∷ rest) plain text h =
        let (two, is_tens, is_units) = judged_success x y z (rw (three x y z rest) at h) in
        record {
          front = front;
          no_space = plain;
          tens = y;
          units = z;
          rest = rest;
          is_tens = is_tens;
          is_units = is_units;
          text = text ∙ ap (λ c. front ++ 32 ∷ c ∷ y ∷ z ∷ rest) two;
        }

    found :
        (front back : Bytes)
        → All (λ c. c ≢ 32) front
        → response ≡ front ++ back
        → (back ≡ []) ⊎ ((rest : Bytes) × (back ≡ 32 ∷ rest))
        → status_is_success response ≡ some true
        → IsSuccess response
    found front back plain text (inl e) h =
        let whole : response ≡ front = text ∙ ap (λ b. front ++ b) e ∙ append-nil front in
        let refused : some false ≡ some true =
          sym (ap status_is_success whole ∙ status_none front plain) ∙ h in
        cc
    found front back plain text (inr (rest, e)) h =
        let whole : response ≡ front ++ 32 ∷ rest = text ∙ ap (λ b. front ++ b) e in
        behind front rest plain whole
          (sym (ap status_is_success whole ∙ status_at front rest plain) ∙ h)
