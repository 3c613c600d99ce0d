-- ===== src/Registration/Sasl/Chunks.antt =====
-- internal/registration/sasl.go: what a server reads from the lines of `sendAuthenticate`.
use go_bnc.Registration.State.{Action, Input, State, failure, registered, send}
use go_bnc.Registration.Sasl.{
  plain_name, password_ok, chunks, authenticate_line, plain_payload, send_authenticate, step_plain,
  continue_mech, step_authenticate, authenticate_chunk_size,
}
use go_bnc.Registration.Base64.{encode_base64, decode_base64, decode_quads, skip_breaks}
use go_bnc.Irc.Message.Access.{param}
use go_bnc.Registration.Base64.RoundTrip.{
  IsByte, length-encode_base64-pos, length-encode_base64, decode_base64-encode_base64,
}
use go_bnc.Base.{
  All, All-append, Bool, Bool-cases, Bytes, List, Option, [], ap, append-nil, arith, codes, drop,
  false, if◌then◌else◌, inl, inr, is_empty, length, ltb, ltb→lt, map, none, refl, some, suc, take,
  text_eq, to_upper, true, zero, ℕ, ◌%◌, ◌++◌, ◌-◌, ◌<◌, ◌==◌, ◌∷◌, ◌≡◌, ◌≢◌, ◌≤◌, ◌⊎◌,
}

put_front : Bytes → Option Bytes → Option Bytes
put_front p none = none
put_front p (some back) = some (p ++ back)

-- A server of IRCv3 joins the parameters up to the first one that is shorter than 400 bytes; a
-- lone `+` stands for the empty text. Nothing may follow.
joined : List Bytes → Option Bytes
unfolding put_front
joined [] = none
joined (p ∷ ps) =
    let rest = joined ps in
    if text_eq p (codes "+")
    then elim ps [ [] ↦ some [] | q ∷ qs ↦ none ]
    else if ltb (length p) authenticate_chunk_size
    then elim ps [ [] ↦ some p | q ∷ qs ↦ none ]
    else if length p == authenticate_chunk_size
    then put_front p rest
    else none

-- The parameters of the lines.
parameters : List Action → List Bytes
parameters [] = []
parameters (send line r ∷ acts) = drop 13 line ∷ parameters acts
parameters (registered r ∷ acts) = parameters acts
parameters (failure reason r ∷ acts) = parameters acts

-- What the server decodes.
unfoldable pub received : List Action → Option Bytes
unfolding joined parameters
received acts = elim (joined (parameters acts)) [ none ↦ none | some b64 ↦ decode_base64 b64 ]

parameters-lines :
    (r : Bool) (texts : List Bytes) → parameters (map (authenticate_line r) texts) ≡ texts
unfolding parameters
parameters-lines r [] = refl
parameters-lines r (t ∷ ts) = ap (λ rest. t ∷ rest) (parameters-lines r ts)

module _ {ℓ} {A : Type ℓ} where
  take-drop : (n : ℕ) (xs : List A) → take n xs ++ drop n xs ≡ xs
  take-drop zero xs = refl
  take-drop (suc n) [] = refl
  take-drop (suc n) (x ∷ xs) = ap (λ rest. x ∷ rest) (take-drop n xs)

  length-take : (n : ℕ) (xs : List A) → n ≤ length xs → length (take n xs) ≡ n
  length-take zero xs h = refl
  length-take (suc n) [] h = elim h [ ]
  length-take (suc n) (x ∷ xs) h = ap suc (length-take n xs (omega arith))

  length-drop : (n : ℕ) (xs : List A) → length (drop n xs) ≡ length xs - n
  length-drop zero xs = omega arith
  length-drop (suc n) [] = omega arith
  length-drop (suc n) (x ∷ xs) = omega (arith, length-drop n xs)

-- A text of 400 bytes or more is not `+`, nor is one whose length is a multiple of 4.
plus_ne : (p : Bytes) → length p ≢ 1 → text_eq p (codes "+") ≡ false
unfolding text_eq
plus_ne [] h = refl
plus_ne (x ∷ []) h = absurd (h refl)
plus_ne (x ∷ y ∷ ys) h = ground arith

joined_full :
    (p : Bytes) (ps : List Bytes)
    → length p ≡ authenticate_chunk_size
    → joined (p ∷ ps) ≡ put_front p (joined ps)
unfolding joined
joined_full p ps h = ground (arith, plus_ne p (omega arith))

joined_last :
    (p : Bytes) → length p ≢ 1 → length p < authenticate_chunk_size → joined (p ∷ []) ≡ some p
unfolding joined
joined_last p ne h = ground (arith, plus_ne p ne)

joined_plus : joined (codes "+" ∷ []) ≡ some []
unfolding joined text_eq
joined_plus = refl

joined-chunks :
    (f : ℕ) (b64 : Bytes)
    → length b64 ≤ f
    → length b64 % 4 ≡ 0
    → 0 < length b64
    → joined (chunks f b64) ≡ some b64
unfolding chunks put_front
joined-chunks zero b64 h m some_left = absurd (omega arith)
joined-chunks (suc f) b64 h m some_left =
    elim (Bool-cases (ltb authenticate_chunk_size (length b64))) [
      | inl long ↦
          let front = take authenticate_chunk_size b64 in
          let back = drop authenticate_chunk_size b64 in
          let long' = ltb→lt _ _ long in
          let back_length = length-drop authenticate_chunk_size b64 in
          let rest = joined-chunks f back (omega arith) (omega arith) (omega arith) in
          ground (
            arith,
            joined_full front (chunks f back)
                (length-take authenticate_chunk_size b64 (omega arith)),
            rest,
            take-drop authenticate_chunk_size b64,
          )
      | inr short ↦ ground (
        arith,
        joined_full b64 (codes "+" ∷ []),
        joined_plus,
        append-nil b64,
        joined_last b64 (omega arith),
      )
    ]

is_empty-length : (s : Bytes) → 0 < length s → is_empty s ≡ false
unfolding is_empty
is_empty-length [] h = absurd (omega arith)
is_empty-length (c ∷ cs) h = refl

module _ {Conv : Type 0} where
  received-send_authenticate :
      (s : State Conv) (inp : Input) (payload : Bytes)
      → All IsByte payload
      → received (send_authenticate s inp (encode_base64 payload)).1 ≡ some payload
  unfolding received send_authenticate is_empty encode_base64 text_eq decode_base64 decode_quads
      skip_breaks
  received-send_authenticate s inp [] h = refl
  received-send_authenticate s inp (a ∷ rest) h =
      let b64 = encode_base64 (a ∷ rest) in
      let some_left = length-encode_base64-pos a rest in
      let quads = length-encode_base64 (a ∷ rest) in
      ground (
        arith,
        is_empty-length b64 some_left,
        plus_ne b64 (omega arith),
        joined-chunks (length b64) b64 (omega arith) quads some_left,
        parameters-lines inp.replay (chunks (length b64) b64),
        decode_base64-encode_base64 (a ∷ rest) h,
      )

  module _ (new_client : Bytes → Bytes → Bytes → Bytes ⊎ Conv)
      (converse : Conv → Bytes → Bytes ⊎ (Bytes × Conv)) where
    -- Where PLAIN is under way and the server asks for the credentials, a server that joins the
    -- parameters of the lines sent, none longer than 400 bytes, and decodes them reads the user
    -- name and the password, each behind a zero byte, whatever their length.
    pub received-step_authenticate :
        (s : State Conv) (inp : Input)
        → s.sasl_mech ≡ plain_name
        → param inp.msg 0 ≡ codes "+"
        → password_ok s.sasl ≡ true
        → All IsByte s.sasl.user
        → All IsByte s.sasl.pass
        → received (step_authenticate new_client converse s inp).1
          ≡ some (0 ∷ (s.sasl.user ++ (0 ∷ s.sasl.pass)))
    unfolding step_authenticate continue_mech step_plain to_upper text_eq is_empty
    received-step_authenticate s inp plain asked ok of_user of_pass =
        let bytes : All IsByte (plain_payload s.sasl) = (
          omega arith,
          All-append IsByte s.sasl.user (0 ∷ s.sasl.pass) of_user (omega arith, of_pass),
        ) in
        ground
          (arith, ap to_upper plain, received-send_authenticate s inp (plain_payload s.sasl) bytes)
