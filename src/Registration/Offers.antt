-- ===== src/Registration/Offers.antt =====
-- internal/registration/registration.go: capabilities that are offered on several lines.
use go_bnc.Irc.Isupport.{split_kv}
use go_bnc.Irc.Message.{Message, Tags}
use go_bnc.Registration.State.{Input, Outcome, State}
use go_bnc.Registration.Step.{
  desired_caps, dispatch, is_terminal, offer_all, request_caps, request_from, step, step_cap,
  step_cap_ls, command_of,
}
use go_bnc.Registration.Runs.{feed}
use go_bnc.Irc.Message.Access.{param, trailing, last_of}
use go_bnc.Base.{
  Bool, Bool-cases, Bytes, List, [], ap, arith, byte_key, codes, false, fields, fields_loop, inl,
  inr, insert, is_space, put_word, refl, sym, text_eq, text_eq_iff, text_key, to_upper, ◌++◌, ◌∙◌,
  ◌∷◌, ◌≡◌, ◌≢◌, ◌⊎◌,
}

put_word-append :
    (word : Bytes) (words more : List Bytes)
    → put_word word (words ++ more) ≡ put_word word words ++ more
unfolding put_word
put_word-append [] words more = refl
put_word-append (c ∷ cs) words more = refl

fields_loop-append :
    (word a b : Bytes) → fields_loop word (a ++ (b' ' ∷ b)) ≡ fields_loop word a ++ fields b
unfolding fields_loop fields
fields_loop-append word [] b = put_word-append word [] (fields_loop [] b)
fields_loop-append word (c ∷ a) b = elim (Bool-cases (is_space c)) [
  | inl space ↦
      ground (
        arith,
        fields_loop-append [] a b,
        put_word-append word (fields_loop [] a) (fields_loop [] b),
      )
  | inr letter ↦ ground (arith, fields_loop-append (word ++ (c ∷ [])) a b)
]

offer_all-append :
    (offered : Tags) (xs ys : List Bytes)
    → offer_all offered (xs ++ ys) ≡ offer_all (offer_all offered xs) ys
unfolding offer_all
offer_all-append offered [] ys = refl
offer_all-append offered (x ∷ xs) ys =
    let kv = split_kv x in offer_all-append (insert kv.0 kv.1 offered) xs ys

-- A line of the list of capabilities: one that others follow, and the last one.
abbrev pub ls_more : Bytes → Bytes → Message
ls_more nick text = record {
  tags = [];
  source = [];
  command = codes "CAP";
  params = nick ∷ codes "LS" ∷ codes "*" ∷ text ∷ [];
  raw = [];
}

abbrev pub ls_last : Bytes → Bytes → Message
ls_last nick text = record {
  tags = [];
  source = [];
  command = codes "CAP";
  params = nick ∷ codes "LS" ∷ text ∷ [];
  raw = [];
}

space_ne : (a b : Bytes) → text_eq (a ++ (b' ' ∷ b)) (codes "*") ≡ false
unfolding text_eq
space_ne [] b = refl
space_ne (c ∷ []) b = ground arith
space_ne (c ∷ d ∷ a) b = ground arith

module _ {Conv : Type 0} (new_client : Bytes → Bytes → Bytes → Bytes ⊎ Conv)
    (converse : Conv → Bytes → Bytes ⊎ (Bytes × Conv)) where
  module _ (s : State Conv) (r : Bool) (nonce nick text : Bytes)
      (going : is_terminal s.phase ≡ false) where
    step-ls_more :
        step new_client converse s (record { msg = ls_more nick text; replay = r; nonce = nonce })
        ≡ (record s { offered = offer_all s.offered (fields text) }, [])
    unfolding step dispatch command_of step_cap step_cap_ls param trailing text_eq to_upper
        offer_all fields last_of
    step-ls_more = rw going

    step-ls_last :
        text_eq text (codes "*") ≡ false
        → step new_client converse s (record { msg = ls_last nick text; replay = r; nonce = nonce })
          ≡ request_caps
              (record s { offered = offer_all s.offered (fields text) })
              (record { msg = ls_last nick text; replay = r; nonce = nonce })
              (request_from s.sasl.wanted (offer_all s.offered (fields text)) desired_caps)
    unfolding step dispatch command_of step_cap step_cap_ls param trailing last_of text_eq to_upper
    step-ls_last ne = rw (going, ne)

  request-msg :
      (s : State Conv) (inp inp' : Input) (caps : List Bytes)
      → inp.replay ≡ inp'.replay
      → request_caps s inp caps ≡ request_caps s inp' caps
  unfolding request_caps
  request-msg s inp inp' [] e = ground arith
  request-msg s inp inp' (c ∷ cs) e = ground arith

  -- A list of capabilities that the server splits over two lines leads to the same state and the
  -- same request as the list on one line, unless its last line is a lone `*`.
  pub feed-ls_more :
      (s : State Conv) (r : Bool) (nonce₁ nonce₂ nonce₃ nick a b : Bytes)
      → is_terminal s.phase ≡ false
      → b ≢ codes "*"
      → feed new_client converse s (
          record { msg = ls_more nick a; replay = r; nonce = nonce₁ }
          ∷ record { msg = ls_last nick b; replay = r; nonce = nonce₂ }
          ∷ [])
        ≡ feed new_client converse s
            (record { msg = ls_last nick (a ++ (b' ' ∷ b)); replay = r; nonce = nonce₃ } ∷ [])
  unfolding feed fields
  feed-ls_more s r nonce₁ nonce₂ nonce₃ nick a b going ne =
      let s' : State Conv = record s { offered = offer_all s.offered (fields a) } in
      let ne' : text_eq b (codes "*") ≡ false = ground (arith, text_eq_iff b (codes "*")) in
      let last : Input = record { msg = ls_last nick b; replay = r; nonce = nonce₂ } in
      let whole : Input = record {
        msg = ls_last nick (a ++ (b' ' ∷ b));
        replay = r;
        nonce = nonce₃;
      } in
      let same_offers : offer_all (offer_all s.offered (fields a)) (fields b)
          ≡ offer_all s.offered (fields (a ++ (b' ' ∷ b))) =
        sym (offer_all-append s.offered (fields a) (fields b))
        ∙ ap (offer_all s.offered) (sym (fields_loop-append [] a b)) in
      let answer : Input → Tags → Outcome Conv = λ inp offered'.
        request_caps (record s { offered = offered' }) inp
          (request_from s.sasl.wanted offered' desired_caps) in
      let same : answer last (offer_all (offer_all s.offered (fields a)) (fields b))
          ≡ answer whole (offer_all s.offered (fields (a ++ (b' ' ∷ b)))) =
        ap (answer last) same_offers ∙ request-msg _ last whole _ refl in
      ground (
        arith,
        step-ls_more s r nonce₁ nick a going,
        step-ls_last s' r nonce₂ nick b going ne',
        step-ls_last s r nonce₃ nick (a ++ (b' ' ∷ b)) going (space_ne a b),
        same,
      )
