-- ===== src/Registration/Nick.antt =====
-- internal/registration/nick.go: the nick ladder.
pub mod Ladder
pub mod Exhaustion
pub mod Refusals
use go_bnc.Irc.Isupport.{Isupport}
use go_bnc.Registration.State.{State, Input, Outcome, send, failure, failed, nick_error}
use go_bnc.Irc.CaseMap.{fold, CaseMapping, ascii, equal}
use go_bnc.Registration.Text.{positive_number}
use go_bnc.Irc.Message.Access.{param}
use go_bnc.Irc.Message.Encode.{value_of}
use go_bnc.Base.{
  Bytes, List, Option, [], codes, false, get_or, if◌then◌else◌, leb, length, ltb, none, not,
  replicate, some, suc, take, text_eq, text_in, true, zero, ℕ, ◌&&◌, ◌++◌, ◌+◌, ◌-◌, ◌==◌, ◌||◌,
  ◌∷◌,
}

abbrev pub default_nick_len : ℕ
default_nick_len = 30

abbrev pub max_underscore_tries : ℕ
max_underscore_tries = 20

-- `if len(nick) > maxLen { nick = nick[:maxLen] }`
unfoldable pub cut_to : ℕ → Bytes → Bytes
cut_to max_len nick = if ltb max_len (length nick) then take max_len nick else nick

-- The closure `add` on the ladder and the set `seen`; `strings.ToLower` on ASCII text.
unfoldable pub add_rung : ℕ → List Bytes × List Bytes → Bytes → List Bytes × List Bytes
unfolding cut_to
add_rung max_len (out, seen) [] = (out, seen)
add_rung max_len (out, seen) (c ∷ cs) =
    let short = cut_to max_len (c ∷ cs) in
    let key = fold ascii short in
    if text_in key seen then (out, seen) else (out ++ (short ∷ []), key ∷ seen)

-- The loop of `buildNickLadder` from `i`, for at most so many tries.
unfoldable pub add_underscores :
    ℕ → ℕ → Bytes → ℕ → List Bytes × List Bytes → List Bytes × List Bytes
unfolding add_rung
add_underscores zero i primary max_len rungs = rungs
add_underscores (suc tries) i primary max_len rungs = elim (leb max_len i) [
  | true ↦ rungs
  | false ↦
      add_underscores tries (i + 1) primary max_len
        (add_rung max_len rungs (cut_to (max_len - i) primary ++ replicate i b'_'))
]

-- `buildNickLadder`; a `maxLen` that is not positive is 0.
unfoldable pub build_nick_ladder : Bytes → Bytes → ℕ → List Bytes
unfolding add_underscores
build_nick_ladder primary alt max_len =
    let len : ℕ = if max_len == 0 then default_nick_len else max_len in
    let named = add_rung len (add_rung len ([], []) primary) alt in
    (add_underscores max_underscore_tries 1 primary len named).0

-- The loop of `nextNickInLadder`: what stands behind the last rung that matches.
unfoldable pub behind_match : CaseMapping → Bytes → Bytes → List Bytes → Option (List Bytes)
behind_match cm last bad [] = none
behind_match cm last bad (n ∷ ns) = elim (behind_match cm last bad ns) [
  | some rest ↦ some rest
  | none ↦ if equal cm n last || equal cm n bad then some ns else none
]

-- `nextNickInLadder`; no further rung is the empty text.
unfoldable pub next_nick_in_ladder : List Bytes → Bytes → Bytes → CaseMapping → Bytes
unfolding behind_match
next_nick_in_ladder ladder last bad cm = elim (behind_match cm last bad ladder) [
  | none ↦ get_or ladder 1 []
  | some rest ↦ get_or rest 0 []
]

-- The `maxLen` of `nextLadderNick`.
unfoldable pub nick_len : Isupport → ℕ
unfolding positive_number value_of
nick_len s = elim (positive_number (value_of s.raw (codes "NICKLEN"))) [
  | none ↦ default_nick_len
  | some n ↦ n
]

module _ {Conv : Type 0} where
  -- `nextLadderNick`; `ok` is false where the text is empty.
  unfoldable pub next_ladder_nick : State Conv → Bytes → Bytes
  next_ladder_nick s bad =
      if not s.nick_recovery
      then []
      else next_nick_in_ladder (build_nick_ladder s.primary_nick s.alt_nick (nick_len s.isupport))
          s.nick bad s.isupport.case_mapping

  -- The end of `stepNickError`, on the next nick.
  unfoldable pub take_nick : State Conv → Input → Bytes → Outcome Conv
  take_nick s inp [] =
      let reason = nick_error inp.msg.command inp.msg.params in
      (record s { phase = failed; failure_reason = some reason }, failure reason inp.replay ∷ [])
  take_nick s inp (c ∷ cs) =
      (record s { nick = c ∷ cs }, send (codes "NICK " ++ (c ∷ cs)) inp.replay ∷ [])

  -- `stepNickError`
  unfoldable pub step_nick_error : State Conv → Input → Outcome Conv
  step_nick_error s inp =
      if s.got_welcome
      then (s, [])
      else if text_eq inp.msg.command (codes "437") && not (text_eq (param inp.msg 0) (codes "*"))
      then (s, [])
      else take_nick s inp (next_ladder_nick s (param inp.msg 1))
