-- ===== src/Session/State/Consistent/Channels.antt =====
-- internal/session: the invariant under changes to channels, and to the map of users.
use go_bnc.Session.State.{User, ChannelState, SessionState, update, with_channel}
use go_bnc.Session.State.Users.{map_values, any_member}
use go_bnc.Irc.CaseMap.{CaseMapping}
use go_bnc.Session.State.Consistent.{Keyed, Known, IsConsistent}
use go_bnc.Base.{
  Bool-cases, Bytes, List, Option, Option-cases, [], ap, arith, byte_key, erase, has_some,
  if◌then◌else◌, inl, inr, insert, lookup, lookup-erase, lookup-insert, none, refl, some, sym,
  text_eq, text_eq_iff, text_in, text_key, true, ℕ, ◌∙◌, ◌∷◌, ◌≡◌, ◌⊎◌,
}

abbrev map_some {ℓ κ} : {A : Type ℓ} {B : Type κ} → (A → B) → Option A → Option B
map_some f none = none
map_some f (some a) = some (f a)

module _ {ℓ} {V : Type ℓ} where
  pub lookup-update :
      (k j : Bytes) (f : V → V) (m : List (Bytes × V))
      → lookup j (update k f m) ≡ (if text_eq k j then map_some f (lookup j m) else lookup j m)
  unfolding lookup update
  lookup-update k j f [] = ground arith
  lookup-update k j f ((i, v) ∷ m) =
      ground (arith, text_eq_iff i j, text_eq_iff i k, text_eq_iff k j, lookup-update k j f m)

  pub lookup-map_values :
      (j : Bytes) (f : V → V) (m : List (Bytes × V))
      → lookup j (map_values f m) ≡ map_some f (lookup j m)
  unfolding lookup map_values
  lookup-map_values j f [] = refl
  lookup-map_values j f ((i, v) ∷ m) = ground (arith, lookup-map_values j f m)

-- Each member of the new channel was one of the old, or has an entry.
abbrev pub Admits : List (Bytes × ℕ) → ChannelState → ChannelState → Type 0
Admits users ch ch' =
    (m : Bytes)
    → text_in m ch'.members ≡ true
    → (text_in m ch.members ≡ true) ⊎ (has_some (lookup m users) ≡ true)

module _ (users : List (Bytes × ℕ)) (f : ChannelState → ChannelState)
    (admits : (ch : ChannelState) → Admits users ch (f ch)) where
  Known-some :
      (channels : List (Bytes × ChannelState)) (name : Bytes) (ch : ChannelState)
      → Known users channels
      → map_some f (lookup name channels) ≡ some ch
      → (m : Bytes) → text_in m ch.members ≡ true
      → has_some (lookup m users) ≡ true
  Known-some channels name ch known found m is_in = elim (Option-cases (lookup name channels)) [
    | inl e ↦ absurd (ground arith)
    | inr (old, e) ↦
        let same : f old ≡ ch = ground arith in
        let is_in' : text_in m (f old).members ≡ true =
          ap (λ (c : ChannelState). text_in m c.members) same ∙ is_in in
        elim (admits old m is_in') [ inl was ↦ known name old e m was | inr has ↦ has ]
  ]

  pub Known-update :
      (k : Bytes) (channels : List (Bytes × ChannelState))
      → Known users channels
      → Known users (update k f channels)
  Known-update k channels known name ch found = elim (Bool-cases (text_eq k name)) [
    | inl e ↦ Known-some channels name ch known (ground (arith, lookup-update k name f channels))
    | inr e ↦ known name ch (ground (arith, lookup-update k name f channels))
  ]

  pub Known-map_values :
      (channels : List (Bytes × ChannelState))
      → Known users channels
      → Known users (map_values f channels)
  Known-map_values channels known name ch found =
      Known-some channels name ch known (sym (lookup-map_values name f channels) ∙ found)

pub Known-erase :
    (users : List (Bytes × ℕ)) (k : Bytes) (channels : List (Bytes × ChannelState))
    → Known users channels
    → Known users (erase k channels)
Known-erase users k channels known name ch found =
    known name ch (ground (arith, lookup-erase k name channels))

-- A channel without members.
pub Known-insert :
    (users : List (Bytes × ℕ)) (k : Bytes) (fresh : ChannelState)
    (channels : List (Bytes × ChannelState))
    → fresh.members ≡ []
    → Known users channels
    → Known users (insert k fresh channels)
unfolding text_in
Known-insert users k fresh channels none_in known name ch found m is_in =
    elim (Bool-cases (text_eq k name)) [
      | inl e ↦
          let same : fresh ≡ ch = ground (arith, lookup-insert k name fresh channels) in
          absurd (
            ground
              (arith, ap (λ (c : ChannelState). text_in m c.members) same, ap (text_in m) none_in))
      | inr e ↦ known name ch (ground (arith, lookup-insert k name fresh channels)) m is_in
    ]

pub channels-IsConsistent :
    (s : SessionState) (channels' : List (Bytes × ChannelState))
    → IsConsistent s
    → Known s.users channels'
    → IsConsistent (record s { channels = channels' })
channels-IsConsistent s channels' good known = record {
  self_there = good.self_there;
  keyed = good.keyed;
  known = known;
}

pub with_channel-IsConsistent :
    (s : SessionState) (k : Bytes) (f : ChannelState → ChannelState)
    → IsConsistent s
    → ((ch : ChannelState) → Admits s.users ch (f ch))
    → IsConsistent (with_channel s k f)
unfolding with_channel
with_channel-IsConsistent s k f good admits =
    channels-IsConsistent s (update k f s.channels) good
      (Known-update s.users f admits k s.channels good.known)

pub Keyed-erase :
    (cm : CaseMapping) (users : List (Bytes × ℕ)) (heap : List User) (k : Bytes)
    → Keyed cm users heap
    → Keyed cm (erase k users) heap
Keyed-erase cm users heap k keyed j r found = keyed j r (ground (arith, lookup-erase k j users))

-- A change to every channel, and to the map of users with it.
pub Known-map :
    (users users' : List (Bytes × ℕ)) (f : ChannelState → ChannelState)
    (channels : List (Bytes × ChannelState))
    → ((ch : ChannelState)
        → ((m : Bytes) → text_in m ch.members ≡ true → has_some (lookup m users) ≡ true)
        → (m : Bytes) → text_in m (f ch).members ≡ true
        → has_some (lookup m users') ≡ true)
    → Known users channels
    → Known users' (map_values f channels)
Known-map users users' f channels carries known name ch found m is_in =
    elim (Option-cases (lookup name channels)) [
      | inl e ↦ absurd (ground (arith, lookup-map_values name f channels))
      | inr (old, e) ↦
          let same : f old ≡ ch = ground (arith, lookup-map_values name f channels) in
          carries old (known name old e) m
            (ap (λ (c : ChannelState). text_in m c.members) same ∙ is_in)
    ]

pub any_member-lookup :
    (m : Bytes) (channels : List (Bytes × ChannelState)) (name : Bytes) (ch : ChannelState)
    → lookup name channels ≡ some ch
    → text_in m ch.members ≡ true
    → any_member m channels ≡ true
unfolding lookup any_member
any_member-lookup m [] name ch found is_in = cc
any_member-lookup m ((j, c) ∷ channels) name ch found is_in = elim (Bool-cases (text_eq j name)) [
  | inl e ↦
      let same : c ≡ ch = ground arith in
      ground (arith, ap (λ (x : ChannelState). text_in m x.members) same)
  | inr e ↦ ground (arith, any_member-lookup m channels name ch)
]
