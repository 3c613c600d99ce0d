-- ===== src/Session/State/Prefix.antt =====
-- internal/session/user.go: the source of a line names the user again.
use go_bnc.Session.State.{User}
use go_bnc.Session.State.Users.{prefix, split_userhost, server_name}
use go_bnc.Base.{
  Bool-cases, Free, arith, cut_byte-append, false, if◌then◌else◌, inl, inr, is_empty, ◌++◌, ◌∷◌,
  ◌≡◌,
}

-- A user whose nick has no `!`, whose user name has no `@` and whose user name is not empty is
-- read back from its prefix by `splitUserhost`: the nick, the user name, and the host, or the name
-- of the bouncer in place of an empty host.
pub split_userhost-prefix :
    (u : User)
    → Free b'!' u.nick
    → Free b'@' u.user
    → is_empty u.user ≡ false
    → split_userhost (prefix u) ≡ (u.nick, u.user, if is_empty u.host then server_name else u.host)
unfolding split_userhost prefix
split_userhost-prefix u nick_free user_free named = elim (Bool-cases (is_empty u.host)) [
  | inl e ↦ ground (
    arith,
    cut_byte-append b'!' u.nick (u.user ++ b'@' ∷ server_name) nick_free,
    cut_byte-append b'@' u.user server_name user_free,
  )
  | inr e ↦ ground (
    arith,
    cut_byte-append b'!' u.nick (u.user ++ b'@' ∷ u.host) nick_free,
    cut_byte-append b'@' u.user u.host user_free,
  )
]
