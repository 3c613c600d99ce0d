-- ===== src/Session/Tracker/Codes.antt =====
-- internal/session/tracker.go: which numerics belong to a request, and which end it. A set of
-- numerics, `map[string]bool`, is the list of its members.

use go_bnc.Base.{Bool, Bytes, List, String, [], codes, if◌then◌else◌, text_eq, text_in, ◌++◌, ◌∷◌}

-- `cmd == "…"`
abbrev pub is : Bytes → String → Bool
is cmd name = text_eq cmd (codes name)

-- A list of literals.
abbrev pub texts : List String → List Bytes
texts [] = []
texts (s ∷ ss) = codes s ∷ texts ss

-- `switch cmd { case "…", …: return true }`
abbrev pub one_of : Bytes → List String → Bool
one_of cmd names = text_in cmd (texts names)

-- `MAPEndCodes` of internal/irc/ircd.go
unfoldable pub map_end_codes : Bytes → List Bytes
map_end_codes ircd =
    if one_of ircd ("ircu" ∷ "snircd" ∷ [])
    then texts ("017" ∷ [])
    else if one_of ircd ("unrealircd" ∷ "inspircd" ∷ [])
    then texts ("007" ∷ [])
    else if is ircd "bahamut"
    then texts ("007" ∷ [])
    else texts ("017" ∷ "007" ∷ "359" ∷ [])

-- `MAPReplyCodes` of internal/irc/ircd.go
unfoldable pub map_reply_codes : Bytes → List Bytes
unfolding map_end_codes
map_reply_codes ircd =
    map_end_codes ircd
    ++ (if one_of ircd ("ircu" ∷ "snircd" ∷ [])
        then texts ("015" ∷ "016" ∷ [])
        else if is ircd "unrealircd"
        then texts ("006" ∷ [])
        else if is ircd "inspircd"
        then texts ("006" ∷ "018" ∷ [])
        else texts ("006" ∷ "015" ∷ "016" ∷ "018" ∷ "357" ∷ "358" ∷ []))

-- `lusersEndCodes`
unfoldable pub lusers_end_codes : Bytes → List Bytes
lusers_end_codes ircd =
    if one_of ircd ("ircu" ∷ "snircd" ∷ []) then texts ("255" ∷ []) else texts ("266" ∷ [])

-- A switch on the command, as a table.
abbrev pub switch {ℓ} : {A : Type ℓ} → Bytes → List (List String × A) → A → A
switch cmd [] default = default
switch cmd ((names, a) ∷ cases) default = if one_of cmd names then a else switch cmd cases default

-- `endCodesFor`
unfoldable pub end_codes_for : Bytes → Bytes → List Bytes
unfolding map_end_codes lusers_end_codes
end_codes_for cmd ircd =
    switch cmd
      (("WHO" ∷ "WHOX" ∷ [], texts ("315" ∷ "403" ∷ "402" ∷ []))
        ∷ ("WHOIS" ∷ [], texts ("318" ∷ []))
        ∷ ("WHOWAS" ∷ [], texts ("369" ∷ "431" ∷ []))
        ∷ ("STATS" ∷ [], texts ("219" ∷ "402" ∷ []))
        ∷ ("LIST" ∷ [], texts ("323" ∷ "402" ∷ []))
        ∷ ("NAMES" ∷ [], texts ("366" ∷ "401" ∷ "403" ∷ []))
        ∷ ("LINKS" ∷ [], texts ("365" ∷ "402" ∷ []))
        ∷ ("MAP" ∷ [], map_end_codes ircd)
        ∷ ("ISON" ∷ [], texts ("303" ∷ "461" ∷ []))
        ∷ ("USERHOST" ∷ [], texts ("302" ∷ "461" ∷ []))
        ∷ ("LUSERS" ∷ [], lusers_end_codes ircd)
        ∷ ("TIME" ∷ [], texts ("391" ∷ "402" ∷ []))
        ∷ ("TRACE" ∷ [], texts ("262" ∷ "402" ∷ "481" ∷ "421" ∷ []))
        ∷ ("USERS" ∷ [], texts ("394" ∷ "395" ∷ "446" ∷ "266" ∷ "402" ∷ "424" ∷ "421" ∷ []))
        ∷ ("HELP" ∷ [], texts ("706" ∷ "524" ∷ []))
        ∷ ("ADMIN" ∷ [], texts ("259" ∷ "402" ∷ []))
        ∷ (
          "MODE" ∷ [],
          texts (
              "221" ∷ "324" ∷ "368" ∷ "349" ∷ "347" ∷ "729" ∷ "401" ∷ "403" ∷ "442" ∷ "461" ∷ "472"
              ∷ "482" ∷ []),
        )
        ∷ ("TOPIC" ∷ [], texts ("331" ∷ "333" ∷ "401" ∷ "403" ∷ "442" ∷ "461" ∷ []))
        ∷ ("SILENCE" ∷ [], texts ("272" ∷ []))
        ∷ [])
      []

-- `replyCodesFor`
unfoldable pub reply_codes_for : Bytes → Bytes → List Bytes
unfolding map_reply_codes end_codes_for
reply_codes_for cmd ircd =
    switch cmd
      (("WHO" ∷ "WHOX" ∷ [], texts ("352" ∷ "315" ∷ "354" ∷ "402" ∷ "403" ∷ []))
        ∷ ("WHOWAS" ∷ [], texts ("314" ∷ "312" ∷ "330" ∷ "338" ∷ "406" ∷ "369" ∷ "431" ∷ []))
        ∷ ("LIST" ∷ [], texts ("321" ∷ "322" ∷ "323" ∷ "402" ∷ []))
        ∷ ("NAMES" ∷ [], texts ("353" ∷ "366" ∷ "401" ∷ "403" ∷ []))
        ∷ ("LINKS" ∷ [], texts ("364" ∷ "365" ∷ "402" ∷ []))
        ∷ (
          "STATS" ∷ [],
          texts (
              "211" ∷ "212" ∷ "213" ∷ "214" ∷ "215" ∷ "216" ∷ "217" ∷ "218" ∷ "219" ∷ "241" ∷ "242"
              ∷ "243" ∷ "244" ∷ "245" ∷ "246" ∷ "247" ∷ "248" ∷ "249" ∷ "250" ∷ "402" ∷ []),
        )
        ∷ ("MAP" ∷ [], map_reply_codes ircd)
        ∷ ("ISON" ∷ [], texts ("303" ∷ "461" ∷ []))
        ∷ ("USERHOST" ∷ [], texts ("302" ∷ "461" ∷ []))
        ∷ (
          "LUSERS" ∷ [],
          texts ("250" ∷ "251" ∷ "252" ∷ "253" ∷ "254" ∷ "255" ∷ "265" ∷ "266" ∷ []),
        )
        ∷ ("TIME" ∷ [], texts ("391" ∷ "402" ∷ []))
        ∷ (
          "TRACE" ∷ [],
          texts (
              "200" ∷ "201" ∷ "202" ∷ "203" ∷ "204" ∷ "205" ∷ "206" ∷ "208" ∷ "261" ∷ "262" ∷ "402"
              ∷ "481" ∷ "421" ∷ []),
        )
        ∷ (
          "USERS" ∷ [],
          texts
              ("265" ∷ "266" ∷ "392" ∷ "393" ∷ "394" ∷ "395" ∷ "402" ∷ "424" ∷ "446" ∷ "421" ∷ []),
        )
        ∷ ("HELP" ∷ [], texts ("704" ∷ "705" ∷ "706" ∷ "524" ∷ []))
        ∷ ("ADMIN" ∷ [], texts ("256" ∷ "257" ∷ "258" ∷ "259" ∷ "402" ∷ []))
        ∷ (
          "MODE" ∷ [],
          texts (
              "221" ∷ "324" ∷ "329" ∷ "367" ∷ "368" ∷ "348" ∷ "349" ∷ "346" ∷ "347" ∷ "728" ∷ "729"
              ∷ "401" ∷ "403" ∷ "442" ∷ "461" ∷ "472" ∷ "482" ∷ []),
        )
        ∷ ("TOPIC" ∷ [], texts ("331" ∷ "332" ∷ "333" ∷ "401" ∷ "403" ∷ "442" ∷ "461" ∷ []))
        ∷ ("SILENCE" ∷ [], texts ("271" ∷ "272" ∷ []))
        ∷ [])
      (end_codes_for cmd ircd)

-- `IsSolicitous`
unfoldable pub is_solicitous : Bytes → Bool
is_solicitous cmd = one_of cmd (
    "WHO" ∷ "WHOIS" ∷ "WHOWAS" ∷ "STATS" ∷ "LIST" ∷ "LINKS" ∷ "NAMES" ∷ "USERHOST" ∷ "ISON"
    ∷ "LUSERS" ∷ "TIME" ∷ "TRACE" ∷ "USERS" ∷ "MAP" ∷ "HELP" ∷ "ADMIN" ∷ [])

-- `holdWrite`
unfoldable pub hold_write : Bytes → Bool
hold_write cmd = one_of cmd (
    "LIST" ∷ "WHO" ∷ "WHOX" ∷ "NAMES" ∷ "LINKS" ∷ "MAP" ∷ "LUSERS" ∷ "TRACE" ∷ "USERS" ∷ "HELP"
    ∷ "ADMIN" ∷ "SILENCE" ∷ "WHOWAS" ∷ [])

-- `takesServerTarget`
unfoldable pub takes_server_target : Bytes → Bool
takes_server_target cmd =
    one_of cmd
      ("TIME" ∷ "ADMIN" ∷ "USERS" ∷ "TRACE" ∷ "MAP" ∷ "LIST" ∷ "LINKS" ∷ "LUSERS" ∷ "WHOWAS" ∷ [])

-- `serialKindOrder`
abbrev pub serial_kind_order : List Bytes
serial_kind_order = texts (
    "LIST" ∷ "WHO" ∷ "WHOX" ∷ "NAMES" ∷ "ISON" ∷ "USERHOST" ∷ "LUSERS" ∷ "LINKS" ∷ "MAP" ∷ "WHOWAS"
    ∷ "TIME" ∷ "TRACE" ∷ "USERS" ∷ "HELP" ∷ "ADMIN" ∷ "SILENCE" ∷ [])

-- `isSTATSNumeric`
unfoldable pub is_stats_numeric : Bytes → Bool
is_stats_numeric cmd = one_of cmd (
    "211" ∷ "212" ∷ "213" ∷ "214" ∷ "215" ∷ "216" ∷ "217" ∷ "218" ∷ "219" ∷ "241" ∷ "242" ∷ "243"
    ∷ "244" ∷ "245" ∷ "246" ∷ "247" ∷ "248" ∷ "249" ∷ "250" ∷ [])

-- `isModeEnquiryError`
unfoldable pub is_mode_enquiry_error : Bytes → Bool
is_mode_enquiry_error cmd = one_of cmd ("401" ∷ "403" ∷ "442" ∷ "461" ∷ "472" ∷ "482" ∷ [])
