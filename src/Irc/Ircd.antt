-- ===== src/Irc/Ircd.antt =====
-- internal/irc/ircd.go: which server the network runs. The tables of numerics of the families are
-- with the request tracker, which reads them.
use go_bnc.Irc.CaseMap.{fold, ascii}
use go_bnc.Base.{Bool, Bytes, List, [], codes, false, if◌then◌else◌, true, ◌&&◌, ◌==◌, ◌||◌, ◌∷◌}

-- `strings.Contains(s, t)`
unfoldable pub starts_with : Bytes → Bytes → Bool
starts_with s [] = true
starts_with [] (c ∷ cs) = false
starts_with (b ∷ bs) (c ∷ cs) = b == c && starts_with bs cs

unfoldable pub contains : Bytes → Bytes → Bool
unfolding starts_with
contains [] t = starts_with [] t
contains (c ∷ cs) t = starts_with (c ∷ cs) t || contains cs t

-- The first family of which a mark occurs.
unfoldable pub first_marked : Bytes → List (Bytes × List Bytes) → Bytes
unfolding contains
first_marked s [] = []
first_marked s ((family, []) ∷ rest) = first_marked s rest
first_marked s ((family, mark ∷ marks) ∷ rest) =
    let later = first_marked s rest in if contains s mark || any_mark s marks then family else later
  where
    any_mark : Bytes → List Bytes → Bool
    any_mark t [] = false
    any_mark t (m ∷ ms) = contains t m || any_mark t ms

-- The cases of `DetectIRCd`, in their order.
abbrev pub ircd_marks : List (Bytes × List Bytes)
ircd_marks =
    (codes "inspircd", codes "inspircd" ∷ [])
    ∷ (codes "unrealircd", codes "unrealircd" ∷ codes "unreal-" ∷ [])
    ∷ (codes "solanum", codes "solanum" ∷ [])
    ∷ (codes "charybdis", codes "charybdis" ∷ [])
    ∷ (codes "ircd-seven", codes "ircd-seven" ∷ codes "ircd seven" ∷ codes "ircdseven" ∷ [])
    ∷ (codes "ratbox", codes "ircd-ratbox" ∷ codes "ratbox" ∷ [])
    ∷ (codes "hybrid", codes "ircd-hybrid" ∷ codes "hybrid" ∷ [])
    ∷ (codes "bahamut", codes "bahamut" ∷ [])
    ∷ (codes "ngircd", codes "ngircd" ∷ [])
    ∷ (codes "oragono", codes "oragono" ∷ [])
    ∷ (codes "ergo", codes "ergo" ∷ [])
    ∷ (codes "snircd", codes "snircd" ∷ [])
    ∷ (codes "ircu", codes "u2.10." ∷ codes "ircu" ∷ codes "undernet" ∷ [])
    ∷ (codes "ircd-irc2", codes "ircd-irc2" ∷ codes "2.11." ∷ [])
    ∷ []

-- `DetectIRCd`; `DetectIRCdFrom004` is the same, since no mark is in an empty text.
unfoldable pub detect_ircd : Bytes → Bytes
unfolding first_marked
detect_ircd text = first_marked (fold ascii text) ircd_marks
