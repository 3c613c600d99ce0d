-- ===== src/Tests/Capabilities.antt =====
-- Concrete capabilities.
use go_bnc.Caps.{diff, without_values, cap_name, offered}
use go_bnc.Base.{
  Bytes, List, [], codes, cut_byte, false, not, refl, text_eq, text_in, true, ◌&&◌, ◌||◌, ◌∷◌, ◌≡◌,
}
use go_bnc.Caps.Changes.{has_name, diff_synchronises, always_offer-stays}

abbrev before : List Bytes
before = codes "sasl=PLAIN" ∷ codes "batch" ∷ []

abbrev later : List Bytes
later = codes "batch" ∷ codes "chghost" ∷ []

diff_synchronises_example :
    ((has_name (codes "sasl") before || has_name (codes "sasl") (diff before later))
      && not (has_name (codes "sasl") (diff later before)))
    ≡ has_name (codes "sasl") later
diff_synchronises_example = diff_synchronises (codes "sasl") before later

always_offer-stays_example :
    has_name (codes "batch") (diff (offered (λ (c : Bytes). false)) (offered (λ (c : Bytes). true)))
    ≡ false
unfolding without_values cap_name cut_byte text_in text_eq
always_offer-stays_example =
    always_offer-stays (codes "batch") (λ (c : Bytes). true) (λ (c : Bytes). false) refl
