-- ===== src/Base/Words.antt =====
-- The parts of Go's `strings` that go by white space and letter case, on ASCII text.
use mathlib.Core.Bool.{Bool, true, false, ◌&&◌, ◌||◌}
use mathlib.Core.List.{List, [], ◌∷◌, ◌++◌, map}
use Prim.Native.Nat.{ℕ, ◌-◌}
use go_bnc.Base.Compare.{◌==◌, leb, if◌then◌else◌}
use go_bnc.Base.Text.{Bytes, text_eq}

abbrev pub is_space : ℕ → Bool
is_space c = c == 32 || leb 9 c && leb c 13

trim_space_left : Bytes → Bytes
trim_space_left [] = []
trim_space_left (c ∷ cs) = elim (is_space c) [ true ↦ trim_space_left cs | false ↦ c ∷ cs ]

trim_space_right : Bytes → Bytes
trim_space_right [] = []
trim_space_right (c ∷ cs) =
    let rest = trim_space_right cs in
    elim rest [ [] ↦ if is_space c then [] else c ∷ [] | d ∷ ds ↦ c ∷ d ∷ ds ]

-- `strings.TrimSpace`
unfoldable pub trim_space : Bytes → Bytes
unfolding trim_space_left trim_space_right
trim_space s = trim_space_right (trim_space_left s)

-- A word that has begun, if there is one, is put before the words that follow.
unfoldable pub put_word : Bytes → List Bytes → List Bytes
put_word [] words = words
put_word (c ∷ cs) words = (c ∷ cs) ∷ words

-- The words of a text behind the word that has begun.
unfoldable pub fields_loop : Bytes → Bytes → List Bytes
unfolding put_word
fields_loop word [] = put_word word []
fields_loop word (c ∷ cs) = elim (is_space c) [
  | true ↦ put_word word (fields_loop [] cs)
  | false ↦ fields_loop (word ++ (c ∷ [])) cs
]

-- `strings.Fields`
unfoldable pub fields : Bytes → List Bytes
unfolding fields_loop
fields s = fields_loop [] s

unfoldable pub upper_byte : ℕ → ℕ
upper_byte c = if leb b'a' c && leb c b'z' then c - 32 else c

-- `strings.ToUpper`
unfoldable pub to_upper : Bytes → Bytes
unfolding upper_byte
to_upper s = map upper_byte s

-- `s == ""`
unfoldable pub is_empty : Bytes → Bool
is_empty [] = true
is_empty (c ∷ cs) = false

-- `strings.EqualFold`
unfoldable pub equal_fold : Bytes → Bytes → Bool
unfolding to_upper
equal_fold a b = text_eq (to_upper a) (to_upper b)
