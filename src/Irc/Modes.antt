-- ===== src/Irc/Modes.antt =====
-- internal/irc/modes.go: the modes that a server supports, and the modes that are set. A Go map is
-- an association list; a set, `map[byte]bool`, is the list of its members.
use go_bnc.Irc.Message.Encode.{reverse_onto}
use go_bnc.Irc.Message.{contains_byte}
use go_bnc.Base.{
  Bool, Bytes, Eq, List, Option, [], byte_key, codes, cut_byte, erase, false, if◌then◌else◌, insert,
  lookup, ltb, map, none, not, set, some, split, text_key, true, ℕ, ◌&&◌, ◌++◌, ◌==◌, ◌||◌, ◌∷◌,
}
use go_bnc.Irc.CaseMap.{CaseMapping, fold}

-- `ModeKind`, without `ModeUnknown`, which is a missing entry.
pub data ModeKind : Type 0 where
  list arg_always arg_set flag prefix : ModeKind

pub record ModeSet : Type 0 where
  pub kind : List (ℕ × ModeKind)
  pub prefixes : List (ℕ × ℕ)
  pub by_symbol : List (ℕ × ℕ)
  pub prefix_order : List ℕ

-- The inner loop of `ParseCHANMODES`.
unfoldable pub classify_all : ModeKind → Bytes → List (ℕ × ModeKind) → List (ℕ × ModeKind)
classify_all k [] kinds = kinds
classify_all k (c ∷ cs) kinds = classify_all k cs (insert c k kinds)

-- The outer loop, over the parts and the kinds together.
unfoldable pub classify_parts :
    List ModeKind → List Bytes → List (ℕ × ModeKind) → List (ℕ × ModeKind)
unfolding classify_all
classify_parts [] parts kinds = kinds
classify_parts (k ∷ ks) [] kinds = kinds
classify_parts (k ∷ ks) (p ∷ ps) kinds = classify_parts ks ps (classify_all k p kinds)

-- `ParseCHANMODES`
unfoldable pub parse_chanmodes : ModeSet → Bytes → ModeSet
unfolding classify_parts
parse_chanmodes ms v = record ms {
  kind = classify_parts (list ∷ arg_always ∷ arg_set ∷ flag ∷ []) (split b',' v) ms.kind;
}

-- The loop of `ParsePREFIX`, over the modes and the symbols together.
unfoldable pub put_prefixes : ModeSet → Bytes → Bytes → ModeSet
put_prefixes ms [] syms = ms
put_prefixes ms (m ∷ modes) [] = ms
put_prefixes ms (m ∷ modes) (s ∷ syms) =
    put_prefixes
      (record {
        kind = insert m prefix ms.kind;
        prefixes = insert m s ms.prefixes;
        by_symbol = insert s m ms.by_symbol;
        prefix_order = ms.prefix_order ++ (m ∷ []);
      })
      modes syms

-- `ParsePREFIX`: the modes between the first `(` and the first `)`, which must come after it.
unfoldable pub parse_prefix : ModeSet → Bytes → ModeSet
unfolding put_prefixes cut_byte contains_byte
parse_prefix ms v = by_open (cut_byte b'(' v)
  where
    none_left : ModeSet
    none_left = record ms { prefix_order = [] }

    by_close : Bytes → Option (Bytes × Bytes) → ModeSet
    by_close before none = none_left
    by_close before (some (modes, syms)) =
        if contains_byte b')' before then none_left else put_prefixes none_left modes syms

    by_open : Option (Bytes × Bytes) → ModeSet
    by_open none = none_left
    by_open (some (before, after)) = by_close before (cut_byte b')' after)

-- `DefaultModeSet`
pub default_mode_set : ModeSet
default_mode_set =
    parse_prefix
      (parse_chanmodes (record { kind = []; prefixes = []; by_symbol = []; prefix_order = [] })
        (codes "eIbq,k,flj,CFLMPQScgimnprstuz"))
      (codes "(ov)@+")

-- `Classify`; `none` is `ModeUnknown`.
unfoldable pub classify : ModeSet → ℕ → Option ModeKind
classify ms mode = lookup mode ms.kind

pub record ModeChange : Type 0 where
  pub sets : Bool
  pub mode : ℕ
  pub arg : Bytes

-- Whether a mode of that kind takes an argument; `more` is `argI < len(args)`.
unfoldable pub needs_arg : Option ModeKind → Bool → Bool → Bool
needs_arg (some list) set more = true
needs_arg (some arg_always) set more = true
needs_arg (some prefix) set more = true
needs_arg (some arg_set) set more = set
needs_arg (some flag) set more = false
needs_arg none set more = set && more

-- The loop of `ParseModeParams`, with the arguments that are left.
unfoldable pub mode_loop : ModeSet → Bool → List Bytes → Bytes → List ModeChange
unfolding needs_arg classify
mode_loop ms set args [] = []
mode_loop ms set [] (c ∷ cs) =
    let plain = mode_loop ms (if c == b'+' then true else if c == b'-' then false else set) [] cs in
    if c == b'+' || c == b'-' then plain else record { sets = set; mode = c; arg = [] } ∷ plain
mode_loop ms set (a ∷ args) (c ∷ cs) =
    let sign = c == b'+' || c == b'-' in
    let takes = not sign && needs_arg (classify ms c) set true in
    let rest =
      mode_loop ms (if c == b'+' then true else if c == b'-' then false else set)
        (if takes then args else a ∷ args) cs in
    if sign then rest else record { sets = set; mode = c; arg = if takes then a else [] } ∷ rest

-- `ParseModeParams`
unfoldable pub parse_mode_params : ModeSet → Bytes → List Bytes → List ModeChange
unfolding mode_loop
parse_mode_params ms modestring args = mode_loop ms true args modestring

pub record ChannelModes : Type 0 where
  pub flags : List ℕ
  pub args : List (ℕ × Bytes)
  pub lists : List (ℕ × List Bytes)
  pub nicks : List (Bytes × List ℕ)

-- `NewChannelModes`
abbrev pub new_channel_modes : ChannelModes
new_channel_modes = record { flags = []; args = []; lists = []; nicks = [] }

-- `set[x] = true` and `delete(set, x)`.
unfoldable pub add_member {ℓ} : {A : Type ℓ} ⦃e : Eq A⦄ → A → List A → List A
add_member x [] = x ∷ []
add_member ⦃e⦄ x (y ∷ ys) = if e.beq y x then y ∷ ys else y ∷ add_member x ys

unfoldable pub drop_member {ℓ} : {A : Type ℓ} ⦃e : Eq A⦄ → A → List A → List A
drop_member x [] = []
drop_member ⦃e⦄ x (y ∷ ys) = if e.beq y x then drop_member x ys else y ∷ drop_member x ys

unfoldable pub entry_or {ℓ κ} :
    {K : Type ℓ} {V : Type κ} ⦃e : Eq K⦄ → K → List (K × List V) → List V
entry_or k m = elim (lookup k m) [ none ↦ [] | some v ↦ v ]

-- The case of a prefix mode in `Apply`; a nick without modes is deleted.
unfoldable pub apply_prefix : CaseMapping → ModeChange → ChannelModes → ChannelModes
unfolding add_member drop_member entry_or
apply_prefix cm ch modes = by_nick (fold cm ch.arg)
  where
    put : Bytes → List ℕ → ChannelModes
    put nick [] = record modes { nicks = erase nick modes.nicks }
    put nick (m ∷ ms) = record modes { nicks = insert nick (m ∷ ms) modes.nicks }

    by_nick : Bytes → ChannelModes
    by_nick [] = modes
    by_nick (c ∷ cs) =
        let nick = c ∷ cs in
        let held = entry_or nick modes.nicks in
        if ch.sets
        then record modes { nicks = insert nick (add_member ch.mode held) modes.nicks }
        else put nick (drop_member ch.mode held)

-- One round of `Apply`.
unfoldable pub apply_one : ModeSet → CaseMapping → ChannelModes → ModeChange → ChannelModes
unfolding apply_prefix classify
apply_one ms cm modes ch = by_kind (classify ms ch.mode)
  where
    plain : ChannelModes
    plain = record modes {
      flags = if ch.sets then add_member ch.mode modes.flags else drop_member ch.mode modes.flags;
    }

    single : ChannelModes
    single =
        if ch.sets
        then record modes {
          args = insert ch.mode ch.arg modes.args;
          flags = drop_member ch.mode modes.flags;
        }
        else record modes { args = erase ch.mode modes.args }

    member : ChannelModes
    member =
        let held = entry_or ch.mode modes.lists in
        record modes {
          lists =
              insert ch.mode (if ch.sets then add_member ch.arg held else drop_member ch.arg held)
                modes.lists;
        }

    by_kind : Option ModeKind → ChannelModes
    by_kind (some prefix) = apply_prefix cm ch modes
    by_kind (some list) = member
    by_kind (some arg_always) = single
    by_kind (some arg_set) = single
    by_kind (some flag) = plain
    by_kind none = plain

-- `Apply`
unfoldable pub apply_all : ModeSet → CaseMapping → ChannelModes → List ModeChange → ChannelModes
unfolding apply_one
apply_all ms cm modes [] = modes
apply_all ms cm modes (ch ∷ chs) = apply_all ms cm (apply_one ms cm modes ch) chs

-- The inner loop of `sortBytes`: `x` moves left past each greater neighbour. The part of the slice
-- that stands before it is given from its end.
unfoldable pub sink_byte : ℕ → List ℕ → List ℕ
sink_byte x [] = x ∷ []
sink_byte x (y ∷ ys) = if ltb x y then y ∷ sink_byte x ys else x ∷ y ∷ ys

-- The outer loop of `sortBytes`.
unfoldable pub sort_byte_loop : List ℕ → List ℕ → List ℕ
unfolding sink_byte
sort_byte_loop done [] = done
sort_byte_loop done (x ∷ xs) = sort_byte_loop (sink_byte x done) xs

-- `sortBytes`
unfoldable pub sort_bytes : List ℕ → List ℕ
unfolding sort_byte_loop
sort_bytes xs = reverse_onto [] (sort_byte_loop [] xs)

abbrev keys_of {ℓ} : {V : Type ℓ} → List (ℕ × V) → List ℕ
keys_of m = map (λ e. e.0) m

-- The arguments of some modes, in order.
unfoldable pub args_of : List (ℕ × Bytes) → List ℕ → List Bytes
args_of args [] = []
args_of args (m ∷ ms) = elim (lookup m args) [ none ↦ [] | some a ↦ a ] ∷ args_of args ms

-- `ModeString`
unfoldable pub mode_string : ChannelModes → Bytes × List Bytes
unfolding sort_bytes args_of
mode_string modes =
    let with_args = sort_bytes (keys_of modes.args) in
    (b'+' ∷ (sort_bytes modes.flags ++ with_args), args_of modes.args with_args)

-- The loop of `ApplyUserModes`; a nil map is not a map that its callers pass.
unfoldable pub user_mode_loop : Bool → List ℕ → Bytes → List ℕ
unfolding add_member drop_member
user_mode_loop set modes [] = modes
user_mode_loop set modes (c ∷ cs) =
    user_mode_loop (if c == b'+' then true else if c == b'-' then false else set)
      (if c == b'+' || c == b'-'
        then modes
        else if set
        then add_member c modes
        else drop_member c modes)
      cs

-- `ApplyUserModes`
unfoldable pub apply_user_modes : List ℕ → Bytes → List ℕ
unfolding user_mode_loop
apply_user_modes modes modestring = user_mode_loop true modes modestring

-- `UserModeString`
unfoldable pub user_mode_string : List ℕ → Bytes
unfolding sort_bytes
user_mode_string [] = []
user_mode_string (m ∷ ms) = b'+' ∷ sort_bytes (m ∷ ms)
