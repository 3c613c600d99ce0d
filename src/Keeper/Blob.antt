-- ===== src/Keeper/Blob.antt =====
-- internal/keeper/blob.go: the store of derived state, keyed by a text that the brain chooses.
pub mod Dictionary
pub mod Snapshot
use go_bnc.Base.{
  Bool, Bytes, List, [], byte_key, erase, false, if◌then◌else◌, insert, lookup, none, some, text_eq,
  text_key, true, ◌++◌, ◌∷◌,
}

-- `BlobMode` is a string; any other text is an `other_mode`.
pub data BlobMode : Type 0 where
  append replace delete : BlobMode
  other_mode : Bytes → BlobMode

pub record BlobStore : Type 0 where
  pub entries : List (Bytes × List Bytes)
  pub order : List Bytes

-- `newBlobStore`
abbrev pub new_blob_store : BlobStore
new_blob_store = record { entries = []; order = [] }

-- `entries[key]`; nil for a missing key.
unfoldable pub values : List (Bytes × List Bytes) → Bytes → List Bytes
values entries key = elim (lookup key entries) [ none ↦ [] | some vs ↦ vs ]

unfoldable pub has_key : List (Bytes × List Bytes) → Bytes → Bool
has_key entries key = elim (lookup key entries) [ none ↦ false | some vs ↦ true ]

-- The loop of the delete case over `order`: the first match goes.
unfoldable pub remove_first : Bytes → List Bytes → List Bytes
remove_first key [] = []
remove_first key (k ∷ ks) = if text_eq k key then ks else k ∷ remove_first key ks

-- `if _, ok := b.entries[key]; !ok { b.order = append(b.order, key) }`
unfoldable pub note_key : BlobStore → Bytes → List Bytes
unfolding has_key
note_key b key = if has_key b.entries key then b.order else b.order ++ (key ∷ [])

-- `Push`
unfoldable pub push : BlobStore → Bytes → BlobMode → Bytes → BlobStore
unfolding note_key values remove_first
push b key append value = record {
  entries = insert key (values b.entries key ++ (value ∷ [])) b.entries;
  order = note_key b key;
}
push b key replace value = record {
  entries = insert key (value ∷ []) b.entries;
  order = note_key b key;
}
push b key delete value =
    if has_key b.entries key
    then record { entries = erase key b.entries; order = remove_first key b.order }
    else b
push b key (other_mode text) value = b

-- A `BlobEntry` is a key with its values.
unfoldable pub snapshot_of : List (Bytes × List Bytes) → List Bytes → List (Bytes × List Bytes)
unfolding values
snapshot_of entries [] = []
snapshot_of entries (k ∷ ks) = (k, values entries k) ∷ snapshot_of entries ks

-- `Snapshot`
unfoldable pub snapshot : BlobStore → List (Bytes × List Bytes)
unfolding snapshot_of
snapshot b = snapshot_of b.entries b.order

-- `Clear`
unfoldable pub clear : BlobStore → BlobStore
clear b = new_blob_store
