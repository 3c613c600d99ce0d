-- ===== src/Keeper/Blob/Dictionary.antt =====
-- internal/keeper/blob.go: an ordered dictionary, and how the parts of the store act on it.
use go_bnc.Base.{
  Bool-cases, Bytes, List, [], ap, arith, byte_key, erase, false, if◌then◌else◌, inl, inr, insert,
  lookup-erase, lookup-insert, not, refl, text_eq, text_eq_iff, text_eq_refl, text_in, text_key,
  true, ◌&&◌, ◌++◌, ◌||◌, ◌∙◌, ◌∷◌, ◌≡◌,
}
use go_bnc.Keeper.Blob.{
  BlobMode, append, replace, delete, other_mode, BlobStore, values, has_key, remove_first,
  snapshot_of,
}

-- No key stands twice.
abbrev pub Distinct : List Bytes → Type 0
Distinct [] = Unit
Distinct (k ∷ ks) = (text_in k ks ≡ false) × Distinct ks

-- `order` lists the keys of `entries`, each once.
pub record IsStore (b : BlobStore) : Type 0 where
  pub same_keys : (k : Bytes) → text_in k b.order ≡ has_key b.entries k
  pub distinct : Distinct b.order

abbrev pub Blobs : Type 0
Blobs = List (Bytes × List Bytes)

-- The abstract operations: change the values of a key where it stands, or put it at the end; and
-- take a key out.
unfoldable pub upsert : Bytes → (List Bytes → List Bytes) → Blobs → Blobs
upsert k f [] = (k, f []) ∷ []
upsert k f ((j, vs) ∷ m) = if text_eq j k then (j, f vs) ∷ m else (j, vs) ∷ upsert k f m

unfoldable pub remove : Bytes → Blobs → Blobs
remove k [] = []
remove k ((j, vs) ∷ m) = if text_eq j k then m else (j, vs) ∷ remove k m

-- What a push means for the dictionary.
abbrev pub pushed : Bytes → BlobMode → Bytes → Blobs → Blobs
pushed key append value m = upsert key (λ vs. vs ++ (value ∷ [])) m
pushed key replace value m = upsert key (λ vs. value ∷ []) m
pushed key delete value m = remove key m
pushed key (other_mode text) value m = m

pub values-insert :
    (k j : Bytes) (vs : List Bytes) (m : Blobs)
    → values (insert k vs m) j ≡ (if text_eq k j then vs else values m j)
unfolding values
values-insert k j vs m = ground (arith, lookup-insert k j vs m)

pub values-erase :
    (k j : Bytes) (m : Blobs) → values (erase k m) j ≡ (if text_eq k j then [] else values m j)
unfolding values
values-erase k j m = ground (arith, lookup-erase k j m)

pub has_key-insert :
    (k j : Bytes) (vs : List Bytes) (m : Blobs)
    → has_key (insert k vs m) j ≡ (text_eq k j || has_key m j)
unfolding has_key
has_key-insert k j vs m = ground (arith, lookup-insert k j vs m)

pub has_key-erase :
    (k j : Bytes) (m : Blobs) → has_key (erase k m) j ≡ (not (text_eq k j) && has_key m j)
unfolding has_key
has_key-erase k j m = ground (arith, lookup-erase k j m)

pub values_missing : (k : Bytes) (m : Blobs) → has_key m k ≡ false → values m k ≡ []
unfolding values has_key
values_missing k m h = ground arith

-- A key that is not listed may change in the map.
pub snapshot_of-insert_absent :
    (k : Bytes) (vs : List Bytes) (m : Blobs) (ks : List Bytes)
    → text_in k ks ≡ false
    → snapshot_of (insert k vs m) ks ≡ snapshot_of m ks
unfolding snapshot_of text_in
snapshot_of-insert_absent k vs m [] h = refl
snapshot_of-insert_absent k vs m (j ∷ ks) h =
    ground (arith, values-insert k j vs m, snapshot_of-insert_absent k vs m ks)

pub snapshot_of-erase_absent :
    (k : Bytes) (m : Blobs) (ks : List Bytes)
    → text_in k ks ≡ false
    → snapshot_of (erase k m) ks ≡ snapshot_of m ks
unfolding snapshot_of text_in
snapshot_of-erase_absent k m [] h = refl
snapshot_of-erase_absent k m (j ∷ ks) h =
    ground (arith, values-erase k j m, snapshot_of-erase_absent k m ks)

pub snapshot_of-insert :
    (k : Bytes) (f : List Bytes → List Bytes) (m : Blobs) (ks : List Bytes)
    → Distinct ks
    → text_in k ks ≡ true
    → snapshot_of (insert k (f (values m k)) m) ks ≡ upsert k f (snapshot_of m ks)
unfolding snapshot_of text_in upsert
snapshot_of-insert k f m [] d h = cc
snapshot_of-insert k f m (j ∷ ks) d h = ground (
  arith,
  values-insert k j (f (values m k)) m,
  snapshot_of-insert k f m ks d.1,
  snapshot_of-insert_absent k (f (values m k)) m ks,
  text_eq_iff k j,
  text_eq_iff j k,
)

pub snapshot_of-insert_new :
    (k : Bytes) (f : List Bytes → List Bytes) (m : Blobs) (ks : List Bytes)
    → values m k ≡ []
    → text_in k ks ≡ false
    → snapshot_of (insert k (f (values m k)) m) (ks ++ (k ∷ [])) ≡ upsert k f (snapshot_of m ks)
unfolding snapshot_of text_in upsert
snapshot_of-insert_new k f m [] e h =
    ground (arith, values-insert k k (f (values m k)) m, text_eq_refl k)
snapshot_of-insert_new k f m (j ∷ ks) e h = ground (
  arith,
  values-insert k j (f (values m k)) m,
  snapshot_of-insert_new k f m ks e,
  text_eq_iff k j,
  text_eq_iff j k,
)

pub snapshot_of-erase :
    (k : Bytes) (m : Blobs) (ks : List Bytes)
    → Distinct ks
    → snapshot_of (erase k m) (remove_first k ks) ≡ remove k (snapshot_of m ks)
unfolding snapshot_of text_in remove remove_first
snapshot_of-erase k m [] d = refl
snapshot_of-erase k m (j ∷ ks) d = ground (
  arith,
  values-erase k j m,
  snapshot_of-erase k m ks d.1,
  snapshot_of-erase_absent k m ks,
  text_eq_iff k j,
  text_eq_iff j k,
)

pub text_in-concat :
    (j k : Bytes) (ks : List Bytes) → text_in j (ks ++ (k ∷ [])) ≡ (text_in j ks || text_eq j k)
unfolding text_in
text_in-concat j k [] = ground arith
text_in-concat j k (x ∷ ks) = ground (arith, text_in-concat j k ks)

pub Distinct-concat :
    (k : Bytes) (ks : List Bytes) → Distinct ks → text_in k ks ≡ false → Distinct (ks ++ (k ∷ []))
unfolding text_in
Distinct-concat k [] d h = (refl, tt)
Distinct-concat k (x ∷ ks) d h =
    ground
      (arith, Distinct-concat k ks d.1, text_in-concat x k ks, text_eq_iff x k, text_eq_iff k x)

pub text_in-remove_first :
    (j k : Bytes) (ks : List Bytes)
    → Distinct ks
    → text_in j (remove_first k ks) ≡ (not (text_eq k j) && text_in j ks)
unfolding text_in remove_first
text_in-remove_first j k [] d = ground arith
text_in-remove_first j k (x ∷ ks) d = ground (
  arith,
  text_in-remove_first j k ks d.1,
  text_eq_iff x k,
  text_eq_iff j x,
  text_eq_iff k j,
  text_in_eq j x ks,
)
  where
    text_in_eq : (j x : Bytes) (ks : List Bytes) → text_eq j x ≡ true → text_in j ks ≡ text_in x ks
    text_in_eq j x ks e = ap (λ t. text_in t ks) ((text_eq_iff j x).0 e)

pub Distinct-remove_first :
    (k : Bytes) (ks : List Bytes) → Distinct ks → Distinct (remove_first k ks)
unfolding text_in remove_first
Distinct-remove_first k [] d = tt
Distinct-remove_first k (x ∷ ks) d = elim (Bool-cases (text_eq x k)) [
  | inl same ↦ rw same d.1
  | inr other ↦
      rw other (text_in-remove_first x k ks d.1 ∙ ground arith, Distinct-remove_first k ks d.1)
]
