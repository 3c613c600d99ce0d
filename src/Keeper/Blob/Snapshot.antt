-- ===== src/Keeper/Blob/Snapshot.antt =====
-- internal/keeper/blob.go: the store refines an ordered dictionary, which `Snapshot` shows.
use go_bnc.Base.{
  Bool-cases, Bytes, List, [], ap, arith, byte_key, false, inl, inr, insert, not, refl, sym,
  text_eq, text_eq_iff, text_in, text_key, true, ◌&&◌, ◌++◌, ◌∙◌, ◌∷◌, ◌≡◌, ◌⊎◌,
}
use go_bnc.Keeper.Blob.{
  BlobMode, append, replace, delete, other_mode, BlobStore, values, has_key, note_key, push,
  snapshot_of, snapshot,
}
use go_bnc.Keeper.Blob.Dictionary.{
  Distinct, IsStore, upsert, remove, pushed, has_key-insert, has_key-erase, values_missing,
  snapshot_of-insert, snapshot_of-insert_new, snapshot_of-erase, text_in-concat, Distinct-concat,
  text_in-remove_first, Distinct-remove_first,
}

module _ (b : BlobStore) (k : Bytes) (v : IsStore b) where
  note_key-cases :
      ((has_key b.entries k ≡ true) × (note_key b k ≡ b.order))
      ⊎ ((has_key b.entries k ≡ false) × (note_key b k ≡ b.order ++ (k ∷ [])))
  unfolding note_key
  note_key-cases = ground arith

  text_in-note_key :
      (j : Bytes) (vs : List Bytes) → text_in j (note_key b k) ≡ has_key (insert k vs b.entries) j
  text_in-note_key j vs = ground (
    arith,
    note_key-cases,
    v.same_keys j,
    has_key-insert k j vs b.entries,
    text_in-concat j k b.order,
    text_eq_iff j k,
    text_eq_iff k j,
  )

  Distinct-note_key : Distinct (note_key b k)
  Distinct-note_key = elim note_key-cases [
    | inl (old, e) ↦ rw e v.distinct
    | inr (new, e) ↦ rw e (Distinct-concat k b.order v.distinct (v.same_keys k ∙ new))
  ]

  put-IsStore :
      (vs : List Bytes) → IsStore (record { entries = insert k vs b.entries; order = note_key b k })
  put-IsStore vs = record { same_keys = λ j. text_in-note_key j vs; distinct = Distinct-note_key }

  -- Every push to a store whose `order` lists its keys, each once, leaves such a store.
  pub push-IsStore : (mode : BlobMode) (value : Bytes) → IsStore (push b k mode value)
  unfolding push
  push-IsStore append value = put-IsStore (values b.entries k ++ (value ∷ []))
  push-IsStore replace value = put-IsStore (value ∷ [])
  push-IsStore delete value = elim (Bool-cases (has_key b.entries k)) [
    | inl old ↦ rw old (record {
      same_keys = λ j.
          text_in-remove_first j k b.order v.distinct
          ∙ ap (λ t. not (text_eq k j) && t) (v.same_keys j)
          ∙ sym (has_key-erase k j b.entries);
      distinct = Distinct-remove_first k b.order v.distinct;
    })
    | inr new ↦ rw new v
  ]
  push-IsStore (other_mode text) value = v

  snapshot-put :
      (f : List Bytes → List Bytes)
      → snapshot_of (insert k (f (values b.entries k)) b.entries) (note_key b k)
        ≡ upsert k f (snapshot_of b.entries b.order)
  snapshot-put f = elim note_key-cases [
    | inl (old, e) ↦
        rw e (snapshot_of-insert k f b.entries b.order v.distinct (v.same_keys k ∙ old))
    | inr (new, e) ↦ rw e (
        snapshot_of-insert_new k f b.entries b.order (values_missing k b.entries new)
          (v.same_keys k ∙ new))
  ]

  remove-absent :
      (ks : List Bytes)
      → text_in k ks ≡ false
      → remove k (snapshot_of b.entries ks) ≡ snapshot_of b.entries ks
  unfolding snapshot_of text_in remove
  remove-absent [] h = refl
  remove-absent (j ∷ ks) h = ground (arith, remove-absent ks, text_eq_iff j k, text_eq_iff k j)

  -- On a store whose `order` lists its keys, each once: what an attaching client is shown after a
  -- push is what it was shown before, changed at the pushed key only: appended to or replaced
  -- where the key stands, put at the end if it is new, or taken out; an unknown
  -- mode changes nothing.
  pub snapshot-push :
      (mode : BlobMode) (value : Bytes)
      → snapshot (push b k mode value) ≡ pushed k mode value (snapshot b)
  unfolding snapshot push
  snapshot-push append value = snapshot-put (λ vs. vs ++ (value ∷ []))
  snapshot-push replace value = snapshot-put (λ vs. value ∷ [])
  snapshot-push delete value = elim (Bool-cases (has_key b.entries k)) [
    | inl old ↦ rw old (snapshot_of-erase k b.entries b.order v.distinct)
    | inr new ↦ rw new (sym (remove-absent b.order (v.same_keys k ∙ new)))
  ]
  snapshot-push (other_mode text) value = refl
