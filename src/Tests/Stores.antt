-- ===== src/Tests/Stores.antt =====
-- Concrete rings and blob stores.
use go_bnc.Base.{
  List, [], arith, byte_key, codes, drop, length, lookup, none, refl, some, text_in, text_key, ℕ,
  ◌*◌, ◌-◌, ◌∷◌, ◌≡◌,
}
use go_bnc.Keeper.Ring.{Entry, new_ring, since}
use go_bnc.Keeper.Ring.Window.{contents, push_all}
use go_bnc.Keeper.Ring.Since.{contents-push_all, since_recovers, since_gap, Numbered}
use go_bnc.Keeper.Blob.{BlobStore, new_blob_store, snapshot, has_key, replace, append}
use go_bnc.Keeper.Blob.Snapshot.{push-IsStore, snapshot-push}
use go_bnc.Keeper.Blob.Dictionary.{IsStore, pushed}
use go_bnc.Keeper.Blob

abbrev entry : ℕ → Entry
entry n = record { seq = n; epoch = 1; line = codes "PING"; time = n * 1000 }

abbrev stream : List Entry
stream = entry 1 ∷ entry 2 ∷ entry 3 ∷ []

stream-Numbered : Numbered 0 stream
stream-Numbered = (refl, (refl, (refl, tt)))

since_recovers_example : since (push_all (new_ring 2) stream) 1 ≡ some (drop 1 stream)
unfolding new_ring
since_recovers_example =
    since_recovers 2 stream 1 stream-Numbered (omega arith) (omega arith) (omega arith)

since_gap_example : since (push_all (new_ring 1) stream) 1 ≡ none
unfolding new_ring
since_gap_example = since_gap 1 stream 1 stream-Numbered (omega arith) (omega arith) (omega arith)

contents-push_all_example :
    contents (push_all (new_ring 2) stream) ≡ drop (length stream - (new_ring 2).cap) stream
contents-push_all_example = contents-push_all 2 stream

new_blob_store-IsStore : IsStore new_blob_store
unfolding has_key text_in lookup
new_blob_store-IsStore = record { same_keys = λ k. refl; distinct = tt }

abbrev one_blob : BlobStore
one_blob = Blob.push new_blob_store (codes "nick") append (codes "al")

snapshot-push_example :
    snapshot (Blob.push one_blob (codes "nick") replace (codes "bo"))
    ≡ pushed (codes "nick") replace (codes "bo") (snapshot one_blob)
snapshot-push_example =
    snapshot-push one_blob (codes "nick")
      (push-IsStore new_blob_store (codes "nick") new_blob_store-IsStore append (codes "al"))
      replace (codes "bo")
