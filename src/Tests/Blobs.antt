-- ===== src/Tests/Blobs.antt =====
-- Runs of the store of blobs and of the writer of uploads.
use apoci.Prelude.{
  refl, true, false, none, some, [], ◌∷◌, ◌++◌, codes, arith, Text, Bool, ◌≡◌, ◌≢◌, if◌then◌else◌,
}
use apoci.Validate
use apoci.BlobStore.{Call, found, put, open_blob, digest_of, path_for_digest}
use apoci.BlobStore.Contents.{put_in, changes, open_blob-verified}
use apoci.BlobStore.RoundTrip.{open_blob-put}
use apoci.Upload.{new_disk_blob_writer}
use apoci.Upload.Sound.{chunk, finish, give_up, run, IsSound, run-IsSound}

abbrev zeros : Text
zeros = codes "0000000000000000000000000000000000000000000000000000000000000000"

abbrev ones : Text
ones = codes "1111111111111111111111111111111111111111111111111111111111111111"

-- A hash for the runs: it tells the empty text from the others.
abbrev hash : Text → Text
hash [] = zeros
hash (_ ∷ _) = ones

abbrev reliable : Call → Bool
reliable = λ _. false

abbrev stored_digest : Text
stored_digest = codes "sha256:" ++ ones

stored : (put hash reliable (codes "x") [] []).1 ≡ found stored_digest
unfolding put path_for_digest Validate.digest apoci.Prelude.cut_prefix
stored = refl

open_blob-put_example :
    (open_blob hash reliable stored_digest (put hash reliable (codes "x") [] []).0
      ≡ found (codes "x"))
    × (stored_digest ≡ digest_of hash reliable (codes "x"))
    × (open_blob hash reliable (codes "y") (put hash reliable (codes "x") [] []).0
        ≡ open_blob hash reliable (codes "y") [])
open_blob-put_example =
    open_blob-put hash reliable (codes "x") [] [] stored_digest (codes "y") stored refl refl
      (λ e. ground arith)

read_back :
    open_blob hash reliable stored_digest (changes hash (put_in reliable (codes "x") [] ∷ []) [])
    ≡ found (codes "x")
unfolding open_blob path_for_digest Validate.digest apoci.Prelude.cut_prefix changes put
    apoci.Prelude.text_eq
read_back = refl

open_blob-verified_example : digest_of hash reliable (codes "x") ≡ stored_digest
open_blob-verified_example =
    open_blob-verified hash (put_in reliable (codes "x") [] ∷ []) reliable stored_digest (codes "x")
      read_back

run-IsSound_example : IsSound hash 10 (
    run hash
      (chunk (codes "ab") (record { taken = 1; fails = true })
        ∷ chunk (codes "b") (record { taken = 1; fails = false })
        ∷ finish stored_digest true true
        ∷ give_up
        ∷ [])
      (record { writer = new_disk_blob_writer 10; received = []; handed = [] }))
run-IsSound_example = run-IsSound hash 10 (
    chunk (codes "ab") (record { taken = 1; fails = true })
    ∷ chunk (codes "b") (record { taken = 1; fails = false })
    ∷ finish stored_digest true true
    ∷ give_up
    ∷ [])
