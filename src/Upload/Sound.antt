-- ===== src/Upload/Sound.antt =====
-- Any sequence of calls of the writer of internal/oci/blobwriter.go.
use mathlib.Core.Path.{subst}
use mathlib.Core.List.{append-nil}
use apoci.Prelude.{
  ℕ, ◌+◌, ◌≤◌, Text, text_eq, text_eq_iff, codes, Bool, true, false, Option, none, some, List, [],
  ◌∷◌, ◌++◌, length, length-append, length-take, take, ltb, ◌≡◌, refl, sym, ap, ◌∙◌, ◌⊎◌, inl, inr,
  arith, if_when, if◌then◌else◌,
}
use apoci.Upload.{
  BlobWriter, FileWrite, UploadError, new_disk_blob_writer, append_staged, stage, write, release,
  cleanup, cancel, Committed, refused, handed_over, digest_mismatch, read_staged, commit,
}

-- The calls of a client.
pub data Step : Type 0 where
  chunk : Text → FileWrite → Step
  finish : Text → Bool → Bool → Step
  give_up : Step

-- The writer, the bytes that it has reported as written, and what has been handed over.
pub record Progress : Type 0 where
  pub writer : BlobWriter
  pub received : Text
  pub handed : List (Text × Text)

unfoldable pub handed_of : Committed → List (Text × Text)
handed_of (refused e) = []
handed_of (handed_over digest content) = (digest, content) ∷ []

module _ (sha256_hex : Text → Text) where
  unfoldable pub step : Step → Progress → Progress
  unfolding handed_of
  step (chunk p f) s =
      let (w, (taken, e)) = write p f s.writer in
      record s { writer = w; received = s.received ++ taken }
  step (finish digest syncs rewinds) s =
      let (w, c) = commit sha256_hex digest syncs rewinds s.writer in
      record s { writer = w; handed = s.handed ++ handed_of c }
  step give_up s = record s { writer = cancel s.writer }

  unfoldable pub run : List Step → Progress → Progress
  unfolding step
  run [] s = s
  run (x ∷ xs) s = run xs (step x s)

  -- Nothing handed over, or all that was received, once, under its own digest.
  abbrev pub IsWhole : ℕ → Text → List (Text × Text) → Type 0
  IsWhole max received handed =
      (handed ≡ [])
      ⊎ ((digest : Text) × (handed ≡ (digest, received) ∷ [])
          × (codes "sha256:" ++ sha256_hex received ≡ digest)
          × (length received ≤ max))

  -- An open upload holds just what it has received, within its limit; one that is done has been
  -- released, once.
  pub data IsSound (max : ℕ) (s : Progress) : Type 0 where
    still_open :
        s.writer.done ≡ false
        → s.writer.max_size ≡ max
        → s.writer.staged ≡ some s.received
        → s.writer.hashed ≡ s.received
        → s.writer.size ≡ length s.received
        → s.writer.size ≤ max
        → s.writer.released ≡ 0
        → s.handed ≡ []
        → IsSound max s
    ended :
        s.writer.done ≡ true
        → s.writer.staged ≡ none
        → s.writer.released ≡ 1
        → IsWhole max s.received s.handed
        → IsSound max s

  module _ (max : ℕ) where
    -- The writer after its cleanup.
    record IsReleased (w w' : BlobWriter) : Type 0 where
      is_done : w'.done ≡ true
      gone : w'.staged ≡ none
      once : w'.released ≡ w.released + 1

    cleanup-IsReleased :
        (w : BlobWriter) (content : Text)
        → w.staged ≡ some content
        → IsReleased w (cleanup (record w { done = true }))
    unfolding cleanup
    cleanup-IsReleased w content e =
        subst (λ o. IsReleased w (release o (record w { done = true }))) (sym e)
          (unfold release in record { is_done = refl; gone = refl; once = refl })

    nothing_received :
        (s : Progress) → IsSound max s → IsSound max (record s { received = s.received ++ [] })
    nothing_received s u =
        subst (λ r. IsSound max (record s { received = r })) (sym (append-nil s.received)) u

    nothing_handed :
        (s : Progress) → IsSound max s → IsSound max (record s { handed = s.handed ++ [] })
    nothing_handed s u =
        subst (λ h. IsSound max (record s { handed = h })) (sym (append-nil s.handed)) u

    staged-IsSound :
        (p : Text) (f : FileWrite) (s : Progress)
        → s.writer.done ≡ false
        → s.writer.size + length p ≤ s.writer.max_size
        → IsSound max s
        → IsSound max (record s {
          writer = (stage p f s.writer).0;
          received = s.received ++ (stage p f s.writer).1.0;
        })
    unfolding stage append_staged
    staged-IsSound p f s going fits (ended is_done gone once whole) = absurd (ground arith)
    staged-IsSound p f s going fits (still_open o m st h size bound r n) =
        let taken = take f.taken p in
        let total = length-append s.received taken in
        let part = length-take f.taken p in
        still_open o m (ap (append_staged taken) st) (ap (λ t. t ++ taken) h) (omega arith)
          (omega arith) r n

    chunk-IsSound :
        (p : Text) (f : FileWrite) (s : Progress) → IsSound max s → IsSound max (step (chunk p f) s)
    unfolding step write
    chunk-IsSound p f s u =
        let after = λ (y : BlobWriter × (Text × Option UploadError)).
          IsSound max (record s { writer = y.0; received = s.received ++ y.1.0 }) in
        if_when after s.writer.done _ _ (λ e. nothing_received s u)
          (λ going.
            if_when after (ltb s.writer.max_size (s.writer.size + length p)) _ _
              (λ e. nothing_received s u) (λ fits. staged-IsSound p f s going (ground arith) u))

    -- What is handed over of an open upload.
    read-IsWhole :
        (digest : Text) (syncs rewinds : Bool) (received : Text)
        → codes "sha256:" ++ sha256_hex received ≡ digest
        → length received ≤ max
        → IsWhole max received
            (handed_of (read_staged sha256_hex digest syncs rewinds (some received)))
    unfolding read_staged handed_of
    read-IsWhole digest false rewinds received own fits = inl refl
    read-IsWhole digest true false received own fits = inl refl
    read-IsWhole digest true true received own fits = inr (digest, refl, own, fits)

    abbrev outcome : Text → Bool → Bool → Text → Option Text → List (Text × Text)
    outcome digest syncs rewinds hashed staged = handed_of (
        if text_eq (codes "sha256:" ++ sha256_hex hashed) digest
        then read_staged sha256_hex digest syncs rewinds staged
        else refused digest_mismatch)

    outcome-IsWhole :
        (digest : Text) (syncs rewinds : Bool) (received : Text)
        → length received ≤ max
        → IsWhole max received (outcome digest syncs rewinds received (some received))
    outcome-IsWhole digest syncs rewinds received fits =
        if_when (λ c. IsWhole max received (handed_of c))
          (text_eq (codes "sha256:" ++ sha256_hex received) digest) _ _
          (λ own. read-IsWhole digest syncs rewinds received ((text_eq_iff _ digest).0 own) fits)
          (λ e. unfold handed_of in inl refl)

    finished-IsSound :
        (digest : Text) (syncs rewinds : Bool) (s : Progress)
        → s.writer.done ≡ false
        → IsSound max s
        → IsSound max (record s {
          writer = cleanup (record s.writer { done = true });
          handed =
              s.handed
              ++ handed_of (
                  if text_eq (codes "sha256:" ++ sha256_hex s.writer.hashed) digest
                  then read_staged sha256_hex digest syncs rewinds s.writer.staged
                  else refused digest_mismatch);
        })
    finished-IsSound digest syncs rewinds s going (ended is_done gone once whole) =
        absurd (ground arith)
    finished-IsSound digest syncs rewinds s going (still_open o m st h size bound r n) =
        let free = cleanup-IsReleased s.writer s.received st in
        ended free.is_done free.gone (free.once ∙ ap (λ k. k + 1) r) (
          subst (IsWhole max s.received)
            (sym (
              ap (λ l. l ++ outcome digest syncs rewinds s.writer.hashed s.writer.staged) n
              ∙ ap (λ t. outcome digest syncs rewinds t s.writer.staged) h
              ∙ ap (outcome digest syncs rewinds s.received) st))
            (outcome-IsWhole digest syncs rewinds s.received (omega arith)))

    finish-IsSound :
        (digest : Text) (syncs rewinds : Bool) (s : Progress)
        → IsSound max s
        → IsSound max (step (finish digest syncs rewinds) s)
    unfolding step commit
    finish-IsSound digest syncs rewinds s u =
        let after = λ (y : BlobWriter × Committed).
          IsSound max (record s { writer = y.0; handed = s.handed ++ handed_of y.1 }) in
        if_when after s.writer.done _ _ (λ e. unfold handed_of in nothing_handed s u)
          (λ going. finished-IsSound digest syncs rewinds s going u)

    give_up-IsSound : (s : Progress) → IsSound max s → IsSound max (step give_up s)
    unfolding step cancel
    give_up-IsSound s (still_open o m st h size bound r n) =
        let free = cleanup-IsReleased s.writer s.received st in
        ended free.is_done free.gone (free.once ∙ ap (λ k. k + 1) r) (inl n)
    give_up-IsSound s (ended is_done gone once whole) =
        unfold cleanup in
        subst (λ o. IsSound max (record s { writer = release o (record s.writer { done = true }) }))
          (sym gone) (unfold release in ended refl gone once whole)

    step-IsSound : (x : Step) (s : Progress) → IsSound max s → IsSound max (step x s)
    step-IsSound (chunk p f) s u = chunk-IsSound p f s u
    step-IsSound (finish digest syncs rewinds) s u = finish-IsSound digest syncs rewinds s u
    step-IsSound give_up s u = give_up-IsSound s u

    run_from-IsSound : (xs : List Step) (s : Progress) → IsSound max s → IsSound max (run xs s)
    unfolding run
    run_from-IsSound [] s u = u
    run_from-IsSound (x ∷ xs) s u = run_from-IsSound xs _ (step-IsSound x s u)

    -- After any sequence of chunks, commits and cancellations of a new upload, whatever the file system
    -- does: an upload that is not done holds exactly the bytes that it has reported as written, within
    -- its limit; one that is done has released its file, once, and has handed over either nothing or
    -- all those bytes, once, under the digest that is theirs.
    pub run-IsSound :
        (xs : List Step)
        → IsSound max
            (run xs (record { writer = new_disk_blob_writer max; received = []; handed = [] }))
    unfolding new_disk_blob_writer
    run-IsSound xs =
        run_from-IsSound xs _ (still_open refl refl refl refl refl (omega arith) refl refl)
