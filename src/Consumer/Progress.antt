-- ===== src/Consumer/Progress.antt =====
-- A round that returns no error commits what it polled.
use public_pg2mongo_cd_c.Base.{Option, none, some, ◌≡◌, refl, List, [], ◌∷◌, All, length}
use public_pg2mongo_cd_c.Decoder.{Json}
use public_pg2mongo_cd_c.Consumer.{
  polled, KafkaRecord, KafkaConsumer, Writer, PollResult, records, poll_error, Batch, events,
  undecoded, decode_all, Pipeline, run_once, after_apply, after_decode, after_poll, apply_events,
  commit_result, mark_all,
}
use public_pg2mongo_cd_c.Consumer.Laws.{WriterLaws, ClientLaws}
use public_pg2mongo_cd_c.Consumer.Handled.{Handled}
use public_pg2mongo_cd_c.Consumer.Failure.{run_once-Handled}

-- A mark marks the record and keeps the marks, and a commit with no error commits all that is
-- marked.
pub record CommitLaws {E : Type 0} (C : KafkaConsumer E) (CL : ClientLaws C) : Type 1 where
  pub mark_marks : (r : KafkaRecord) (s : C.State) → CL.Own r → CL.Marked (C.mark_commit r s) r
  pub mark_keeps :
      (r : KafkaRecord) (s : C.State) (x : KafkaRecord)
      → CL.Marked s x
      → CL.Marked (C.mark_commit r s) x
  pub commit_commits :
      (s : C.State) (x : KafkaRecord)
      → (C.commit_marked s).1 ≡ none
      → CL.Marked s x
      → CL.Committed (C.commit_marked s).0 x

module _ {E : Type 0} (json : Json) (C : KafkaConsumer E) (W : Writer E) (CL : ClientLaws C)
    (DL : CommitLaws C CL) where
  mark_all-keeps :
      (rs : List KafkaRecord) (s : C.State) (x : KafkaRecord)
      → CL.Marked s x
      → CL.Marked (mark_all json C W rs s) x
  unfolding mark_all
  mark_all-keeps [] s x h = h
  mark_all-keeps (r ∷ rs) s x h = mark_all-keeps rs (C.mark_commit r s) x (DL.mark_keeps r s x h)

  mark_all-marks :
      (rs : List KafkaRecord) (s : C.State)
      → All CL.Own rs
      → All (CL.Marked (mark_all json C W rs s)) rs
  unfolding mark_all
  mark_all-marks [] s _ = tt
  mark_all-marks (r ∷ rs) s (o, os) = (
    mark_all-keeps rs (C.mark_commit r s) r (DL.mark_marks r s o),
    mark_all-marks rs (C.mark_commit r s) os,
  )

  commit_all :
      (s : C.State) (rs : List KafkaRecord)
      → (C.commit_marked s).1 ≡ none
      → All (CL.Marked s) rs
      → All (CL.Committed (C.commit_marked s).0) rs
  commit_all s [] h _ = tt
  commit_all s (r ∷ rs) h (k, ks) = (DL.commit_commits s r h k, commit_all s rs h ks)

  commit_result-none : (o : Option E) → commit_result json C W o ≡ none → o ≡ none
  commit_result-none none h = refl
  commit_result-none (some e) h = cc

  after_apply-commits :
      (rs : List KafkaRecord) (n : _) (p : Pipeline json C W) (o : Option E)
      → All CL.Own rs
      → (after_apply json C W rs n p o).1 ≡ none
      → All (CL.Committed (after_apply json C W rs n p o).0.cons) rs
  after_apply-commits rs n p none own h =
      let s = mark_all json C W rs p.cons in
      commit_all s rs (commit_result-none (C.commit_marked s).1 h) (mark_all-marks rs p.cons own)
  after_apply-commits rs n p (some e) own h = cc

  after_decode-commits :
      (rs : List KafkaRecord) (p : Pipeline json C W) (d : Batch)
      → All CL.Own rs
      → (after_decode json C W rs p d).1 ≡ none
      → All (CL.Committed (after_decode json C W rs p d).0.cons) rs
  after_decode-commits rs p (undecoded o e) own h = cc
  after_decode-commits rs p (events evs) own h =
      let r = apply_events json C W evs p.sink in
      after_apply-commits rs (length evs) (record p { sink = r.0 }) r.1 own h

  after_poll-commits :
      (p : Pipeline json C W) (o : PollResult E)
      → All CL.Own (polled o)
      → (after_poll json C W p o).1 ≡ none
      → All (CL.Committed (after_poll json C W p o).0.cons) (polled o)
  after_poll-commits p (poll_error e) own h = cc
  after_poll-commits p (records []) own h = tt
  after_poll-commits p (records (r ∷ rs)) own h =
      after_decode-commits (r ∷ rs) p (decode_all json (r ∷ rs)) own h

  module _ (WL : WriterLaws W) where
    -- A round that returns no error has handled every record that it polled, each a tombstone or
    -- with its event applied, and the client has committed each of them, for a client that keeps
    -- its marks, whose commit with no error commits all that is marked, and a writer that applies a
    -- batch whole when it returns no error.
    pub run_once_commits :
        (p : Pipeline json C W)
        → (run_once json C W p).1 ≡ none
        → All (Handled json W WL (run_once json C W p).0.sink) (polled (C.poll p.cons).1)
          × All (CL.Committed (run_once json C W p).0.cons) (polled (C.poll p.cons).1)
    unfolding run_once
    run_once_commits p h = (
      run_once-Handled json C W WL p h,
      after_poll-commits (record p { cons = (C.poll p.cons).0 }) (C.poll p.cons).1
          (CL.poll_own p.cons) h,
    )
