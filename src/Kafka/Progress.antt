-- ===== src/Kafka/Progress.antt =====
-- The adapter over a client whose marks stay and whose commits take effect.
use public_pg2mongo_cd_c.Base.{Option, none, some, ◌≡◌, refl, inl, [], ◌∷◌}
use public_pg2mongo_cd_c.Kgo.{KgoRecord, Client, GroupLaws, ProgressLaws}
use public_pg2mongo_cd_c.Consumer.{KafkaRecord}
use public_pg2mongo_cd_c.Consumer.Progress.{CommitLaws}
use public_pg2mongo_cd_c.Kafka.{mark_raw, mark_commit, commit_marked, franz_consumer}
use public_pg2mongo_cd_c.Kafka.Group.{FromRaw, franz_laws}

module _ {E : Type 0} (C : Client E) (L : GroupLaws C) (P : ProgressLaws C L) where
  mark_commit-marks :
      (r : KafkaRecord) (s : C.State)
      → FromRaw (λ k. Unit {0}) r
      → FromRaw (L.Marked (mark_commit C r s)) r
  unfolding mark_commit
  mark_commit-marks r s (k, e, u) = rw e (k, refl, P.mark_marks (k ∷ []) s k (inl refl))

  mark_raw-keeps :
      (o : Option KgoRecord) (s : C.State) (k : KgoRecord)
      → L.Marked s k
      → L.Marked (mark_raw C o s) k
  mark_raw-keeps none s k h = h
  mark_raw-keeps (some r) s k h = P.mark_keeps (r ∷ []) s k h

  mark_commit-keeps :
      (r : KafkaRecord) (s : C.State) (x : KafkaRecord)
      → FromRaw (L.Marked s) x
      → FromRaw (L.Marked (mark_commit C r s)) x
  unfolding mark_commit
  mark_commit-keeps r s x (k, e, h) = (k, e, mark_raw-keeps r.raw s k h)

  commit_marked-commits :
      (s : C.State) (x : KafkaRecord)
      → (commit_marked C s).1 ≡ none
      → FromRaw (L.Marked s) x
      → FromRaw (L.Committed (commit_marked C s).0) x
  unfolding commit_marked
  commit_marked-commits s x none_failed (k, e, h) = (k, e, P.commit_commits s k none_failed h)

  pub franz_commits : CommitLaws (franz_consumer C) (franz_laws C L)
  franz_commits = record {
    mark_marks = mark_commit-marks;
    mark_keeps = mark_commit-keeps;
    commit_commits = commit_marked-commits;
  }
