-- ===== src/Consumer/Laws.antt =====
-- What the consume loop relies on in its two interfaces, the Kafka client and the writer.
use public_pg2mongo_cd_c.Base.{◌≤◌, none, ◌≡◌, ◌⊎◌}
use public_pg2mongo_cd_c.Base.{List, All}
use public_pg2mongo_cd_c.Writer.{CdcEvent}
use public_pg2mongo_cd_c.Consumer.{polled}
use public_pg2mongo_cd_c.Consumer.{KafkaRecord, KafkaConsumer, Writer}

-- At the record or before it in its partition.
abbrev pub Upto : KafkaRecord → KafkaRecord → Type 0
Upto x r = (x.topic ≡ r.topic) × (x.partition ≡ r.partition) × (x.offset ≤ r.offset)

-- What the loop relies on in a client. Marks and commits are offsets of partitions, so `Marked` and
-- `Committed` hold of every record that they cover: a mark covers the records up to its own, and
-- only what is marked becomes committed.
pub record ClientLaws {E : Type 0} (C : KafkaConsumer E) : Type 1 where
  -- The records that the client hands out.
  pub Own : KafkaRecord → Type 0
  pub Marked : C.State → KafkaRecord → Type 0
  pub Committed : C.State → KafkaRecord → Type 0
  pub poll_own : (s : C.State) → All Own (polled (C.poll s).1)
  pub poll_marked : (s : C.State) (x : KafkaRecord) → Marked (C.poll s).0 x → Marked s x
  pub poll_committed : (s : C.State) (x : KafkaRecord) → Committed (C.poll s).0 x → Committed s x
  pub mark_marked :
      (r : KafkaRecord) (s : C.State) (x : KafkaRecord)
      → Own r
      → Marked (C.mark_commit r s) x
      → Upto x r ⊎ Marked s x
  pub mark_committed :
      (r : KafkaRecord) (s : C.State) (x : KafkaRecord)
      → Committed (C.mark_commit r s) x
      → Committed s x
  pub commit_marked : (s : C.State) (x : KafkaRecord) → Marked (C.commit_marked s).0 x → Marked s x
  pub commit_committed :
      (s : C.State) (x : KafkaRecord)
      → Committed (C.commit_marked s).0 x
      → Committed s x ⊎ Marked s x

-- A batch that is applied with no error is applied whole, and what was applied stays so.
pub record WriterLaws {E : Type 0} (W : Writer E) : Type 1 where
  pub Applied : W.State → CdcEvent → Type 0
  pub applied_all :
      (evs : List CdcEvent) (s : W.State)
      → (W.apply_batch evs s).1 ≡ none
      → All (Applied (W.apply_batch evs s).0) evs
  pub applied_stays :
      (evs : List CdcEvent) (s : W.State) (ev : CdcEvent)
      → Applied s ev
      → Applied (W.apply_batch evs s).0 ev
