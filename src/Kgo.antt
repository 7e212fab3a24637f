-- ===== src/Kgo.antt =====
-- What the services use of franz-go, which is not part of the repository: its records, and the
-- client as an interface with the laws that are relied on. A Go string and a slice of bytes convert
-- into one another without loss; the values of headers are kept as texts.
use public_pg2mongo_cd_c.Base.{◌≤◌, ℕ, String, Option, none, List, [], ◌⊎◌, ◌≡◌, In}

-- `kgo.RecordHeader`
pub record RecordHeader : Type 0 where
  pub key : String
  pub value : String

-- `kgo.Record`: a nil value is `none`.
pub record KgoRecord : Type 0 where
  pub topic : String
  pub key : List ℕ
  pub value : Option (List ℕ)
  pub headers : List RecordHeader
  pub partition : ℕ
  pub offset : ℕ

module _ (E : Type 0) where
  -- `kgo.Fetches`: the errors of the partitions that failed and the records of the others, with the
  -- error of the context after the call.
  pub record Fetches : Type 0 where
    pub ctx_err : Option E
    pub errors : List E
    pub recs : List KgoRecord

  -- `kgo.Client`
  pub record Client : Type 1 where
    pub State : Type 0
    pub poll_fetches : State → State × Fetches
    pub produce_sync : KgoRecord → State → State × Option E
    pub mark_commit_records : List KgoRecord → State → State
    pub commit_marked_offsets : State → State × Option E

-- A poll with records and no error.
abbrev pub fetched : {E : Type 0} → List KgoRecord → Fetches E
fetched rs = record { ctx_err = none; errors = []; recs = rs }

abbrev pub Among : KgoRecord → List KgoRecord → Type 0
Among k rs = In k rs

-- At the record or before it in its partition: what a committed offset covers, up to the last record
-- that it was made of.
abbrev pub Upto : KgoRecord → KgoRecord → Type 0
Upto k r = (k.topic ≡ r.topic) × (k.partition ≡ r.partition) × (k.offset ≤ r.offset)

-- Marks and commits come from the calls alone. They are offsets of partitions: `Marked` and
-- `Committed` hold of every record that these cover, polled or not.
pub record GroupLaws {E : Type 0} (C : Client E) : Type 1 where
  pub Marked : C.State → KgoRecord → Type 0
  pub Committed : C.State → KgoRecord → Type 0
  pub poll_marked : (s : C.State) (k : KgoRecord) → Marked (C.poll_fetches s).0 k → Marked s k
  pub poll_committed :
      (s : C.State) (k : KgoRecord) → Committed (C.poll_fetches s).0 k → Committed s k
  pub mark_marked :
      (rs : List KgoRecord) (s : C.State) (k : KgoRecord)
      → Marked (C.mark_commit_records rs s) k
      → ((r : KgoRecord) × Among r rs × Upto k r) ⊎ Marked s k
  pub mark_committed :
      (rs : List KgoRecord) (s : C.State) (k : KgoRecord)
      → Committed (C.mark_commit_records rs s) k
      → Committed s k
  pub commit_marked :
      (s : C.State) (k : KgoRecord) → Marked (C.commit_marked_offsets s).0 k → Marked s k
  pub commit_committed :
      (s : C.State) (k : KgoRecord)
      → Committed (C.commit_marked_offsets s).0 k
      → Committed s k ⊎ Marked s k

-- A produce marks and commits nothing, and what it has acknowledged stays delivered.
pub record ProduceLaws {E : Type 0} (C : Client E) (L : GroupLaws C) : Type 1 where
  pub Delivered : C.State → KgoRecord → Type 0
  pub produce_delivered :
      (r : KgoRecord) (s : C.State)
      → (C.produce_sync r s).1 ≡ none
      → Delivered (C.produce_sync r s).0 r
  pub produce_marked :
      (r : KgoRecord) (s : C.State) (k : KgoRecord)
      → L.Marked (C.produce_sync r s).0 k
      → L.Marked s k
  pub produce_committed :
      (r : KgoRecord) (s : C.State) (k : KgoRecord)
      → L.Committed (C.produce_sync r s).0 k
      → L.Committed s k
  pub poll_stays : (s : C.State) (o : KgoRecord) → Delivered s o → Delivered (C.poll_fetches s).0 o
  pub produce_stays :
      (r : KgoRecord) (s : C.State) (o : KgoRecord)
      → Delivered s o
      → Delivered (C.produce_sync r s).0 o
  pub mark_stays :
      (rs : List KgoRecord) (s : C.State) (o : KgoRecord)
      → Delivered s o
      → Delivered (C.mark_commit_records rs s) o
  pub commit_stays :
      (s : C.State) (o : KgoRecord) → Delivered s o → Delivered (C.commit_marked_offsets s).0 o

-- A mark stays until a commit, and a commit with no error commits all that is marked.
pub record ProgressLaws {E : Type 0} (C : Client E) (L : GroupLaws C) : Type 1 where
  pub mark_marks :
      (rs : List KgoRecord) (s : C.State) (k : KgoRecord)
      → Among k rs
      → L.Marked (C.mark_commit_records rs s) k
  pub mark_keeps :
      (rs : List KgoRecord) (s : C.State) (k : KgoRecord)
      → L.Marked s k
      → L.Marked (C.mark_commit_records rs s) k
  pub commit_commits :
      (s : C.State) (k : KgoRecord)
      → (C.commit_marked_offsets s).1 ≡ none
      → L.Marked s k
      → L.Committed (C.commit_marked_offsets s).0 k
