-- ===== src/Dlqtool/Scan.antt =====
-- The dead-letter tool's scan: how many records it counts, and what it replays.
use public_pg2mongo_cd_c.Base.{
  ℕ, zero, suc, ◌+◌, Bool, true, false, Option, none, some, ◌≡◌, refl, ◌∙◌, sym, ap, arith,
}
use public_pg2mongo_cd_c.Base.{
  List, [], ◌∷◌, ◌++◌, map, filter, length, ◌==◌, not, Bool-cases, inl, inr,
}
use public_pg2mongo_cd_c.Kgo.{KgoRecord}
use public_pg2mongo_cd_c.Dlqtool.{
  header_string, header_source_topic, Poll, out_record, Tally, counted, after_produce,
  replay_record, on_record, each_record,
}

abbrev pub has_source : KgoRecord → Bool
has_source r = not (header_string r header_source_topic == "")

-- What a replay of records publishes: the key and the value of each that names its topic, in order.
abbrev pub replays : List KgoRecord → List KgoRecord
replays rs = map out_record (filter has_source rs)

-- The records of `n` polls from the i-th on.
abbrev pub read : (ℕ → Poll) → ℕ → ℕ → List KgoRecord
read polls zero i = []
read polls (suc n) i = (polls i).records ++ read polls n (i + 1)

module _ {S : Type 0} {E : Type 0} (produce_sync : KgoRecord → S → S × Option E) where
  abbrev pub send_all : List KgoRecord → S → S
  send_all [] s = s
  send_all (r ∷ rs) s = send_all rs (produce_sync r s).0

  after_produce-counts :
      (t : Tally produce_sync) (c : S × Option E)
      → ((after_produce produce_sync t c).processed ≡ t.processed)
        × ((after_produce produce_sync t c).empty_polls ≡ t.empty_polls)
        × ((after_produce produce_sync t c).producer ≡ c.0)
  after_produce-counts t (s, some e) = (refl, refl, refl)
  after_produce-counts t (s, none) = (refl, refl, refl)

  -- What a replay changes beside the counts of reasons and topics.
  replay_record-counts :
      (r : KgoRecord) (t : Tally produce_sync)
      → ((replay_record produce_sync r t).processed ≡ t.processed)
        × ((replay_record produce_sync r t).empty_polls ≡ t.empty_polls)
        × ((replay_record produce_sync r t).producer ≡ send_all (replays (r ∷ [])) t.producer)
  replay_record-counts r t = elim (Bool-cases (header_string r header_source_topic == "")) [
    | inl e ↦ rw e (refl, refl, refl)
    | inr e ↦ rw e (after_produce-counts t (produce_sync (out_record r) t.producer))
  ]

  send_all-replays :
      (r : KgoRecord) (rs : List KgoRecord) (s : S)
      → send_all (replays (r ∷ rs)) s ≡ send_all (replays rs) (send_all (replays (r ∷ [])) s)
  send_all-replays r rs s = elim (Bool-cases (has_source r)) [
    | inl e ↦ rw e refl
    | inr e ↦ rw e refl
  ]

  on_record-processed :
      (replay : Bool) (r : KgoRecord) (t : Tally produce_sync)
      → ((on_record produce_sync replay r t).processed ≡ t.processed + 1)
        × ((on_record produce_sync replay r t).empty_polls ≡ t.empty_polls)
  unfolding on_record
  on_record-processed false r t = (refl, refl)
  on_record-processed true r t =
      let (p, e, _) = replay_record-counts r (counted produce_sync r t) in (p, e)

  on_record-producer :
      (r : KgoRecord) (rs : List KgoRecord) (t : Tally produce_sync)
      → send_all (replays rs) (on_record produce_sync true r t).producer
        ≡ send_all (replays (r ∷ rs)) t.producer
  unfolding on_record
  on_record-producer r rs t =
      ap (send_all (replays rs)) (replay_record-counts r (counted produce_sync r t)).2
      ∙ sym (send_all-replays r rs t.producer)

  pub each_record-processed :
      (replay : Bool) (rs : List KgoRecord) (t : Tally produce_sync)
      → ((each_record produce_sync replay rs t).processed ≡ t.processed + length rs)
        × ((each_record produce_sync replay rs t).empty_polls ≡ t.empty_polls)
  unfolding each_record
  each_record-processed replay [] t = (omega arith, refl)
  each_record-processed replay (r ∷ rs) t =
      let (p, e) = on_record-processed replay r t in
      let (q, f) = each_record-processed replay rs (on_record produce_sync replay r t) in
      (omega (arith, p, q), f ∙ e)

  -- The producer after a replay, or a dry run, of some records.
  abbrev pub published : Bool → List KgoRecord → S → S
  published true rs s = send_all (replays rs) s
  published false rs s = s

  pub each_record-producer :
      (replay : Bool) (rs : List KgoRecord) (t : Tally produce_sync)
      → (each_record produce_sync replay rs t).producer ≡ published replay rs t.producer
  unfolding each_record
  each_record-producer true [] t = refl
  each_record-producer false [] t = refl
  each_record-producer true (r ∷ rs) t =
      each_record-producer true rs (on_record produce_sync true r t) ∙ on_record-producer r rs t
  each_record-producer false (r ∷ rs) t =
      each_record-producer false rs (on_record produce_sync false r t) ∙ (unfold on_record in refl)

  pub published-append :
      (replay : Bool) (xs : List KgoRecord) (ys : List KgoRecord) (s : S)
      → published replay (xs ++ ys) s ≡ published replay ys (published replay xs s)
  published-append false xs ys s = refl
  published-append true [] ys s = refl
  published-append true (x ∷ xs) ys s =
      send_all-replays x (xs ++ ys) s
      ∙ published-append true xs ys (send_all (replays (x ∷ [])) s)
      ∙ ap (send_all (replays ys)) (sym (send_all-replays x xs s))

  pub published-none : (replay : Bool) (s : S) → published replay [] s ≡ s
  published-none true s = refl
  published-none false s = refl
