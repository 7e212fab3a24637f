-- ===== src/Dlqtool/Main.antt =====
-- services/sink/cmd/dlqtool: `main` from the parsed flags to the exit code. What the run prints is its
-- count of records and its two tables.
use Prim.{absurd}
use public_pg2mongo_cd_c.Base.{
  ℕ, suc, ◌+◌, ◌*◌, ◌<◌, String, Bool, true, false, Option, none, some, ◌≡◌, ◌↔◌, refl, ◌∙◌, sym,
  ap, arith,
}
use public_pg2mongo_cd_c.Base.{
  List, [], ◌∷◌, ◌==◌, ltb, eqb, ◌&&◌, if◌then◌else◌, ℤ, pos, negsuc, pos_part, Bool-cases, inl,
  inr, All,
}
use public_pg2mongo_cd_c.Kgo.{KgoRecord}
use public_pg2mongo_cd_c.Dlqtool.{Poll, Flags, Tally, scan, start}
use public_pg2mongo_cd_c.Dlqtool.Accounts.{IsAccounted}
use public_pg2mongo_cd_c.Dlqtool.Ends.{Ended, scan_ends}
use public_pg2mongo_cd_c.Dlqtool.Offsets.{
  Offsets, ListedOffset, listed, has_err, exists, topic_offsets, TopicOffsets, offsets_error,
  offsets, total_lag,
}
use public_pg2mongo_cd_c.Dlqtool.Sort.{IsDescending, table, total, table-IsSorted}

module _ {S : Type 0} {E : Type 0} (produce_sync : KgoRecord → S → S × Option E) where
  -- How a run ends: its exit code and the printed tables, which it has if it counted a record.
  pub record Exit : Type 0 where
    pub code : ℕ
    pub by_source : List (ℕ × String)
    pub by_reason : List (ℕ × String)
    pub tally : Tally produce_sync

  abbrev pub stop_at : ℕ → S → Option Exit
  stop_at n s =
      some record { code = n; by_source = []; by_reason = []; tally = start produce_sync s }

  abbrev pub exit_code : Bool → Tally produce_sync → ℕ
  exit_code replay t = if replay && ltb 0 t.replay_failed then 1 else 0

  unfoldable pub summary : Bool → Tally produce_sync → Exit
  summary replay t =
      if eqb t.processed 0
      then record { code = 0; by_source = []; by_reason = []; tally = t }
      else record {
        code = exit_code replay t;
        by_source = table t.by_source_topic;
        by_reason = table t.reasons;
        tally = t;
      }

  abbrev pub after_scan : Bool → Option (Tally produce_sync) → Option Exit
  after_scan replay none = none
  after_scan replay (some t) = some (summary replay t)

  abbrev pub is_zero : ℤ → Bool
  is_zero (pos n) = eqb n 0
  is_zero (negsuc n) = false

  -- The errors of opening the reader, and the producer, which only a replay opens.
  abbrev pub after_clients : ℕ → Flags → ℤ → (ℕ → Poll) → Option E → Option E → S → Option Exit
  after_clients fuel flags target polls (some e) p s = stop_at 1 s
  after_clients fuel flags target polls none none s =
      after_scan flags.replay (scan produce_sync fuel flags target polls 0 (start produce_sync s))
  after_clients fuel flags target polls none (some e) s =
      if flags.replay
      then stop_at 1 s
      else after_scan flags.replay
          (scan produce_sync fuel flags target polls 0 (start produce_sync s))

  abbrev pub after_offsets :
      ℕ → Flags → (ℕ → Poll) → TopicOffsets E → Option E → Option E → S → Option Exit
  after_offsets fuel flags polls (offsets_error e) c p s = stop_at 1 s
  after_offsets fuel flags polls (offsets a b ex) c p s =
      if ex
      then if is_zero (total_lag a b)
        then stop_at 0 s
        else after_clients fuel flags (total_lag a b) polls c p s
      else stop_at 2 s

  -- `main`: the flag -topic, the answers of the broker, the polls, and the producer.
  unfoldable pub main :
      ℕ → String → Flags → (ℕ → Poll) → TopicOffsets E → Option E → Option E → S → Option Exit
  main fuel topic flags polls o c p s =
      if topic == "" then stop_at 64 s else after_offsets fuel flags polls o c p s

  failed_none :
      (replay : Bool) (t : Tally produce_sync)
      → IsAccounted produce_sync replay t
      → t.processed ≡ 0
      → ◌≡◌ {A = ℕ} 0 1 ↔ ((replay ≡ true) × (0 < t.replay_failed))
  failed_none true t h e =
      ((λ k. absurd (omega (arith, k))), (λ k. omega (arith, k.1, h.outcome, e)))
  failed_none false t h e = ((λ k. absurd (omega (arith, k))), (λ k. cc))

  failed_some :
      (replay : Bool) (t : Tally produce_sync)
      → (exit_code replay t ≡ 1) ↔ ((replay ≡ true) × (0 < t.replay_failed))
  failed_some true t = ((λ k. (refl, ground arith)), (λ k. ground arith))
  failed_some false t = ((λ k. absurd (omega (arith, k))), (λ k. cc))

  summary-counts :
      (replay : Bool) (t : Tally produce_sync)
      → IsAccounted produce_sync replay t
      → ((summary replay t).tally ≡ t)
        × IsDescending (summary replay t).by_reason
        × (total (summary replay t).by_reason ≡ t.processed)
        × (((summary replay t).code ≡ 1) ↔ ((replay ≡ true) × (0 < t.replay_failed)))
  unfolding summary
  summary-counts replay t h = elim (Bool-cases (eqb t.processed 0)) [
    | inl e ↦ rw e (refl, tt, ground arith, failed_none replay t h (ground arith))
    | inr e ↦
        let (_, d, n) = table-IsSorted t.reasons h.unique.0 in
        rw e (refl, d, n ∙ h.by_reason, failed_some replay t)
  ]

  exists-none :
      (os : List (ListedOffset E))
      → All (λ (o : ListedOffset E). has_err o.err ≡ true) os
      → exists os ≡ false
  unfolding exists
  exists-none [] _ = refl
  exists-none (o ∷ os) (e, h) = rw e (exists-none os h)

  -- For a topic that exists, with a lag other than 0 and clients that open, the tool ends, prints a
  -- table of reasons in descending order whose counts add up to the records that it has counted,
  -- and exits with 1 if and only if it replays and a replay has failed.
  pub main_reports :
      (topic : String) (flags : Flags) (polls : ℕ → Poll) (a : Offsets) (b : Offsets) (s : S)
      → (topic == "") ≡ false
      → is_zero (total_lag a b) ≡ false
      → (x : Exit) × (main
            (2 * pos_part (total_lag a b) + 3)
            topic
            flags
            polls
            (offsets a b true)
            none
            none
            s
          ≡ some x)
        × Ended produce_sync flags (total_lag a b) polls 0 (start produce_sync s) x.tally
        × IsDescending x.by_reason
        × (total x.by_reason ≡ x.tally.processed)
        × ((x.code ≡ 1) ↔ ((flags.replay ≡ true) × (0 < x.tally.replay_failed)))
  unfolding main
  main_reports topic flags polls a b s named full =
      let (t, r, d) = scan_ends produce_sync flags (total_lag a b) polls s in
      let (e, o, n, c) = summary-counts flags.replay t d.accounted in
      (
        summary flags.replay t,
        rw (named, full, r) refl,
        rw e d,
        o,
        n ∙ ap (λ (x : Tally produce_sync). x.processed) (sym e),
        rw e c,
      )

  -- A run whose context ends in its first poll exits with 0.
  pub main_cut :
      (fuel : ℕ) (topic : String) (flags : Flags) (polls : ℕ → Poll) (a : Offsets) (b : Offsets)
      (s : S)
      → (topic == "") ≡ false
      → is_zero (total_lag a b) ≡ false
      → (polls 0).ended ≡ true
      → main (suc fuel) topic flags polls (offsets a b true) none none s ≡ stop_at 0 s
  unfolding main scan summary
  main_cut fuel topic flags polls a b s named full cut = rw (named, full, cut) refl

  -- A topic whose every partition is listed with an error exits with 2.
  pub main_unlisted :
      (fuel : ℕ) (topic : String) (flags : Flags) (polls : ℕ → Poll) (ends : List (ListedOffset E))
      (starts : List (ListedOffset E)) (s : S)
      → (topic == "") ≡ false
      → All (λ (o : ListedOffset E). has_err o.err ≡ true) ends
      → main fuel topic flags polls (topic_offsets none (listed ends) (listed starts)) none none s
        ≡ stop_at 2 s
  unfolding main topic_offsets
  main_unlisted fuel topic flags polls ends starts s named h = rw (named, exists-none ends h) refl
