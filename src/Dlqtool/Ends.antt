-- ===== src/Dlqtool/Ends.antt =====
-- The scan ends: two rounds for each record that is expected, and two for an idle topic, are enough.
use mathlib.Core.List.{append-nil}
use mathlib.Core.Path.{subst}
use Prim.{absurd}
use public_pg2mongo_cd_c.Base.{
  ◌⊎◌, ℕ, zero, suc, ◌+◌, ◌*◌, ◌<◌, true, false, Option, some, ◌≡◌, refl, ◌∙◌, sym, ap, arith,
}
use public_pg2mongo_cd_c.Base.{length, length-append, ℤ, pos_part, Bool-cases, inl, inr}
use public_pg2mongo_cd_c.Kgo.{KgoRecord}
use public_pg2mongo_cd_c.Dlqtool.{Poll, Flags, Tally, scan, start}
use public_pg2mongo_cd_c.Dlqtool.Accounts.{IsAccounted}
use public_pg2mongo_cd_c.Dlqtool.Scan.{published, published-append, published-none, read}
use public_pg2mongo_cd_c.Dlqtool.Rounds.{
  is_over, to_do, one, decided, decide-over, decided-same, decided-less, start-IsAccounted,
}

module _ {S : Type 0} {E : Type 0} (produce_sync : KgoRecord → S → S × Option E) (flags : Flags)
    (target : ℤ) where
  -- `t'` is the end of a scan from the i-th poll and `t`: it has counted, and replayed, every record
  -- of the next `n` polls, in order, and stopped there for one produce_sync flags target of the tool's reasons.
  pub record Ended (polls : ℕ → Poll) (i : ℕ) (t : Tally produce_sync) (t' : Tally produce_sync)
      : Type 0 where
    pub accounted : IsAccounted produce_sync flags.replay t'
    pub n : ℕ
    pub count : t'.processed ≡ t.processed + length (read polls n i)
    pub sent : t'.producer ≡ published produce_sync flags.replay (read polls n i) t.producer
    pub because : ((polls (i + n)).ended ≡ true) ⊎ (is_over produce_sync flags target t' ≡ true)

  Ended-suc :
      (polls : ℕ → Poll) (i : ℕ) (t : Tally produce_sync) (t1 : Tally produce_sync)
      (t' : Tally produce_sync)
      → t1.processed ≡ t.processed + length (polls i).records
      → t1.producer ≡ published produce_sync flags.replay (polls i).records t.producer
      → Ended polls (i + 1) t1 t'
      → Ended polls i t t'
  Ended-suc polls i t t1 t' hp hs h =
      let e : i + 1 + h.n ≡ i + suc h.n = omega arith in
      record {
        accounted = h.accounted;
        n = suc h.n;
        count =
            h.count ∙ omega (arith, hp, length-append (polls i).records (read polls h.n (i + 1)));
        sent =
            h.sent
            ∙ ap (published produce_sync flags.replay (read polls h.n (i + 1))) hs
            ∙ sym (
                published-append produce_sync flags.replay (polls i).records
                  (read polls h.n (i + 1)) t.producer);
        because =
            subst (λ k. ((polls k).ended ≡ true) ⊎ (is_over produce_sync flags target t' ≡ true)) e
              h.because;
      }

  -- A scan that stops at its first poll.
  Ended-cut :
      (polls : ℕ → Poll) (i : ℕ) (t : Tally produce_sync)
      → IsAccounted produce_sync flags.replay t
      → (polls i).ended ≡ true
      → Ended polls i t t
  Ended-cut polls i t h cut =
      let e : i ≡ i + 0 = omega arith in
      record {
        accounted = h;
        n = 0;
        count = omega arith;
        sent = sym (published-none produce_sync flags.replay t.producer);
        because = inl (subst (λ k. (polls k).ended ≡ true) e cut);
      }

  Ended-over :
      (polls : ℕ → Poll) (i : ℕ) (t : Tally produce_sync)
      → IsAccounted produce_sync flags.replay t
      → (decided produce_sync flags target (polls i) t).1 ≡ true
      → Ended polls i t (decided produce_sync flags target (polls i) t).0
  Ended-over polls i t h over =
      let (a, p, s) = decided-same produce_sync flags target (polls i) t h in
      record {
        accounted = a;
        n = 1;
        count = omega (arith, p, ap length (append-nil (polls i).records));
        sent =
            s
            ∙ ap (λ rs. published produce_sync flags.replay rs t.producer)
                (sym (append-nil (polls i).records));
        because = inr (
            decide-over produce_sync flags target (length (polls i).records)
              (one produce_sync flags target (polls i) t) over);
      }

  scan-cut :
      (fuel : ℕ) (polls : ℕ → Poll) (i : ℕ) (t : Tally produce_sync)
      → (polls i).ended ≡ true
      → scan produce_sync (suc fuel) flags target polls i t ≡ some t
  unfolding scan
  scan-cut fuel polls i t cut = rw cut refl

  scan-over :
      (fuel : ℕ) (polls : ℕ → Poll) (i : ℕ) (t : Tally produce_sync)
      → (polls i).ended ≡ false
      → (decided produce_sync flags target (polls i) t).1 ≡ true
      → scan produce_sync (suc fuel) flags target polls i t
        ≡ some (decided produce_sync flags target (polls i) t).0
  unfolding scan
  scan-over fuel polls i t go over = rw (go, over) refl

  scan-more :
      (fuel : ℕ) (polls : ℕ → Poll) (i : ℕ) (t : Tally produce_sync)
      → (polls i).ended ≡ false
      → (decided produce_sync flags target (polls i) t).1 ≡ false
      → scan produce_sync (suc fuel) flags target polls i t
        ≡ scan produce_sync fuel flags target polls
            (i + 1)
            (decided produce_sync flags target (polls i) t).0
  unfolding scan
  scan-more fuel polls i t go more = rw (go, more) refl

  scan-Ended :
      (fuel : ℕ) (polls : ℕ → Poll) (i : ℕ) (t : Tally produce_sync)
      → IsAccounted produce_sync flags.replay t
      → t.empty_polls < 2
      → to_do produce_sync flags target t < fuel
      → (t' : Tally produce_sync) × (scan produce_sync fuel flags target polls i t ≡ some t')
        × Ended polls i t t'
  scan-Ended zero polls i t h idle enough = absurd (omega (arith, enough))
  scan-Ended (suc fuel) polls i t h idle enough = elim (Bool-cases (polls i).ended) [
    | inl cut ↦ (t, scan-cut fuel polls i t cut, Ended-cut polls i t h cut)
    | inr go ↦ elim (Bool-cases (decided produce_sync flags target (polls i) t).1) [
      | inl over ↦ (
        (decided produce_sync flags target (polls i) t).0,
        scan-over fuel polls i t go over,
        Ended-over polls i t h over,
      )
      | inr more ↦
          let (a, p, s) = decided-same produce_sync flags target (polls i) t h in
          let (idle', l) = decided-less produce_sync flags target (polls i) t idle more p in
          let (t', r, d) =
            scan-Ended fuel polls (i + 1) (decided produce_sync flags target (polls i) t).0 a idle'
              (omega (arith, l, enough)) in
          (
            t',
            scan-more fuel polls i t go more ∙ r,
            Ended-suc polls i t (decided produce_sync flags target (polls i) t).0 t' p s d,
          )
    ]
  ]

  -- The scan ends within two rounds for each record that it expects and three more. It has then
  -- counted every record of the polls before the one that it stopped at, or of all of them, and a
  -- replay has produced each of these that names its topic, in order, and a dry run none; each
  -- record is counted under one reason and at most one topic, and as replayed or failed in a
  -- replay. It stopped because its context had ended or the flag -max, the target or two empty
  -- polls say so.
  pub scan_ends :
      (polls : ℕ → Poll) (s : S)
      → (t' : Tally produce_sync) × (scan produce_sync
            (2 * pos_part target + 3)
            flags
            target
            polls
            0
            (start produce_sync s)
          ≡ some t')
        × Ended polls 0 (start produce_sync s) t'
  scan_ends polls s =
      scan-Ended (2 * pos_part target + 3) polls 0 (start produce_sync s)
        (start-IsAccounted produce_sync flags target s) (omega arith) (omega arith)
