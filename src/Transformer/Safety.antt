-- ===== src/Transformer/Safety.antt =====
-- Which offsets the transformer's loop marks and commits.
use mathlib.Core.Path.{subst}
use public_pg2mongo_cd_c.Base.{
  ℕ, String, Bool, Option, none, some, ◌≡◌, ◌⊎◌, inl, inr, refl, sym, ap,
}
use public_pg2mongo_cd_c.Base.{
  List, [], ◌∷◌, ◌++◌, All, In, In-left, In-right, In-all, Dict, if◌then◌else◌, Bool-cases,
}
use public_pg2mongo_cd_c.Kgo.{KgoRecord, Client, Upto, GroupLaws, ProduceLaws}
use public_pg2mongo_cd_c.Mapper.{Json, Mapper}
use public_pg2mongo_cd_c.Transformer.{
  RoundError, apply_failed, client_failed, send, transform, Progress, out_record, commit, run_once,
}
use public_pg2mongo_cd_c.Transformer.Round.{Sent, Stopped, IsRun, run_once-IsRun}
use public_pg2mongo_cd_c.Transformer.Loop.{ends_loop, main_loop}

module _ {E : Type 0} (json : Json) (m : Mapper) (C : Client E)
    (trace : C.State → KgoRecord → Dict String) where
  -- The records that the turns poll, on top of those of the list.
  unfoldable pub polls : (E → Bool) → List Bool → List KgoRecord → C.State → List KgoRecord
  polls is_context [] log s = log
  polls is_context (ended ∷ turns) log s =
      let u = run_once json m C trace s in
      let next = (C.poll_fetches s).1.recs ++ log in
      let rest = polls is_context turns next u.0 in
      if ended then log else if ends_loop json m C trace is_context u.1 then next else rest

  module _ (L : GroupLaws C) (P : ProduceLaws C L) where
    -- The transformed record is delivered, with the headers of some moment.
    abbrev pub Forwarded : C.State → KgoRecord → Type 0
    Forwarded s k =
        (v : Option (List ℕ)) × (a : C.State) × (transform json m k ≡ send v)
        × P.Delivered s (out_record json m C trace k v a)

    -- The record, or a later one of its partition, is one of those polled, and that one is
    -- forwarded.
    abbrev pub Passed : List KgoRecord → C.State → KgoRecord → Type 0
    Passed log s k = (j : KgoRecord) × Upto k j × In j log × Forwarded s j

    -- From `s` to `t` nothing is marked or committed, and what is delivered stays so.
    record IsLater (s : C.State) (t : C.State) : Type 0 where
      marked : (k : KgoRecord) → L.Marked t k → L.Marked s k
      committed : (k : KgoRecord) → L.Committed t k → L.Committed s k
      stays : (o : KgoRecord) → P.Delivered s o → P.Delivered t o

    IsLater-refl : (s : C.State) → IsLater s s
    IsLater-refl s = record { marked = λ k h. h; committed = λ k h. h; stays = λ o h. h }

    IsLater-trans : (s t u : C.State) → IsLater s t → IsLater t u → IsLater s u
    IsLater-trans s t u a b = record {
      marked = λ k h. a.marked k (b.marked k h);
      committed = λ k h. a.committed k (b.committed k h);
      stays = λ o h. b.stays o (a.stays o h);
    }

    produce-IsLater : (r : KgoRecord) (s : C.State) → IsLater s (C.produce_sync r s).0
    produce-IsLater r s = record {
      marked = P.produce_marked r s;
      committed = P.produce_committed r s;
      stays = P.produce_stays r s;
    }

    poll-IsLater : (s : C.State) → IsLater s (C.poll_fetches s).0
    poll-IsLater s = record {
      marked = L.poll_marked s;
      committed = L.poll_committed s;
      stays = P.poll_stays s;
    }

    Forwarded-stays :
        (s t : C.State) (k : KgoRecord)
        → ((o : KgoRecord) → P.Delivered s o → P.Delivered t o)
        → Forwarded s k
        → Forwarded t k
    Forwarded-stays s t k stays (v, a, h, d) = (v, a, h, stays (out_record json m C trace k v a) d)

    later-Forwarded : (s t : C.State) (k : KgoRecord) → IsLater s t → Forwarded s k → Forwarded t k
    later-Forwarded s t k l f = Forwarded-stays s t k l.stays f

    Passed-stays :
        (log : List KgoRecord) (s t : C.State) (k : KgoRecord)
        → ((o : KgoRecord) → P.Delivered s o → P.Delivered t o)
        → Passed log s k
        → Passed log t k
    Passed-stays log s t k stays (j, u, i, f) = (j, u, i, Forwarded-stays s t j stays f)

    Passed-grows :
        (new log : List KgoRecord) (s : C.State) (k : KgoRecord)
        → Passed log s k
        → Passed (new ++ log) s k
    Passed-grows new log s k (j, u, i, f) = (j, u, In-right j new log i, f)

    sent-IsLater :
        (rs : List KgoRecord) (s t : C.State)
        → Sent json m C trace rs s t
        → IsLater s t × All (Forwarded t) rs
    sent-IsLater [] s t e = (subst (IsLater s) e (IsLater-refl s), tt)
    sent-IsLater (r ∷ rs) s t (v, u, h, e, rest) =
        let o = out_record json m C trace r v s in
        let (l, fs) = sent-IsLater rs u t rest in
        let first : IsLater s u =
          subst (IsLater s) (ap (λ (x : C.State × Option E). x.0) e) (produce-IsLater o s) in
        let delivered : P.Delivered u o =
          subst (λ x. P.Delivered x o) (ap (λ (x : C.State × Option E). x.0) e)
            (P.produce_delivered o s (ap (λ (x : C.State × Option E). x.1) e)) in
        (IsLater-trans s u t first l, (later-Forwarded u t r l (v, s, h, delivered), fs))

    Stopped-IsLater :
        (o : Option (RoundError E)) (rest : List KgoRecord) (s t : C.State)
        → Stopped json m C trace o rest s t
        → IsLater s t
    Stopped-IsLater none rest s t (_, e) = subst (IsLater s) e (IsLater-refl s)
    Stopped-IsLater (some (apply_failed x)) rest s t (r, rs, _, _, e) =
        subst (IsLater s) e (IsLater-refl s)
    Stopped-IsLater (some (client_failed x)) rest s t (r, rs, v, _, _, e) =
        subst (IsLater s) (ap (λ (x : C.State × Option E). x.0) e)
          (produce-IsLater (out_record json m C trace r v s) s)

    later-All :
        (s t : C.State) (rs : List KgoRecord)
        → IsLater s t
        → All (Forwarded s) rs
        → All (Forwarded t) rs
    later-All s t [] l _ = tt
    later-All s t (r ∷ rs) l (f, fs) = (later-Forwarded s t r l f, later-All s t rs l fs)

    -- `Old` is what was committed earlier.
    module _ (Old : KgoRecord → Type 0) where
      record IsSafe (log : List KgoRecord) (s : C.State) : Type 0 where
        marked : (k : KgoRecord) → L.Marked s k → Passed log s k
        committed : (k : KgoRecord) → L.Committed s k → Old k ⊎ Passed log s k

      grows-IsSafe : (new log : List KgoRecord) (s : C.State) → IsSafe log s → IsSafe (new ++ log) s
      grows-IsSafe new log s h = record {
        marked = λ k d. Passed-grows new log s k (h.marked k d);
        committed = λ k d. elim (h.committed k d) [
          | inl o ↦ inl o
          | inr q ↦ inr (Passed-grows new log s k q)
        ];
      }

      later-IsSafe :
          (log : List KgoRecord) (s t : C.State) → IsLater s t → IsSafe log s → IsSafe log t
      later-IsSafe log s t l h = record {
        marked = λ k d. Passed-stays log s t k l.stays (h.marked k (l.marked k d));
        committed = λ k d. elim (h.committed k (l.committed k d)) [
          | inl o ↦ inl o
          | inr q ↦ inr (Passed-stays log s t k l.stays q)
        ];
      }

      mark-IsSafe :
          (log rs : List KgoRecord) (s : C.State)
          → ((k : KgoRecord) → In k rs → In k log)
          → All (Forwarded s) rs
          → IsSafe log s
          → IsSafe log (C.mark_commit_records rs s)
      mark-IsSafe log rs s sub fs h =
          let up : (k : KgoRecord) → Passed log s k → Passed log (C.mark_commit_records rs s) k =
            λ k. Passed-stays log s (C.mark_commit_records rs s) k (P.mark_stays rs s) in
          record {
            marked = λ k d. up k (elim (L.mark_marked rs s k d) [
              | inl (j, a, u) ↦ (j, u, sub j a, In-all (Forwarded s) j rs a fs)
              | inr old ↦ h.marked k old
            ]);
            committed = λ k d. elim (h.committed k (L.mark_committed rs s k d)) [
              | inl o ↦ inl o
              | inr q ↦ inr (up k q)
            ];
          }

      commit_marked-IsSafe :
          (log : List KgoRecord) (s : C.State)
          → IsSafe log s
          → IsSafe log (C.commit_marked_offsets s).0
      commit_marked-IsSafe log s h =
          let up : (k : KgoRecord) → Passed log s k → Passed log (C.commit_marked_offsets s).0 k =
            λ k. Passed-stays log s (C.commit_marked_offsets s).0 k (P.commit_stays s) in
          record {
            marked = λ k d. up k (h.marked k (L.commit_marked s k d));
            committed = λ k d. elim (L.commit_committed s k d) [
              | inl old ↦ elim (h.committed k old) [ inl o ↦ inl o | inr q ↦ inr (up k q) ]
              | inr new ↦ inr (up k (h.marked k new))
            ];
          }

      commit-IsSafe :
          (log rs : List KgoRecord) (p : Progress json m C trace)
          → ((k : KgoRecord) → In k rs → In k log)
          → All (Forwarded p.client) rs
          → IsSafe log p.client
          → IsSafe log (commit json m C trace rs p).0
      commit-IsSafe log [] p sub fs h = h
      commit-IsSafe log (r ∷ rs) p sub fs h =
          commit_marked-IsSafe log (C.mark_commit_records (r ∷ rs) p.client)
            (mark-IsSafe log (r ∷ rs) p.client sub fs h)

      run-IsSafe :
          (log rs : List KgoRecord) (t : C.State) (p : Progress json m C trace)
          → IsRun json m C trace rs t p
          → IsSafe log t
          → IsSafe (rs ++ log) (commit json m C trace p.committable p).0
      run-IsSafe log rs t p h safe =
          let (l, fs) = sent-IsLater p.committable t h.reached h.sent in
          let l2 = Stopped-IsLater p.first_err h.rest h.reached p.client h.stopped in
          commit-IsSafe (rs ++ log) p.committable p
            (λ k i.
              In-left k rs log (subst (In k) (sym h.split) (In-left k p.committable h.rest i)))
            (later-All h.reached p.client p.committable l2 fs)
            (later-IsSafe (rs ++ log) t p.client (IsLater-trans t h.reached p.client l l2)
              (grows-IsSafe rs log t safe))

      round-IsSafe :
          (log : List KgoRecord) (s t : C.State) (c : Option E) (es : List E) (rs : List KgoRecord)
          → C.poll_fetches s ≡ (t, record { ctx_err = c; errors = es; recs = rs })
          → IsSafe log t
          → IsSafe (rs ++ log) (run_once json m C trace s).0
      unfolding run_once
      round-IsSafe log s t (some e) es rs h safe = rw h (grows-IsSafe rs log t safe)
      round-IsSafe log s t none (e ∷ es) rs h safe = rw h (grows-IsSafe rs log t safe)
      round-IsSafe log s t none [] rs h safe =
          let (p, run, e) = run_once-IsRun json m C trace s t rs h in
          subst (λ (x : C.State × Option (RoundError E)). IsSafe (rs ++ log) x.0) (sym e)
            (run-IsSafe log rs t p run safe)

      run_once-IsSafe :
          (log : List KgoRecord) (s : C.State)
          → IsSafe log s
          → IsSafe ((C.poll_fetches s).1.recs ++ log) (run_once json m C trace s).0
      run_once-IsSafe log s h =
          let (t, f) = C.poll_fetches s in
          round-IsSafe log s t f.ctx_err f.errors f.recs refl
            (later-IsSafe log s (C.poll_fetches s).0 (poll-IsLater s) h)

      main_loop-IsSafe :
          (is_context : E → Bool) (turns : List Bool) (log : List KgoRecord) (s : C.State)
          → IsSafe log s
          → IsSafe (polls is_context turns log s) (main_loop json m C trace is_context turns s)
      unfolding main_loop polls
      main_loop-IsSafe is_context [] log s h = h
      main_loop-IsSafe is_context (ended ∷ turns) log s h =
          let u = run_once json m C trace s in
          let next = run_once-IsSafe log s h in
          let rest =
            main_loop-IsSafe is_context turns ((C.poll_fetches s).1.recs ++ log) u.0 next in
          elim (Bool-cases ended) [
            | inl e ↦ rw e h
            | inr e ↦ elim (Bool-cases (ends_loop json m C trace is_context u.1)) [
              | inl k ↦ rw (e, k) next
              | inr k ↦ rw (e, k) rest
            ]
          ]

    -- Let the loop of main run from a state where nothing is marked, for any sequence of turns.
    -- Each record that the committed offsets cover, and did not cover at the start, is at or before
    -- a record of its partition that was polled and transformed and whose transformed record is
    -- delivered, with the trace headers of some moment: no new offset goes past the last delivered
    -- record. The client marks and commits nothing but by its calls, a mark covers the records up
    -- to its own, and what a produce has acknowledged stays delivered.
    pub main_loop-Passed :
        (is_context : E → Bool) (turns : List Bool) (start : C.State)
        → ((k : KgoRecord) → ¬ L.Marked start k)
        → (k : KgoRecord) → L.Committed (main_loop json m C trace is_context turns start) k
        → L.Committed start k
          ⊎ Passed
              (polls is_context turns [] start)
              (main_loop json m C trace is_context turns start)
              k
    main_loop-Passed is_context turns start unmarked =
        (main_loop-IsSafe (L.Committed start) is_context turns [] start
          (record { marked = λ j d. absurd (unmarked j d); committed = λ j d. inl d })).committed
