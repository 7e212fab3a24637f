-- ===== src/Transformer/Round.antt =====
-- What one round of the transformer produces and commits.
use mathlib.Core.Path.{subst, sym, ap}
use mathlib.Core.List.{append-nil, append_assoc}
use public_pg2mongo_cd_c.Base.{ℕ, Option, none, some, ◌≡◌, refl, ◌∙◌, List, [], ◌∷◌, ◌++◌}
use public_pg2mongo_cd_c.Mapper.{Json, Mapper}
use public_pg2mongo_cd_c.Base.{String, Dict}
use public_pg2mongo_cd_c.Kgo.{KgoRecord, fetched, Client}
use public_pg2mongo_cd_c.Transformer.{
  RoundError, apply_failed, client_failed, Outgoing, send, reject, transform, Progress, out_record,
  produce, produced, unless_failed, on_record, each_record, commit, run_once,
}

module _ {E : Type 0} (json : Json) (m : Mapper) (C : Client E)
    (trace : C.State → KgoRecord → Dict String) where
  -- Every record of the list is transformed and its produce acknowledged, one after the other.
  abbrev pub Sent : List KgoRecord → C.State → C.State → Type 0
  Sent [] s t = s ≡ t
  Sent (r ∷ rs) s t =
      (v : Option (List ℕ)) × (u : C.State) × (transform json m r ≡ send v)
      × (C.produce_sync (out_record json m C trace r v s) s ≡ (u, none))
      × Sent rs u t

  -- Why the rest of a batch is left: there is none, or its first record failed.
  abbrev pub Stopped : Option (RoundError E) → List KgoRecord → C.State → C.State → Type 0
  Stopped none rest s t = (rest ≡ []) × (s ≡ t)
  Stopped (some (apply_failed e)) rest s t =
      (r : KgoRecord) × (rs : List KgoRecord) × (rest ≡ r ∷ rs)
      × (transform json m r ≡ reject e)
      × (s ≡ t)
  Stopped (some (client_failed e)) rest s t =
      (r : KgoRecord) × (rs : List KgoRecord) × (v : Option (List ℕ)) × (rest ≡ r ∷ rs)
      × (transform json m r ≡ send v)
      × (C.produce_sync (out_record json m C trace r v s) s ≡ (t, some e))

  pub record IsRun (all : List KgoRecord) (s : C.State) (p : Progress json m C trace) : Type 0 where
    pub rest : List KgoRecord
    pub reached : C.State
    pub split : all ≡ p.committable ++ rest
    pub sent : Sent p.committable s reached
    pub stopped : Stopped p.first_err rest reached p.client

  Sent-snoc :
      (rs : List KgoRecord) (r : KgoRecord) (s t u : C.State) (v : Option (List ℕ))
      → Sent rs s t
      → transform json m r ≡ send v
      → C.produce_sync (out_record json m C trace r v t) t ≡ (u, none)
      → Sent (rs ++ r ∷ []) s u
  Sent-snoc [] r s t u v h k e = (v, u, k, rw h e, refl)
  Sent-snoc (q ∷ rs) r s t u v (w, x, a, b, c) k e = (w, x, a, b, Sent-snoc rs r x t u v c k e)

  Stopped-append :
      (e : RoundError E) (rest more : List KgoRecord) (s t : C.State)
      → Stopped (some e) rest s t
      → Stopped (some e) (rest ++ more) s t
  Stopped-append (apply_failed e) rest more s t (r, rs, h, k, l) =
      (r, rs ++ more, ap (λ l. l ++ more) h, k, l)
  Stopped-append (client_failed e) rest more s t (r, rs, v, h, k, l) =
      (r, rs ++ more, v, ap (λ l. l ++ more) h, k, l)

  module _ (seen : List KgoRecord) (r : KgoRecord) (s : C.State) (p : Progress json m C trace) where
    produced-IsRun :
        (v : Option (List ℕ)) (c : C.State × Option E)
        → seen ≡ p.committable
        → Sent p.committable s p.client
        → p.first_err ≡ none
        → transform json m r ≡ send v
        → C.produce_sync (out_record json m C trace r v p.client) p.client ≡ c
        → IsRun (seen ++ r ∷ []) s (produced json m C trace r p c)
    produced-IsRun v (t, some e) same sent ok k h = record {
      rest = r ∷ [];
      reached = p.client;
      split = ap (λ l. l ++ r ∷ []) same;
      sent = sent;
      stopped = (r, [], v, refl, k, h);
    }
    produced-IsRun v (t, none) same sent ok k h = record {
      rest = [];
      reached = t;
      split = ap (λ l. l ++ r ∷ []) same ∙ sym (append-nil _);
      sent = Sent-snoc p.committable r s p.client t v sent k h;
      stopped = rw ok (refl, refl);
    }

    produce-IsRun :
        (o : Outgoing)
        → seen ≡ p.committable
        → Sent p.committable s p.client
        → p.first_err ≡ none
        → transform json m r ≡ o
        → IsRun (seen ++ r ∷ []) s (produce json m C trace r p o)
    produce-IsRun (reject e) same sent ok k = record {
      rest = r ∷ [];
      reached = p.client;
      split = ap (λ l. l ++ r ∷ []) same;
      sent = sent;
      stopped = (r, [], refl, k, refl);
    }
    produce-IsRun (send v) same sent ok k =
        produced-IsRun v (C.produce_sync (out_record json m C trace r v p.client) p.client) same
          sent ok k refl

    next-IsRun :
        (o : Option (RoundError E))
        → p.first_err ≡ o
        → IsRun seen s p
        → IsRun
            (seen ++ r ∷ [])
            s
            (unless_failed json m C trace o p (produce json m C trace r p (transform json m r)))
    next-IsRun (some e) at h = record {
      rest = h.rest ++ r ∷ [];
      reached = h.reached;
      split = ap (λ l. l ++ r ∷ []) h.split ∙ append_assoc p.committable h.rest (r ∷ []);
      sent = h.sent;
      stopped =
          subst (λ o. Stopped o (h.rest ++ r ∷ []) h.reached p.client) (sym at)
            (Stopped-append e h.rest (r ∷ []) h.reached p.client
              (subst (λ o. Stopped o h.rest h.reached p.client) at h.stopped));
    }
    next-IsRun none at h =
        let over = subst (λ o. Stopped o h.rest h.reached p.client) at h.stopped in
        produce-IsRun (transform json m r)
          (h.split ∙ (ap (λ l. p.committable ++ l) over.0 ∙ append-nil p.committable))
          (subst (Sent p.committable s) over.1 h.sent) at refl

  each_record-IsRun :
      (rs seen : List KgoRecord) (s : C.State) (p : Progress json m C trace)
      → IsRun seen s p
      → IsRun (seen ++ rs) s (each_record json m C trace rs p)
  unfolding each_record on_record
  each_record-IsRun [] seen s p h = subst (λ l. IsRun l s p) (sym (append-nil seen)) h
  each_record-IsRun (r ∷ rs) seen s p h =
      subst (λ l. IsRun l s (each_record json m C trace rs (on_record json m C trace r p)))
        (append_assoc seen (r ∷ []) rs)
        (each_record-IsRun rs (seen ++ r ∷ []) s (on_record json m C trace r p)
          (next-IsRun seen r s p p.first_err refl h))

  -- A round over polled records commits a prefix of them and nothing else: each record of the
  -- prefix was transformed and its produce acknowledged, in order, and the round stopped after the
  -- prefix because no record is left or because the next one failed.
  pub run_once-IsRun :
      (s t : C.State) (rs : List KgoRecord)
      → C.poll_fetches s ≡ (t, fetched rs)
      → (p : Progress json m C trace) × IsRun rs t p
        × (run_once json m C trace s ≡ commit json m C trace p.committable p)
  unfolding run_once
  run_once-IsRun s t rs h =
      let start : Progress json m C trace = record {
        client = t;
        first_err = none;
        committable = [];
      } in
      (
        each_record json m C trace rs start,
        each_record-IsRun rs [] t start
            (record { rest = []; reached = t; split = refl; sent = refl; stopped = (refl, refl) }),
        rw h refl,
      )
