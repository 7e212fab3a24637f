-- ===== src/Writer/Batch/Group.antt =====
-- The first loop of `ApplyBatch`: the models of each collection are those of its events, in order.
use mathlib.Core.List.{append-nil, append_assoc}
use public_pg2mongo_cd_c.Base.{String, ℤ, ◌≡◌, refl, ap, ◌∙◌, sym}
use public_pg2mongo_cd_c.Base.{List, [], ◌∷◌, ◌++◌, filter, ◌==◌, if◌then◌else◌, arith, All, map}
use public_pg2mongo_cd_c.Base.{Dict, lookup, lookup-insert, NodupKeys, insert-NodupKeys}
use public_pg2mongo_cd_c.Base.{inl, inr, ◌⊎◌}
use public_pg2mongo_cd_c.Writer.{
  CdcEvent, BuildError, BuildResult, ok, err, WriteModel, WriteOp, build_write_op, to_mongo_model,
  op_delete, delete_op, upsert_op,
}
use public_pg2mongo_cd_c.Writer.Batch.{groups, group_events, add_model, models_of}

-- The model of an event that can be built.
unfoldable pub model_of : ℤ → CdcEvent → WriteModel
model_of ver ev = to_mongo_model (if ev.op == op_delete then delete_op ev else upsert_op ev ver)

pub model_of-build :
    (ver : ℤ) (ev : CdcEvent) {op : WriteOp}
    → build_write_op ev ver ≡ ok op
    → to_mongo_model op ≡ model_of ver ev
unfolding build_write_op model_of
model_of-build ver ev h = ground arith

abbrev pub of_table : String → List CdcEvent → List CdcEvent
of_table table = filter (λ ev. ev.table == table)

-- An event from which an operation can be built.
abbrev pub IsBuildable : ℤ → CdcEvent → Type 0
IsBuildable ver ev = (op : WriteOp) × (build_write_op ev ver ≡ ok op)

lookup-add_model :
    (table : String) (ev : CdcEvent) (m : WriteModel) (d : Dict (List WriteModel))
    → models_of (lookup table (add_model ev.table m d))
      ≡ models_of (lookup table d) ++ (if ev.table == table then m ∷ [] else [])
lookup-add_model table ev m d =
    ap models_of (lookup-insert table ev.table _ d)
    ∙ ground (arith, append-nil (models_of (lookup table d)))

pub built : (r : BuildResult) → ((e : BuildError) × (r ≡ err e)) ⊎ ((op : WriteOp) × (r ≡ ok op))
built (ok op) = inr (op, refl)
built (err e) = inl (e, refl)

map-of_table :
    (ver : ℤ) (table : String) (ev : CdcEvent) (evs : List CdcEvent)
    → map (model_of ver) (of_table table (ev ∷ evs))
      ≡ (if ev.table == table then model_of ver ev ∷ [] else [])
        ++ map (model_of ver) (of_table table evs)
map-of_table ver table ev evs = ground arith

group_events-models :
    (ver : ℤ) (evs : List CdcEvent) (d d' : Dict (List WriteModel)) (table : String)
    → group_events ver evs d ≡ groups d'
    → models_of (lookup table d')
      ≡ models_of (lookup table d) ++ map (model_of ver) (of_table table evs)
unfolding group_events
group_events-models ver [] d d' table h = let same : d ≡ d' = cc in rw (← same) (sym (append-nil _))
group_events-models ver (ev ∷ evs) d d' table h = elim (built (build_write_op ev ver)) [
  | inl (e, b) ↦ cc (rw (b, group_events) at h)
  | inr (op, b) ↦
      group_events-models ver evs _ d' table (rw (b, group_events) at h)
      ∙ (rw (lookup-add_model, model_of-build ver ev b, map-of_table ver table ev evs)
          (append_assoc (models_of (lookup table d)) _ _))
]

-- When every event of a batch can be built, the models for each collection are those of the batch's
-- events for that collection, in their order.
pub group_events-of_table :
    (ver : ℤ) (evs : List CdcEvent) (d : Dict (List WriteModel)) (table : String)
    → group_events ver evs [] ≡ groups d
    → models_of (lookup table d) ≡ map (model_of ver) (of_table table evs)
unfolding lookup
group_events-of_table ver evs d table h = group_events-models ver evs [] d table h

-- A batch is grouped only if every event can be built.
pub group_events-IsBuildable :
    (ver : ℤ) (evs : List CdcEvent) (d d' : Dict (List WriteModel))
    → group_events ver evs d ≡ groups d'
    → All (IsBuildable ver) evs
unfolding group_events
group_events-IsBuildable ver [] d d' h = tt
group_events-IsBuildable ver (ev ∷ evs) d d' h = elim (built (build_write_op ev ver)) [
  | inl (e, b) ↦ cc (rw (b, group_events) at h)
  | inr (op, b) ↦ ((op, b), group_events-IsBuildable ver evs _ d' (rw (b, group_events) at h))
]

-- Each collection has one group.
pub group_events-NodupKeys :
    (ver : ℤ) (evs : List CdcEvent) (d d' : Dict (List WriteModel))
    → group_events ver evs d ≡ groups d'
    → NodupKeys d
    → NodupKeys d'
unfolding group_events
group_events-NodupKeys ver [] d d' h u = let same : d ≡ d' = cc in rw (← same) u
group_events-NodupKeys ver (ev ∷ evs) d d' h u = elim (built (build_write_op ev ver)) [
  | inl (e, b) ↦ cc (rw (b, group_events) at h)
  | inr (op, b) ↦
      group_events-NodupKeys ver evs _ d' (rw (b, group_events) at h)
        (insert-NodupKeys ev.table _ d u)
]
