-- ===== src/Loadgen/Answers.antt =====
-- What the handlers of the load generator answer over its store.
use mathlib.Core.Path.{subst}
use public_pg2mongo_cd_c.Base.{
  String, ◌<>◌, true, false, ℤ, pos, negsuc, ◌==◌, ◌≡◌, refl, ◌∙◌, ap, sym, List, [], ◌∷◌, ◌⊎◌, inl,
  inr, ◌<ℤ◌, All, Bool-cases, arith,
}
use public_pg2mongo_cd_c.Loadgen.{
  Result, ok, fail, Response, http_err, write_id, write_header, or_default, is_zero, update_random,
  delete_random,
}
use public_pg2mongo_cd_c.Loadgen.Db.{
  Pool, update_sampled, delete_first, no_rows, db_store, update_random_user, delete_random_user,
}

-- What the delete of the first row does in Postgres: `ids` are the table's ids in ascending order.
pub record DeleteLaws {E : Type 0} (text : E → String) (pool : Pool E) : Type 1 where
  pub ids : pool.State → List ℤ
  pub positive : (s : pool.State) → All (λ n. pos 0 <ℤ n) (ids s)
  pub deleted :
      (s : pool.State) (n : ℤ)
      → (pool.query_row delete_first s).1 ≡ ok n
      → (rest : List ℤ) × (ids s ≡ n ∷ rest) × (ids (pool.query_row delete_first s).0 ≡ rest)
  pub no_row :
      (s : pool.State) (e : E)
      → (pool.query_row delete_first s).1 ≡ fail e
      → (text e == "no rows in result set") ≡ true
      → (ids s ≡ []) × (ids (pool.query_row delete_first s).0 ≡ [])

positive-nonzero : (n : ℤ) → pos 0 <ℤ n → is_zero n ≡ false
positive-nonzero (pos n) h = ground arith
positive-nonzero (negsuc n) h = refl

module _ {E : Type 0} {V : Type 0} (text : E → String) (wrap : String → E → E)
    (marshal : V → Result E String) (pool : Pool E) where
  -- If the sample of the table has no row, PATCH /users/random answers 204 after that one query:
  -- the statement for the first row is not sent.
  pub update_random_unsampled :
      (name : String) (s : pool.State) (e : E)
      → (pool.query_row (update_sampled (or_default "updated" name)) s).1 ≡ fail e
      → no_rows text wrap marshal pool e ≡ true
      → update_random text (db_store text wrap marshal pool) (ok name) s
        ≡ ((pool.query_row (update_sampled (or_default "updated" name)) s).0, write_header 204)
  unfolding update_random update_random_user
  update_random_unsampled name s e h k = rw (h, k) refl

  module _ (L : DeleteLaws text pool) where
    -- The answer of a delete between the ids before and those after it.
    abbrev pub Answers : List ℤ → Result E ℤ → List ℤ × Response → Type 0
    Answers before query (after, r) =
        ((before ≡ []) × (after ≡ []) × (r ≡ write_header 204))
        ⊎ ((n : ℤ) × (before ≡ n ∷ after) × (r ≡ write_id 200 n))
        ⊎ ((e : E) × (query ≡ fail e)
            × (no_rows text wrap marshal pool e ≡ false)
            × (r ≡ http_err 500 ("delete: " <> text (wrap "delete: " e))))

    answers :
        (s : pool.State) (t : pool.State) (q : Result E ℤ)
        → pool.query_row delete_first s ≡ (t, q)
        → let r = delete_random text (db_store text wrap marshal pool) s in
          Answers (L.ids s) q (L.ids r.0, r.1)
    unfolding delete_random delete_random_user
    answers s t (ok n) h =
        let (rest, before, after) = L.deleted s n (ap (λ (x : pool.State × Result E ℤ). x.1) h) in
        let ids : All (λ k. pos 0 <ℤ k) (n ∷ rest) =
          subst (All (λ k. pos 0 <ℤ k)) before (L.positive s) in
        let left : L.ids t ≡ rest =
          subst (λ (x : pool.State × Result E ℤ). L.ids x.0 ≡ rest) h after in
        rw (h, positive-nonzero n ids.0) (inr (inl (n, before ∙ ap (◌∷◌ n) (sym left), refl)))
    answers s t (fail e) h = elim (Bool-cases (no_rows text wrap marshal pool e)) [
      | inl k ↦
          let (before, after) = L.no_row s e (ap (λ (x : pool.State × Result E ℤ). x.1) h) k in
          let left : L.ids t ≡ [] =
            subst (λ (x : pool.State × Result E ℤ). L.ids x.0 ≡ []) h after in
          rw (h, k) (inl (before, left, refl))
      | inr k ↦ rw (h, k) (inr (inr (e, refl, k, refl)))
    ]

    -- DELETE /users/random answers 204 for a table that is empty, the lowest id, which is gone then,
    -- or 500 if the query fails with another error than that of no rows.
    pub delete_random-Answers :
        (s : pool.State)
        → Answers (L.ids s) (pool.query_row delete_first s).1 (
          L.ids (delete_random text (db_store text wrap marshal pool) s).0,
          (delete_random text (db_store text wrap marshal pool) s).1,
        )
    delete_random-Answers s =
        answers s (pool.query_row delete_first s).0 (pool.query_row delete_first s).1 refl
