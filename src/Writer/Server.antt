-- ===== src/Writer/Server.antt =====
-- The MongoDB server, which is not part of the repository: a parameter, with the documented
-- behaviour that the sink relies on.
use mathlib.Core.List.{Permᴰ}
use public_pg2mongo_cd_c.Base.{ℕ, suc, ◌+◌, String, Bool, true, false, not, ◌&&◌, ◌||◌}
use public_pg2mongo_cd_c.Base.{
  Option, none, some, ℤ, ◌≡◌, ◌==◌, if◌then◌else◌, List, [], ◌∷◌, Within,
}
use public_pg2mongo_cd_c.Value.{str, arr, obj, Items, nil, cons, Fields, end, field}
use public_pg2mongo_cd_c.Value.{get, AllKeys, int, bool}
use public_pg2mongo_cd_c.Value.Laws.{first_some}
use public_pg2mongo_cd_c.Writer.{WriteModel, delete_one, update_one}
use public_pg2mongo_cd_c.Writer.Gate.{stamp_of, stamp_lt, is_unset, foreign}

-- What the server answers for one write model.
pub data OpReply : Type 0 where
  matched upserted deleted unmatched : OpReply
  write_error : ℕ → OpReply

pub record Counts : Type 0 where
  pub matched_count : ℕ
  pub upserted_count : ℕ
  pub deleted_count : ℕ

-- A failed bulk write: the codes of its write errors, and whether a write concern failed too.
pub record BulkException : Type 0 where
  pub codes : List ℕ
  pub concern : Bool

pub record ServerError : Type 0 where
  pub has_error_code : ℕ → Bool
  pub has_error_label : String → Bool

-- An error of the driver, by what `errors.Is` and `errors.As` find in its chain.
pub record DriverError : Type 0 where
  pub canceled : Bool
  pub deadline_exceeded : Bool
  -- `net.Error`, by its `Timeout()`
  pub net_error : Option Bool
  pub bulk : Option BulkException
  pub server_error : Option ServerError

-- `(res, err)` of a bulk write; `res` may be nil.
pub data BulkReply : Type 0 where
  done : Option Counts → BulkReply
  failed : DriverError → BulkReply

abbrev pub duplicate_key : ℕ
duplicate_key = 11000

-- A name that `$set` takes for a top-level field: no dot in it, no `$`, and not the id.
abbrev has_special : String → Bool
has_special String.[] = false
has_special (String.◌∷◌ c s) =
    (String.◌∷◌ c String.[] == ".") || (String.◌∷◌ c String.[] == "$") || has_special s

unfoldable pub is_plain : String → Bool
is_plain k = not (has_special k) && not (k == "_id")

pub record Server : Type 1 where
  pub State : Type 0
  -- The document of a collection that carries an id.
  pub find : State → String → String → Option Fields
  -- Whether a filter matches a document.
  pub matches : Fields → Fields → Bool
  -- A document after an update.
  pub updated : Fields → Fields → Fields
  -- One write model on a collection.
  pub exec : State → String → WriteModel → State × OpReply
  -- `BulkWrite` with `ordered=false`.
  pub bulk_write : State → String → List WriteModel → State × BulkReply

-- The documented effect of a delete by id, and of an update by id that may insert.
module _ (matches : Fields → Fields → Bool) where
  abbrev pub any_matches : Items → Fields → Bool
  any_matches nil d = false
  any_matches (cons (obj f) fs) d = matches f d || any_matches fs d
  any_matches (cons _ fs) d = any_matches fs d

  abbrev pub delete_doc : Fields → Option Fields → Option Fields × OpReply
  delete_doc f none = (none, unmatched)
  delete_doc f (some d) = if matches f d then (none, deleted) else (some d, unmatched)

  abbrev pub update_doc :
      (Fields → Fields → Fields)
      → String
      → Fields
      → Fields
      → Option Fields
      → Option Fields × OpReply
  update_doc updated id f u none = (some (updated u (field "_id" (str id) end)), upserted)
  update_doc updated id f u (some d) =
      if matches f d then (some (updated u d), matched) else (some d, write_error duplicate_key)

-- Models one after another.
module _ {State : Type 0} (exec : State → String → WriteModel → State × OpReply) where
  unfoldable pub run_each : State → String → List WriteModel → State × List OpReply
  run_each s c [] = (s, [])
  run_each s c (m ∷ ms) =
      let rest = run_each (exec s c m).0 c ms in (rest.0, (exec s c m).1 ∷ rest.1)

abbrev pub run_models : (S : Server) → S.State → String → List WriteModel → S.State × List OpReply
run_models S = run_each S.exec

module _ (S : Server) where
  -- Only the document of that collection and id has changed, and to `d`.
  abbrev pub Replaced : S.State → String → String → Option Fields → S.State → Type 0
  Replaced s c id d s' =
      (c' id' : String)
      → S.find s' c' id' ≡ (if (c' == c) && (id' == id) then d else S.find s c' id')

  abbrev pub SameDocs : S.State → S.State → Type 0
  SameDocs s t = (c id : String) → S.find s c id ≡ S.find t c id

abbrev pub error_codes : List OpReply → List ℕ
error_codes [] = []
error_codes (write_error code ∷ rs) = code ∷ error_codes rs
error_codes (_ ∷ rs) = error_codes rs

-- The acknowledged models: those that matched, inserted or deleted.
abbrev pub acked : List OpReply → ℕ
acked [] = 0
acked (matched ∷ rs) = suc (acked rs)
acked (upserted ∷ rs) = suc (acked rs)
acked (deleted ∷ rs) = suc (acked rs)
acked (_ ∷ rs) = acked rs

abbrev pub acked_count : Counts → ℕ
acked_count n = n.matched_count + n.upserted_count + n.deleted_count

-- A reply accounts for a run of all models.
abbrev pub Accounts : BulkReply → List OpReply → Type 0
Accounts (done (some n)) rs = (error_codes rs ≡ []) × (acked rs ≡ acked_count n)
Accounts (done none) rs = Unit
Accounts (failed e) rs = elim e.bulk [ none ↦ Unit | some b ↦ error_codes rs ≡ b.codes ]

-- A reply that says that the server has tried every model.
abbrev pub tried_all : BulkReply → Bool
tried_all (done none) = false
tried_all (done (some n)) = true
tried_all (failed e) = elim e.bulk [
  | none ↦ false
  | some b ↦ elim b.codes [ [] ↦ false | _ ∷ _ ↦ true ]
]

pub record IsLawful (S : Server) : Type 0 where
  pub matches-end : (d : Fields) → S.matches end d ≡ true
  pub matches-id :
      (id : String) (rest d : Fields)
      → get "_id" d ≡ some (str id)
      → S.matches (field "_id" (str id) rest) d ≡ S.matches rest d
  pub matches-lsn_lt :
      (n : ℤ) (rest d : Fields)
      → ¬ (stamp_of (get "sourceLsn" d) ≡ foreign)
      → S.matches (field "sourceLsn" (obj (field "$lt" (int n) end)) rest) d
        ≡ (stamp_lt n (stamp_of (get "sourceLsn" d)) && S.matches rest d)
  pub matches-lsn_missing :
      (d : Fields)
      → S.matches (field "sourceLsn" (obj (field "$exists" (bool false) end)) end) d
        ≡ is_unset (stamp_of (get "sourceLsn" d))
  pub matches-or :
      (fs : Items) (rest d : Fields)
      → S.matches (field "$or" (arr fs) rest) d ≡ (any_matches S.matches fs d && S.matches rest d)
  pub get-updated :
      (set d : Fields) (k : String)
      → AllKeys is_plain set
      → get k (S.updated (field "$set" (obj set) end) d) ≡ first_some (get k set) (get k d)
  pub find-id :
      (s : S.State) (c id : String) (d : Fields)
      → S.find s c id ≡ some d
      → get "_id" d ≡ some (str id)
  pub exec-delete_one :
      (s : S.State) (c id : String) (rest : Fields)
      → let f = field "_id" (str id) rest in
        let r = delete_doc S.matches f (S.find s c id) in
        Replaced S s c id r.0 (S.exec s c (delete_one f)).0 × ((S.exec s c (delete_one f)).1 ≡ r.1)
  pub exec-update_one :
      (s : S.State) (c id : String) (rest u : Fields)
      → let f = field "_id" (str id) rest in
        let r = update_doc S.matches S.updated id f u (S.find s c id) in
        Replaced S s c id r.0 (S.exec s c (update_one f (some u) true)).0
        × ((S.exec s c (update_one f (some u) true)).1 ≡ r.1)
  -- Writes are acknowledged, which is the driver's default.
  pub acknowledged :
      (s : S.State) (c : String) (ms : List WriteModel) → ¬ ((S.bulk_write s c ms).1 ≡ done none)
  -- Unordered: the models run one by one in some order, each once, and an error stops none.
  pub bulk_write-run :
      (s : S.State) (c : String) (ms : List WriteModel)
      → tried_all (S.bulk_write s c ms).1 ≡ true
      → (order : List WriteModel) × Permᴰ order ms
        × SameDocs S (S.bulk_write s c ms).0 (run_models S s c order).0
        × Accounts (S.bulk_write s c ms).1 (run_models S s c order).1

-- Whatever a bulk write answers, some of its models have run, in some order, and no others, and it is
-- over.
pub record RunsSome (S : Server) : Type 0 where
  pub bulk_write-some :
      (s : S.State) (c : String) (ms : List WriteModel)
      → (order : List WriteModel) × Within order ms
        × SameDocs S (S.bulk_write s c ms).0 (run_models S s c order).0
