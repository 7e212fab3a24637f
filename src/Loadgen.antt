-- ===== src/Loadgen.antt =====
-- services/loadgen/internal/api: the handlers that make load on Postgres. encoding/json is outside:
-- what it decodes from a request is an input. Go's texts are concatenated as the code does, and
-- `text` is the `Error` method.
pub mod Db
pub mod Answers
use public_pg2mongo_cd_c.Base.{
  ℕ, String, ◌<>◌, Bool, Option, none, some, ℤ, pos, negsuc, eqb, false, ◌==◌, if◌then◌else◌,
}

-- A Go pair of a value and an error, of which one counts.
pub data Result (E : Type 0) (A : Type 0) : Type 0 where
  ok : A → Result E A
  fail : E → Result E A

-- `Store`; `V` stands for `map[string]any`.
pub record Store (E : Type 0) (V : Type 0) : Type 1 where
  pub State : Type 0
  pub insert_user : String → String → V → State → State × Result E ℤ
  pub update_random_user : String → State → State × Result E ℤ
  pub delete_random_user : State → State × Result E ℤ

pub record InsertBody (V : Type 0) : Type 0 where
  pub email : String
  pub full_name : String
  pub profile : Option V

-- What a handler writes: the status, and the error text or the id in the body, if there is one.
pub data Body : Type 0 where
  empty : Body
  error_text : String → Body
  id : ℤ → Body

pub record Response : Type 0 where
  pub status : ℕ
  pub body : Body

abbrev pub http_err : ℕ → String → Response
http_err code msg = record { status = code; body = error_text msg }

abbrev pub write_id : ℕ → ℤ → Response
write_id code n = record { status = code; body = id n }

abbrev pub write_header : ℕ → Response
write_header code = record { status = code; body = empty }

abbrev pub is_zero : ℤ → Bool
is_zero (pos n) = eqb n 0
is_zero (negsuc n) = false

abbrev pub or_default : String → String → String
or_default d s = if s == "" then d else s

-- `health`
unfoldable pub health : Response
health = write_header 200

module _ {E : Type 0} {V : Type 0} (text : E → String) (store : Store E V) where
  abbrev inserted : store.State × Result E ℤ → store.State × Response
  inserted (s, fail e) = (s, http_err 500 ("insert: " <> text e))
  inserted (s, ok n) = (s, write_id 201 n)

  abbrev profile_of : V → Option V → V
  profile_of d none = d
  profile_of d (some v) = v

  -- `no_entries` is `map[string]any{}`.
  unfoldable pub insert : V → Result E (InsertBody V) → store.State → store.State × Response
  insert no_entries (fail e) s = (s, http_err 400 ("invalid JSON: " <> text e))
  insert no_entries (ok b) s =
      if b.email == ""
      then (s, http_err 400 "email required")
      else inserted (store.insert_user b.email b.full_name (profile_of no_entries b.profile) s)

  abbrev updated : store.State × Result E ℤ → store.State × Response
  updated (s, fail e) = (s, http_err 500 ("update: " <> text e))
  updated (s, ok n) = (s, (if is_zero n then write_header 204 else write_id 200 n))

  -- The input is `full_name` of the body.
  unfoldable pub update_random : Result E String → store.State → store.State × Response
  update_random (fail e) s = (s, http_err 400 ("invalid JSON: " <> text e))
  update_random (ok name) s = updated (store.update_random_user (or_default "updated" name) s)

  abbrev deleted : store.State × Result E ℤ → store.State × Response
  deleted (s, fail e) = (s, http_err 500 ("delete: " <> text e))
  deleted (s, ok n) = (s, (if is_zero n then write_header 204 else write_id 200 n))

  unfoldable pub delete_random : store.State → store.State × Response
  delete_random s = deleted (store.delete_random_user s)
