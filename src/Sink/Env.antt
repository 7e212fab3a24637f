-- ===== src/Sink/Env.antt =====
-- services/sink/cmd/sink: the readers of the environment. `strconv.Atoi` reads what the decoder's
-- `int64` reads, where an int has 64 bits.
use public_pg2mongo_cd_c.Base.{
  String, Option, none, some, ◌≡◌, refl, ◌==◌, if◌then◌else◌, ℤ, Bool-cases, inl, inr,
}
use public_pg2mongo_cd_c.Decoder.Number.{int64, int64-IsInt64, IsInt64}

-- `os.LookupEnv`, as the answer for the key.
abbrev pub env : Option String → String → String
env none d = d
env (some v) d = if v == "" then d else v

abbrev or_int : Option ℤ → ℤ → ℤ
or_int none d = d
or_int (some n) d = n

abbrev pub env_int : Option String → ℤ → ℤ
env_int none d = d
env_int (some v) d = if v == "" then d else or_int (int64 v) d

or_int-IsInt64 :
    (o : Option ℤ) (d : ℤ) → ((n : ℤ) → o ≡ some n → IsInt64 n) → IsInt64 d → IsInt64 (or_int o d)
or_int-IsInt64 none d h k = k
or_int-IsInt64 (some n) d h k = h n refl

-- Whatever the variable holds, the number fits in 64 bits if the default does.
pub env_int-IsInt64 : (o : Option String) (d : ℤ) → IsInt64 d → IsInt64 (env_int o d)
env_int-IsInt64 none d k = k
env_int-IsInt64 (some v) d k = elim (Bool-cases (v == "")) [
  | inl e ↦ rw e k
  | inr e ↦ rw e (or_int-IsInt64 (int64 v) d (int64-IsInt64 v) k)
]
