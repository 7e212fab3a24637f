-- ===== src/Decoder.antt =====
-- services/sink/internal/decoder: one Debezium record into an event. encoding/json is a parameter.
pub mod Number
pub mod Laws
use mathlib.Core.List.{reverse}
use public_pg2mongo_cd_c.Base.{ℕ, zero, suc, String, Bool, true, false, Option, none, some, ℤ, pos}
use public_pg2mongo_cd_c.Base.{List, [], ◌∷◌, length, eqb, ◌==◌, ◌&&◌, ◌||◌, leb, if◌then◌else◌}
use public_pg2mongo_cd_c.Value.{Fields}
use public_pg2mongo_cd_c.Writer.{CdcEvent}
use public_pg2mongo_cd_c.Decoder.Number.{int64}

-- The fields of `valueEnvelope` and `keyEnvelope`; a `json.Number` is its text, "" if it is absent.
pub record ValueEnvelope : Type 0 where
  pub before : Option Fields
  pub after : Option Fields
  pub lsn : String
  pub table : String
  pub ts_ms : String
  pub op : String

pub record KeyEnvelope : Type 0 where
  pub id : String

-- `json.Unmarshal` into the two types; `none` is an error.
pub record Json : Type 0 where
  pub value_envelope : List ℕ → Option ValueEnvelope
  pub key_envelope : List ℕ → Option KeyEnvelope

pub data DecodeError : Type 0 where
  tombstone parse_value parse_key bad_lsn empty_pk : DecodeError

pub data Decoded : Type 0 where
  ok : CdcEvent → Decoded
  err : DecodeError → Decoded

abbrev ascii_space : ℕ → Bool
ascii_space b = (leb 9 b && leb b 13) || eqb b 32

abbrev pub when : Bool → ℕ → ℕ → ℕ
when b n other = if b then n else other

-- The bytes of the white space that a text begins with, as `unicode.IsSpace` has it, or 0.
abbrev three_bytes : ℕ → ℕ → ℕ → Bool
three_bytes a b c =
    (eqb a 0xe1 && eqb b 0x9a && eqb c 0x80)
    || (eqb a 0xe2
        && eqb b 0x80
        && (leb 0x80 c && leb c 0x8a || eqb c 0xa8 || eqb c 0xa9 || eqb c 0xaf))
    || (eqb a 0xe2 && eqb b 0x81 && eqb c 0x9f)
    || (eqb a 0xe3 && eqb b 0x80 && eqb c 0x80)

abbrev two_bytes : ℕ → ℕ → Bool
two_bytes a b = eqb a 0xc2 && (eqb b 0x85 || eqb b 0xa0)

space_width : List ℕ → ℕ
space_width [] = 0
space_width (a ∷ []) = when (ascii_space a) 1 0
space_width (a ∷ b ∷ []) = when (ascii_space a) 1 (when (two_bytes a b) 2 0)
space_width (a ∷ b ∷ c ∷ s) =
    when (ascii_space a) 1 (when (two_bytes a b) 2 (when (three_bytes a b c) 3 0))

-- The same for a text that is read from its end.
space_width_back : List ℕ → ℕ
space_width_back [] = 0
space_width_back (a ∷ []) = when (ascii_space a) 1 0
space_width_back (b ∷ a ∷ []) = when (ascii_space b) 1 (when (two_bytes a b) 2 0)
space_width_back (c ∷ b ∷ a ∷ s) =
    when (ascii_space c) 1 (when (two_bytes b c) 2 (when (three_bytes a b c) 3 0))

abbrev drop : ℕ → List ℕ → List ℕ
drop zero s = s
drop (suc n) [] = []
drop (suc n) (b ∷ s) = drop n s

-- Each round takes a byte at least, so the length of the text is fuel enough.
trim : (List ℕ → ℕ) → ℕ → List ℕ → List ℕ
trim width zero s = s
trim width (suc fuel) s =
    let rest = trim width fuel (drop (width s) s) in if eqb (width s) 0 then s else rest

-- `bytes.TrimSpace`
unfoldable pub trim_space : List ℕ → List ℕ
unfolding trim space_width space_width_back
trim_space s =
    let t = trim space_width (length s) s in reverse (trim space_width_back (length t) (reverse t))

abbrev pub same_bytes : List ℕ → List ℕ → Bool
same_bytes [] [] = true
same_bytes (a ∷ s) (b ∷ t) = eqb a b && same_bytes s t
same_bytes _ _ = false

abbrev pub null_bytes : List ℕ
null_bytes = b'n' ∷ b'u' ∷ b'l' ∷ b'l' ∷ []

-- A nil value and an empty one look the same here.
unfoldable pub is_tombstone : List ℕ → Bool
is_tombstone value = eqb (length value) 0 || same_bytes (trim_space value) null_bytes

-- `source.ts_ms`, or 0 where it cannot be read.
abbrev pub best_effort : Option ℤ → ℤ
best_effort none = pos 0
best_effort (some n) = n

unfoldable pub source_ts_ms_of : String → ℤ
source_ts_ms_of s = if s == "" then pos 0 else best_effort (int64 s)

abbrev pub event_of : ValueEnvelope → KeyEnvelope → ℤ → CdcEvent
event_of v k lsn = record {
  table = v.table;
  pk = k.id;
  lsn = lsn;
  source_ts_ms = source_ts_ms_of v.ts_ms;
  op = v.op;
  after = v.after;
  before = v.before;
}

abbrev or_err {ℓ} : {A : Type ℓ} → Option A → DecodeError → (A → Decoded) → Decoded
or_err none e f = err e
or_err (some a) e f = f a

unfoldable pub decode : Json → List ℕ → List ℕ → Decoded
decode json key value =
    if is_tombstone value
    then err tombstone
    else or_err (json.value_envelope value) parse_value λ v.
      or_err (json.key_envelope key) parse_key λ k.
        or_err (int64 v.lsn) bad_lsn
          λ lsn. if k.id == "" then err empty_pk else ok (event_of v k lsn)
