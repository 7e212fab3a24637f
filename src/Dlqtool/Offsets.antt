-- ===== src/Dlqtool/Offsets.antt =====
-- services/sink/cmd/dlqtool: `topicOffsets` and `totalLag`. The answers of the admin client are
-- inputs; a map over partitions is an association list, and a partition's number is natural.
use public_pg2mongo_cd_c.Base.{
  ℕ, ◌+◌, ◌-◌, ◌%◌, ◌^◌, ◌<◌, Bool, true, false, Option, none, some, ◌≡◌, arith,
}
use public_pg2mongo_cd_c.Base.{
  List, [], ◌∷◌, ltb, eqb, if◌then◌else◌, ℤ, pos, negsuc, pos_part, ◌≤ℤ◌, All,
}

abbrev pub Offsets : Type 0
Offsets = List (ℕ × ℤ)

-- `m[p]`, which is 0 where the key is missing, and `m[p] = v`.
unfoldable pub at : Offsets → ℕ → ℤ
at [] p = pos 0
at ((q, v) ∷ m) p = if eqb p q then v else at m p

unfoldable pub assign : ℕ → ℤ → Offsets → Offsets
assign p v [] = (p, v) ∷ []
assign p v ((q, w) ∷ m) = if eqb p q then (p, v) ∷ m else (q, w) ∷ assign p v m

module _ (E : Type 0) where
  pub record ListedOffset : Type 0 where
    pub partition : ℕ
    pub offset : ℤ
    pub err : Option E

  -- What a call of the admin client returns.
  pub data Listed : Type 0 where
    list_error : E → Listed
    listed : List ListedOffset → Listed

  pub data TopicOffsets : Type 0 where
    offsets_error : E → TopicOffsets
    -- The start offsets, the end offsets, and whether the topic exists.
    offsets : Offsets → Offsets → Bool → TopicOffsets

module _ {E : Type 0} where
  abbrev pub has_err : Option E → Bool
  has_err none = false
  has_err (some e) = true

  unfoldable pub collect : List (ListedOffset E) → Offsets → Offsets
  collect [] m = m
  collect (o ∷ os) m = collect os (if has_err o.err then m else assign o.partition o.offset m)

  unfoldable pub exists : List (ListedOffset E) → Bool
  exists [] = false
  exists (o ∷ os) = let rest = exists os in if has_err o.err then rest else true

  abbrev after_start : List (ListedOffset E) → Listed E → TopicOffsets E
  after_start ends (list_error e) = offsets_error e
  after_start ends (listed starts) = offsets (collect starts []) (collect ends []) (exists ends)

  abbrev after_end : Listed E → Listed E → TopicOffsets E
  after_end (list_error e) starts = offsets_error e
  after_end (listed ends) starts = after_start ends starts

  -- The inputs: the error of the admin client, the answer for the ends, and the one for the starts.
  unfoldable pub topic_offsets : Option E → Listed E → Listed E → TopicOffsets E
  topic_offsets (some e) ends starts = offsets_error e
  topic_offsets none ends starts = after_end ends starts

-- The 64 bits of an int64, and the number that they stand for.
abbrev pub bits : ℤ → ℕ
bits (pos n) = n % 2 ^ 64
bits (negsuc n) = 2 ^ 64 - 1 - n % 2 ^ 64

abbrev pub of_bits : ℕ → ℤ
of_bits w = if ltb w (2 ^ 63) then pos w else negsuc (2 ^ 64 - 1 - w)

unfoldable pub add_lags : Offsets → Offsets → ℕ → ℕ
add_lags start [] n = n
add_lags start ((p, e) ∷ end) n =
    add_lags start end ((n + (bits e + (2 ^ 64 - bits (at start p)))) % 2 ^ 64)

unfoldable pub total_lag : Offsets → Offsets → ℤ
total_lag start end = of_bits (add_lags start end 0)

-- The records between the offsets, with no bound on their number.
abbrev pub between : Offsets → Offsets → ℕ
between start [] = 0
between start ((p, e) ∷ end) = pos_part e - pos_part (at start p) + between start end

-- The start of each partition with an end is no later than it, and both are in the range of an
-- int64 that is not negative.
abbrev pub InOrder : Offsets → Offsets → Type 0
InOrder start end =
    All
      (λ (pe : ℕ × ℤ).
        (pos 0 ≤ℤ at start pe.0) × (at start pe.0 ≤ℤ pe.1) × (pos_part pe.1 < 2 ^ 63))
      end

one_lag :
    (n : ℕ) (s : ℤ) (e : ℤ)
    → pos 0 ≤ℤ s
    → s ≤ℤ e
    → n + (pos_part e - pos_part s) < 2 ^ 63
    → pos_part e < 2 ^ 63
    → (n + (bits e + (2 ^ 64 - bits s))) % 2 ^ 64 ≡ n + (pos_part e - pos_part s)
one_lag n s e h k small fits = ground arith

pub add_lags-eq :
    (start : Offsets) (end : Offsets) (n : ℕ)
    → InOrder start end
    → n + between start end < 2 ^ 63
    → add_lags start end n ≡ n + between start end
unfolding add_lags
add_lags-eq start [] n h small = omega arith
add_lags-eq start ((p, e) ∷ end) n ((lo, hi, fits), hs) small =
    let one = one_lag n (at start p) e lo hi (omega (arith, small)) fits in
    rw one (
      omega (
        arith,
        add_lags-eq start end (n + (pos_part e - pos_part (at start p))) hs (omega (arith, small)),
      ))

-- If each partition with an end starts no later than there, both fit a non-negative int64, and the
-- number of records between them is below 2^63, the lag is that number: the 64-bit sum is exact.
pub total_lag-eq-between :
    (start : Offsets) (end : Offsets)
    → InOrder start end
    → between start end < 2 ^ 63
    → total_lag start end ≡ pos (between start end)
unfolding total_lag
total_lag-eq-between start end h small =
    let e = add_lags-eq start end 0 h (omega (arith, small)) in ground arith
