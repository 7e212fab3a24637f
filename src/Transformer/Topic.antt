-- ===== src/Transformer/Topic.antt =====
-- `targetTopic`: where the records of a topic go.
use Prim.Native.Char.{code}
use Prim.Native.Nat.{ℕ}
use mathlib.Core.Path.{sym}
use text.Mathlib.TextLemmas.{nil-append, cons-append, append_cancel_left}
use public_pg2mongo_cd_c.Base.{String, ◌<>◌, some, ◌≡◌, ◌∙◌, ap, arith, eqb, true}
use public_pg2mongo_cd_c.Mapper.Text.{cut_prefix}
use public_pg2mongo_cd_c.Transformer.{target_topic, topic_of}

eqb_self : (n : ℕ) → eqb n n ≡ true
eqb_self n = ground arith

cut_prefix-append : (p s : String) → cut_prefix (p <> s) p ≡ some s
unfolding cut_prefix
cut_prefix-append String.[] s = ap some (nil-append s)
cut_prefix-append (String.◌∷◌ c p) s =
    rw (cons-append c p s, eqb_self (code c)) (cut_prefix-append p s)

-- A topic of the consumer's pattern keeps its name under the new prefix.
target_topic-cdc : (rest : String) → target_topic ("cdc." <> rest) ≡ "transformed." <> rest
unfolding target_topic
target_topic-cdc rest = ap (topic_of ("cdc." <> rest)) (cut_prefix-append "cdc." rest)

-- A topic "cdc.a" is sent to "transformed.a", and no two topics that begin with "cdc." are sent to
-- one topic.
pub target_topic_injective :
    (a b : String)
    → (target_topic ("cdc." <> a) ≡ "transformed." <> a)
      × (target_topic ("cdc." <> a) ≡ target_topic ("cdc." <> b) → a ≡ b)
target_topic_injective a b = (
  target_topic-cdc a,
  λ h. append_cancel_left "transformed." a b (sym (target_topic-cdc a) ∙ (h ∙ target_topic-cdc b)),
)
