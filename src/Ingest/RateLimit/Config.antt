-- ===== src/Ingest/RateLimit/Config.antt =====
-- The text of the flag "rate-limits" and the limiters that it configures.
use tsdb_gw.Base.{All, List, [], ap, arith, false, map, refl, some, ◌++◌, ◌∙◌, ◌∷◌, ◌≡◌, ℕ}
use tsdb_gw.Base.Decimal.{Lacks-append, itoa-Lacks, parse_int-itoa, split-join, split-whole}
use tsdb_gw.Base.Eq.{bytes_eq, int_eq, nat_eq}
use tsdb_gw.Base.Int.{InSigned, ℤ}
use tsdb_gw.Base.Map.{put}
use tsdb_gw.Base.Number.{itoa}
use tsdb_gw.Base.Text.{Bytes, Lacks, is_empty, split, split_two, split_two-join}
use tsdb_gw.Ingest.RateLimit.{Limiters, configure_from, configure_rate_limits, parse_limit}

-- The text of one limit, and of several, as the flag's help describes it.
pub limit_text : ℤ × ℤ → Bytes
limit_text (org, limit) = itoa org ++ b':' ∷ itoa limit

pub limits_text : ℤ × ℤ → List (ℤ × ℤ) → Bytes
limits_text l [] = limit_text l
limits_text l (k ∷ ls) = limit_text l ++ b';' ∷ limits_text k ls

abbrev pub FitsInt32 : ℤ × ℤ → Type 0
FitsInt32 (org, limit) = InSigned 31 org × InSigned 31 limit

-- The limits in order, a later one for an organisation replacing an earlier one.
pub put_limits : Limiters → List (ℤ × ℤ) → Limiters
put_limits m [] = m
put_limits m ((org, limit) ∷ ls) = put_limits (put m org limit) ls

parse_limit-text : (l : ℤ × ℤ) → FitsInt32 l → parse_limit (split_two (limit_text l) b':') ≡ some l
unfolding limit_text
parse_limit-text (org, limit) h =
    ap parse_limit (split_two-join (itoa org) (itoa limit) b':' (itoa-Lacks org b':' (omega arith)))
    ∙ rw (parse_int-itoa org 31 h.0, parse_int-itoa limit 31 h.1)

limit_text-Lacks : (l : ℤ × ℤ) → Lacks b';' (limit_text l)
unfolding limit_text
limit_text-Lacks (org, limit) =
    Lacks-append (itoa org) (b':' ∷ itoa limit) b';' (itoa-Lacks org b';' (omega arith))
      (omega arith, itoa-Lacks limit b';' (omega arith))

split-limits_text :
    (l : ℤ × ℤ) (ls : List (ℤ × ℤ)) → split (limits_text l ls) b';' ≡ map limit_text (l ∷ ls)
unfolding limits_text
split-limits_text l [] = split-whole (limit_text l) b';' (limit_text-Lacks l)
split-limits_text l (k ∷ ls) =
    split-join (limit_text l) (limits_text k ls) b';' (limit_text-Lacks l)
    ∙ ap (λ ts. limit_text l ∷ ts) (split-limits_text k ls)

configure_from-texts :
    (m : Limiters) (ls : List (ℤ × ℤ))
    → All FitsInt32 ls
    → configure_from m (map limit_text ls) ≡ some (put_limits m ls)
unfolding configure_from put_limits
configure_from-texts m [] h = refl
configure_from-texts m (l ∷ ls) h =
    rw (parse_limit-text l h.0) (configure_from-texts (put m l.0 l.1) ls h.1)

append_nonempty : (s t : Bytes) (c : ℕ) → is_empty (s ++ c ∷ t) ≡ false
append_nonempty [] t c = refl
append_nonempty (d ∷ s) t c = refl

limits_text_nonempty : (l : ℤ × ℤ) (ls : List (ℤ × ℤ)) → is_empty (limits_text l ls) ≡ false
unfolding limits_text limit_text
limits_text_nonempty (org, limit) [] = append_nonempty (itoa org) (itoa limit) b':'
limits_text_nonempty (org, limit) (k ∷ ls) =
    append_nonempty (limit_text (org, limit)) (limits_text k ls) b';'

-- Limits that fit an int32 and are written the way the flag's help says are configured as they are
-- meant: each organisation gets the last limit that is listed for it.
pub configure-limits_text :
    (l : ℤ × ℤ) (ls : List (ℤ × ℤ))
    → All FitsInt32 (l ∷ ls)
    → configure_rate_limits (limits_text l ls) ≡ some (put_limits [] (l ∷ ls))
unfolding configure_rate_limits
configure-limits_text l ls h =
    rw (limits_text_nonempty l ls, split-limits_text l ls) (configure_from-texts [] (l ∷ ls) h)
