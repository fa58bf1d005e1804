-- ===== src/Kafka/Sequence.antt =====
-- Batches of metrics and rounds of clearing, from a new key cache on.
use tsdb_gw.Base.{
  Bool, List, Option, [], append-nil, arith, false, if◌then◌else◌, inl, inr, none, not, refl, some,
  subst, sym, true, ℕ, ◌++◌, ◌∙◌, ◌∷◌, ◌≡◌, ◌⊎◌,
}
use tsdb_gw.Base.Eq.{bytes_eq, int_eq, nat_eq, ◌==◌}
use tsdb_gw.Base.Int.{ℤ}
use tsdb_gw.Base.Map.{get}
use tsdb_gw.Base.Text.{is_empty}
use tsdb_gw.Kafka.{TopicSettings}
use tsdb_gw.Kafka.Batches.{Good, GoodBatch, collect-GoodBatch}
use tsdb_gw.Kafka.Encode.{
  Collected, Message, MetricDataBuffer, Options, Outcome, Wire, collect, publish_batch,
}
use tsdb_gw.Kafka.History.{Consumer, FullIn, IsOrdered}
use tsdb_gw.Keycache.{KeyCache, clear_round, first_byte, new_key_cache}
use tsdb_gw.Keycache.Refinement.{Stands-new}
use tsdb_gw.Keycache.Rounds.{clear_round-IsValid, seen-clear_round}
use tsdb_gw.Keycache.Seen.{seen}
use tsdb_gw.Metric.{Metric}

-- What happens to the publisher.
pub data BatchEvent : Type 0 where
  batch : List Metric → BatchEvent
  clearing : BatchEvent

module _ {P K : Type 0} (wire : Wire P) (options : Options) (consumer : Consumer K wire options)
    (v2 : options.v2 ≡ true) where
  module _ (has_producer : Bool) (topics : List (TopicSettings P))
      (send_messages : List Message → Bool) where
    moved :
        (sent payload : List Message) (cache : KeyCache)
        → Good wire options consumer v2 sent cache payload []
        → Good wire options consumer v2 (sent ++ payload) cache [] []
    moved sent payload cache g = record {
      valid_cache = g.valid_cache;
      seen_full = λ k h s.
          subst (FullIn wire options consumer (consumer.read k))
            (sym (append-nil (sent ++ payload))) (g.seen_full k h s);
      buffers_full = λ o b e.
          subst (FullIn wire options consumer (consumer.key_of b))
            (sym (append-nil (sent ++ payload))) (g.buffers_full o b e);
      ordered =
          subst (IsOrdered wire options consumer []) (sym (append-nil (sent ++ payload))) g.ordered;
    }

    idle :
        (sent : List Message) (cache : KeyCache)
        → Good wire options consumer v2 sent cache [] []
        → Good wire options consumer v2 (sent ++ []) cache [] []
    idle sent cache g = moved sent [] cache g

    publish_batch-Good :
        (sent : List Message) (cache : KeyCache) (ms : List Metric)
        → Good wire options consumer v2 sent cache [] []
        → let o = publish_batch wire options has_producer topics send_messages cache ms in
          (o.fine ≡ false) ⊎ Good wire options consumer v2 (sent ++ o.sent) o.cache [] []
    unfolding publish_batch
    publish_batch-Good sent cache ms g =
        go (not has_producer) (is_empty ms) (is_empty topics)
          (collect wire options topics cache [] ms)
          (collect-GoodBatch wire options consumer v2 sent [] topics cache ms g)
      where
        After : Outcome wire options → Type 0
        After o = (o.fine ≡ false) ⊎ Good wire options consumer v2 (sent ++ o.sent) o.cache [] []

        finish :
            (fine : Bool) (c : Collected wire options)
            → c.fine ≡ fine
            → GoodBatch wire options consumer v2 sent c
            → After (
                if fine
                then record {
                  fine = send_messages c.payload;
                  sent = c.payload;
                  metrics = c.metrics;
                  cache = c.cache;
                }
                else record { fine = false; sent = []; metrics = c.metrics; cache = c.cache })
        finish false c e h = inl refl
        finish true c e (inl f) = cc (e, f)
        finish true c e (inr h) = inr (moved sent c.payload c.cache h)

        go :
            (a b d : Bool) (c : Collected wire options)
            → GoodBatch wire options consumer v2 sent c
            → After (
                let i : Outcome wire options = record {
                  fine = true;
                  sent = [];
                  metrics = ms;
                  cache = cache;
                } in
                if a
                then i
                else if b
                then i
                else if d
                then i
                else if c.fine
                then record {
                  fine = send_messages c.payload;
                  sent = c.payload;
                  metrics = c.metrics;
                  cache = c.cache;
                }
                else record { fine = false; sent = []; metrics = c.metrics; cache = c.cache })
        go true b d c h = inr (idle sent cache g)
        go false true d c h = inr (idle sent cache g)
        go false false true c h = inr (idle sent cache g)
        go false false false c h = finish c.fine c refl h

    clear_round-Good :
        (sent : List Message) (cache : KeyCache)
        → Good wire options consumer v2 sent cache [] []
        → Good wire options consumer v2 sent (clear_round cache) [] []
    clear_round-Good sent cache g = record {
      valid_cache = clear_round-IsValid cache g.valid_cache;
      seen_full = λ k h s. g.seen_full k h (
          was_seen (first_byte k.key == cache.clear_idx) (seen cache k)
            (sym (seen-clear_round cache k g.valid_cache) ∙ s));
      buffers_full = g.buffers_full;
      ordered = g.ordered;
    }
      where
        was_seen : (b known : Bool) → (if b then false else known) ≡ true → known ≡ true
        was_seen true known e = cc e
        was_seen false known e = e

    -- What Kafka has been sent once the events are over, `none` if a publication failed.
    unfoldable pub run_events : KeyCache → List Message → List BatchEvent → Option (List Message)
    run_events cache sent [] = some sent
    run_events cache sent (batch ms ∷ es) =
        let o = publish_batch wire options has_producer topics send_messages cache ms in
        let rest = run_events o.cache (sent ++ o.sent) es in if o.fine then rest else none
    run_events cache sent (clearing ∷ es) = run_events (clear_round cache) sent es

    run_events-IsOrdered :
        (cache : KeyCache) (sent all : List Message) (es : List BatchEvent)
        → Good wire options consumer v2 sent cache [] []
        → run_events cache sent es ≡ some all
        → IsOrdered wire options consumer [] all
    unfolding run_events
    run_events-IsOrdered cache sent all [] g e =
        subst (IsOrdered wire options consumer []) (append-nil sent ∙ same_list sent all e)
          g.ordered
      where
        same_list : (a b : List Message) → some a ≡ some b → a ≡ b
        same_list a b f = ground arith
    run_events-IsOrdered cache sent all (batch ms ∷ es) g e =
        go (publish_batch wire options has_producer topics send_messages cache ms)
          (publish_batch-Good sent cache ms g) e
          (λ o h. run_events-IsOrdered o.cache (sent ++ o.sent) all es h)
      where
        go :
            (o : Outcome wire options)
            → (o.fine ≡ false) ⊎ Good wire options consumer v2 (sent ++ o.sent) o.cache [] []
            → (if o.fine then run_events o.cache (sent ++ o.sent) es else none) ≡ some all
            → ((o : Outcome wire options)
                → Good wire options consumer v2 (sent ++ o.sent) o.cache [] []
                → run_events o.cache (sent ++ o.sent) es ≡ some all
                → IsOrdered wire options consumer [] all)
            → IsOrdered wire options consumer [] all
        go o (inl bad) f ih = cc (if_false o.fine _ bad f)
          where
            if_false :
                (b : Bool) (x : Option (List Message))
                → b ≡ false
                → (if b then x else none) ≡ some all
                → none ≡ some all
            if_false true x h k = cc h
            if_false false x h k = k
        go o (inr h) f ih = ih o h (if_some o.fine _ f)
          where
            if_some :
                (b : Bool) (x : Option (List Message))
                → (if b then x else none) ≡ some all
                → x ≡ some all
            if_some true x k = k
            if_some false x k = cc k
    run_events-IsOrdered cache sent all (clearing ∷ es) g e =
        run_events-IsOrdered (clear_round cache) sent all es (clear_round-Good sent cache g) e

    Good-new : (interval : ℕ) → Good wire options consumer v2 [] (new_key_cache interval) [] []
    Good-new interval = record {
      valid_cache = (Stands-new interval).valid;
      seen_full = λ k h s. cc (sym ((Stands-new interval).agrees k h) ∙ s);
      buffers_full = λ o b e. none_kept o b e;
      ordered = tt;
    }
      where
        none_kept :
            (o : ℤ) (b : MetricDataBuffer)
            → get [] o ≡ some b
            → FullIn wire options consumer (consumer.key_of b) []
        none_kept o b e = unfold get in cc e

    -- From a new key cache, with v2, over any series of batches and rounds of clearing in which
    -- every publication succeeds: every message that Kafka was sent is a whole metric or comes
    -- after a whole metric with its key, when ids name keys of 16 bytes and both formats hold the
    -- key of their metric.
    pub points_follow_data :
        (interval : ℕ) (es : List BatchEvent) (sent : List Message)
        → run_events (new_key_cache interval) [] es ≡ some sent
        → IsOrdered wire options consumer [] sent
    points_follow_data interval es sent e =
        run_events-IsOrdered (new_key_cache interval) [] sent es (Good-new interval) e
