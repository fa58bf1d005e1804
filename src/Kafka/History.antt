-- ===== src/Kafka/History.antt =====
-- What Kafka has been sent over many batches, while rounds of clearing go on.
use tsdb_gw.Base.{
  List, Option, [], append-nil, append_assoc, false, if◌then◌else◌, inl, inr, none, refl, some,
  subst, sym, true, ℕ, ◌++◌, ◌∷◌, ◌≡◌, ◌⊎◌, Bool-cases, ◌∙◌, ap, arith, ◌&&◌,
}
use tsdb_gw.Base.Eq.{bytes_eq, int_eq, nat_eq, bytes_eqb_iff, ◌==◌}
use tsdb_gw.Base.Int.{ℤ, int_eqb}
use tsdb_gw.Base.Map.{Map, get, put, get-put}
use tsdb_gw.Base.Number.{◌>>=◌}
use tsdb_gw.Base.Text.{Bytes}
use tsdb_gw.Kafka.Encode.{
  Message, MetricDataBuffer, Options, Wire, data_from_metric_data, keyed_data, metric_data,
  metric_point, metric_point_no_org, to_uint32, Turn,
}
use tsdb_gw.Keycache.{KeyCache, MKey, touch}
use tsdb_gw.Keycache.Rounds.{seen-touch, touch-IsValid}
use tsdb_gw.Keycache.Seen.{IsKey, IsValid, seen}
use tsdb_gw.Metric.{Metric}

same_mkey : (k j : MKey) → (k.org == j.org && k.key == j.key) ≡ true → k ≡ j
same_mkey k j e = ground (arith, bytes_eqb_iff k.key j.key)

same_buffer : (a b : MetricDataBuffer) → some a ≡ some b → a ≡ b
same_buffer a b e = ground arith

-- What a consumer reads of the messages: `key_of` is the key of a message, and `read` what it reads of
-- the key of a metric (all of it, or all but the organisation when points are sent without it). An
-- id names a key of 16 bytes, and both formats hold the key of their metric.
pub record Consumer {P : Type 0} (K : Type 0) (wire : Wire P) (options : Options) : Type 0 where
  pub key_of : MetricDataBuffer → K
  pub read : MKey → K
  pub keys : (s : Bytes) (k : MKey) → wire.mkey_of s ≡ some k → IsKey k.key
  pub reads_metric :
      (m : Metric) (bytes : Bytes) (k : MKey)
      → wire.marshal m ≡ some bytes
      → wire.mkey_of m.id ≡ some k
      → key_of (record { bytes = bytes; mtype = metric_data }) ≡ read k
  pub reads_point :
      (k : MKey) (value time : ℕ) (bytes : Bytes)
      → wire.marshal_point options.v2_org k value time ≡ some bytes
      → key_of (record {
        bytes = bytes;
        mtype = if options.v2_org then metric_point else metric_point_no_org;
      })
        ≡ read k

module _ {P K : Type 0} (wire : Wire P) (options : Options)
    (consumer : Consumer K wire options) where
  -- A whole metric with this key was sent.
  abbrev pub FullIn : K → List Message → Type 0
  FullIn k [] = true ≡ false
  FullIn k (m ∷ ms) = (m.value.mtype ≡ metric_data) × (consumer.key_of m.value ≡ k) ⊎ FullIn k ms

  -- Every message is a whole metric or comes after a whole metric with its key; `sent` went before.
  abbrev pub IsOrdered : List Message → List Message → Type 0
  IsOrdered sent [] = Unit
  IsOrdered sent (m ∷ ms) =
      ((m.value.mtype ≡ metric_data) ⊎ FullIn (consumer.key_of m.value) sent)
      × IsOrdered (sent ++ m ∷ []) ms

  FullIn-before : (k : K) (ms ns : List Message) → FullIn k ms → FullIn k (ms ++ ns)
  FullIn-before k [] ns h = cc h
  FullIn-before k (m ∷ ms) ns (inl h) = inl h
  FullIn-before k (m ∷ ms) ns (inr h) = inr (FullIn-before k ms ns h)

  FullIn-last :
      (k : K) (ms : List Message) (m : Message)
      → m.value.mtype ≡ metric_data
      → consumer.key_of m.value ≡ k
      → FullIn k (ms ++ m ∷ [])
  FullIn-last k [] m full same = inl (full, same)
  FullIn-last k (n ∷ ms) m full same = inr (FullIn-last k ms m full same)

  IsOrdered-append :
      (sent ms : List Message) (m : Message)
      → IsOrdered sent ms
      → (m.value.mtype ≡ metric_data) ⊎ FullIn (consumer.key_of m.value) (sent ++ ms)
      → IsOrdered sent (ms ++ m ∷ [])
  IsOrdered-append sent [] m h k = (
    subst (λ s. (m.value.mtype ≡ metric_data) ⊎ FullIn (consumer.key_of m.value) s)
        (append-nil sent) k,
    tt,
  )
  IsOrdered-append sent (n ∷ ms) m (h, hs) k = (
    h,
    IsOrdered-append (sent ++ n ∷ []) ms m hs (
        subst (λ s. (m.value.mtype ≡ metric_data) ⊎ FullIn (consumer.key_of m.value) s)
          (sym (append_assoc sent (n ∷ []) ms)) k),
  )

  module _ (v2 : options.v2 ≡ true) where
    -- A buffer for the key `k`, made with this key cache.
    pub record IsMade (cache : KeyCache) (k : MKey) (b : MetricDataBuffer) : Type 0 where
      pub key : IsKey k.key
      pub reads : consumer.key_of b ≡ consumer.read k
      pub known : (b.mtype ≡ metric_data) ⊎ (seen cache k ≡ true)

    abbrev pub Made : KeyCache → KeyCache × Option MetricDataBuffer → Type 0
    Made cache (c, none) = Unit
    Made cache (c, some b) = (k : MKey) × (c ≡ (touch cache k).0) × IsMade cache k b

    pub data_from_metric_data-Made :
        (cache : KeyCache) (m : Metric)
        → IsValid cache
        → Made cache (data_from_metric_data wire options cache m)
    unfolding data_from_metric_data
    data_from_metric_data-Made cache m valid_cache = rw v2 (go (wire.mkey_of m.id) refl)
      where
        full :
            (k : MKey) (o : Option Bytes)
            → wire.marshal m ≡ o
            → wire.mkey_of m.id ≡ some k
            → Made cache (
              (touch cache k).0,
              do bytes ← o; some (record { bytes = bytes; mtype = metric_data }),
            )
        full k none e f = tt
        full k (some bytes) e f = (
          k,
          refl,
          record {
            key = consumer.keys m.id k f;
            reads = consumer.reads_metric m bytes k e f;
            known = inl refl;
          },
        )

        point :
            (k : MKey) (o : Option Bytes)
            → wire.marshal_point options.v2_org k m.value (to_uint32 m.time) ≡ o
            → wire.mkey_of m.id ≡ some k
            → seen cache k ≡ true
            → Made cache (
              (touch cache k).0,
              do
                bytes ← o
                some (record {
                  bytes = bytes;
                  mtype = if options.v2_org then metric_point else metric_point_no_org;
                }),
            )
        point k none e f s = tt
        point k (some bytes) e f s = (
          k,
          refl,
          record {
            key = consumer.keys m.id k f;
            reads = consumer.reads_point k m.value (to_uint32 m.time) bytes e;
            known = inr s;
          },
        )

        go :
            (o : Option MKey)
            → wire.mkey_of m.id ≡ o
            → Made cache (keyed_data wire options cache m o)
        go none e = tt
        go (some k) e = elim (Bool-cases (touch cache k).1) [
          | inl known ↦ rw known (
              point k _ refl e (
                sym
                  (seen-touch cache k k valid_cache (consumer.keys m.id k e)
                    (consumer.keys m.id k e)).0
                ∙ known))
          | inr fresh ↦ rw fresh (full k _ refl e)
        ]

    -- The state of a loop, `sent` being what Kafka was sent before the batch.
    pub record IsGood (sent : List Message) (cache : KeyCache) (payload : List Message)
        (buffers : Map ℤ MetricDataBuffer) : Type 0 where
      pub valid_cache : IsValid cache
      pub seen_full :
          (k : MKey)
          → IsKey k.key
          → seen cache k ≡ true
          → FullIn (consumer.read k) (sent ++ payload)
      pub buffers_full :
          (org : ℤ) (b : MetricDataBuffer)
          → get buffers org ≡ some b
          → FullIn (consumer.key_of b) (sent ++ payload)
      pub ordered : IsOrdered [] (sent ++ payload)

    abbrev IsGoodTurn : List Message → Turn wire options → Type 0
    IsGoodTurn sent t = (t.fine ≡ false) ⊎ IsGood sent t.cache t.payload t.buffers

    grown :
        (sent payload : List Message) (m : Message) (k : K)
        → FullIn k (sent ++ payload)
        → FullIn k (sent ++ (payload ++ m ∷ []))
    grown sent payload m k h =
        subst (FullIn k) (append_assoc sent payload (m ∷ []))
          (FullIn-before k (sent ++ payload) (m ∷ []) h)

    -- A message with a buffer that was kept.
    pub IsGood-kept :
        (sent : List Message) (cache : KeyCache) (payload : List Message)
        (buffers : Map ℤ MetricDataBuffer) (m : Message) (org : ℤ)
        → IsGood sent cache payload buffers
        → get buffers org ≡ some m.value
        → IsGood sent cache (payload ++ m ∷ []) buffers
    IsGood-kept sent cache payload buffers m org g e = record {
      valid_cache = g.valid_cache;
      seen_full = λ k h s. grown sent payload m (consumer.read k) (g.seen_full k h s);
      buffers_full = λ o b f. grown sent payload m (consumer.key_of b) (g.buffers_full o b f);
      ordered =
          subst (IsOrdered []) (append_assoc sent payload (m ∷ [])) (
            IsOrdered-append [] (sent ++ payload) m g.ordered (inr (g.buffers_full org m.value e)));
    }

    -- A message with a buffer that was made.
    pub IsGood-made :
        (sent : List Message) (cache : KeyCache) (payload : List Message)
        (buffers : Map ℤ MetricDataBuffer) (m : Message) (org : ℤ) (k : MKey)
        → IsGood sent cache payload buffers
        → IsMade cache k m.value
        → IsGood sent (touch cache k).0 (payload ++ m ∷ []) (put buffers org m.value)
    IsGood-made sent cache payload buffers m org k g i = record {
      valid_cache = touch-IsValid cache k g.valid_cache;
      seen_full = λ j h s. elim (Bool-cases (k.org == j.org && k.key == j.key)) [
        | inl same ↦
            subst (λ x. FullIn (consumer.read x) (sent ++ (payload ++ m ∷ []))) (same_mkey k j same)
              full_now
        | inr moved ↦
            let known : seen cache j ≡ true =
              rw moved at (sym (seen-touch cache k j g.valid_cache i.key h).1 ∙ s) in
            grown sent payload m (consumer.read j) (g.seen_full j h known)
      ];
      buffers_full = λ o b f. elim (Bool-cases (int_eqb org o)) [
        | inl same ↦
            let kept : some m.value ≡ some b =
              rw same at (sym (get-put buffers org o m.value) ∙ f) in
            subst (λ x. FullIn x (sent ++ (payload ++ m ∷ [])))
              (sym i.reads ∙ ap consumer.key_of (same_buffer m.value b kept)) full_now
        | inr moved ↦
            grown sent payload m (consumer.key_of b)
              (g.buffers_full o b (rw moved at (sym (get-put buffers org o m.value) ∙ f)))
      ];
      ordered =
          subst (IsOrdered []) (append_assoc sent payload (m ∷ []))
            (IsOrdered-append [] (sent ++ payload) m g.ordered (before i.known));
    }
      where
        before :
            (m.value.mtype ≡ metric_data) ⊎ (seen cache k ≡ true)
            → (m.value.mtype ≡ metric_data) ⊎ FullIn (consumer.key_of m.value) (sent ++ payload)
        before (inl full) = inl full
        before (inr known) =
            inr (subst (λ x. FullIn x (sent ++ payload)) (sym i.reads) (g.seen_full k i.key known))

        full_now : FullIn (consumer.read k) (sent ++ (payload ++ m ∷ []))
        full_now = elim i.known [
          | inl full ↦
              subst (FullIn (consumer.read k)) (append_assoc sent payload (m ∷ []))
                (FullIn-last (consumer.read k) (sent ++ payload) m full i.reads)
          | inr known ↦ grown sent payload m (consumer.read k) (g.seen_full k i.key known)
        ]

    -- The buffers are forgotten between two metrics.
    pub IsGood-forget :
        (sent : List Message) (cache : KeyCache) (payload : List Message)
        (buffers : Map ℤ MetricDataBuffer)
        → IsGood sent cache payload buffers
        → IsGood sent cache payload []
    IsGood-forget sent cache payload buffers g = record {
      valid_cache = g.valid_cache;
      seen_full = g.seen_full;
      buffers_full = λ o b e. none_kept o b e;
      ordered = g.ordered;
    }
      where
        none_kept :
            (o : ℤ) (b : MetricDataBuffer)
            → get [] o ≡ some b
            → FullIn (consumer.key_of b) (sent ++ payload)
        none_kept o b e = unfold get in cc e
