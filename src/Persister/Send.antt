-- ===== src/Persister/Send.antt =====
-- One round of `Send` when the gateway accepts what is pushed.
use tsdb_gw.Base.{
  All, All-append, Bool, Bool-cases, List, [], ap, append-nil, append_assoc, arith, false, inl, inr,
  leb, length, length-append, map, refl, sym, true, ℕ, ◌++◌, ◌+◌, ◌<◌, ◌∙◌, ◌∷◌, ◌≡◌, ◌≤◌, concat,
  some, if◌then◌else◌, nat_eqb, subst,
}
use tsdb_gw.Base.Int.{ℤ}
use tsdb_gw.Base.Map.{Map}
use tsdb_gw.Base.Text.{Bytes}
use tsdb_gw.Metric.{Metric}
use tsdb_gw.Persister.{
  Sending, Sent, send_metric, send_row, send_rows, Persister, finish_send, push_last, send, stamp,
  with_lock,
}

concat-append : (bs cs : List (List Metric)) → concat (bs ++ cs) ≡ concat bs ++ concat cs
concat-append [] cs = refl
concat-append (b ∷ bs) cs =
    ap (λ x. b ++ x) (concat-append bs cs) ∙ sym (append_assoc b (concat bs) (concat cs))

-- All metrics of the rows, in the order of the rows.
unfoldable pub pending : (Metric → Metric) → Map Bytes (List Metric) → List Metric
pending mark [] = []
pending mark ((key, row) ∷ rows) = map mark row ++ pending mark rows

-- A metric with the time of a round and an interval.
abbrev pub resent : ℤ → ℤ → Metric → Metric
resent now interval m = record {
  id = m.id;
  org_id = m.org_id;
  name = m.name;
  interval = interval;
  value = m.value;
  unit = m.unit;
  time = now;
  mtype = m.mtype;
  tags = m.tags;
}

-- The size of the batches: a maximum of 0 sends every metric alone.
abbrev pub batch_size : ℕ → ℕ
batch_size max = if nat_eqb max 0 then 1 else max

abbrev Fits : ℕ → List Metric → Type 0
Fits max b = length b ≤ max

-- The state of the loop once the metrics `done` have been taken and no push has failed.
record IsFlowing (max : ℕ) (done : List Metric) (s : Sending) : Type 0 where
  fine : s.fine ≡ true
  room : length s.buffer < max
  sizes : All (Fits max) s.batches
  taken : concat s.batches ++ s.buffer ≡ done

module _ (push : List Metric → Bool) (max size : ℕ) (mark : Metric → Metric) (positive : 0 < size)
    (enough : max ≤ size) where
  module _ (accepts : (b : List Metric) → push b ≡ true) where
    IsFlowing-send_metric :
        (done : List Metric) (s : Sending) (m : Metric)
        → IsFlowing size done s
        → IsFlowing size (done ++ mark m ∷ []) (send_metric push max mark s m).0
    unfolding send_metric
    IsFlowing-send_metric done s m i =
        let b = s.buffer ++ mark m ∷ [] in
        let grown : length b ≡ length s.buffer + 1 = length-append s.buffer (mark m ∷ []) in
        let all : concat s.batches ++ b ≡ done ++ mark m ∷ [] =
          sym (append_assoc (concat s.batches) s.buffer (mark m ∷ []))
          ∙ ap (λ x. x ++ mark m ∷ []) i.taken in
        elim (Bool-cases (leb max (length b))) [
          | inl full ↦
              rw (i.fine, full, accepts b)
                (record {
                  fine = refl;
                  room = positive;
                  sizes =
                      All-append (Fits size) s.batches (b ∷ []) i.sizes
                        (omega (arith, i.room, grown), tt);
                  taken =
                      append-nil (concat (s.batches ++ b ∷ []))
                      ∙ concat-append s.batches (b ∷ [])
                      ∙ ap (λ x. concat s.batches ++ x) (append-nil b)
                      ∙ all;
                })
          | inr short ↦
              rw (i.fine, short)
                (record {
                  fine = refl;
                  room = ground (arith, i.room, grown, enough);
                  sizes = i.sizes;
                  taken = all;
                })
        ]

    IsFlowing-send_row :
        (done : List Metric) (s : Sending) (row : List Metric)
        → IsFlowing size done s
        → IsFlowing size (done ++ map mark row) (send_row push max mark s row).0
    unfolding send_row
    IsFlowing-send_row done s [] i = rw (append-nil done) i
    IsFlowing-send_row done s (m ∷ row) i = rw (← append_assoc done (mark m ∷ []) (map mark row)) (
        IsFlowing-send_row (done ++ mark m ∷ []) (send_metric push max mark s m).0 row
          (IsFlowing-send_metric done s m i))

    IsFlowing-send_rows :
        (done : List Metric) (s : Sending) (rows : Map Bytes (List Metric))
        → IsFlowing size done s
        → IsFlowing size (done ++ pending mark rows) (send_rows push max mark s rows).0
    unfolding send_rows pending
    IsFlowing-send_rows done s [] i = rw (append-nil done) i
    IsFlowing-send_rows done s ((key, row) ∷ rows) i =
        rw (← append_assoc done (map mark row) (pending mark rows)) (
          IsFlowing-send_rows (done ++ map mark row) (send_row push max mark s row).0 rows
            (IsFlowing-send_row done s row i))

-- What a round has done to the metrics `all`.
pub record IsDelivered (max : ℕ) (all : List Metric) (s : Sent) : Type 0 where
  pub fine : s.fine ≡ true
  pub unlocked : s.after.locked ≡ false
  pub sizes : All (Fits max) s.batches
  pub complete : concat s.batches ≡ all

pub with_lock_free : (p : Persister) (s : Sent) → p.locked ≡ false → with_lock p s ≡ some s
with_lock_free p s free = rw free refl

pending-stamp :
    (now interval : ℤ) (rows : Map Bytes (List Metric))
    → pending (stamp now interval) rows ≡ pending (resent now interval) rows
unfolding stamp pending
pending-stamp now interval [] = refl
pending-stamp now interval ((key, row) ∷ rows) =
    ap (λ ms. map (resent now interval) row ++ ms) (pending-stamp now interval rows)

batch_size_lem : (max : ℕ) → (0 < batch_size max) × (max ≤ batch_size max)
batch_size_lem max = ground arith

-- When the lock is free and the metrics client accepts every push, a round of the persister pushes
-- every metric of every row exactly once, in the order of the rows, with the time of the round,
-- the persister's interval and otherwise as it is, in batches of at most the buffer size (of one
-- metric if the buffer size is 0), reports success and releases the lock.
pub send-IsDelivered :
    (p : Persister) (now : ℤ) (push : List Metric → Bool)
    → p.locked ≡ false
    → ((b : List Metric) → push b ≡ true)
    → (s : Sent) × (send p now push ≡ some s)
      × IsDelivered (batch_size p.max_buffer_size) (pending (resent now p.interval) p.metrics) s
unfolding send
send-IsDelivered p now push free accepts = (
  _,
  with_lock_free p _ free,
  subst (λ all. IsDelivered size all (finish_send push p run))
      (pending-stamp now p.interval p.metrics)
      (delivered run (
        IsFlowing-send_rows push p.max_buffer_size size mark bounds.0 bounds.1 accepts [] begun
          p.metrics (record { fine = refl; room = bounds.0; sizes = tt; taken = refl }))),
)
  where
    size : ℕ
    size = batch_size p.max_buffer_size

    bounds : (0 < batch_size p.max_buffer_size) × (p.max_buffer_size ≤ batch_size p.max_buffer_size)
    bounds = batch_size_lem p.max_buffer_size

    mark : Metric → Metric
    mark = stamp now p.interval

    begun : Sending
    begun = record { buffer = []; batches = []; fine = true }

    run : Sending × Map Bytes (List Metric)
    run = send_rows push p.max_buffer_size mark begun p.metrics

    small : (b c : List Metric) → c ≡ b → length c < size → length b ≤ size
    small b c e h = omega (arith, ap (length {A = Metric}) e, h)

    delivered :
        (r : Sending × Map Bytes (List Metric))
        → IsFlowing size (pending mark p.metrics) r.0
        → IsDelivered size (pending mark p.metrics) (finish_send push p r)
    delivered (s, rows) i = rw i.fine (last s rows s.buffer refl i)
      where
        last :
            (s : Sending) (rows : Map Bytes (List Metric)) (b : List Metric)
            → s.buffer ≡ b
            → IsFlowing size (pending mark p.metrics) s
            → IsDelivered size
                (pending mark p.metrics)
                (push_last push s (record p { metrics = rows }))
        last s rows [] e i = rw e (record {
          fine = refl;
          unlocked = free;
          sizes = i.sizes;
          complete =
              sym (append-nil (concat s.batches))
              ∙ ap (λ x. concat s.batches ++ x) (sym e)
              ∙ i.taken;
        })
        last s rows (m ∷ b) e i =
            rw (e, accepts (m ∷ b))
              (record {
                fine = refl;
                unlocked = free;
                sizes =
                    All-append (Fits size) s.batches ((m ∷ b) ∷ []) i.sizes
                      (small (m ∷ b) s.buffer e i.room, tt);
                complete =
                    concat-append s.batches ((m ∷ b) ∷ [])
                    ∙ ap (λ x. concat s.batches ++ x) (append-nil (m ∷ b) ∙ sym e)
                    ∙ i.taken;
              })
