-- ===== src/Kafka/Broker.antt =====
-- The check of the broker addresses in `New` (publish/kafka/publish.go): "host" or "host:port".
use tsdb_gw.Base.{
  Bool, List, [], ap, arith, false, if◌then◌else◌, ltb, nat_eqb, not, refl, true, ℕ, ◌&&◌, ◌++◌,
  ◌+◌, ◌∷◌, ◌≡◌, lt→ltb, ◌<◌, All, inl, inr, sym, ◌∙◌, ◌⊎◌,
}
use tsdb_gw.Base.Number.{parse_int}
use tsdb_gw.Base.Text.{
  Bytes, Lacks, count_byte, is_empty, split_two, split_two-join, first_separator,
}
use tsdb_gw.Keycache.{is_some}

-- The two parts around the colon.
abbrev pub is_host_port : List Bytes → Bool
is_host_port (host ∷ port ∷ []) =
    not (is_empty host) && (not (is_empty port) && is_some (parse_int port 63))
is_host_port parts = false

-- Whether the body of the loop in `New` gets past the broker without log.Fatalf.
unfoldable pub is_valid_broker : Bytes → Bool
is_valid_broker b =
    if is_empty b
    then false
    else if ltb 1 (count_byte b b':')
    then false
    else if nat_eqb (count_byte b b':') 1
    then is_host_port (split_two b b':')
    else true

unfoldable pub are_valid_brokers : List Bytes → Bool
unfolding is_valid_broker
are_valid_brokers [] = true
are_valid_brokers (b ∷ bs) = is_valid_broker b && are_valid_brokers bs

count_byte-Lacks : (s : Bytes) (c : ℕ) → Lacks c s → count_byte s c ≡ 0
unfolding count_byte
count_byte-Lacks [] c h = refl
count_byte-Lacks (b ∷ s) c (hb, h) = ground (arith, count_byte-Lacks s c h)

count_byte-append : (s t : Bytes) (c : ℕ) → count_byte (s ++ t) c ≡ count_byte s c + count_byte t c
unfolding count_byte
count_byte-append [] t c = omega arith
count_byte-append (b ∷ s) t c = ground (arith, count_byte-append s t c)

count_byte-colon : (t : Bytes) → Lacks b':' t → count_byte (b':' ∷ t) b':' ≡ 1
unfolding count_byte
count_byte-colon t h = ground (arith, count_byte-Lacks t b':' h)

count_join :
    (host port : Bytes)
    → Lacks b':' host
    → Lacks b':' port
    → count_byte (host ++ b':' ∷ port) b':' ≡ 1
count_join host port h k = omega (
  arith,
  count_byte-append host (b':' ∷ port) b':',
  count_byte-Lacks host b':' h,
  count_byte-colon port k,
)

append_nonempty : (s t : Bytes) (c : ℕ) → is_empty (s ++ c ∷ t) ≡ false
append_nonempty [] t c = refl
append_nonempty (d ∷ s) t c = refl

-- A broker "host:port" without a further colon is accepted exactly if the host is not empty and
-- the port is the text of a number, and one without a port if it is not empty.
pub is_valid_broker_host_port :
    (host port : Bytes)
    → Lacks b':' host
    → Lacks b':' port
    → (is_valid_broker (host ++ b':' ∷ port)
        ≡ (not (is_empty host) && (not (is_empty port) && is_some (parse_int port 63))))
      × (is_valid_broker host ≡ not (is_empty host))
unfolding is_valid_broker
is_valid_broker_host_port host port h k = (
  rw (append_nonempty host port b':', count_join host port h k)
      (ap is_host_port (split_two-join host port b':' h)),
  rw (count_byte-Lacks host b':' h) (ground arith),
)

count_two : (a b c : Bytes) → 1 < count_byte (a ++ b':' ∷ (b ++ b':' ∷ c)) b':'
unfolding count_byte
count_two a b c =
    omega (
      arith,
      count_byte-append a (b':' ∷ (b ++ b':' ∷ c)) b':',
      count_byte-append b (b':' ∷ c) b':',
    )

-- An address with two colons, like that of an IPv6 host, is refused, whatever stands around them.
pub is_valid_broker_ipv6 : (a b c : Bytes) → is_valid_broker (a ++ b':' ∷ (b ++ b':' ∷ c)) ≡ false
unfolding is_valid_broker
is_valid_broker_ipv6 a b c =
    rw (append_nonempty a (b ++ b':' ∷ c) b':', lt→ltb _ _ (count_two a b c)) refl

-- A broker address: a host, or a host and the number of a port around the only colon.
abbrev pub IsBroker : Bytes → Type 0
IsBroker b =
    (Lacks b':' b × (is_empty b ≡ false))
    ⊎ ((host : Bytes) × (port : Bytes) × (b ≡ host ++ b':' ∷ port)
        × Lacks b':' host
        × Lacks b':' port
        × (is_empty host ≡ false)
        × (is_empty port ≡ false)
        × (is_some (parse_int port 63) ≡ true))

host_port_parts :
    (host port : Bytes)
    → (not (is_empty host) && (not (is_empty port) && is_some (parse_int port 63))) ≡ true
    → (is_empty host ≡ false) × (is_empty port ≡ false) × (is_some (parse_int port 63) ≡ true)
host_port_parts host port h = ground arith

is_valid_broker-IsBroker : (b : Bytes) → is_valid_broker b ≡ true → IsBroker b
is_valid_broker-IsBroker b h = elim (first_separator b b':') [
  | inl bare ↦ inl (bare, ground (arith, (is_valid_broker_host_port b [] bare tt).1, h))
  | inr (host, rest, k, e) ↦ elim (first_separator rest b':') [
    | inl bare ↦
        let valid_parts =
          host_port_parts host rest
            (sym (is_valid_broker_host_port host rest k bare).0 ∙ ap is_valid_broker (sym e) ∙ h) in
        inr (host, rest, e, k, bare, valid_parts.0, valid_parts.1, valid_parts.2)
    | inr (middle, last, _, f) ↦ cc (
        sym (is_valid_broker_ipv6 host middle last)
        ∙ ap (λ s. is_valid_broker (host ++ b':' ∷ s)) (sym f)
        ∙ ap is_valid_broker (sym e)
        ∙ h)
  ]
]

pub are_valid_brokers-IsBroker : (bs : List Bytes) → are_valid_brokers bs ≡ true → All IsBroker bs
unfolding are_valid_brokers
are_valid_brokers-IsBroker [] h = tt
are_valid_brokers-IsBroker (b ∷ bs) h =
    (is_valid_broker-IsBroker b (ground arith), are_valid_brokers-IsBroker bs (ground arith))
