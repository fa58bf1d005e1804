-- ===== src/Datadog/Intake.antt =====
-- The metrics of a host (ingest/datadog/payloads/intake.go), the handler that passes a host's data on
-- to the persister (ingest/datadog/intake.go) and the client of the persister
-- (persister/persist/persist.go). Of the payloads, the fields that are read.
use tsdb_gw.Base.{
  All, Bool, Bool-cases, List, Option, [], arith, if◌then◌else◌, inl, inr, length, length-map, map,
  nat_eqb, none, not, refl, some, true, ℕ, ◌&&◌, ◌++◌, ◌+◌, ◌∷◌, ◌≡◌, ap, nat_eqb_iff, sym, ◌∙◌,
  ◌≢◌,
}
use tsdb_gw.Base.Int.{pos, ℤ}
use tsdb_gw.Base.Text.{Bytes, Lacks, codes, is_empty, sort_strings}
use tsdb_gw.Datadog.{tag_of}
use tsdb_gw.Ingest.Formats.{Decoded, bad_body, decoded, no_body}
use tsdb_gw.Metric.{Metric, float_one}

pub record Platform : Type 0 where
  pub gooarch : Bytes
  pub goos : Bytes
  pub go_v : Bytes
  pub hardware_platform : Bytes
  pub kernel_name : Bytes
  pub kernel_release : Bytes
  pub kernel_version : Bytes
  pub machine : Bytes
  pub os : Bytes
  pub processor : Bytes
  pub python_v : Bytes

pub record Network : Type 0 where
  pub ipaddress : Bytes
  pub ipaddressv6 : Bytes
  pub macaddress : Bytes

pub record Filesystem : Type 0 where
  pub mounted_on : Bytes
  pub name : Bytes

pub record Gohai : Type 0 where
  pub filesystem : List Filesystem
  pub network : Network
  pub platform : Platform

pub record IntakePayload : Type 0 where
  pub agent_version : Bytes
  pub os : Bytes
  pub internal_hostname : Bytes
  pub machine : Bytes
  pub processor : Bytes
  pub hostname : Bytes
  pub socket_fqdn : Bytes
  pub socket_hostname : Bytes
  pub instance_id : Bytes
  pub system_tags : List Bytes
  pub google_tags : List Bytes
  pub gohai : Bytes
  pub org_id : ℤ

abbrev pub tag : Bytes → Bytes → Bytes
tag k v = k ++ b'=' ∷ v

-- A tag whose value may be missing.
abbrev pub tag_if : Bytes → Bytes → List Bytes
tag_if k v = if is_empty v then [] else tag k v ∷ []

-- generateInfoTags
unfoldable pub generate_info_tags : IntakePayload → List Bytes
generate_info_tags i = sort_strings (
    tag_if (codes "agentVersion") i.agent_version
    ++ (tag_if (codes "host") i.hostname
        ++ (tag_if (codes "hostname") i.internal_hostname
            ++ (tag_if (codes "machine") i.machine
                ++ (tag_if (codes "os") i.os
                    ++ (tag_if (codes "processor") i.processor
                        ++ (tag_if (codes "socket_fqdn") i.socket_fqdn
                            ++ (tag_if (codes "socket_hostname") i.socket_hostname
                                ++ (tag_if (codes "instanceID") i.instance_id
                                    ++ (map tag_of i.system_tags
                                        ++ map tag_of i.google_tags))))))))))

-- generatePlatformTags
unfoldable pub generate_platform_tags : Platform → Bytes → List Bytes
generate_platform_tags p hostname = sort_strings (
    tag (codes "hostname") hostname
    ∷ (tag_if (codes "GOOARCH") p.gooarch
        ++ (tag_if (codes "GOOS") p.goos
            ++ (tag_if (codes "GoV") p.go_v
                ++ (tag_if (codes "HardwarePlatform") p.hardware_platform
                    ++ (tag_if (codes "kernel_name") p.kernel_name
                        ++ (tag_if (codes "kernel_release") p.kernel_release
                            ++ (tag_if (codes "kernel_version") p.kernel_version
                                ++ (tag_if (codes "machine") p.machine
                                    ++ (tag_if (codes "os") p.os
                                        ++ (tag_if (codes "processor") p.processor
                                            ++ tag_if (codes "pythonV") p.python_v)))))))))))

-- A metric of a host: the fields that `GeneratePersistentMetrics` sets.
abbrev pub info_metric : ℤ → Bytes → List Bytes → Metric
info_metric org name tags = record {
  id = [];
  org_id = org;
  name = name;
  interval = pos 0;
  value = float_one;
  unit = [];
  time = pos 0;
  mtype = [];
  tags = tags;
}

abbrev pub filesystem_metric : IntakePayload → Filesystem → Metric
filesystem_metric i fs = info_metric i.org_id (codes "system_filesystem_info") (
    tag (codes "hostname") i.internal_hostname
    ∷ (tag (codes "name") fs.name ∷ tag_if (codes "mountpoint") fs.mounted_on))

-- strings.Replace(s, `\"`, `"`, -1)
unfoldable pub unescape : Bytes → Bytes
unescape [] = []
unescape (c ∷ []) = c ∷ []
unescape (c ∷ d ∷ s) =
    let both = unescape s in
    let rest = unescape (d ∷ s) in if nat_eqb c 92 && nat_eqb d 34 then 34 ∷ both else c ∷ rest

abbrev pub gohai_metrics : IntakePayload → Option Gohai → List Metric
gohai_metrics i none = []
gohai_metrics i (some g) =
    info_metric i.org_id (codes "system_platform_info")
      (generate_platform_tags g.platform i.internal_hostname)
    ∷ (info_metric i.org_id (codes "system_network_info") (
          tag (codes "hostname") i.internal_hostname
          ∷ (tag (codes "ipaddress") g.network.ipaddress
              ∷ (tag (codes "ipaddressv6") g.network.ipaddressv6
                  ∷ (tag (codes "macaddress") g.network.macaddress ∷ []))))
        ∷ map (filesystem_metric i) g.filesystem)

-- GeneratePersistentMetrics; `unmarshal` is json.Unmarshal of the Gohai payload.
unfoldable pub generate_persistent_metrics : (Bytes → Option Gohai) → IntakePayload → List Metric
unfolding generate_info_tags unescape
generate_persistent_metrics unmarshal i =
    info_metric i.org_id (codes "system_info") (generate_info_tags i)
    ∷ gohai_metrics i (unmarshal (unescape i.gohai))

-- Persist and PushIntake: whether the error is nil, and what is posted. The error of the post is
-- dropped.
unfoldable pub persist_intake : Bool → Bytes → Bool × Option Bytes
persist_intake enabled payload = if enabled then (true, some payload) else (true, none)

-- The statuses of the reply, and what is posted.
abbrev pub intake_reply : Bool × Option Bytes → ℕ × Option Bytes
intake_reply (fine, posted) = (if fine then 200 else 500, posted)

abbrev pub pass_on : Bool → Option Bytes → ℕ × Option Bytes
pass_on enabled none = (500, none)
pass_on enabled (some payload) = intake_reply (persist_intake enabled payload)

-- DataDogIntake; `marshal` is json.Marshal of the PersistPayload of the user's organisation and the
-- host with the raw data.
unfoldable pub data_dog_intake :
    Bool → (ℤ → Bytes → Option Bytes) → ℤ → Decoded IntakePayload → ℕ × Option Bytes
unfolding persist_intake
data_dog_intake enabled marshal org no_body = (400, none)
data_dog_intake enabled marshal org bad_body = (400, none)
data_dog_intake enabled marshal org (decoded i) =
    if not (is_empty i.gohai)
    then pass_on enabled (marshal org i.internal_hostname)
    else (200, none)

-- What an agent writes: a quote with a backslash before it.
pub escape : Bytes → Bytes
escape [] = []
escape (c ∷ s) = if nat_eqb c 34 then 92 ∷ 34 ∷ escape s else c ∷ escape s

unescape-cons : (c : ℕ) (s : Bytes) → c ≢ 92 → unescape (c ∷ s) ≡ c ∷ unescape s
unfolding unescape
unescape-cons c [] h = refl
unescape-cons c (d ∷ s) h = ground arith

unescape-quote : (s : Bytes) → unescape (92 ∷ 34 ∷ s) ≡ 34 ∷ unescape s
unfolding unescape
unescape-quote s = refl

-- A Gohai text without backslashes whose quotes were escaped is read as it was.
pub unescape-escape : (s : Bytes) → Lacks 92 s → unescape (escape s) ≡ s
unfolding escape
unescape-escape [] h = unfold unescape in refl
unescape-escape (c ∷ s) (hc, h) = elim (Bool-cases (nat_eqb c 34)) [
  | inl quote ↦ rw quote (
      unescape-quote (escape s)
      ∙ ap (λ t. 34 ∷ t) (unescape-escape s h)
      ∙ ap (λ d. d ∷ s) (sym ((nat_eqb_iff c 34).0 quote)))
  | inr plain ↦ rw plain (unescape-cons c (escape s) hc ∙ ap (λ t. c ∷ t) (unescape-escape s h))
]

filesystems_org :
    (i : IntakePayload) (fs : List Filesystem)
    → All (λ (m : Metric). m.org_id ≡ i.org_id) (map (filesystem_metric i) fs)
filesystems_org i [] = tt
filesystems_org i (f ∷ fs) = (refl, filesystems_org i fs)

-- The metrics of a host belong to the organisation of the payload, and there are three and one for
-- each file system, or one alone if the Gohai text cannot be read.
pub generate_persistent_metrics-org :
    (unmarshal : Bytes → Option Gohai) (i : IntakePayload)
    → All (λ (m : Metric). m.org_id ≡ i.org_id) (generate_persistent_metrics unmarshal i)
      × (length (generate_persistent_metrics unmarshal i)
          ≡ elim (unmarshal (unescape i.gohai)) [ none ↦ 1 | some g ↦ 3 + length g.filesystem ])
unfolding generate_persistent_metrics
generate_persistent_metrics-org unmarshal i = go (unmarshal (unescape i.gohai))
  where
    go :
        (o : Option Gohai)
        → All
            (λ (m : Metric). m.org_id ≡ i.org_id)
            (info_metric i.org_id (codes "system_info") (generate_info_tags i) ∷ gohai_metrics i o)
          × (length (
                info_metric i.org_id (codes "system_info") (generate_info_tags i)
                ∷ gohai_metrics i o)
              ≡ elim o [ none ↦ 1 | some g ↦ 3 + length g.filesystem ])
    go none = ((refl, tt), refl)
    go (some g) = (
      (refl, (refl, (refl, filesystems_org i g.filesystem))),
      omega (arith, length-map (filesystem_metric i) g.filesystem),
    )
