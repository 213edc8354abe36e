-- ===== src/Broker/Approvals/Sound.antt =====
-- An approval counts exactly if every one of its conditions holds.
use jiritsu.Base.{
  join, split, ℕ, ◌<◌, ◌≤◌, ◌+◌, ◌-◌, String, ◌<>◌, true, false, Option, none, some, ◌==◌, ◌≡◌, ◌↔◌,
  refl, arith, minus, null, ok, err, ap, subst, sym, ◌∙◌, Result-cases, Option-cases, ok-injective,
  inl, inr,
}
use jiritsu.Json.{Value, null as no_value, bool, num, str, arr, obj, Fields, end, get, keys}
use jiritsu.Broker.Model.{Try, Request, is_text}
use jiritsu.Broker.Policy.Load.{
  Metadata, not_found, unreadable, untrusted_owner, writable_by_others,
}
use jiritsu.Broker.Approvals.{
  Approvals, Zone, ahead, behind, DateTime, latest, astimezone, found_time, in_utc, without_z,
  is_approved, timed, check_grant, approval_fields, text_value, parse_time, fault_result,
  check_fields, check_value, check_content, check_file, check_directory, check_approval,
}

-- Owned by root or the user, and not writable by others.
abbrev pub IsProtected : ℕ → Metadata → Type 0
IsProtected euid m =
    (m.is_symlink ≡ false) × (untrusted_owner euid m ≡ false) × (writable_by_others m ≡ false)

as_obj : Value → Fields
as_obj (obj d) = d
as_obj v = end

obj-injective : {d e : Fields} → obj d ≡ obj e → d ≡ e
unfolding as_obj
obj-injective h = ap as_obj h

-- A time of a time zone is later than one in UTC, and is a time in UTC.
abbrev pub IsLater : ℕ → ℕ → Zone → Type 0
IsLater now t (ahead n) = now + n < t
IsLater now t (behind n) = (now < t + n) × (t + n ≤ latest)

found_time-eq-ok : (r : Try ℕ) (u : ℕ) → found_time r ≡ ok (some u) → r ≡ ok u
found_time-eq-ok (err e) u h = cc
found_time-eq-ok (ok t) u h = ground arith

astimezone_iff :
    (now t : ℕ) (z : Zone) → ((u : ℕ) × (astimezone t z ≡ ok u) × (now < u)) ↔ IsLater now t z
unfolding astimezone
astimezone_iff now t (ahead n) =
    (λ (u, e, l). ground arith, λ l. (t - n, ground arith, omega (arith, l)))
astimezone_iff now t (behind n) =
    (λ (u, e, l). (ground arith, ground arith), λ (l, k). (t + n, ground arith, l))

module _ (sha256 : Request → Try String) (fromisoformat : String → Option DateTime) where
  -- The table names this request, by its identifier and by its digest, and has not expired.
  pub record IsGrant (now : ℕ) (r : Request) (d : Fields) : Type 0 where
    pub known : null (minus (keys d) approval_fields) ≡ true
    pub version : is_text (get d "schema_version") "1.0" ≡ true
    pub same_id : is_text (get d "request_id") r.request_id ≡ true
    pub same_digest :
        (digest : String) × (sha256 r ≡ ok digest)
        × (is_text (get d "request_sha256") digest ≡ true)
    pub approver :
        (by : String) × (text_value (get d "approved_by") ≡ some by) × ((by == "") ≡ false)
    pub unexpired :
        (s : String) × (t : ℕ) × (z : Zone) × (text_value (get d "expires_at") ≡ some s)
        × (fromisoformat (join "+00:00" (split 90 s))
            ≡ some (record { local_time = t; tzinfo = some z }))
        × IsLater now t z

  -- The expiry is a time still to come.
  abbrev Expires : ℕ → Option Value → Type 0
  Expires now v =
      (s : String) × (t : ℕ) × (z : Zone) × (text_value v ≡ some s)
      × (fromisoformat (join "+00:00" (split 90 s))
          ≡ some (record { local_time = t; tzinfo = some z }))
      × IsLater now t z

  in_utc_iff :
      (now : ℕ) (o : Option DateTime)
      → ((u : ℕ) × (in_utc o ≡ ok (some u)) × (now < u)) ↔ (
          (t : ℕ) × (z : Zone) × (o ≡ some (record { local_time = t; tzinfo = some z }))
          × IsLater now t z)
  unfolding in_utc
  in_utc_iff now none = (λ (u, e, l). cc, λ (t, z, e, l). cc)
  in_utc_iff now (some d) = (
    λ (u, e, l). elim (Option-cases d.tzinfo) [
      | inl q ↦ absurd (ground arith)
      | inr (z, q) ↦ (
        d.local_time,
        z,
        ap (λ x. some (record { local_time = d.local_time; tzinfo = x })) q,
        (astimezone_iff now d.local_time z).0
            (u, found_time-eq-ok (astimezone d.local_time z) u (ground arith), l),
      )
    ],
    λ (t, z, e, l).
        let (u, a, b) = (astimezone_iff now t z).1 l in (u, ap in_utc e ∙ ap found_time a, b),
  )

  parse_time_iff :
      (now : ℕ) (v : Option Value)
      → ((u : ℕ) × (parse_time sha256 fromisoformat v ≡ ok (some u)) × (now < u)) ↔ Expires now v
  unfolding parse_time without_z
  parse_time_iff now v = (
    λ (u, e, l). elim (Option-cases (text_value v)) [
      | inl q ↦ absurd (ground arith)
      | inr (s, q) ↦
          let (t, z, f, k) =
            (in_utc_iff now (fromisoformat (join "+00:00" (split 90 s)))).0 (u, ground arith, l) in
          (s, t, z, q, f, k)
    ],
    λ (s, t, z, q, f, k).
        let (u, e, l) =
          (in_utc_iff now (fromisoformat (join "+00:00" (split 90 s)))).1 (t, z, f, k) in
        (u, rw (parse_time, q) e, l),
  )

  check_grant_iff :
      (now : ℕ) (source : String) (d : Fields)
      → (is_approved (check_grant sha256 fromisoformat now source d) ≡ true) ↔ (
          ((by : String) × (text_value (get d "approved_by") ≡ some by) × ((by == "") ≡ false))
          × ((u : ℕ) × (parse_time sha256 fromisoformat (get d "expires_at") ≡ ok (some u))
              × (now < u)))
  unfolding check_grant timed
  check_grant_iff now source d = (λ h. ground arith, λ g. ground arith)

  check_fields-parts :
      (now : ℕ) (source : String) (r : Request) (d : Fields)
      → (is_approved (check_fields sha256 fromisoformat now source r d) ≡ true) ↔ (
          (null (minus (keys d) approval_fields) ≡ true)
          × (is_text (get d "schema_version") "1.0" ≡ true)
          × (is_text (get d "request_id") r.request_id ≡ true)
          × ((digest : String) × (sha256 r ≡ ok digest)
              × (is_text (get d "request_sha256") digest ≡ true))
          × (is_approved (check_grant sha256 fromisoformat now source d) ≡ true))
  unfolding check_fields
  check_fields-parts now source r d = (λ h. ground arith, λ g. ground arith)

  check_fields_iff :
      (now : ℕ) (source : String) (r : Request) (d : Fields)
      → (is_approved (check_fields sha256 fromisoformat now source r d) ≡ true) ↔ IsGrant now r d
  check_fields_iff now source r d = (
    λ h.
        let (known, version, same_id, same_digest, grant) =
          (check_fields-parts now source r d).0 h in
        let (approver, time) = (check_grant_iff now source d).0 grant in
        record {
          known = known;
          version = version;
          same_id = same_id;
          same_digest = same_digest;
          approver = approver;
          unexpired = (parse_time_iff now (get d "expires_at")).0 time;
        },
    λ g. (check_fields-parts now source r d).1 (
      g.known,
      g.version,
      g.same_id,
      g.same_digest,
      (check_grant_iff now source d).1
          (g.approver, (parse_time_iff now (get d "expires_at")).1 g.unexpired),
    ),
  )

  check_value_iff :
      (now : ℕ) (source : String) (r : Request) (v : Value)
      → (is_approved (check_value sha256 fromisoformat now source r v) ≡ true)
        ↔ ((d : Fields) × (v ≡ obj d) × IsGrant now r d)
  unfolding check_value
  check_value_iff now source r (obj d) = (
    λ h. (d, refl, (check_fields_iff now source r d).0 h),
    λ (d', e, g).
        (check_fields_iff now source r d).1 (subst (IsGrant now r) (sym (obj-injective e)) g),
  )
  check_value_iff now source r no_value = (λ h. cc, λ (d, e, g). cc)
  check_value_iff now source r (bool b) = (λ h. cc, λ (d, e, g). cc)
  check_value_iff now source r (num b) = (λ h. cc, λ (d, e, g). cc)
  check_value_iff now source r (str b) = (λ h. cc, λ (d, e, g). cc)
  check_value_iff now source r (arr b) = (λ h. cc, λ (d, e, g). cc)

  -- Everything that has to hold of the directory, the file, its content and the time.
  pub record IsApproved (a : Approvals) (r : Request) : Type 0 where
    pub folder :
        (m : Metadata) × (a.directory ≡ ok m) × (m.is_directory ≡ true) × IsProtected a.euid m
    pub document : (m : Metadata) × (a.file ≡ ok m) × (m.is_regular ≡ true) × IsProtected a.euid m
    pub grant :
        (v : Value) × (a.content ≡ ok (ok v)) × ((d : Fields) × (v ≡ obj d) × IsGrant a.now r d)

  check_content_iff :
      (a : Approvals) (source : String) (r : Request)
      → (is_approved (check_content sha256 fromisoformat a source r) ≡ true)
        ↔ ((v : Value) × (a.content ≡ ok (ok v)) × ((d : Fields) × (v ≡ obj d) × IsGrant a.now r d))
  unfolding check_content fault_result
  check_content_iff a source r = elim (Result-cases a.content) [
    | inl (x, e) ↦ (λ h. absurd (ground arith), λ (v, e', g). absurd (ground arith))
    | inr (err not_found, e) ↦ (λ h. absurd (ground arith), λ (v, e', g). absurd (ground arith))
    | inr (err (unreadable why), e) ↦
        (λ h. absurd (ground arith), λ (v, e', g). absurd (ground arith))
    | inr (ok v, e) ↦ (
      λ h. (v, e, (check_value_iff a.now source r v).0 (ground arith)),
      λ (v', e', g). rw e (
          (check_value_iff a.now source r v).1 (
            subst (λ (t : Value). (d : Fields) × (t ≡ obj d) × IsGrant a.now r d)
              (sym (ok-injective (ok-injective (sym e ∙ e')))) g)),
    )
  ]

  -- An approval counts exactly if the directory and the file are protected, the file is readable
  -- and its table names this request, its digest, an approver and a time still to come: one that
  -- has a time zone and is a time in UTC.
  pub check_approval_iff :
      (a : Approvals) (r : Request) (directory : String)
      → (is_approved (check_approval sha256 fromisoformat a r directory) ≡ true) ↔ IsApproved a r
  unfolding check_approval check_directory check_file fault_result
  check_approval_iff a r directory =
      let c = check_content_iff a (directory <> ("/" <> (r.request_id <> ".json"))) r in
      (
        λ h. record { folder = ground arith; document = ground arith; grant = c.0 (ground arith) },
        λ g. ground (arith, c.1 g.grant),
      )
