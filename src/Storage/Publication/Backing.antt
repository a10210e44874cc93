-- ===== src/Storage/Publication/Backing.antt =====
-- What the state records, the commit marker and the CURRENT pointer of
-- crates/parqonaut-storage/src/publication.rs promise of one version, and the writes that keep it.
use parqonaut.Prelude.{
  ◌≤◌, ◌≡◌, sym, ◌∙◌, ◌≢◌, some, none, arith, Text, text_eq, text_eq_iff, Bool-cases, inl, inr,
}
use parqonaut.Storage.Errors.{PublicationState}
use parqonaut.Storage.Location.{DatasetLocation}
use parqonaut.Storage.Keys.{
  current_key, writer_lock_key, version_state_key, version_manifest_key, version_commit_key,
  IsDotted, current-IsDotted, state-IsDotted, manifest-IsDotted, commit-IsDotted, VersionKey,
  lock-ne-version, current-ne-version, lock-ne-current, state-ne-commit,
}
use parqonaut.Storage.Records.{PublicationStateRecord, CurrentPointer, Platform}
use parqonaut.Storage.Effects.{at, Unchanged, Wrote, Elsewhere, Wrote-Elsewhere, Wrote-here}
use parqonaut.Storage.Publication.{ordinal}

some-ne-none : {A : Type 0} → {a : A} → some a ≢ none
some-ne-none e = ground arith

module _ (p : Platform) (ds : DatasetLocation) (v : Text) where
  open p use {Bytes, S, state_json, current_json}

  abbrev pub Present : S → Text → Type 0
  Present s k = (b : Bytes) × (at p ds s k ≡ some b)

  -- From `manifest_written` on there is a manifest, from `committed` on a commit marker.
  pub record Backed (s : S) (st : PublicationState) : Type 0 where
    pub manifest : 4 ≤ ordinal st → Present s (version_manifest_key v)
    pub marker : 5 ≤ ordinal st → Present s (version_commit_key v)

  pub record Consistent (s : S) : Type 0 where
    pub recorded :
        (b : Bytes) (r : PublicationStateRecord)
        → at p ds s (version_state_key v) ≡ some b
        → state_json.from_slice b ≡ some r
        → Backed s r.state
    pub marked : Present s (version_commit_key v) → Present s (version_manifest_key v)
    pub pointed :
        (b : Bytes) (c : CurrentPointer)
        → at p ds s current_key ≡ some b
        → current_json.from_slice b ≡ some c
        → c.version_id ≡ v
        → Present s (version_commit_key v)

  pub Present-Wrote :
      {s t : S} {k r : Text} {b : Bytes}
      → Wrote p ds s t k (some b)
      → IsDotted r
      → Present s r
      → Present t r
  Present-Wrote {k = k} {r = r} {b = b} w d (a, e) = elim (Bool-cases (text_eq k r)) [
    | inl same ↦ (b, w.reads r d ∙ rw same)
    | inr differ ↦ (a, w.reads r d ∙ rw differ e)
  ]

  Backed-map :
      {s t : S} {st : PublicationState}
      → (Present s (version_manifest_key v) → Present t (version_manifest_key v))
      → (Present s (version_commit_key v) → Present t (version_commit_key v))
      → Backed s st
      → Backed t st
  Backed-map f g h = record { manifest = λ n. f (h.manifest n); marker = λ n. g (h.marker n) }

  pub Backed-Wrote :
      {s t : S} {k : Text} {b : Bytes} {st : PublicationState}
      → Wrote p ds s t k (some b)
      → Backed s st
      → Backed t st
  Backed-Wrote w =
      Backed-map (Present-Wrote w (manifest-IsDotted v)) (Present-Wrote w (commit-IsDotted v))

  pub Backed-lock :
      {s t : S} {st : PublicationState}
      → Elsewhere p ds s t writer_lock_key
      → Backed s st
      → Backed t st
  Backed-lock w =
      Backed-map
        (λ (c, e). (c, w _ (manifest-IsDotted v) (lock-ne-version VersionKey.manifest) ∙ e))
        (λ (c, e). (c, w _ (commit-IsDotted v) (lock-ne-version VersionKey.commit) ∙ e))

  pub Backed-Unchanged :
      {s t : S} {st : PublicationState} → Unchanged p ds s t → Backed s st → Backed t st
  Backed-Unchanged same =
      Backed-map (λ (b, e). (b, same _ (manifest-IsDotted v) ∙ e))
        (λ (b, e). (b, same _ (commit-IsDotted v) ∙ e))

  -- A version that is neither written nor committed yet is backed by anything.
  pub Backed-early : {s : S} (st : PublicationState) → ordinal st ≤ 3 → Backed s st
  Backed-early st h = record {
    manifest = λ n. absurd (ground arith);
    marker = λ n. absurd (ground arith);
  }

  pub Backed-written :
      {s : S} → Present s (version_manifest_key v) → Backed s PublicationState.manifest_written
  unfolding ordinal
  Backed-written manifest = record { manifest = λ _. manifest; marker = λ n. absurd (ground arith) }

  pub Backed-marked :
      {s : S} {st : PublicationState}
      → Consistent s
      → Present s (version_commit_key v)
      → Backed s st
  Backed-marked h marker = record { manifest = λ _. h.marked marker; marker = λ _. marker }

  -- Objects that stay, under a state record and a pointer that stay.
  Consistent-map :
      {s t : S}
      → at p ds t (version_state_key v) ≡ at p ds s (version_state_key v)
      → at p ds t current_key ≡ at p ds s current_key
      → (Present s (version_manifest_key v) → Present t (version_manifest_key v))
      → (Present s (version_commit_key v) → Present t (version_commit_key v))
      → (Present t (version_commit_key v) → Present t (version_manifest_key v))
      → Consistent s
      → Consistent t
  Consistent-map es ec f g m h = record {
    recorded = λ b r e q. Backed-map f g (h.recorded b r (sym es ∙ e) q);
    marked = m;
    pointed = λ b c e q n. g (h.pointed b c (sym ec ∙ e) q n);
  }

  pub Consistent-Unchanged : {s t : S} → Unchanged p ds s t → Consistent s → Consistent t
  Consistent-Unchanged {s} {t} same h =
      Consistent-map (same _ (state-IsDotted v)) (same _ current-IsDotted)
        (λ (b, e). (b, same _ (manifest-IsDotted v) ∙ e))
        (λ (b, e). (b, same _ (commit-IsDotted v) ∙ e))
        (λ (b, e).
          let (c, f) = h.marked (b, sym (same _ (commit-IsDotted v)) ∙ e) in
          (c, same _ (manifest-IsDotted v) ∙ f))
        h

  -- The lock's key may be written and removed.
  pub Consistent-lock : {s t : S} → Elsewhere p ds s t writer_lock_key → Consistent s → Consistent t
  Consistent-lock w h =
      let keep_manifest = w _ (manifest-IsDotted v) (lock-ne-version VersionKey.manifest) in
      let keep_commit = w _ (commit-IsDotted v) (lock-ne-version VersionKey.commit) in
      Consistent-map (w _ (state-IsDotted v) (lock-ne-version VersionKey.state))
        (w _ current-IsDotted lock-ne-current) (λ (b, e). (b, keep_manifest ∙ e))
        (λ (b, e). (b, keep_commit ∙ e))
        (λ (b, e). let (c, f) = h.marked (b, sym keep_commit ∙ e) in (c, keep_manifest ∙ f)) h

  -- An object of the version other than its state record; a marker needs the manifest.
  pub Consistent-object :
      {s t : S} {k : Text} {b : Bytes}
      → Wrote p ds s t k (some b)
      → VersionKey v k
      → k ≢ version_state_key v
      → ((k ≡ version_commit_key v) → Present s (version_manifest_key v))
      → Consistent s
      → Consistent t
  Consistent-object {k = k} w key other need h =
      Consistent-map (Wrote-Elsewhere p ds w _ (state-IsDotted v) other)
        (Wrote-Elsewhere p ds w _ current-IsDotted (λ e. current-ne-version key (sym e)))
        (Present-Wrote w (manifest-IsDotted v)) (Present-Wrote w (commit-IsDotted v))
        (λ (b, e).
          Present-Wrote w (manifest-IsDotted v)
            (elim (Bool-cases (text_eq k (version_commit_key v))) [
              | inl same ↦ need ((text_eq_iff k (version_commit_key v)).0 same)
              | inr differ ↦ h.marked (b, (sym (w.reads _ (commit-IsDotted v) ∙ rw differ)) ∙ e)
            ]))
        h

  -- A dataset that has no record, marker or pointer yet.
  pub Consistent-fresh :
      {s : S}
      → at p ds s (version_state_key v) ≡ none
      → at p ds s (version_commit_key v) ≡ none
      → at p ds s current_key ≡ none
      → Consistent s
  Consistent-fresh es em ec = record {
    recorded = λ b r e q. absurd (some-ne-none (sym e ∙ es));
    marked = λ (b, e). absurd (some-ne-none (sym e ∙ em));
    pointed = λ b c e q n. absurd (some-ne-none (sym e ∙ ec));
  }

  -- A state record is written for a state that is backed.
  pub Consistent-state :
      {s t : S} (b : Bytes) (r : PublicationStateRecord)
      → Wrote p ds s t (version_state_key v) (some b)
      → state_json.from_slice b ≡ some r
      → Backed s r.state
      → Consistent s
      → Consistent t
  Consistent-state b r w reads back h = record {
    recorded = λ c q e f.
        let same : some q ≡ some r = cc (sym e ∙ Wrote-here p ds w (state-IsDotted v), f, reads) in
        let state : r.state ≡ q.state = cc (same) in rw (← state) (Backed-Wrote w back);
    marked = λ (c, e). Present-Wrote w (manifest-IsDotted v) (
        h.marked (
          c,
          sym (Wrote-Elsewhere p ds w _ (commit-IsDotted v) (λ x. state-ne-commit v (sym x))) ∙ e,
        ));
    pointed = λ c q e f n. Present-Wrote w (commit-IsDotted v) (
        h.pointed c q
          (sym (
              Wrote-Elsewhere p ds w _ current-IsDotted
                (λ x. current-ne-version VersionKey.state (sym x)))
            ∙ e)
          f n);
  }

  -- CURRENT is written for a version that has its marker.
  pub Consistent-current :
      {s t : S} {b : Bytes}
      → Wrote p ds s t current_key (some b)
      → Present s (version_commit_key v)
      → Consistent s
      → Consistent t
  Consistent-current w marker h = record {
    recorded = λ b r e q. Backed-Wrote w (
        h.recorded b r
          (sym (Wrote-Elsewhere p ds w _ (state-IsDotted v) (current-ne-version VersionKey.state))
            ∙ e)
          q);
    marked = λ (c, e). Present-Wrote w (manifest-IsDotted v) (
        h.marked (
          c,
          sym (Wrote-Elsewhere p ds w _ (commit-IsDotted v) (current-ne-version VersionKey.commit))
              ∙ e,
        ));
    pointed = λ b c e q n. Present-Wrote w (commit-IsDotted v) marker;
  }
