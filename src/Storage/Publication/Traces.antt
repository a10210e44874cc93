-- ===== src/Storage/Publication/Traces.antt =====
-- The histories of one version: runs of crates/parqonaut-storage/src/publication.rs that begin a session,
-- call its operations in any order, and stop at any moment. A call that fails at any access of the
-- backend leaves what it has written, so a crash within a call is a failure of the access that follows.
use parqonaut.Prelude.{ℕ, ◌≡◌, Bool, false, Option, none, some, Result, ok, err, Text}
use parqonaut.Prelude.Eff.{Eff, Post, Post-ok, Post-err}
use parqonaut.Storage.Errors.{PublicationError, PublicationState}
use parqonaut.Storage.Location.{DatasetLocation}
use parqonaut.Storage.Records.{PublicationManifest, Platform}
use parqonaut.Storage.Publication.{RemotePublicationSession}
use parqonaut.Storage.Publication.Session.{
  World, advance_to, put_version_object, mark_uploaded, mark_verified, write_manifest, commit,
  promote_current, abandon, finish,
}
use parqonaut.Storage.Publication.Opening.{begin}
use parqonaut.Storage.Publication.Backing.{Consistent}
use parqonaut.Storage.Publication.Consistency.{Sound}
use parqonaut.Storage.Publication.Calls.{
  needs_object, Keeps, step-Sound, put_version_object-Sound, mark_uploaded-Sound,
  mark_verified-Sound, write_manifest-Sound,
}
use parqonaut.Storage.Publication.Marking.{
  commit-Sound, promote_current-Sound, abandon-Sound, finish-Sound,
}
use parqonaut.Storage.Publication.Begin.{Locked, begin-Begun, Sound-Consistent}

module _ (p : Platform) where
  open p use {Bytes, S}

  pub data Call : Type 0 where
    advance : ℕ → PublicationState → Call
    put : ℕ → Text → Bytes → Call
    uploaded verified : ℕ → Call
    manifest : ℕ → PublicationManifest → Call
    commit_version promoted : ℕ → Call
    abandoned : Call
    finished : ℕ → Bool → Call

  abbrev discard :
      {A : Type 0}
      → World p × Result PublicationError A
      → World p × Result PublicationError (Unit {0})
  discard (w, ok a) = (w, ok tt)
  discard (w, err e) = (w, err e)

  unfoldable pub perform : Call → Eff PublicationError (World p) (Unit {0})
  perform (Call.advance now next) w = advance_to p now next w
  perform (Call.put now relative payload) w = discard (put_version_object p now relative payload w)
  perform (Call.uploaded now) w = mark_uploaded p now w
  perform (Call.verified now) w = mark_verified p now w
  perform (Call.manifest now m) w = write_manifest p now m w
  perform (Call.commit_version now) w = discard (commit p now w)
  perform (Call.promoted now) w = promote_current p now w
  perform Call.abandoned w = abandon p w
  perform (Call.finished now promote) w = finish p now promote w

  -- A call that steps by hand to a state that an object has to bear out.
  abbrev pub by_hand : Call → Bool
  by_hand (Call.advance now next) = needs_object next
  by_hand _ = false

module _ (p : Platform) (ds : DatasetLocation) (v : Text) where
  open p use {Bytes, S}

  -- The stores, each with the session that is open, which runs of `v` reach from a store.
  pub data Reaches (start : S) : S → Option RemotePublicationSession → Type 0 where
    here : Reaches start start none
    opened :
        (now : ℕ) (s : S) (o : Option RemotePublicationSession) (se : RemotePublicationSession)
        → Reaches start s o
        → (begin p now ds v s).1 ≡ ok se
        → Reaches start (begin p now ds v s).0 (some se)
    refused :
        (now : ℕ) (s : S) (o : Option RemotePublicationSession) (e : PublicationError)
        → Reaches start s o
        → (begin p now ds v s).1 ≡ err e
        → Reaches start (begin p now ds v s).0 none
    called :
        (c : Call p) (s : S) (se : RemotePublicationSession)
        → Reaches start s (some se)
        → Reaches start (perform p c (s, se)).0.0 (some (perform p c (s, se)).0.1)
    stopped :
        (s : S) (se : RemotePublicationSession) → Reaches start s (some se) → Reaches start s none

  -- The calls on the way: none steps by hand to `manifest_written` or `committed`.
  abbrev pub Careful :
      {start s : S} {o : Option RemotePublicationSession} → Reaches start s o → Type 0
  Careful Reaches.here = Unit {0}
  Careful (Reaches.opened now s o se r e) = Careful r
  Careful (Reaches.refused now s o e r f) = Careful r
  Careful (Reaches.called c s se r) = (by_hand p c ≡ false) × Careful r
  Careful (Reaches.stopped s se r) = Careful r

  discard-Keeps :
      {A : Type 0} (r : World p × Result PublicationError A)
      → Keeps p ds v r
      → Keeps p ds v (discard p r)
  discard-Keeps (w, ok a) h = h
  discard-Keeps (w, err e) h = h

  perform-Keeps :
      (c : Call p) (w : World p)
      → by_hand p c ≡ false
      → Sound p ds v w
      → Keeps p ds v (perform p c w)
  unfolding perform
  perform-Keeps (Call.advance now next) w f h = step-Sound p ds v now next w f h
  perform-Keeps (Call.put now relative payload) w f h =
      discard-Keeps (put_version_object p now relative payload w)
        (put_version_object-Sound p ds v now relative payload w h)
  perform-Keeps (Call.uploaded now) w f h = mark_uploaded-Sound p ds v now w h
  perform-Keeps (Call.verified now) w f h = mark_verified-Sound p ds v now w h
  perform-Keeps (Call.manifest now m) w f h = write_manifest-Sound p ds v now m w h
  perform-Keeps (Call.commit_version now) w f h =
      discard-Keeps (commit p now w) (commit-Sound p ds v now w h)
  perform-Keeps (Call.promoted now) w f h = promote_current-Sound p ds v now w h
  perform-Keeps Call.abandoned w f h = abandon-Sound p ds v w h
  perform-Keeps (Call.finished now promote) w f h = finish-Sound p ds v now promote w h

  either :
      {A : Type 0} (Q : World p → Type 0) (r : World p × Result PublicationError A)
      → Post (λ _ u. Q u) Q r
      → Q r.0
  either Q (w, ok a) h = h
  either Q (w, err e) h = h

  abbrev pub Fits : S → Option RemotePublicationSession → Type 0
  Fits s none = Consistent p ds v s
  Fits s (some se) = Sound p ds v (s, se)

  Fits-Consistent : (s : S) (o : Option RemotePublicationSession) → Fits s o → Consistent p ds v s
  Fits-Consistent s none h = h
  Fits-Consistent s (some se) h = Sound-Consistent p ds v h

  pub Reaches-Fits :
      (start s : S) (o : Option RemotePublicationSession)
      → Consistent p ds v start
      → (r : Reaches start s o) → Careful r
      → Fits s o
  Reaches-Fits start s o h Reaches.here k = h
  Reaches-Fits start s o h (Reaches.opened now t q se r e) k =
      (Post-ok (λ x u. Sound p ds v (u, x) × Locked p ds v x) (Consistent p ds v)
        (begin p now ds v t) se
        (begin-Begun p ds v now t (Fits-Consistent t q (Reaches-Fits start t q h r k))) e).0
  Reaches-Fits start s o h (Reaches.refused now t q x r e) k =
      Post-err (λ y u. Sound p ds v (u, y) × Locked p ds v y) (Consistent p ds v)
        (begin p now ds v t) x
        (begin-Begun p ds v now t (Fits-Consistent t q (Reaches-Fits start t q h r k))) e
  Reaches-Fits start s o h (Reaches.called c t se r) (f, k) =
      either (Sound p ds v) (perform p c (t, se))
        (perform-Keeps c (t, se) f (Reaches-Fits start t (some se) h r k))
  Reaches-Fits start s o h (Reaches.stopped t se r) k =
      Sound-Consistent p ds v (Reaches-Fits start t (some se) h r k)

  -- However runs of a version begin, resume, call the session's operations and stop, with any access of
  -- the backend failing on the way: a store that they reach from a consistent one is consistent, if no
  -- call on the way asks `advance_to` for `ManifestWritten` or `Committed`, the states that
  -- `write_manifest` and `commit` reach after they have written their object. A state record of `manifest_written` or
  -- later has a manifest, one of `committed` or `current` has the commit marker, the marker has a
  -- manifest, and CURRENT names the version only if its marker is there.
  pub Reaches-Consistent :
      (start s : S) (o : Option RemotePublicationSession)
      → Consistent p ds v start
      → (r : Reaches start s o) → Careful r
      → Consistent p ds v s
  Reaches-Consistent start s o h r k = Fits-Consistent s o (Reaches-Fits start s o h r k)
