-- ===== src/Storage/Checks/Publications.antt =====
-- A publication of crates/parqonaut-storage/src/publication.rs from its beginning to its end, on the
-- in-memory backend.
use parqonaut.Prelude.{
  ◌≡◌, refl, true, false, none, some, [], Result, ok, arith, codes, trim_start, trim_end, contains,
  starts_with, get, insert, remove, text_eq,
}
use parqonaut.Prelude.Eff.{Post}
use parqonaut.Storage.Errors.{PublicationState, PublicationError}
use parqonaut.Storage.Checks.Platforms.{platform, bucket, run, empty, Document}
use parqonaut.Storage.Location.{object_at, display_uri}
use parqonaut.Storage.Memory.{
  head, read_stream, conditional_create, conditional_replace, object_name, etag_of, decimal,
  metadata_from_key, delete_owned_object,
}
use parqonaut.Storage.Memory.Laws.{lookup}
use parqonaut.Storage.Records.{PublicationManifest, to_json, read_json_object}
use parqonaut.Storage.Keys.{
  version_prefix, version_state_key, version_manifest_key, version_commit_key, version_data_key,
}
use parqonaut.Storage.Contents.{content}
use parqonaut.Storage.Publication.Consistency.{Sound}
use parqonaut.Storage.Publication.Commits.{CommittedWith, commit-CommittedWith}
use parqonaut.Storage.Publication.Recovery.{observed_state-Present}
use parqonaut.Storage.Publication.Immutable.{put_version_object-Immutable}
use parqonaut.Storage.Effects.{at}
use parqonaut.Storage.Publication.{RemotePublicationSession, ordinal}
use parqonaut.Storage.Publication.Reads.{observed_state}
use parqonaut.Storage.Publication.Session.{
  World, commit, finish, put_version_object, mark_uploaded, mark_verified, write_manifest,
}
use parqonaut.Storage.Publication.Opening.{begin}
use parqonaut.Storage.Publication.Backing.{Present, Consistent, Consistent-fresh}
use parqonaut.Storage.Publication.Traces.{
  Call, perform, Reaches, Careful, Reaches-Consistent, Reaches-Fits,
}

abbrev begun : platform.S × Result PublicationError RemotePublicationSession
unfolding begin
begun = begin platform 1 bucket run empty

abbrev opened_session : RemotePublicationSession
opened_session = record {
  dataset = bucket;
  version_id = run;
  run_id = run;
  state = PublicationState.preparing;
  lock = some (record {
    lock_object =
        parqonaut.Storage.Location.ObjectLocation.s3 (codes "b") (codes "p/.parqonaut/writer.lock");
    document = record { run_id = run; version_id = run };
    released = false;
  });
}

begun-ok : begun.1 ≡ ok opened_session
unfolding begin to_json object_at trim_start contains starts_with conditional_create get object_name
    head display_uri version_state_key version_commit_key read_json_object read_stream insert
    version_prefix text_eq trim_end
begun-ok = refl

abbrev manifest : PublicationManifest
manifest = record {
  parqonaut_publication_version = 1;
  version_id = run;
  run_id = run;
  objects = [];
}

-- The worlds that the calls of a publication leave, from its begin to its end.
abbrev after : Call platform → World platform → World platform
unfolding perform
after c w = (perform platform c w).0

abbrev begun_world : World platform
begun_world = (begun.0, opened_session)

abbrev put_world : World platform
put_world = after (Call.put 2 (codes "x") (Document.plain (codes "data"))) begun_world

abbrev verified_world : World platform
verified_world = after (Call.verified 4) (after (Call.uploaded 3) put_world)

abbrev written_world : World platform
written_world = after (Call.manifest 5 manifest) verified_world

abbrev finished_world : World platform
finished_world = after (Call.finished 6 true) written_world

-- The publication succeeds: its version is current.
finished_world_current :
    observed_state platform finished_world.0 bucket run ≡ ok (some PublicationState.current)
unfolding begin observed_state perform to_json object_at trim_start contains starts_with
    conditional_create conditional_replace delete_owned_object get object_name head display_uri
    version_state_key version_commit_key version_manifest_key version_data_key read_json_object
    read_stream insert remove version_prefix text_eq trim_end etag_of decimal metadata_from_key
    finish write_manifest mark_verified mark_uploaded put_version_object
finished_world_current = refl

empty-Consistent : Consistent platform bucket run empty
unfolding content lookup get object_at trim_start version_state_key version_commit_key contains
    starts_with version_prefix
empty-Consistent = Consistent-fresh platform bucket run {s = empty} refl refl refl

abbrev written_path : Reaches platform bucket run empty written_world.0 (some written_world.1)
unfolding begin begun perform after
written_path = Reaches.called (Call.manifest 5 manifest) verified_world.0 verified_world.1 (
    Reaches.called (Call.verified 4) (after (Call.uploaded 3) put_world).0
      (after (Call.uploaded 3) put_world).1
      (Reaches.called (Call.uploaded 3) put_world.0 put_world.1 (
        Reaches.called (Call.put 2 (codes "x") (Document.plain (codes "data"))) begun_world.0
          begun_world.1 (Reaches.opened 1 empty none opened_session Reaches.here begun-ok))))

written-Careful : Careful platform bucket run written_path
unfolding written_path begun perform after
written-Careful = (refl, (refl, (refl, (refl, tt))))

abbrev finished_path : Reaches platform bucket run empty finished_world.0 (some finished_world.1)
unfolding perform after
finished_path = Reaches.called (Call.finished 6 true) written_world.0 written_world.1 written_path

finished-Careful : Careful platform bucket run finished_path
unfolding finished_path
finished-Careful = (refl, written-Careful)

Reaches-Consistent_example : Consistent platform bucket run finished_world.0
Reaches-Consistent_example =
    Reaches-Consistent platform bucket run empty finished_world.0 (some finished_world.1)
      empty-Consistent finished_path finished-Careful

written-Sound : Sound platform bucket run written_world
written-Sound =
    Reaches-Fits platform bucket run empty written_world.0 (some written_world.1) empty-Consistent
      written_path written-Careful

commit-CommittedWith_example :
    Post
      (λ _ u. CommittedWith platform bucket run u)
      (λ _. Unit {0})
      (commit platform 6 written_world)
commit-CommittedWith_example =
    commit-CommittedWith platform bucket run 6 written_world written-Sound

observed_state-Present_example :
    Present platform bucket run finished_world.0 (version_commit_key run)
unfolding ordinal
observed_state-Present_example =
    observed_state-Present platform bucket run finished_world.0 PublicationState.current
      finished_world_current (ground arith)

put_world_object : Present platform bucket run put_world.0 (version_data_key run (codes "x"))
unfolding begin observed_state perform to_json object_at trim_start contains starts_with
    conditional_create conditional_replace delete_owned_object get object_name head display_uri
    version_state_key version_commit_key version_manifest_key version_data_key read_json_object
    read_stream insert remove version_prefix text_eq trim_end etag_of decimal metadata_from_key
    finish write_manifest mark_verified mark_uploaded put_version_object content lookup
put_world_object = (Document.plain (codes "data"), refl)

put_version_object-Immutable_example :
    Post
      (λ _ _. ⊥)
      (λ u.
        at platform bucket u.0 (version_data_key run (codes "x"))
        ≡ at platform bucket put_world.0 (version_data_key run (codes "x")))
      (put_version_object platform 7
        (codes "x")
        (Document.plain (codes "new"))
        (put_world.0, opened_session))
put_version_object-Immutable_example =
    put_version_object-Immutable platform 7 (codes "x") (Document.plain (codes "new")) put_world.0
      opened_session put_world_object
