-- ===== src/Storage/Checks/Platforms.antt =====
-- The in-memory backend of crates/parqonaut-storage/src/memory.rs as a platform for the tests, a
-- dataset, and the stores that a publication passes through.
use parqonaut.Prelude.{
  ℕ, ◌≡◌, refl, Option, none, some, [], ◌∷◌, ◌++◌, append_left_cancel, Text, codes,
}
use parqonaut.Storage.Location.{DatasetLocation, slash}
use parqonaut.Storage.Backend.{s3_capabilities}
use parqonaut.Storage.Memory.{MemoryState}
use parqonaut.Storage.Memory.Laws.{memory_backend}
use parqonaut.Storage.Records.{
  PublicationStateRecord, PublicationManifest, CommitMarker, CurrentPointer, WriterLockRecord,
  Serde, Platform,
}

pub data Document : Type 0 where
  lock_document : WriterLockRecord → Document
  state_document : PublicationStateRecord → Document
  manifest_document : PublicationManifest → Document
  commit_document : CommitMarker → Document
  current_document : CurrentPointer → Document
  plain : Text → Document

abbrev pub document_len : Document → ℕ
document_len d = 7

abbrev pub document_slice : Document → ℕ → ℕ → Document
document_slice d start end = d

abbrev pub as_lock : Document → Option WriterLockRecord
as_lock (Document.lock_document r) = some r
as_lock _ = none

abbrev pub as_state : Document → Option PublicationStateRecord
as_state (Document.state_document r) = some r
as_state _ = none

abbrev pub as_manifest : Document → Option PublicationManifest
as_manifest (Document.manifest_document r) = some r
as_manifest _ = none

abbrev pub as_commit : Document → Option CommitMarker
as_commit (Document.commit_document r) = some r
as_commit _ = none

abbrev pub as_current : Document → Option CurrentPointer
as_current (Document.current_document r) = some r
as_current _ = none

pub reads_back :
    {A : Type 0} (write : A → Document) (read : Document → Option A)
    → ((a : A) → read (write a) ≡ some a)
    → (a : A) (b : Document) → some (write a) ≡ some b
    → read b ≡ some a
reads_back write read back a b e = let same : write a ≡ b = cc in rw (← same) (back a)

abbrev pub serde :
    {A : Type 0} (write : A → Document) (read : Document → Option A)
    → ((a : A) → read (write a) ≡ some a)
    → Serde Document A
serde write read back = record {
  to_vec = λ a. some (write a);
  from_slice = read;
  from_slice-to_vec = reads_back write read back;
}

abbrev pub joined : Text → Text → Text
joined path relative = path ++ (slash ++ relative)

pub joined_apart : (p a b : Text) → joined p (b'.' ∷ a) ≡ joined p (b'.' ∷ b) → a ≡ b
joined_apart p a b e = let t : slash ++ b'.' ∷ a ≡ slash ++ b'.' ∷ b = append_left_cancel p e in cc

abbrev pub platform : Platform
platform = record {
  Bytes = Document;
  S = MemoryState Document;
  backend = memory_backend document_len document_slice s3_capabilities;
  join = joined;
  join_apart = joined_apart;
  lock_json = serde Document.lock_document as_lock (λ a. refl);
  state_json = serde Document.state_document as_state (λ a. refl);
  manifest_json = serde Document.manifest_document as_manifest (λ a. refl);
  commit_json = serde Document.commit_document as_commit (λ a. refl);
  current_json = serde Document.current_document as_current (λ a. refl);
}

abbrev pub bucket : DatasetLocation
bucket = DatasetLocation.s3 (record { bucket = codes "b"; prefix = codes "p" })

abbrev pub run : Text
run = codes "r"

abbrev pub other_run : Text
other_run = codes "q"

abbrev pub empty : MemoryState Document
empty = record { objects = [] }
