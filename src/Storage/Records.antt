-- ===== src/Storage/Records.antt =====
-- The JSON documents of crates/parqonaut-storage/src/publication.rs and locking.rs, and the platform
-- that they are stored on: a backend, the path crate's `join` and serde_json for each document type.
use parqonaut.Prelude.{
  ℕ, ◌∷◌, ◌≡◌, Option, some, List, arith, inl, inr, Option-cases, ok, Result, ok_or, map_err, ◌>>=◌,
  Text, codes,
}
use parqonaut.Storage.Errors.{StorageError, PublicationState, PublicationError}
use parqonaut.Storage.Location.{ObjectLocation}
use parqonaut.Storage.Backend.{StorageBackend}

abbrev pub publication_contract_version : ℕ
publication_contract_version = 1

pub record PublicationStateRecord : Type 0 where
  pub parqonaut_publication_version : ℕ
  pub version_id : Text
  pub run_id : Text
  pub state : PublicationState
  pub updated_at : ℕ

pub record PublicationObjectRecord : Type 0 where
  pub key : Text
  pub size : ℕ
  pub etag : Option Text
  pub version_id : Option Text

pub record PublicationManifest : Type 0 where
  pub parqonaut_publication_version : ℕ
  pub version_id : Text
  pub run_id : Text
  pub objects : List PublicationObjectRecord

pub record CommitMarker : Type 0 where
  pub version_id : Text
  pub run_id : Text
  pub committed_at : ℕ

pub record CurrentPointer : Type 0 where
  pub version_id : Text

pub record WriterLockRecord : Type 0 where
  pub run_id : Text
  pub version_id : Text

-- `to_vec` and `from_slice` of serde_json at one type: what was written reads back.
pub record Serde (Bytes A : Type 0) : Type 0 where
  pub to_vec : A → Option Bytes
  pub from_slice : Bytes → Option A
  pub from_slice-to_vec : (a : A) (b : Bytes) → to_vec a ≡ some b → from_slice b ≡ some a

pub record Platform : Type 1 where
  pub Bytes : Type 0
  pub S : Type 0
  pub backend : StorageBackend Bytes S
  pub join : Text → Text → Text
  pub join_apart : (p a b : Text) → join p (b'.' ∷ a) ≡ join p (b'.' ∷ b) → a ≡ b
  pub lock_json : Serde Bytes WriterLockRecord
  pub state_json : Serde Bytes PublicationStateRecord
  pub manifest_json : Serde Bytes PublicationManifest
  pub commit_json : Serde Bytes CommitMarker
  pub current_json : Serde Bytes CurrentPointer

unfoldable pub to_json : {Bytes A : Type 0} → Serde Bytes A → A → Result PublicationError Bytes
to_json serde a =
    ok_or (serde.to_vec a) (PublicationError.storage (StorageError.other (codes "serialize")))

pub to_json-ok :
    {Bytes A : Type 0} (serde : Serde Bytes A) (a : A) (b : Bytes)
    → to_json serde a ≡ ok b
    → serde.from_slice b ≡ some a
unfolding to_json
to_json-ok serde a b h = elim (Option-cases (serde.to_vec a)) [
  | inl gone ↦ absurd (ground arith)
  | inr (c, e) ↦ serde.from_slice-to_vec a b (ground arith)
]

-- `read_json_object`.
unfoldable pub read_json_object :
    {Bytes S A : Type 0}
    → StorageBackend Bytes S
    → Serde Bytes A
    → S
    → ObjectLocation
    → Result PublicationError A
read_json_object backend serde s o = do
  bytes ← map_err PublicationError.storage (backend.read_all s o)
  ok_or (serde.from_slice bytes)
      (PublicationError.storage (StorageError.other (codes "invalid JSON")))
