-- ===== src/Storage/Keys.antt =====
-- crates/parqonaut-storage/src/publication.rs: the keys of a publication under a dataset's prefix.
use parqonaut.Prelude.{
  ◌≡◌, refl, ◌≢◌, ◌∷◌, ◌++◌, arith, append_left_cancel, Text, codes, trim_start,
}
use parqonaut.Storage.Location.{slash}

abbrev pub writer_lock_key : Text
writer_lock_key = codes ".parqonaut/writer.lock"

abbrev pub current_key : Text
current_key = codes ".parqonaut/CURRENT"

abbrev pub versions_prefix : Text
versions_prefix = codes ".parqonaut/versions"

unfoldable pub version_prefix : Text → Text
version_prefix version = versions_prefix ++ (slash ++ version)

unfoldable pub version_state_key : Text → Text
version_state_key version = version_prefix version ++ (slash ++ codes "state.json")

unfoldable pub version_manifest_key : Text → Text
version_manifest_key version = version_prefix version ++ (slash ++ codes "manifest.json")

unfoldable pub version_commit_key : Text → Text
version_commit_key version = version_prefix version ++ (slash ++ codes "COMMITTED")

unfoldable pub version_data_key : Text → Text → Text
version_data_key version relative =
    version_prefix version ++ (slash ++ (codes "data" ++ (slash ++ trim_start b'/' relative)))

-- Every key of the protocol begins with a dot.
abbrev pub IsDotted : Text → Type 0
IsDotted k = (rest : Text) × (k ≡ b'.' ∷ rest)

pub lock-IsDotted : IsDotted writer_lock_key
lock-IsDotted = (_, refl)

pub current-IsDotted : IsDotted current_key
current-IsDotted = (_, refl)

pub state-IsDotted : (v : Text) → IsDotted (version_state_key v)
unfolding version_state_key version_prefix
state-IsDotted v = (_, refl)

pub manifest-IsDotted : (v : Text) → IsDotted (version_manifest_key v)
unfolding version_manifest_key version_prefix
manifest-IsDotted v = (_, refl)

pub commit-IsDotted : (v : Text) → IsDotted (version_commit_key v)
unfolding version_commit_key version_prefix
commit-IsDotted v = (_, refl)

pub data-IsDotted : (v r : Text) → IsDotted (version_data_key v r)
unfolding version_data_key version_prefix
data-IsDotted v r = (_, refl)

-- The keys of a version are not the dataset's own two keys.
pub data VersionKey (v : Text) : Text → Type 0 where
  state : VersionKey v (version_state_key v)
  manifest : VersionKey v (version_manifest_key v)
  commit : VersionKey v (version_commit_key v)
  data_of : (r : Text) → VersionKey v (version_data_key v r)

pub lock-ne-version : {v k : Text} → VersionKey v k → writer_lock_key ≢ k
unfolding version_state_key version_manifest_key version_commit_key version_data_key version_prefix
lock-ne-version state e = ground arith
lock-ne-version manifest e = ground arith
lock-ne-version commit e = ground arith
lock-ne-version (data_of r) e = ground arith

pub current-ne-version : {v k : Text} → VersionKey v k → current_key ≢ k
unfolding version_state_key version_manifest_key version_commit_key version_data_key version_prefix
current-ne-version state e = ground arith
current-ne-version manifest e = ground arith
current-ne-version commit e = ground arith
current-ne-version (data_of r) e = ground arith

pub lock-ne-current : writer_lock_key ≢ current_key
lock-ne-current e = ground arith

pub state-ne-manifest : (v : Text) → version_manifest_key v ≢ version_state_key v
unfolding version_state_key version_manifest_key
state-ne-manifest v e =
    let t : slash ++ codes "manifest.json" ≡ slash ++ codes "state.json" =
      append_left_cancel (version_prefix v) e in
    ground arith

pub state-ne-commit : (v : Text) → version_commit_key v ≢ version_state_key v
unfolding version_state_key version_commit_key
state-ne-commit v e =
    let t : slash ++ codes "COMMITTED" ≡ slash ++ codes "state.json" =
      append_left_cancel (version_prefix v) e in
    ground arith

pub state-ne-data : (v r : Text) → version_data_key v r ≢ version_state_key v
unfolding version_state_key version_data_key
state-ne-data v r e =
    let t : slash ++ (codes "data" ++ (slash ++ trim_start b'/' r)) ≡ slash ++ codes "state.json" =
      append_left_cancel (version_prefix v) e in
    ground arith

pub commit-ne-manifest : (v : Text) → version_manifest_key v ≢ version_commit_key v
unfolding version_manifest_key version_commit_key
commit-ne-manifest v e =
    let t : slash ++ codes "manifest.json" ≡ slash ++ codes "COMMITTED" =
      append_left_cancel (version_prefix v) e in
    ground arith

pub commit-ne-data : (v r : Text) → version_data_key v r ≢ version_commit_key v
unfolding version_commit_key version_data_key
commit-ne-data v r e =
    let t : slash ++ (codes "data" ++ (slash ++ trim_start b'/' r)) ≡ slash ++ codes "COMMITTED" =
      append_left_cancel (version_prefix v) e in
    ground arith
