-- ===== src/Storage/Location.antt =====
-- crates/parqonaut-storage/src/location.rs: datasets, objects and the keys of objects.
use parqonaut.Prelude.{
  [], ◌∷◌, ◌++◌, Result, ok, err, ◌>>=◌, if◌then◌else◌, Text, codes, contains, trim_start, trim_end,
  is_empty,
}
use parqonaut.Storage.Errors.{StorageError}

pub record LocalLocation : Type 0 where
  pub path : Text

pub record S3Location : Type 0 where
  pub bucket : Text
  pub prefix : Text

pub data DatasetLocation : Type 0 where
  local : LocalLocation → DatasetLocation
  s3 : S3Location → DatasetLocation

pub data ObjectLocation : Type 0 where
  local : Text → ObjectLocation
  s3 : Text → Text → ObjectLocation

abbrev pub slash : Text
slash = b'/' ∷ []

unfoldable pub object_key : S3Location → Text → Result StorageError Text
object_key l relative =
    let rel = trim_start b'/' relative in
    if contains rel (codes "..")
    then err (StorageError.invalid_location (codes "object key must not contain '..'"))
    else if is_empty l.prefix
    then ok rel
    else if is_empty rel
    then ok l.prefix
    else ok (trim_end b'/' l.prefix ++ (slash ++ rel))

-- `object_at` of publication.rs. `join` is the path crate's `Utf8Path::join`.
unfoldable pub object_at :
    (Text → Text → Text) → DatasetLocation → Text → Result StorageError ObjectLocation
unfolding object_key
object_at join (DatasetLocation.local l) relative = ok (ObjectLocation.local (join l.path relative))
object_at join (DatasetLocation.s3 l) relative = do
  key ← object_key l relative
  ok (ObjectLocation.s3 l.bucket key)

unfoldable pub display_uri : ObjectLocation → Text
display_uri (ObjectLocation.local path) = codes "file://" ++ path
display_uri (ObjectLocation.s3 bucket key) = codes "s3://" ++ (bucket ++ (slash ++ key))
