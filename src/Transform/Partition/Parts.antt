-- ===== src/Transform/Partition/Parts.antt =====
-- The parts of a partition, one after the other (crates/parqonaut-transform/src/engine/partition.rs).
use parqonaut.Prelude.{
  ℕ, zero, suc, ◌≤◌, ◌≡◌, ◌≢◌, refl, ap, Bool, true, false, ◌&&◌, List, [], ◌∷◌, ◌++◌,
  if◌then◌else◌, ◌==◌, Text, text_eq, text_eq_refl, text_eq_ne, arith,
}
use parqonaut.Transform.Partition.Writers.{PartFile, Files, set_file, contents}

never : (b : Bool) → (b && false) ≡ false
never true = refl
never false = refl

module _ {Batch : Type 0} where
  -- The first `n` parts in a directory.
  abbrev pub parts : Files Batch → Text → ℕ → List Batch
  parts files dir zero = []
  parts files dir (suc n) = parts files dir n ++ files dir n

  -- The batches of a key among those that were written.
  abbrev pub of_key : Text → List (Text × Batch) → List Batch
  of_key key [] = []
  of_key key ((k, batch) ∷ subs) =
      let rest = of_key key subs in if text_eq k key then batch ∷ rest else rest

  pub of_key-append :
      (key k : Text) (batch : Batch) (subs : List (Text × Batch))
      → of_key key (subs ++ ((k, batch) ∷ []))
        ≡ (if text_eq k key then of_key key subs ++ (batch ∷ []) else of_key key subs)
  of_key-append key k batch [] = ground arith
  of_key-append key k batch ((j, b) ∷ subs) = ground (arith, of_key-append key k batch subs)

  pub parts-elsewhere :
      (file : PartFile) (batches : List Batch) (files : Files Batch) (dir : Text) (n : ℕ)
      → file.dir ≢ dir
      → parts (set_file file batches files) dir n ≡ parts files dir n
  parts-elsewhere file batches files dir zero differ = refl
  parts-elsewhere file batches files dir (suc n) differ =
      rw (text_eq_ne file.dir dir differ, parts-elsewhere file batches files dir n differ) refl

  pub parts-earlier :
      (file : PartFile) (batches : List Batch) (files : Files Batch) (dir : Text) (n : ℕ)
      → n ≤ file.part
      → parts (set_file file batches files) dir n ≡ parts files dir n
  parts-earlier file batches files dir zero before = refl
  parts-earlier file batches files dir (suc n) before =
      let differ : (file.part == n) ≡ false = ground arith in
      rw (differ, parts-earlier file batches files dir n (ground arith))
        (ap (λ b. parts files dir n ++ (if b then batches else files dir n))
          (never (text_eq file.dir dir)))

  pub set_file-same :
      (file : PartFile) (batches : List Batch) (files : Files Batch)
      → contents file (set_file file batches files) ≡ batches
  set_file-same file batches files =
      let here : (file.part == file.part) ≡ true = ground arith in
      rw (text_eq_refl file.dir, here) refl
