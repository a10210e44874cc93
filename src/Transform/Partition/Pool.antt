-- ===== src/Transform/Partition/Pool.antt =====
-- The number of open files of a partitioned write (crates/parqonaut-transform/src/engine/partition.rs).
use parqonaut.Prelude.{
  ℕ, suc, ◌≤◌, ◌<◌, ◌≡◌, refl, sym, ap, ◌∙◌, inl, inr, Bool, true, false, Bool-cases, Option, none,
  some, List, [], ◌∷◌, ◌++◌, if◌then◌else◌, length, Text, listed, listed-append, Distinct,
  Distinct-append, text_eq, text_eq_iff, text_eq_refl, Dict, get, insert, remove, get-insert,
  get-remove, text_eq_instance, arith,
}
use parqonaut.Transform.Partition.Writers.{OpenPartition, contains_key, is_some, remove_key}

listed-remove_key :
    (j k : Text) (ks : List Text)
    → Distinct ks
    → listed j (remove_key k ks) ≡ (if text_eq k j then false else listed j ks)
listed-remove_key j k [] d = ground arith
listed-remove_key j k (i ∷ ks) (fresh, d) =
    ground (arith, listed-remove_key j k ks d, text_eq_iff i k, text_eq_iff i j, text_eq_iff k j)

Distinct-remove_key : (k : Text) (ks : List Text) → Distinct ks → Distinct (remove_key k ks)
Distinct-remove_key k [] d = tt
Distinct-remove_key k (i ∷ ks) (fresh, d) = elim (Bool-cases (text_eq i k)) [
  | inl here ↦ rw here d
  | inr other ↦
      rw other
        (ground (arith, listed-remove_key i k ks d, text_eq_iff k i), Distinct-remove_key k ks d)
]

is_some-if :
    (b : Bool) (x y : Option OpenPartition)
    → is_some (if b then x else y) ≡ (if b then is_some x else is_some y)
is_some-if true x y = refl
is_some-if false x y = refl

pub contains_key-insert :
    (j k : Text) (o : OpenPartition) (m : Dict Text OpenPartition)
    → contains_key j (insert k o m) ≡ (if text_eq k j then true else contains_key j m)
contains_key-insert j k o m =
    ap is_some (get-insert k j o m) ∙ is_some-if (text_eq k j) (some o) (get j m)

pub contains_key-remove :
    (j k : Text) (m : Dict Text OpenPartition)
    → contains_key j (remove k m) ≡ (if text_eq k j then false else contains_key j m)
contains_key-remove j k m = ap is_some (get-remove k j m) ∙ is_some-if (text_eq k j) none (get j m)

length-insert :
    (k : Text) (o : OpenPartition) (m : Dict Text OpenPartition)
    → contains_key k m ≡ false
    → length (insert k o m) ≡ suc (length m)
unfolding get insert
length-insert k o [] h = refl
length-insert k o ((i, w) ∷ m) h = elim (Bool-cases (text_eq i k)) [
  | inl here ↦ absurd (ground arith)
  | inr other ↦ rw other (
      ap suc
        (length-insert k o m (sym (ap (λ b. is_some (if b then some w else get k m)) other) ∙ h)))
]

length-remove : (k : Text) (m : Dict Text OpenPartition) → length (remove k m) ≤ length m
unfolding remove
length-remove k [] = omega arith
length-remove k ((i, w) ∷ m) = ground (arith, length-remove k m)

length-remove_present :
    (k : Text) (m : Dict Text OpenPartition)
    → contains_key k m ≡ true
    → length (remove k m) < length m
unfolding remove get
length-remove_present k [] h = cc
length-remove_present k ((i, w) ∷ m) h = elim (Bool-cases (text_eq i k)) [
  | inl here ↦ rw here (omega (arith, length-remove k m))
  | inr other ↦ rw other (
      omega (
        arith,
        length-remove_present k m
            (sym (ap (λ b. is_some (if b then some w else get k m)) other) ∙ h),
      ))
]

-- The open files and the queue of their keys.
pub record Queued (bound : ℕ) (writers : Dict Text OpenPartition) (lru : List Text) : Type 0 where
  pub within : length writers ≤ bound
  pub same : (k : Text) → listed k lru ≡ contains_key k writers
  pub distinct : Distinct lru

no_keys : (m : Dict Text OpenPartition) → ((k : Text) → contains_key k m ≡ false) → length m ≡ 0
unfolding get
no_keys [] h = refl
no_keys ((k, w) ∷ m) h =
    absurd (cc (ap (λ b. is_some (if b then some w else get k m)) (text_eq_refl k), h k))

-- Where the queue is empty no file is open.
pub Queued-empty : (bound : ℕ) (m : Dict Text OpenPartition) → Queued bound m [] → length m ≡ 0
Queued-empty bound m h = no_keys m (λ k. sym (h.same k))

pub Queued-evict :
    (bound : ℕ) (m : Dict Text OpenPartition) (k : Text) (ks : List Text)
    → Queued bound m (k ∷ ks)
    → Queued bound (remove k m) ks × (length (remove k m) < bound)
Queued-evict bound m k ks h =
    let (fresh, rest) = h.distinct in
    let here : contains_key k m ≡ true =
      sym (h.same k) ∙ ap (λ b. if b then true else listed k ks) (text_eq_refl k) in
    let less : length (remove k m) < bound =
      omega (arith, length-remove_present k m here, h.within) in
    (
      record {
        within = omega (arith, less);
        same = λ j. ground (arith, contains_key-remove j k m, h.same j, fresh, text_eq_iff k j);
        distinct = rest;
      },
      less,
    )

pub Queued-touch :
    (bound : ℕ) (m : Dict Text OpenPartition) (k : Text) (ks : List Text)
    → Queued bound m ks
    → listed k ks ≡ true
    → Queued bound m (remove_key k ks ++ (k ∷ []))
Queued-touch bound m k ks h here = record {
  within = h.within;
  same = λ j. ground (
    arith,
    listed-append j k (remove_key k ks),
    listed-remove_key j k ks h.distinct,
    h.same j,
    text_eq_iff k j,
  );
  distinct = Distinct-append k (remove_key k ks) (Distinct-remove_key k ks h.distinct) (
      listed-remove_key k k ks h.distinct
      ∙ ap (λ b. if b then false else listed k ks) (text_eq_refl k));
}

pub Queued-open :
    (bound : ℕ) (m : Dict Text OpenPartition) (ks : List Text) (k : Text) (o : OpenPartition)
    → Queued bound m ks
    → length m < bound
    → contains_key k m ≡ false
    → Queued bound (insert k o m) (ks ++ (k ∷ []))
Queued-open bound m ks k o h room absent = record {
  within = omega (arith, length-insert k o m absent, room);
  same = λ j. ground (arith, listed-append j k ks, contains_key-insert j k o m, h.same j);
  distinct = Distinct-append k ks h.distinct (h.same k ∙ absent);
}
