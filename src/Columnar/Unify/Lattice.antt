-- ===== src/Columnar/Unify/Lattice.antt =====
-- The unification of crates/parqonaut-columnar/src/schema/unify.rs as a join of kinds.
use parqonaut.Prelude.{
  ◌≡◌, refl, ◌≢◌, ◌↔◌, Bool, true, false, ◌&&◌, ◌||◌, not, List, [], ◌∷◌, Result, ok, err, ◌>>=◌,
  arith, all,
}
use parqonaut.Columnar.Errors.{TypeKind, SchemaConflictPolicy, ColumnarError}
use parqonaut.Columnar.Kind.{kind_eq, kind_eq_sound}
use parqonaut.Columnar.Unify.{unify_types}

abbrev kinds : List TypeKind
kinds =
    TypeKind.null ∷ TypeKind.bool ∷ TypeKind.i8 ∷ TypeKind.i16 ∷ TypeKind.i32 ∷ TypeKind.i64
    ∷ TypeKind.f32 ∷ TypeKind.f64 ∷ TypeKind.utf8 ∷ TypeKind.date ∷ TypeKind.datetime
    ∷ TypeKind.binary ∷ []

-- A test that holds of every listed kind holds of every kind.
all-kinds : (test : TypeKind → Bool) → all test kinds ≡ true → (k : TypeKind) → test k ≡ true
all-kinds test h TypeKind.null = ground arith
all-kinds test h _ = ground arith

all-kinds₃ :
    (test : TypeKind → TypeKind → TypeKind → Bool)
    → all (λ a. all (λ b. all (test a b) kinds) kinds) kinds ≡ true
    → (a b c : TypeKind) → test a b c ≡ true
all-kinds₃ test h a b c =
    all-kinds (test a b)
      (all-kinds (λ b. all (test a b) kinds)
        (all-kinds (λ a. all (λ b. all (test a b) kinds) kinds) h a) b)
      c

-- Whether a result is `ok k`.
abbrev gives : Result ColumnarError TypeKind → TypeKind → Bool
gives (ok j) k = kind_eq j k
gives (err e) k = false

gives_sound : (r : Result ColumnarError TypeKind) (k : TypeKind) → gives r k ≡ true → r ≡ ok k
gives_sound (ok j) k h = cc (kind_eq_sound j k h)
gives_sound (err e) k h = cc

gives_complete : (r : Result ColumnarError TypeKind) (k : TypeKind) → r ≡ ok k → gives r k ≡ true
gives_complete r k h = rw h (all-kinds (λ k. kind_eq k k) refl k)

-- `k` covers `a` if unifying the two gives `k`.
abbrev pub Covers : SchemaConflictPolicy → TypeKind → TypeKind → Type 0
Covers p k a = unify_types a k p ≡ ok k

covers : SchemaConflictPolicy → TypeKind → TypeKind → Bool
covers p k a = gives (unify_types a k p) k

lub_test : SchemaConflictPolicy → TypeKind → TypeKind → TypeKind → Bool
lub_test p a b u = elim (unify_types a b p) [
  | err e ↦ true
  | ok k ↦
      gives (unify_types b a p) k
      && (covers p k a && covers p k b)
      && (not (covers p u a && covers p u b) || covers p u k)
]

lub_table : (p : SchemaConflictPolicy) (a b u : TypeKind) → lub_test p a b u ≡ true
unfolding lub_test covers unify_types
lub_table SchemaConflictPolicy.strict = all-kinds₃ (lub_test SchemaConflictPolicy.strict) refl
lub_table SchemaConflictPolicy.widen = all-kinds₃ (lub_test SchemaConflictPolicy.widen) refl
lub_table SchemaConflictPolicy.stringify = all-kinds₃ (lub_test SchemaConflictPolicy.stringify) refl

abbrev lub_parts : SchemaConflictPolicy → TypeKind → TypeKind → TypeKind → TypeKind → Bool
lub_parts p a b k u =
    gives (unify_types b a p) k
    && (covers p k a && covers p k b)
    && (not (covers p u a && covers p u b) || covers p u k)

lub_parts_hold :
    (p : SchemaConflictPolicy) (a b k u : TypeKind)
    → unify_types a b p ≡ ok k
    → lub_parts p a b k u ≡ true
unfolding lub_test
lub_parts_hold p a b k u h = rw (h, lub_test) at (lub_table p a b u)

lub_split :
    (x y z u v w : Bool)
    → x && (y && z) && (not (u && v) || w) ≡ true
    → (x ≡ true) × (y ≡ true) × (z ≡ true) × (u ≡ true → v ≡ true → w ≡ true)
lub_split x y z u v w h = ground arith

-- Under every policy a successful unification does not depend on the order of its two kinds, and
-- its result covers both kinds and is covered by every kind that covers both.
pub unify_types-lub :
    (p : SchemaConflictPolicy) (a b k : TypeKind)
    → unify_types a b p ≡ ok k
    → (unify_types b a p ≡ ok k)
      × Covers p k a
      × Covers p k b
      × ((u : TypeKind) → Covers p u a → Covers p u b → Covers p u k)
unfolding covers
unify_types-lub p a b k h =
    let parts = λ (u : TypeKind).
      lub_split (gives (unify_types b a p) k) (covers p k a) (covers p k b) (covers p u a)
        (covers p u b) (covers p u k) (lub_parts_hold p a b k u h) in
    (
      gives_sound _ k (parts k).0,
      gives_sound _ k (parts k).1,
      gives_sound _ k (parts k).2,
      λ u ha hb. gives_sound _ u ((parts u).3 (gives_complete _ u ha) (gives_complete _ u hb)),
    )

-- Unifying three kinds, from the left and from the right.
abbrev pub from_left :
    SchemaConflictPolicy → TypeKind → TypeKind → TypeKind → Result ColumnarError TypeKind
from_left p a b c = unify_types a b p >>= λ k. unify_types k c p

abbrev pub from_right :
    SchemaConflictPolicy → TypeKind → TypeKind → TypeKind → Result ColumnarError TypeKind
from_right p a b c = unify_types b c p >>= λ k. unify_types a k p

same_ok : Result ColumnarError TypeKind → Result ColumnarError TypeKind → Bool
same_ok (ok j) (ok k) = kind_eq j k
same_ok (err e) (err f) = true
same_ok _ _ = false

same_ok_sound :
    (r s : Result ColumnarError TypeKind) (k : TypeKind)
    → same_ok r s ≡ true
    → (r ≡ ok k) ↔ (s ≡ ok k)
unfolding same_ok
same_ok_sound (ok i) (ok j) k h = let e = kind_eq_sound i j h in (λ q. cc, λ q. cc)
same_ok_sound (err e) (err f) k h = (λ q. cc, λ q. cc)
same_ok_sound (ok i) (err f) k h = cc
same_ok_sound (err e) (ok j) k h = cc

assoc_table :
    (p : SchemaConflictPolicy)
    → p ≢ SchemaConflictPolicy.stringify
    → (a b c : TypeKind) → same_ok (from_left p a b c) (from_right p a b c) ≡ true
unfolding same_ok unify_types
assoc_table SchemaConflictPolicy.strict _ =
    all-kinds₃
      (λ a b c.
        same_ok (from_left SchemaConflictPolicy.strict a b c)
          (from_right SchemaConflictPolicy.strict a b c))
      refl
assoc_table SchemaConflictPolicy.widen _ =
    all-kinds₃
      (λ a b c.
        same_ok (from_left SchemaConflictPolicy.widen a b c)
          (from_right SchemaConflictPolicy.widen a b c))
      refl
assoc_table SchemaConflictPolicy.stringify h = absurd (h refl)

-- Under the policies strict and widen, three kinds unify from the left exactly when they unify from
-- the right, and to the same kind.
pub unify_types_assoc :
    (p : SchemaConflictPolicy) (a b c k : TypeKind)
    → p ≢ SchemaConflictPolicy.stringify
    → (from_left p a b c ≡ ok k) ↔ (from_right p a b c ≡ ok k)
unify_types_assoc p a b c k h = same_ok_sound _ _ k (assoc_table p h a b c)

order_test : TypeKind → TypeKind → Bool
order_test a b = elim (unify_types a b SchemaConflictPolicy.stringify) [
  | ok k ↦ true
  | err e ↦
      gives (from_left SchemaConflictPolicy.stringify a TypeKind.utf8 b) TypeKind.utf8
      && gives (from_left SchemaConflictPolicy.stringify TypeKind.utf8 a b) TypeKind.utf8
]

order_table : (a b : TypeKind) → order_test a b ≡ true
unfolding order_test unify_types
order_table a = all-kinds (order_test a) (all-kinds (λ a. all (order_test a) kinds) refl a)

and_split : (x y : Bool) → x && y ≡ true → (x ≡ true) × (y ≡ true)
and_split x y h = ground arith

order_parts :
    (a b : TypeKind) (e : ColumnarError)
    → unify_types a b SchemaConflictPolicy.stringify ≡ err e
    → gives (from_left SchemaConflictPolicy.stringify a TypeKind.utf8 b) TypeKind.utf8
        && gives (from_left SchemaConflictPolicy.stringify TypeKind.utf8 a b) TypeKind.utf8
      ≡ true
unfolding order_test
order_parts a b e h = rw (h, order_test) at (order_table a b)

-- Under stringify the order matters: when two kinds do not unify, a text column that is read before
-- them or between them saves the unification, and one that is read after them does not.
pub unify_types-stringify_order :
    (a b : TypeKind) (e : ColumnarError)
    → unify_types a b SchemaConflictPolicy.stringify ≡ err e
    → (from_left SchemaConflictPolicy.stringify a b TypeKind.utf8 ≡ err e)
      × (from_left SchemaConflictPolicy.stringify a TypeKind.utf8 b ≡ ok TypeKind.utf8)
      × (from_left SchemaConflictPolicy.stringify TypeKind.utf8 a b ≡ ok TypeKind.utf8)
unify_types-stringify_order a b e h =
    let both = and_split _ _ (order_parts a b e h) in
    (rw h, gives_sound _ TypeKind.utf8 both.0, gives_sound _ TypeKind.utf8 both.1)
