-- ===== src/Repair/Dependencies/Release.antt =====
-- What the end of an operation frees (crates/parqonaut-repair/src/deps.rs).
use parqonaut.Prelude.{
  ℕ, suc, ◌+◌, ◌≤◌, ◌<◌, ◌≡◌, refl, sym, ap, ◌∙◌, ◌⊎◌, true, false, Bool-cases, inl, inr, none,
  some, List, [], ◌∷◌, ◌++◌, Result, ok, if◌then◌else◌, ◌==◌, length, length-append, Text, text_eq,
  text_eq_iff, text_eq_refl, listed, listed-append, Distinct, Distinct-append, Dict, get, insert,
  get-insert, text_eq_instance, arith,
}
use parqonaut.Repair.Dependencies.{
  RepairOperation, DependencyError, ids_of, release_child, release_children, total,
}
use parqonaut.Repair.Dependencies.Counts.{count, missing}
use parqonaut.Repair.Dependencies.Queue.{total-insert}

module _ (ops : List RepairOperation) where
  -- Each operation's number of open dependencies, where one more is subtracted for each child that waits.
  pub record Degrees (done waiting : List Text) (indegree : Dict Text ℕ) : Type 0 where
    pub known :
        (x : Text)
        → listed x (ids_of ops) ≡ true
        → get x indegree ≡ some (missing x done ops + count x waiting)
    pub unknown :
        (x : Text) → listed x (ids_of ops) ≡ false → (get x indegree ≡ none) × (count x waiting ≡ 0)

  -- What is ready has no open dependency and is not done.
  pub record Free (done ready : List Text) (indegree : Dict Text ℕ) : Type 0 where
    pub free :
        (x : Text) → listed x ready ≡ true → (get x indegree ≡ some 0) × (listed x done ≡ false)
    pub over : (x : Text) → listed x done ≡ true → get x indegree ≡ some 0
    pub once : Distinct ready
    pub watched :
        (x : Text) → get x indegree ≡ some 0 → (listed x ready ≡ true) ⊎ (listed x done ≡ true)

  abbrev pub pushed : Text → ℕ → List Text → List Text
  pushed child n ready = if n == 0 then ready ++ (child ∷ []) else ready

  module _ (done : List Text) where
    child_degree :
        (child : Text) (waiting : List Text) (indegree : Dict Text ℕ)
        → Degrees done (child ∷ waiting) indegree
        → get child indegree ≡ some (suc (missing child done ops + count child waiting))
    child_degree child waiting indegree h = elim (Bool-cases (listed child (ids_of ops))) [
      | inl here ↦ h.known child here ∙ ap some (ground (arith, text_eq_refl child))
      | inr gone ↦
          let (_, none_waits) = h.unknown child gone in absurd (ground (arith, text_eq_refl child))
    ]

    child-Degrees :
        (child : Text) (waiting : List Text) (indegree : Dict Text ℕ)
        → Degrees done (child ∷ waiting) indegree
        → Degrees done waiting
            (insert child (missing child done ops + count child waiting) indegree)
    child-Degrees child waiting indegree h = record {
      known = λ x here. elim (Bool-cases (text_eq child x)) [
        | inl same ↦
            let is_child : child ≡ x = ground (arith, text_eq_iff child x) in
            get-insert child x (missing child done ops + count child waiting) indegree
            ∙ rw same (ap (λ y. some (missing y done ops + count y waiting)) is_child)
        | inr other ↦
            get-insert child x (missing child done ops + count child waiting) indegree
            ∙ rw other (h.known x here ∙ rw other refl)
      ];
      unknown = λ x gone.
          let (absent, none_waits) = h.unknown x gone in
          let other : text_eq child x ≡ false = ground arith in
          (
            get-insert child x (missing child done ops + count child waiting) indegree
                ∙ rw other absent,
            ground arith,
          );
    }

    kept_zero :
        (child x : Text) (n : ℕ) (indegree : Dict Text ℕ)
        → get child indegree ≡ some (suc n)
        → get x indegree ≡ some 0
        → get x (insert child n indegree) ≡ some 0
    kept_zero child x n indegree h zero_there = elim (Bool-cases (text_eq child x)) [
      | inl same ↦
          let is_child : child ≡ x = ground (arith, text_eq_iff child x) in
          let here : some (suc n) ≡ some 0 =
            sym h ∙ ap (λ y. get y indegree) is_child ∙ zero_there in
          absurd (ground arith)
      | inr other ↦ get-insert child x n indegree ∙ rw other zero_there
    ]

    -- A key with a number above 0 is not among those with 0.
    not_zero :
        (child : Text) (n : ℕ) (xs : List Text) (indegree : Dict Text ℕ)
        → get child indegree ≡ some n
        → ((x : Text) → listed x xs ≡ true → get x indegree ≡ some 0)
        → 0 < n
        → listed child xs ≡ false
    not_zero child n xs indegree h zeros positive = elim (Bool-cases (listed child xs)) [
      | inl here ↦ let both : some n ≡ some 0 = sym h ∙ zeros child here in absurd (ground arith)
      | inr gone ↦ gone
    ]

    pushed_new :
        (child x : Text) (n : ℕ) (ready : List Text)
        → listed x (pushed child n ready) ≡ true
        → listed x ready ≡ false
        → (n ≡ 0) × (child ≡ x)
    pushed_new child x n ready here new = elim (Bool-cases (n == 0)) [
      | inl last ↦ (ground arith, ground (arith, listed-append x child ready, text_eq_iff child x))
      | inr more ↦ absurd (ground arith)
    ]

    listed-pushed :
        (child x : Text) (n : ℕ) (ready : List Text)
        → listed x ready ≡ true
        → listed x (pushed child n ready) ≡ true
    listed-pushed child x n ready here = ground (arith, listed-append x child ready)

    child_watched :
        (child : Text) (n : ℕ) (ready : List Text) (indegree : Dict Text ℕ)
        → Free done ready indegree
        → (x : Text) → get x (insert child n indegree) ≡ some 0
        → (listed x (pushed child n ready) ≡ true) ⊎ (listed x done ≡ true)
    child_watched child n ready indegree f x zero_there = elim (Bool-cases (text_eq child x)) [
      | inl same ↦
          let last : n ≡ 0 = ground (arith, get-insert child x n indegree) in
          inl (ground (arith, listed-append x child ready))
      | inr other ↦
          let was : get x indegree ≡ some 0 = ground (arith, get-insert child x n indegree) in
          elim (f.watched x was) [
            | inl here ↦ inl (listed-pushed child x n ready here)
            | inr done_already ↦ inr done_already
          ]
    ]

    child-Free :
        (child : Text) (n : ℕ) (ready : List Text) (indegree : Dict Text ℕ)
        → get child indegree ≡ some (suc n)
        → Free done ready indegree
        → Free done (pushed child n ready) (insert child n indegree)
    child-Free child n ready indegree h f = record {
      free = λ x here. elim (Bool-cases (listed x ready)) [
        | inl was ↦
            let (nothing_open, fresh) = f.free x was in
            (kept_zero child x n indegree h nothing_open, fresh)
        | inr new ↦
            let (last, same) = pushed_new child x n ready here new in
            (
              get-insert child x n indegree ∙ rw ((text_eq_iff child x).1 same) (ap some last),
              ap (λ y. listed y done) (sym same)
                  ∙ not_zero child (suc n) done indegree h f.over (omega arith),
            )
      ];
      watched = child_watched child n ready indegree f;
      over = λ x was. kept_zero child x n indegree h (f.over x was);
      once = elim (Bool-cases (n == 0)) [
        | inl last ↦ rw last (
            Distinct-append child ready f.once
              (not_zero child (suc n) ready indegree h (λ x here. (f.free x here).0) (omega arith)))
        | inr more ↦ rw more f.once
      ];
    }

    length-pushed :
        (child : Text) (n : ℕ) (ready : List Text) (indegree : Dict Text ℕ)
        → get child indegree ≡ some (suc n)
        → length (pushed child n ready) + total (insert child n indegree)
          ≤ length ready + total indegree
    length-pushed child n ready indegree h =
        ground (arith, total-insert child n indegree h, length-append ready (child ∷ []))

    abbrev Released :
        List Text → Dict Text ℕ → Result DependencyError (List Text × Dict Text ℕ) → Type 0
    Released ready indegree r =
        (now_ready : List Text) × (now_indegree : Dict Text ℕ) × (r ≡ ok (now_ready, now_indegree))
        × Degrees done [] now_indegree
        × Free done now_ready now_indegree
        × (length now_ready + total now_indegree ≤ length ready + total indegree)

    pub release_children-Released :
        (waiting ready : List Text) (indegree : Dict Text ℕ)
        → Degrees done waiting indegree
        → Free done ready indegree
        → Released ready indegree (release_children waiting ready indegree)
    unfolding release_children release_child
    release_children-Released [] ready indegree h f = (ready, indegree, refl, h, f, omega arith)
    release_children-Released (child ∷ waiting) ready indegree h f =
        let n = missing child done ops + count child waiting in
        let degree = child_degree child waiting indegree h in
        let (now_ready, now_indegree, is, degrees, is_free, less) =
          release_children-Released waiting (pushed child n ready) (insert child n indegree)
            (child-Degrees child waiting indegree h) (child-Free child n ready indegree degree f) in
        (
          now_ready,
          now_indegree,
          rw degree is,
          degrees,
          is_free,
          omega (arith, less, length-pushed child n ready indegree degree),
        )
