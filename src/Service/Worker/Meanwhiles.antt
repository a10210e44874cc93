-- ===== src/Service/Worker/Meanwhiles.antt =====
-- What the heartbeat and the clients do to a running job during its work, crates/paraclete-service/src/worker.rs.
use parqonaut.Prelude.{
  ℕ, ◌≡◌, ◌≢◌, refl, ap, ◌∙◌, inl, inr, Bool, true, false, Bool-cases, ◌||◌, some, String, List, [],
  ◌∷◌, arith, str_eq, eq_iff, find, any,
}
use parqonaut.Service.Jobs.{
  ScanJobRow, Table, is_running, has_id, runs, update_where, held_by, renews, renew_scan_job_lease,
}
use parqonaut.Service.Jobs.Ends.{get_scan_job, job_cancel_requested, request_cancel_job}
use parqonaut.Service.Jobs.Spec.{is_running_sound}
use parqonaut.Service.Jobs.Rows.{find-update, find-update_others, row_of_find}
use parqonaut.Service.Worker.Heartbeat.{Meanwhile, Watch, heartbeat, meanwhile}

-- A heartbeat reads a request that a client has made before it.
abbrev pub read_in : Bool → List Meanwhile → Bool
read_in asked [] = false
read_in asked (Meanwhile.ask now ∷ during) = read_in true during
read_in asked (Meanwhile.beat now until ∷ during) = asked || read_in asked during

pub or_true : (a : Bool) → (a || true) ≡ true
or_true true = refl
or_true false = refl

or_assoc : (a b c : Bool) → ((a || b) || c) ≡ (a || (b || c))
or_assoc true b c = refl
or_assoc false b c = refl

module _ (id : String) where
  pub find-test :
      (test : ScanJobRow → Bool) (r : ScanJobRow) (t : Table)
      → find (has_id id) t ≡ some r
      → test r ≡ true
      → any test t ≡ true
  find-test test r [] h k = cc
  find-test test r (s ∷ t) h k = elim (Bool-cases (str_eq s.job_id id)) [
    | inl here ↦
        let same : s ≡ r = ground arith in
        let also : test s ≡ true = ap test same ∙ k in rw also refl
    | inr other ↦
        let rest : any test t ≡ true = find-test test r t (ground arith) k in
        elim (Bool-cases (test s)) [ inl first ↦ rw first refl | inr later ↦ rw later rest ]
  ]

  pub find-runs :
      (r : ScanJobRow) (t : Table)
      → find (has_id id) t ≡ some r
      → is_running r.status ≡ true
      → find (runs id) t ≡ some r
  find-runs r [] h running = cc
  find-runs r (s ∷ t) h running = elim (Bool-cases (str_eq s.job_id id)) [
    | inl here ↦
        let same : s ≡ r = ground arith in
        let also : is_running s.status ≡ true = ap (λ x. is_running x.status) same ∙ running in
        rw (here, also) (ap some same)
    | inr other ↦ rw other (find-runs r t (ground arith) running)
  ]

module _ (id worker : String) (t : Table) where
  -- The worker still has the job, whose row says whether it is to be canceled, and the other jobs are as
  -- they were.
  pub record Kept (u : Table) (asked : Bool) : Type 0 where
    pub row : ScanJobRow
    pub found : get_scan_job id u ≡ some row
    pub running : is_running row.status ≡ true
    pub held : held_by worker row.worker_id ≡ true
    pub flag : row.cancel_requested ≡ asked
    pub others : (k : String) → k ≢ id → get_scan_job k u ≡ get_scan_job k t

  named : (u : Table) (asked : Bool) (h : Kept u asked) → str_eq h.row.job_id id ≡ true
  unfolding get_scan_job
  named u asked h = (eq_iff h.row.job_id id).1 (row_of_find id h.row u h.found)

  change-Kept :
      (test : ScanJobRow → Bool) (change : ScanJobRow → ScanJobRow) (u : Table)
      (asked then_asked : Bool) (h : Kept u asked)
      → ((x : ScanJobRow) → (change x).job_id ≡ x.job_id)
      → ((x : ScanJobRow) → test x ≡ true → x.job_id ≡ id)
      → test h.row ≡ true
      → is_running (change h.row).status ≡ true
      → held_by worker (change h.row).worker_id ≡ true
      → (change h.row).cancel_requested ≡ then_asked
      → Kept (update_where test change u) then_asked
  unfolding get_scan_job
  change-Kept test change u asked then_asked h keeps only here running held flag = record {
    row = change h.row;
    found = find-update test change keeps id u ∙ rw (h.found, here) refl;
    running = running;
    held = held;
    flag = flag;
    others =
        λ k differ. find-update_others test change keeps id k only differ u ∙ h.others k differ;
  }

  renews-row : (u : Table) (asked : Bool) (h : Kept u asked) → renews id worker h.row ≡ true
  renews-row u asked h = let here = named u asked h in rw (here, h.held, h.running) refl

  renew-Kept :
      (now until : ℕ) (u : Table) (asked : Bool)
      → Kept u asked
      → Kept (renew_scan_job_lease id worker now until u).0 asked
        × ((renew_scan_job_lease id worker now until u).1 ≡ true)
  unfolding renew_scan_job_lease get_scan_job
  renew-Kept now until u asked h =
      let here = renews-row u asked h in
      (
        change-Kept (renews id worker)
            (λ r. record r { heartbeat_at = some now; leased_until = some until }) u asked asked h
            (λ x. refl) (λ x selected. (eq_iff x.job_id id).0 (ground arith)) here h.running h.held
            h.flag,
        find-test id (renews id worker) h.row u h.found here,
      )

  ask-Kept :
      (now : ℕ) (u : Table) (asked : Bool)
      → Kept u asked
      → Kept (request_cancel_job now id u).0 true
  unfolding request_cancel_job get_scan_job
  ask-Kept now u asked h =
      let here : runs id h.row ≡ true = rw (named u asked h, h.running) refl in
      rw
        (
          h.found,
          is_running_sound h.row.status h.running,
          find-test id (runs id) h.row u h.found here,
        )
        (change-Kept (runs id) (λ r. record r { cancel_requested = true }) u asked true h
          (λ x. refl) (λ x selected. (eq_iff x.job_id id).0 (ground arith)) here h.running h.held
          refl)

  asked-read : (u : Table) (asked : Bool) → Kept u asked → job_cancel_requested id u ≡ asked
  unfolding job_cancel_requested get_scan_job
  asked-read u asked h = rw (find-runs id h.row u h.found h.running) h.flag

  -- The table keeps the job, and the flag is set if it was or a heartbeat reads a request.
  pub record Watched (w : Watch) (flag : Bool) : Type 0 where
    pub asked : Bool
    pub kept : Kept w.table asked
    pub flagged : w.flag ≡ flag

  -- The loop ends only after it has set the flag.
  abbrev Listens : Watch → Type 0
  Listens w = (w.flag || w.alive) ≡ true

  heartbeat-Listens :
      (now until : ℕ) (w : Watch) (asked : Bool)
      → Kept w.table asked
      → Listens w
      → Kept (heartbeat id worker now until w).table asked
        × ((heartbeat id worker now until w).flag ≡ (w.flag || asked))
        × Listens (heartbeat id worker now until w)
  unfolding heartbeat
  heartbeat-Listens now until w asked h l = elim (Bool-cases (w.flag)) [
    | inl set ↦ rw set (h, refl, refl)
    | inr open_flag ↦
        let on : w.alive ≡ true = ground arith in
        let (kept, renewed) = renew-Kept now until w.table asked h in
        let read = asked-read w.table asked h in
        rw (open_flag, on) (kept, read, rw (read, renewed) (or_true asked))
  ]

  pub meanwhile-Watched :
      (during : List Meanwhile) (w : Watch) (asked : Bool)
      → Kept w.table asked
      → Listens w
      → Watched (meanwhile id worker during w) (w.flag || read_in asked during)
  unfolding meanwhile
  meanwhile-Watched [] w asked h l = record { asked = asked; kept = h; flagged = ground arith }
  meanwhile-Watched (Meanwhile.ask now ∷ during) w asked h l =
      meanwhile-Watched during (record w { table = (request_cancel_job now id w.table).0 }) true
        (ask-Kept now w.table asked h) l
  meanwhile-Watched (Meanwhile.beat now until ∷ during) w asked h l =
      let (kept, flag, listens) = heartbeat-Listens now until w asked h l in
      let rest = meanwhile-Watched during (heartbeat id worker now until w) asked kept listens in
      record {
        asked = rest.asked;
        kept = rest.kept;
        flagged = rest.flagged ∙ rw flag (or_assoc (w.flag) asked (read_in asked during));
      }
