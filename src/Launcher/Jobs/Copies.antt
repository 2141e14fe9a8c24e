-- ===== src/Launcher/Jobs/Copies.antt =====
-- How often a job is in the launcher's lists, and what each operation on them does to that.
use slsfs.Prelude.{
  ◌∙◌, ==_iff, ◌∙◌, sym, ◌≤◌, ◌≤◌, Option-cases, ap, Bool-cases, some_inj, arith, ◌+◌, All,
  get_elem?, ◌++◌, ◌+◌, ◌≡◌, ◌≡◌, List, ◌==◌, Option, ℕ, if◌then◌else◌, refl, suc, zero, inr, inl,
  true, none, some, ◌∷◌, [],
}
use slsfs.Bytes.{Bytes}
use slsfs.Launcher.Pool.{Job, DfWorker, Launcher, find_job, emplace_job, erase_job, modify, pull}
use slsfs.Launcher.Jobs.{reschedule_all, on_worker_reschedule, reschedule, valid_worker}
use slsfs.Proxy.Header.{PacketHeader, packet_header_full_key_compare}
use slsfs.Proxy.Header.HeaderBytes.{packet_header_full_key_compare_lem}

abbrev pub one : ℕ → Job → ℕ
one k j = if k == j.id then 1 else 0

abbrev pub copies : ℕ → List Job → ℕ
copies k [] = 0
copies k (j ∷ js) = one k j + copies k js

abbrev pub at_worker : ℕ → DfWorker → ℕ
at_worker k d = if d.valid then copies k d.started_jobs else 0

-- How often valid workers have the job.
abbrev pub running : ℕ → List DfWorker → ℕ
running k [] = 0
running k (d ∷ ds) = at_worker k d + running k ds

-- A job's number is determined by the key, the salt and the sequence of its packet.
abbrev pub Named : (Bytes → Bytes → Bytes → ℕ) → Job → Type 0
Named ident j = j.id ≡ ident j.header.key j.header.random_salt j.header.sequence

pub copies-append : (k : ℕ) (xs ys : List Job) → copies k (xs ++ ys) ≡ copies k xs + copies k ys
copies-append k [] ys = omega arith
copies-append k (x ∷ xs) ys = omega (arith, copies-append k xs ys)

pub copies-pull :
    (k i : ℕ) (js : List Job) (j : Job) (rest : List Job)
    → pull i js ≡ some (j, rest)
    → copies k js ≡ one k j + copies k rest
unfolding pull
copies-pull k i [] j rest e = cc
copies-pull k zero (x ∷ xs) j rest e =
    let p = some_inj e in
    let h : x ≡ j = ap (λ q. q.0) p in let t : xs ≡ rest = ap (λ q. q.1) p in rw (h, t) refl
copies-pull k (suc i) (x ∷ xs) j rest e = elim (Option-cases (pull i xs)) [
  | inl no_element ↦ let bad : none ≡ some (j, rest) = rw no_element at e in cc
  | inr ((y, ys), q) ↦
      let p = some_inj (rw q at e) in
      let h : y ≡ j = ap (λ q. q.0) p in
      let t : x ∷ ys ≡ rest = ap (λ q. q.1) p in
      let ih = copies-pull k i xs y ys q in rw (← h, ← t) (omega (arith, ih))
]

pub copies-erase :
    (k : ℕ) (h : PacketHeader) (js : List Job) (j : Job)
    → find_job h js ≡ some j
    → copies k (erase_job h js) + one k j ≡ copies k js
unfolding find_job erase_job
copies-erase k h [] j e = cc
copies-erase k h (x ∷ xs) j e = elim (Bool-cases (packet_header_full_key_compare h x.header)) [
  | inl same ↦ let p : x ≡ j = some_inj (rw same at e) in rw (same, p) (omega arith)
  | inr other ↦ let ih = copies-erase k h xs j (rw other at e) in rw other (omega (arith, ih))
]

pub running-modify :
    (k w : ℕ) (f : DfWorker → DfWorker) (ds : List DfWorker) (d : DfWorker)
    → get_elem? ds w ≡ some d
    → running k (modify w f ds) + at_worker k d ≡ running k ds + at_worker k (f d)
unfolding modify
running-modify k w f [] d e = cc
running-modify k zero f (x ∷ ds) d e = let p : x ≡ d = some_inj e in rw p (omega arith)
running-modify k (suc w) f (x ∷ ds) d e = omega (arith, running-modify k w f ds d e)

pub at_worker-le-running :
    (k w : ℕ) (ds : List DfWorker) (d : DfWorker)
    → get_elem? ds w ≡ some d
    → at_worker k d ≤ running k ds
at_worker-le-running k w [] d e = cc
at_worker-le-running k zero (x ∷ ds) d e = let p : x ≡ d = some_inj e in rw p (omega arith)
at_worker-le-running k (suc w) (x ∷ ds) d e = omega (arith, at_worker-le-running k w ds d e)

pub modify-none :
    (w : ℕ) (f : DfWorker → DfWorker) (ds : List DfWorker)
    → get_elem? ds w ≡ none
    → modify w f ds ≡ ds
unfolding modify
modify-none w f [] e = refl
modify-none zero f (x ∷ ds) e = cc
modify-none (suc w) f (x ∷ ds) e = ap (◌∷◌ x) (modify-none w f ds e)

pub get_elem?-modify :
    (w : ℕ) (f : DfWorker → DfWorker) (ds : List DfWorker) (d : DfWorker)
    → get_elem? ds w ≡ some d
    → get_elem? (modify w f ds) w ≡ some (f d)
unfolding modify
get_elem?-modify w f [] d e = cc
get_elem?-modify zero f (x ∷ ds) d e = ap (λ x. some (f x)) (some_inj e)
get_elem?-modify (suc w) f (x ∷ ds) d e = get_elem?-modify w f ds d e

pub running-append :
    (k : ℕ) (ds es : List DfWorker) → running k (ds ++ es) ≡ running k ds + running k es
running-append k [] es = omega arith
running-append k (d ∷ ds) es = omega (arith, running-append k ds es)

-- A pointer that passes the test leads to a worker that is valid.
pub valid_worker-some :
    (o : Option ℕ) (ds : List DfWorker) (w : ℕ)
    → valid_worker o ds ≡ some w
    → (d : DfWorker) × (get_elem? ds w ≡ some d) × (d.valid ≡ true)
unfolding valid_worker
valid_worker-some none ds w e = cc
valid_worker-some (some v) ds w e = elim (Option-cases (get_elem? ds v)) [
  | inl gone ↦ let bad : none ≡ some w = rw (gone, valid_worker) at e in cc
  | inr (d, q) ↦
      let e' : (if d.valid then some v else none) ≡ some w = rw (q, valid_worker) at e in
      elim (Bool-cases d.valid) [
        | inl on ↦ let p : v ≡ w = some_inj (rw on at e') in (d, ap (get_elem? ds) (sym p) ∙ q, on)
        | inr off ↦ let bad : none ≡ some w = rw off at e' in cc
      ]
]

module _ (ident : Bytes → Bytes → Bytes → ℕ) where
  pub find_job-id :
      (j : Job) (js : List Job) (old : Job)
      → Named ident j
      → All (Named ident) js
      → find_job j.header js ≡ some old
      → (old.id ≡ j.id) × (1 ≤ copies j.id js)
  unfolding find_job
  find_job-id j [] old n h e = absurd (cc)
  find_job-id j (x ∷ xs) old n h e =
      elim (Bool-cases (packet_header_full_key_compare j.header x.header)) [
        | inl same ↦
            let p : x ≡ old = some_inj (rw same at e) in
            let (keys, salts, sequences) =
              (packet_header_full_key_compare_lem j.header x.header).0 same in
            let ids : j.id ≡ x.id =
              n
              ∙ ap (λ b. ident b j.header.random_salt j.header.sequence) keys
              ∙ ap (λ b. ident x.header.key b j.header.sequence) salts
              ∙ ap (ident x.header.key x.header.random_salt) sequences
              ∙ sym h.0 in
            (ap (λ y. y.id) (sym p) ∙ sym ids, ground (arith, ids))
        | inr other ↦
            let (ids, some_copy) = find_job-id j xs old n h.1 (rw other at e) in (ids, omega arith)
      ]

  -- A job that is put into a worker's map is there, and no other job leaves it.
  pub emplace_job-copies :
      (k : ℕ) (j : Job) (js : List Job)
      → Named ident j
      → All (Named ident) js
      → (copies k js ≤ copies k (emplace_job j js))
        × (one k j ≤ copies k (emplace_job j js))
        × (copies k (emplace_job j js) ≤ copies k js + one k j)
  unfolding emplace_job
  emplace_job-copies k j js n h = elim (Option-cases (find_job j.header js)) [
    | inl new ↦ let e : emplace_job j js ≡ j ∷ js = rw (new, emplace_job) in rw e (omega arith)
    | inr (old, q) ↦
        let there = (find_job-id j js old n h q).1 in
        let bound : one k j ≤ copies k js = elim (Bool-cases (k == j.id)) [
          | inl same ↦
              let e : k ≡ j.id = (==_iff k j.id).0 same in
              let there' : 1 ≤ copies k js = rw e there in rw same there'
          | inr other ↦ rw other (omega arith)
        ] in
        let e : emplace_job j js ≡ js = rw (q, emplace_job) in
        rw e (omega arith, bound, omega arith)
  ]

-- The loop of a close posts each job, and leaves the workers alone.
pub reschedule_all-lem :
    (k : ℕ) (js : List Job) (s : Launcher)
    → (copies k (reschedule_all js s).posted ≡ copies k s.posted + copies k js)
      × ((reschedule_all js s).workers ≡ s.workers)
      × ((reschedule_all js s).completed ≡ s.completed)
unfolding reschedule_all on_worker_reschedule reschedule
reschedule_all-lem k [] s = (omega arith, refl, refl)
reschedule_all-lem k (j ∷ js) s =
    let (p, ws, c) = reschedule_all-lem k js (on_worker_reschedule j s) in
    (omega (arith, p, copies-append k s.posted (j ∷ [])), ws, c)
