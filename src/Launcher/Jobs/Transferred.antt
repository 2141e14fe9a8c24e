-- ===== src/Launcher/Jobs/Transferred.antt =====
-- The table that a closing worker sends: the transfer that it makes, and the worker that gets it.
use slsfs.Prelude.{
  ◌-◌, ◌-◌, drop, map, take, ◌∙◌, ◌∙◌, ap, length-append, arith, length, get_elem?, ltb,
  Option-cases, ◌++◌, ◌≡◌, List, ℕ, ◌≡◌, All, refl, suc, zero, inr, inl, false, some, ◌∷◌, [],
}
use slsfs.Bytes.{Bytes, store, load}
use slsfs.Bytes.Laws.{length-store}
use slsfs.Cache.Lru.{Cache}
use slsfs.Cache.Handover.{files_table, lru_table, get_tables}
use slsfs.Launcher.Transfer.{counts, without_counts}
use slsfs.Launcher.Transfer.Files.{IsPlainFile, IsPlainNode, fileids_of_tables}
use slsfs.Launcher.Pool.{
  modify, Notice, erase_worker, Job, DfWorker, TransferRequest, Sent, Launcher,
}
use slsfs.Launcher.Jobs.{
  close, take_back, invalidate, on_worker_close, read_transfer, reschedule_all,
  on_worker_reschedule, reschedule, add_worker,
}
use mathlib.Core.List.{reverse}

counts_of_tables :
    (hits : ℕ) (c : Cache) → (h : ℕ) × (e : ℕ) × (counts (get_tables hits c) ≡ some (h, e))
unfolding counts get_tables
counts_of_tables hits c =
    let tables = files_table c.files ++ lru_table (reverse c.nodes) in
    let tail = store 4 hits ++ store 4 c.evictions in
    let long : ltb (length (tables ++ tail)) 8 ≡ false = ground (
      arith,
      length-append tables tail,
      length-append (store 4 hits) (store 4 c.evictions),
      length-store 4 hits,
      length-store 4 c.evictions,
    ) in
    let buf = tables ++ tail in
    (
      load (take 4 (drop (length buf - 8) buf)),
      load (take 4 (drop (length buf - 4) buf)),
      rw long refl,
    )

reschedule_all-keeps :
    (js : List Job) (s : Launcher)
    → ((reschedule_all js s).transfer_requests ≡ s.transfer_requests)
      × ((reschedule_all js s).sent ≡ s.sent)
      × ((reschedule_all js s).workers ≡ s.workers)
unfolding reschedule_all on_worker_reschedule reschedule
reschedule_all-keeps [] s = (refl, refl, refl)
reschedule_all-keeps (j ∷ js) s = reschedule_all-keeps js (on_worker_reschedule j s)

take_back-keeps :
    (w : ℕ) (s : Launcher)
    → ((take_back w s).transfer_requests ≡ s.transfer_requests)
      × ((take_back w s).sent ≡ s.sent)
      × ((take_back w s).workers ≡ s.workers)
unfolding take_back
take_back-keeps w s = elim (Option-cases (get_elem? s.workers w)) [
  | inl q ↦ rw (q, take_back) (refl, refl, refl)
  | inr (d, q) ↦ rw (q, take_back) (reschedule_all-keeps d.started_jobs s)
]

length-modify :
    (w : ℕ) (f : DfWorker → DfWorker) (ds : List DfWorker) → length (modify w f ds) ≡ length ds
unfolding modify
length-modify w f [] = refl
length-modify zero f (d ∷ ds) = refl
length-modify (suc w) f (d ∷ ds) = ap suc (length-modify w f ds)

-- A worker that closes with a table leaves its transfer with the launcher.
pub close-transfer :
    (w : ℕ) (buf : Bytes) (l : Launcher) (h e : ℕ) (request : TransferRequest)
    → read_transfer buf ≡ some (h, e, request)
    → (t : Launcher) × (close w (some buf) l ≡ some t)
      × (t.transfer_requests ≡ l.transfer_requests ++ (request ∷ []))
      × (t.sent ≡ l.sent)
      × (length t.workers ≡ length l.workers)
unfolding close on_worker_close invalidate
close-transfer w buf l h e request r =
    let l1 = invalidate w l in
    let l2 : Launcher = record l1 {
      transfer_requests = l1.transfer_requests ++ (request ∷ []);
      worker_set = erase_worker w l1.worker_set;
      notices = Notice.deregistered_a_worker w h e ∷ l1.notices;
    } in
    let (ts, sent, ws) = take_back-keeps w l2 in
    (
      take_back w l2,
      rw (r, close, on_worker_close) refl,
      ts,
      sent,
      ap length ws ∙ length-modify w (λ d. record d { valid = false }) l.workers,
    )

-- The transfer that a table makes.
pub transfer_of_tables :
    (hits : ℕ) (c : Cache)
    → All IsPlainFile c.files
    → All IsPlainNode (reverse c.nodes)
    → (h : ℕ) × (e : ℕ) × (request : TransferRequest) × (read_transfer (get_tables hits c)
        ≡ some (h, e, request))
      × (request.cache_tables ≡ without_counts (get_tables hits c))
unfolding read_transfer
transfer_of_tables hits c plain_files plain_nodes =
    let (h, e, q) = counts_of_tables hits c in
    let files = fileids_of_tables hits c plain_files plain_nodes in
    let keys = map (λ f. f.0) c.files ++ map (λ e. e.file_key) (reverse c.nodes) in
    let tables = without_counts (get_tables hits c) in
    (
      h,
      e,
      record { file_bindings = keys; cache_tables = tables },
      rw (q, read_transfer) (rw files refl),
      refl,
    )

-- A worker that registers while a transfer waits is sent its table.
pub add_worker-transfer :
    (info : Bytes) (l : Launcher) (request : TransferRequest)
    → l.transfer_requests ≡ request ∷ []
    → (add_worker info l).sent
      ≡ (length l.workers, Sent.cache_transfer request.cache_tables) ∷ l.sent
unfolding add_worker
add_worker-transfer info l request e = rw (e, add_worker) refl
