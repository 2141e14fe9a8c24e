-- ===== src/Launcher/Jobs/Valid.antt =====
-- Valid workers among the workers of proxy/launcher.hpp.
use slsfs.Prelude.{
  some_inj, get_elem?, ◌++◌, suc, zero, [], ap, ◌∙◌, ◌∙◌, ◌≡◌, ◌≡◌, Option, ℕ, List, refl, some,
  ◌∷◌,
}
use slsfs.Launcher.Pool.{DfWorker, modify}
use slsfs.Launcher.Jobs.{valid_worker}
use slsfs.Launcher.Jobs.Copies.{get_elem?-modify, valid_worker-some}

pub valid_worker-modify :
    (w : ℕ) (o : Option ℕ) (f : DfWorker → DfWorker) (ds : List DfWorker)
    → ((d : DfWorker) → (f d).valid ≡ d.valid)
    → valid_worker o ds ≡ some w
    → valid_worker (some w) (modify w f ds) ≡ some w
unfolding valid_worker
valid_worker-modify w o f ds keeps e =
    let (d, at, on) = valid_worker-some o ds w e in
    rw (get_elem?-modify w f ds d at, valid_worker) (rw (keeps d ∙ on) refl)

get_elem?-modify_any :
    (w v : ℕ) (f : DfWorker → DfWorker) (ds : List DfWorker) (d : DfWorker)
    → ((d : DfWorker) → (f d).valid ≡ d.valid)
    → get_elem? ds w ≡ some d
    → (d' : DfWorker) × (get_elem? (modify v f ds) w ≡ some d') × (d'.valid ≡ d.valid)
unfolding modify
get_elem?-modify_any w v f [] d keeps e = absurd (cc)
get_elem?-modify_any zero zero f (x ∷ ds) d keeps e =
    (f x, refl, keeps x ∙ ap (λ y. y.valid) (some_inj e))
get_elem?-modify_any zero (suc v) f (x ∷ ds) d keeps e = (d, e, refl)
get_elem?-modify_any (suc w) zero f (x ∷ ds) d keeps e = (d, e, refl)
get_elem?-modify_any (suc w) (suc v) f (x ∷ ds) d keeps e = get_elem?-modify_any w v f ds d keeps e

get_elem?-append_left :
    (w : ℕ) (ds es : List DfWorker) (d : DfWorker)
    → get_elem? ds w ≡ some d
    → get_elem? (ds ++ es) w ≡ some d
get_elem?-append_left w [] es d e = absurd (cc)
get_elem?-append_left zero (x ∷ ds) es d e = e
get_elem?-append_left (suc w) (x ∷ ds) es d e = get_elem?-append_left w ds es d e

pub valid_worker-modify_any :
    (w v : ℕ) (f : DfWorker → DfWorker) (ds : List DfWorker)
    → ((d : DfWorker) → (f d).valid ≡ d.valid)
    → valid_worker (some w) ds ≡ some w
    → valid_worker (some w) (modify v f ds) ≡ some w
unfolding valid_worker
valid_worker-modify_any w v f ds keeps e =
    let (d, at, on) = valid_worker-some (some w) ds w e in
    let (d', at', same) = get_elem?-modify_any w v f ds d keeps at in
    rw (at', valid_worker) (rw (same ∙ on) refl)

pub valid_worker-append :
    (w : ℕ) (ds es : List DfWorker)
    → valid_worker (some w) ds ≡ some w
    → valid_worker (some w) (ds ++ es) ≡ some w
unfolding valid_worker
valid_worker-append w ds es e =
    let (d, at, on) = valid_worker-some (some w) ds w e in
    rw (get_elem?-append_left w ds es d at, valid_worker) (rw on refl)
