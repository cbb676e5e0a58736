-- ===== src/Loading/Examples.antt =====
-- The theorem on loading, where the tracepoint cannot be attached.
use ptraf.Shared.{ℕ, suc, ◌≡◌, ◌↔◌, refl, false, some}
use ptraf.Loading.{Op, attach_tracepoint, Answer, done, failed, Aya, loaded, load}
use ptraf.Loading.Steps.{Done, load_iff}

-- Only the tracepoint fails.
abbrev answer : Op → Answer
answer (attach_tracepoint program category name) = failed
answer o = done

-- The object is the number of the operations on it; the logger fails.
abbrev counting : Aya
counting = record {
  Bpf = ℕ;
  load = some 0;
  init_logger = λ n. (n, false);
  perform = λ n o. (suc n, answer o);
}

thirteen : load counting ≡ loaded 13
unfolding load
thirteen = refl

load_iff_example :
    (load counting ≡ loaded 13)
    ↔ ((b : ℕ) × (counting.load ≡ some b) × Done counting (counting.init_logger b).0 13)
load_iff_example = load_iff counting 13
