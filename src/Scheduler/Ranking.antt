-- ===== src/Scheduler/Ranking.antt =====
-- internal/scheduler/planner.go: the order in which eligible Workers are preferred.
use minicloud.Text.{str_eq}
use minicloud.Base.{
  Any, Bool, IsRanking, Rank, [], after, arith, before, descending-IsRanking, false, if◌then◌else◌,
  int_eq, ltb, nat_eq, on-IsRanking, rank_ℕ, same, then-IsRanking, ℕ, ℕ-IsRanking, ◌%◌, ◌&&◌, ◌*◌,
  ◌/◌, ◌<◌, ◌==◌, ◌^◌, ◌then_by◌, ◌||◌, ◌≡◌, ◌≤◌,
}
use native.Mathlib.Nat.{mul-le-mul_right, le_of_mul-le-mul_right}
use minicloud.Text.Order.{compare_str, compare_str-IsRanking}
use minicloud.ServingAuth.{WorkerSession, connection_eq, fence_eq, identity_eq, mode_eq, session_eq}
use minicloud.Scheduler.{Candidate, WorkerSnapshot}

pub record EligibleCandidate : Type 0 where
  pub worker : WorkerSnapshot
  pub cache_score : ℕ
  pub spread_score : ℕ
  pub load_numerator : ℕ
  pub load_denominator : ℕ
  pub memory_numerator : ℕ
  pub memory_denominator : ℕ

-- `bits.Mul64`: the product of two 64-bit words in two words.
unfoldable pub mul64 : ℕ → ℕ → ℕ × ℕ
mul64 a b = (a * b / 2 ^ 64, a * b % 2 ^ 64)

abbrev pub ltb_words : ℕ × ℕ → ℕ × ℕ → Bool
ltb_words (high, low) (high', low') = ltb high high' || (high == high' && ltb low low')

unfoldable pub compare_ratio : ℕ → ℕ → ℕ → ℕ → Rank
unfolding mul64
compare_ratio n d n' d' =
    if ltb_words (mul64 n d') (mul64 n' d)
    then before
    else if ltb_words (mul64 n' d) (mul64 n d')
    then after
    else same

unfoldable pub compare_candidates : Candidate → Candidate → Rank
compare_candidates a b =
    compare_str a.worker_id b.worker_id
    then_by compare_str a.session.boot_id b.session.boot_id
    then_by rank_ℕ a.session.session_epoch b.session.session_epoch

-- The candidate that `compareEligible` makes of a session.
abbrev pub bare : WorkerSession → Candidate
bare s = record {
  worker_id = s.worker_id;
  session = s;
  eligible = false;
  reasons = [];
  cache_score = 0;
  load_numerator = 0;
  load_denominator = 0;
}

unfoldable pub compare_eligible : EligibleCandidate → EligibleCandidate → Rank
compare_eligible a b =
    rank_ℕ b.cache_score a.cache_score
    then_by rank_ℕ b.spread_score a.spread_score
    then_by compare_ratio a.load_numerator a.load_denominator b.load_numerator b.load_denominator
    then_by compare_ratio a.memory_numerator a.memory_denominator b.memory_numerator
        b.memory_denominator
    then_by compare_candidates (bare a.worker.session) (bare b.worker.session)

-- The ratios compare as the full products do: no bit is lost to the width of a word.
pub compare_ratio-products : (n d n' d' : ℕ) → compare_ratio n d n' d' ≡ rank_ℕ (n * d') (n' * d)
unfolding compare_ratio
compare_ratio-products n d n' d' = ground arith

-- What ranks among each other: the denominators of eligible Workers are not zero.
pub record HasRatios (c : EligibleCandidate) : Type 0 where
  pub load : 0 < c.load_denominator
  pub memory : 0 < c.memory_denominator

ratio_trans :
    (n d n' d' n'' d'' : ℕ) → 0 < d' → n * d' ≤ n' * d → n' * d'' ≤ n'' * d' → n * d'' ≤ n'' * d
ratio_trans n d n' d' n'' d'' h p q =
    le_of_mul-le-mul_right {k = d'} (omega (arith, mul-le-mul_right d'' p, mul-le-mul_right d q)) h

module _ (n d : EligibleCandidate → ℕ) where
  ratio-IsRanking :
      ((c : EligibleCandidate) → HasRatios c → 0 < d c)
      → IsRanking HasRatios (λ a b. compare_ratio (n a) (d a) (n b) (d b))
  ratio-IsRanking positive = record {
    flips = λ a b. ground (
      arith,
      compare_ratio-products (n a) (d a) (n b) (d b),
      compare_ratio-products (n b) (d b) (n a) (d a),
    );
    trans = λ a b c i j k p q. ground (
      arith,
      compare_ratio-products (n a) (d a) (n b) (d b),
      compare_ratio-products (n b) (d b) (n c) (d c),
      compare_ratio-products (n a) (d a) (n c) (d c),
      ratio_trans (n a) (d a) (n b) (d b) (n c) (d c) (positive b j),
    );
  }

candidates-IsRanking : IsRanking Any compare_candidates
unfolding compare_candidates
candidates-IsRanking = then-IsRanking (on-IsRanking Any (λ c. c.worker_id) compare_str-IsRanking) (
    then-IsRanking (on-IsRanking Any (λ c. c.session.boot_id) compare_str-IsRanking)
      (on-IsRanking Any (λ c. c.session.session_epoch) ℕ-IsRanking))

-- The preference is a total preorder on candidates with positive denominators.
pub compare_eligible-IsRanking : IsRanking HasRatios compare_eligible
unfolding compare_eligible
compare_eligible-IsRanking =
    then-IsRanking (descending-IsRanking (on-IsRanking HasRatios (λ c. c.cache_score) ℕ-IsRanking))
      (then-IsRanking
        (descending-IsRanking (on-IsRanking HasRatios (λ c. c.spread_score) ℕ-IsRanking))
        (then-IsRanking
          (ratio-IsRanking (λ c. c.load_numerator) (λ c. c.load_denominator) (λ c h. h.load))
          (then-IsRanking
            (ratio-IsRanking (λ c. c.memory_numerator) (λ c. c.memory_denominator)
              (λ c h. h.memory))
            (on-IsRanking HasRatios (λ c. bare c.worker.session) candidates-IsRanking))))
