-- ===== src/Reactor/ThreadPool/Counting.antt =====
-- Sums over the threads of a pool, and what one thread's step changes in them.
use echoserver.Prelude.{
  ℕ, ◌+◌, ◌≤◌, ◌≡◌, refl, Bool, true, false, List, [], ◌∷◌, ◌++◌, arith, length, ◌*◌,
}
use echoserver.Reactor.ThreadPool.{
  Worker, tests_exit, gets_task, is_waiting, sleeps, runs, ended, all_ended,
}

unfoldable pub total : {A : Type 0} → (A → ℕ) → List A → ℕ
total w [] = 0
total w (x ∷ xs) = w x + total w xs

pub total-append :
    {A : Type 0} (w : A → ℕ) (xs ys : List A) → total w (xs ++ ys) ≡ total w xs + total w ys
unfolding total
total-append w [] ys = omega arith
total-append w (x ∷ xs) ys = omega (arith, total-append w xs ys)

pub total_moves :
    {A : Type 0} (w : A → ℕ) (before after : List A) (x y : A)
    → total w (before ++ (y ∷ after)) + w x ≡ total w (before ++ (x ∷ after)) + w y
unfolding total
total_moves w before after x y =
    omega (arith, total-append w before (x ∷ after), total-append w before (y ∷ after))

pub total_first : {A : Type 0} (w : A → ℕ) (x : A) (xs : List A) → w x ≤ total w (x ∷ xs)
unfolding total
total_first w x xs = omega arith

pub total_mono :
    {A : Type 0} (w v : A → ℕ) → ((x : A) → w x ≤ v x) → (xs : List A) → total w xs ≤ total v xs
unfolding total
total_mono w v h [] = omega arith
total_mono w v h (x ∷ xs) = omega (arith, h x, total_mono w v h xs)

pub total_bounded :
    {A : Type 0} (w : A → ℕ) (most : ℕ)
    → ((x : A) → w x ≤ most)
    → (xs : List A) → total w xs ≤ most * length xs
unfolding total
total_bounded w most h [] = omega arith
total_bounded w most h (x ∷ xs) = omega (arith, h x, total_bounded w most h xs)

abbrev pub holds : Bool → ℕ
holds true = 1
holds false = 0

module _ {T : Type 0} where
  abbrev pub count : (T → Bool) → List T → ℕ
  count test = total (λ task. holds (test task))

  -- Whether the thread runs a task that passes a test.
  abbrev pub running : (T → Bool) → Worker T → ℕ
  running test (runs task) = holds (test task)
  running test _ = 0

  abbrev pub busy : Worker T → ℕ
  busy ended = 0
  busy _ = 1

  abbrev pub asleep : Worker T → ℕ
  asleep sleeps = 1
  asleep _ = 0

  -- Between the test and the wait of `pop`.
  abbrev pub before_wait : Worker T → ℕ
  before_wait is_waiting = 1
  before_wait _ = 0

  pub running_is_busy : (test : T → Bool) (w : Worker T) → busy w ≡ 0 → running test w ≡ 0
  running_is_busy test (runs task) h = ground arith
  running_is_busy test tests_exit h = refl
  running_is_busy test gets_task h = refl
  running_is_busy test is_waiting h = refl
  running_is_busy test sleeps h = refl
  running_is_busy test ended h = refl

  pub none_running :
      (test : T → Bool) (ws : List (Worker T)) → total busy ws ≡ 0 → total (running test) ws ≡ 0
  unfolding total
  none_running test [] h = refl
  none_running test (w ∷ ws) h =
      omega (arith, running_is_busy test w (omega arith), none_running test ws (omega arith))

  pub all_ended-total : (ws : List (Worker T)) → all_ended ws ≡ true → total busy ws ≡ 0
  unfolding total all_ended
  all_ended-total [] h = refl
  all_ended-total (ended ∷ ws) h = omega (arith, all_ended-total ws (ground arith))
  all_ended-total (runs task ∷ ws) h = ground arith
  all_ended-total (tests_exit ∷ ws) h = ground arith
  all_ended-total (gets_task ∷ ws) h = ground arith
  all_ended-total (is_waiting ∷ ws) h = ground arith
  all_ended-total (sleeps ∷ ws) h = ground arith
