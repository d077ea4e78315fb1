-- ===== src/Queue/Drain.antt =====
-- Shutdown of internal/queue/queue.go: what is left once m.Wait() returns, and that it does.
use mcp_server_dynamodb_sage.Prelude.{
  ℕ, zero, suc, ◌+◌, ◌≡◌, refl, ap, ◌⊎◌, inl, inr, true, false, some, List, [], ◌∷◌, length, arith,
  length-append,
}
use mcp_server_dynamodb_sage.Queue.{
  Worker, idle, received_job, in_job, done, Pool, new, Seen, Action, moved, get_elem?, set, run,
}
use mcp_server_dynamodb_sage.Queue.Moves.{
  Move, started, submitted, buffered, met, taken, counted, finished, left, shut, step-Move,
}
use mcp_server_dynamodb_sage.Queue.Schedules.{run_induction}
use mcp_server_dynamodb_sage.Queue.Counts.{total, total-append, total-set}

abbrev pub is_done : Worker → ℕ
is_done idle = 0
is_done (received_job j) = 0
is_done (in_job j) = 0
is_done done = 1

-- A goroutine is done only when the channel is closed and empty.
pub record IsOrderly (p : Pool) : Type 0 where
  pub leavers : (total is_done p.workers ≡ 0) ⊎ ((p.closed ≡ true) × (p.buffer ≡ []))

length-set : {A : Type 0} (xs : List A) (i : ℕ) (a : A) → length (set xs i a) ≡ length xs
length-set [] i a = refl
length-set (x ∷ xs) zero a = refl
length-set (x ∷ xs) (suc i) a = ap suc (length-set xs i a)

-- While the channel is open, or holds a job, nobody is done.
still_open : (p : Pool) → IsOrderly p → p.closed ≡ false → total is_done p.workers ≡ 0
still_open p v open_now = elim v.leavers [ inl e ↦ e | inr h ↦ absurd (cc (open_now, h.0)) ]

still_full :
    (p : Pool) (j : ℕ) (rest : List ℕ)
    → IsOrderly p
    → p.buffer ≡ j ∷ rest
    → total is_done p.workers ≡ 0
still_full p j rest v first = elim v.leavers [ inl e ↦ e | inr h ↦ absurd (cc (first, h.1)) ]

module _ (p : Pool) (v : IsOrderly p) where
  -- An idle or busy goroutine that stays so.
  set_leavers :
      (i : ℕ) (a b : Worker)
      → get_elem? p.workers i ≡ some a
      → is_done a ≡ 0
      → is_done b ≡ 0
      → (total is_done (set p.workers i b) ≡ 0) ⊎ ((p.closed ≡ true) × (p.buffer ≡ []))
  set_leavers i a b e old new_one = elim v.leavers [
    | inl h ↦ inl (omega (arith, h, old, new_one, total-set is_done p.workers i a b e))
    | inr h ↦ inr h
  ]

  Move-IsOrderly : (q : Pool) (a : Action) (es : List Seen) → Move p a q es → IsOrderly q
  unfolding total
  Move-IsOrderly _ _ _ (started n e) = record {
    leavers = elim v.leavers [
      | inl h ↦ inl (omega (arith, h, total-append is_done p.workers (idle ∷ [])))
      | inr h ↦ inr h
    ];
  }
  Move-IsOrderly _ _ _ (submitted j) = record { leavers = v.leavers }
  Move-IsOrderly _ _ _ (buffered k j e open_now room) = record {
    leavers = inl (still_open p v open_now);
  }
  Move-IsOrderly _ _ _ (met k i j e f empty open_now) = record {
    leavers = inl (
        omega
          (arith, still_open p v open_now, total-set is_done p.workers i idle (received_job j) f));
  }
  Move-IsOrderly _ _ _ (taken i j rest e first) = record {
    leavers = inl (
        omega (
          arith,
          still_full p j rest v first,
          total-set is_done p.workers i idle (received_job j) e,
        ));
  }
  Move-IsOrderly _ _ _ (counted i j e) = record {
    leavers = set_leavers i (received_job j) (in_job j) e refl refl;
  }
  Move-IsOrderly _ _ _ (finished i j e) = record {
    leavers = set_leavers i (in_job j) idle e refl refl;
  }
  Move-IsOrderly _ _ _ (left i e closed empty) = record { leavers = inr (closed, empty) }
  Move-IsOrderly _ _ _ (shut e) = record { leavers = inl (still_open p v e) }

  -- The goroutines that are or will be there.
  Move-length :
      (q : Pool) (a : Action) (es : List Seen)
      → Move p a q es
      → length q.workers + q.unstarted ≡ length p.workers + p.unstarted
  Move-length _ _ _ (started n e) = omega (arith, length-append p.workers (idle ∷ []), e)
  Move-length _ _ _ (submitted j) = refl
  Move-length _ _ _ (buffered k j e open_now room) = refl
  Move-length _ _ _ (met k i j e f empty open_now) =
      omega (arith, length-set p.workers i (received_job j))
  Move-length _ _ _ (taken i j rest e first) =
      omega (arith, length-set p.workers i (received_job j))
  Move-length _ _ _ (counted i j e) = omega (arith, length-set p.workers i (in_job j))
  Move-length _ _ _ (finished i j e) = omega (arith, length-set p.workers i idle)
  Move-length _ _ _ (left i e closed empty) = omega (arith, length-set p.workers i done)
  Move-length _ _ _ (shut e) = refl

-- An orderly pool with so many goroutines, started or not.
pub record IsStaffed (workers : ℕ) (p : Pool) : Type 0 where
  pub orderly : IsOrderly p
  pub staff : length p.workers + p.unstarted ≡ workers

pub run-IsStaffed :
    (workers : ℕ) (schedule : List Action) (p q : Pool) (es : List Seen)
    → IsStaffed workers p
    → run schedule p ≡ moved q es
    → IsStaffed workers q
run-IsStaffed workers schedule p q es v h =
    run_induction (λ p es q. IsStaffed workers p → IsStaffed workers q) (λ p v. v)
      (λ a p q r es fs one rest v.
        let m = step-Move p q es a one in
        rest (record {
          orderly = Move-IsOrderly p v.orderly q a es m;
          staff = omega (arith, Move-length p v.orderly q a es m, v.staff);
        }))
      schedule p q es h v

pub new-IsStaffed : (workers buffer : ℕ) → IsStaffed workers (new workers buffer)
unfolding new total
new-IsStaffed workers buffer = record {
  orderly = record { leavers = inl refl };
  staff = omega arith;
}
