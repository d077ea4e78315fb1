-- ===== src/Server/Jobs/Exclusive.antt =====
-- No job of server/handlers.go is executed by two workers, or again after it has succeeded, as
-- long as its claim is not swept while it runs and its result is stored.
use native.Mathlib.Decide.{dec_lt}
use mcp_server_dynamodb_sage.Prelude.{
  ℕ, ◌+◌, ◌≤◌, ◌<◌, String, ◌≡◌, refl, Bool, false, not, ◌&&◌, some, List, [], ◌∷◌, any, arith,
  str_eq, str_eq_iff, str_eq_refl, if◌then◌else◌,
}
use mcp_server_dynamodb_sage.Server.Store.{
  Claim, Claims, Write, written, channel_timeout, database_error, is_job, is_open, is_stale,
  delete_where,
}
use mcp_server_dynamodb_sage.Server.Store.Claims.{
  count, rows_of, done_of, done_of-le, any-count, count-delete_where, open-other, open-done,
  stale-done, rows_of-update_result, done_of-update_result,
}
use mcp_server_dynamodb_sage.Server.Jobs.{
  Via, kafka, in_process, World, Payload, Parsed, parsed, rejected, job_error, job_result,
  begin_job, end_job, leave, sweep_stale_claims, stale_after,
}

-- How often a job stands in a list.
abbrev pub times : String → List String → ℕ
times j [] = 0
times j (k ∷ ks) = (if str_eq k j then 1 else 0) + times j ks

pub record IsExclusive (w : World) : Type 0 where
  pub claimed : (j : String) → times j w.running + times j w.completed ≤ rows_of j w.claims
  pub unique : (j : String) → rows_of j w.claims ≤ 1
  pub settled : (j : String) → times j w.completed ≤ done_of j w.claims

-- What may happen next: a worker begins a job, or ends one that runs, or the sweep comes round.
pub data Step : World → World → Type 0 where
  begins :
      (via : Via) (write : Write) (key : String) (payload : Parsed) (now : ℕ) (w : World)
      → Step w (begin_job via write key payload now w).0
  fails :
      (via : Via) (write : Write) (key : String) (p : Payload) (e : String) (w : World)
      → 0 < times key w.running
      → Step w (end_job via write key p (job_error e) w).0
  succeeds :
      (via : Via) (key : String) (p : Payload) (json : String) (w : World)
      → 0 < times key w.running
      → str_eq json "" ≡ false
      → Step w (end_job via written key p (job_result (some json)) w).0
  sweeps :
      (write : Write) (now : ℕ) (w : World)
      → ((j : String)
          → 0 < times j w.running
          → count (λ c. is_stale now stale_after c && is_job j c) w.claims ≡ 0)
      → Step w (sweep_stale_claims write now w)

pub data Reach (s : World) : World → Type 0 where
  here : Reach s s
  next : {t u : World} → Reach s t → Step t u → Reach s u

times-leave :
    (key j : String) (ks : List String)
    → 0 < times key ks
    → times j (leave key ks) + (if str_eq key j then 1 else 0) ≡ times j ks
unfolding leave
times-leave key j [] h = absurd (omega arith)
times-leave key j (k ∷ ks) h =
    ground (arith, times-leave key j ks, str_eq_iff k key, str_eq_iff k j, str_eq_iff key j)

begin_job-IsExclusive :
    (via : Via) (write : Write) (key : String) (payload : Parsed) (now : ℕ) (w : World)
    → IsExclusive w
    → IsExclusive (begin_job via write key payload now w).0
unfolding begin_job
begin_job-IsExclusive kafka write key (rejected e) now w v = record {
  claimed = v.claimed;
  unique = v.unique;
  settled = v.settled;
}
begin_job-IsExclusive in_process write key (rejected e) now w v = v
begin_job-IsExclusive via written key (parsed p) now w v = record {
  claimed = λ j.
      ground (arith, v.claimed j, v.unique j, any-count (is_job key) w.claims, str_eq_iff key j);
  unique = λ j. ground (arith, v.unique j, any-count (is_job key) w.claims, str_eq_iff key j);
  settled = λ j. ground (arith, v.settled j, str_eq_refl "", str_eq_iff key j);
}
begin_job-IsExclusive via channel_timeout key (parsed p) now w v = record {
  claimed = v.claimed;
  unique = v.unique;
  settled = v.settled;
}
begin_job-IsExclusive via database_error key (parsed p) now w v = record {
  claimed = v.claimed;
  unique = v.unique;
  settled = v.settled;
}

module _ (via : Via) (key : String) (p : Payload) (w : World) (here_now : 0 < times key w.running)
    (v : IsExclusive w) where
  abbrev dropped : Claims
  dropped = (delete_where (λ c. is_job key c && is_open c) w.claims).0

  rows_of-dropped : (j : String) → str_eq key j ≡ false → rows_of j dropped ≡ rows_of j w.claims
  rows_of-dropped j h = omega (
    arith,
    count-delete_where (λ c. is_job key c && is_open c) (is_job j) w.claims,
    open-other key j w.claims h,
  )

  rows_of-dropped-le : (j : String) → rows_of j dropped ≤ rows_of j w.claims
  rows_of-dropped-le j =
      omega (arith, count-delete_where (λ c. is_job key c && is_open c) (is_job j) w.claims)

  done_of-dropped : (j : String) → done_of j dropped ≡ done_of j w.claims
  done_of-dropped j = omega (
    arith,
    count-delete_where (λ c. is_job key c && is_open c) (λ c. is_job j c && not (is_open c))
        w.claims,
    open-done (is_job key) j w.claims,
  )

  fails-IsExclusive :
      (write : Write) (e : String) → IsExclusive (end_job via write key p (job_error e) w).0
  unfolding end_job
  fails-IsExclusive written e = record {
    claimed = λ j. ground (
      arith,
      v.claimed j,
      v.unique j,
      times-leave key j w.running here_now,
      rows_of-dropped j,
      str_eq_iff key j,
    );
    unique = λ j. omega (arith, v.unique j, rows_of-dropped-le j);
    settled = λ j. omega (arith, v.settled j, done_of-dropped j);
  }
  fails-IsExclusive channel_timeout e = record {
    claimed = λ j. ground (arith, v.claimed j, times-leave key j w.running here_now);
    unique = v.unique;
    settled = v.settled;
  }
  fails-IsExclusive database_error e = record {
    claimed = λ j. ground (arith, v.claimed j, times-leave key j w.running here_now);
    unique = v.unique;
    settled = v.settled;
  }

  succeeds-IsExclusive :
      (json : String)
      → str_eq json "" ≡ false
      → IsExclusive (end_job via written key p (job_result (some json)) w).0
  unfolding end_job
  succeeds-IsExclusive json set = record {
    claimed = λ j. ground (
      arith,
      v.claimed j,
      times-leave key j w.running here_now,
      rows_of-update_result key json j w.claims,
    );
    unique = λ j. omega (arith, v.unique j, rows_of-update_result key json j w.claims);
    settled = λ j. ground (
      arith,
      v.claimed j,
      v.settled j,
      str_eq_iff key j,
      done_of-update_result key json j w.claims set,
    );
  }

sweeps-IsExclusive :
    (write : Write) (now : ℕ) (w : World)
    → ((j : String)
        → 0 < times j w.running
        → count (λ c. is_stale now stale_after c && is_job j c) w.claims ≡ 0)
    → IsExclusive w
    → IsExclusive (sweep_stale_claims write now w)
unfolding sweep_stale_claims
sweeps-IsExclusive written now w fresh v = record {
  claimed = λ j. elim (dec_lt 0 (times j w.running)) [
    | yes busy ↦ omega (
      arith,
      v.claimed j,
      fresh j busy,
      count-delete_where (is_stale now stale_after) (is_job j) w.claims,
    )
    | no idle ↦ omega (
      arith,
      v.settled j,
      stale-done now stale_after j w.claims,
      count-delete_where (is_stale now stale_after) (λ c. is_job j c && not (is_open c)) w.claims,
      done_of-le j (delete_where (is_stale now stale_after) w.claims).0,
    )
  ];
  unique = λ j.
      omega (arith, v.unique j, count-delete_where (is_stale now stale_after) (is_job j) w.claims);
  settled = λ j. omega (
    arith,
    v.settled j,
    stale-done now stale_after j w.claims,
    count-delete_where (is_stale now stale_after) (λ c. is_job j c && not (is_open c)) w.claims,
  );
}
sweeps-IsExclusive channel_timeout now w fresh v = record {
  claimed = v.claimed;
  unique = v.unique;
  settled = v.settled;
}
sweeps-IsExclusive database_error now w fresh v = record {
  claimed = v.claimed;
  unique = v.unique;
  settled = v.settled;
}

Step-IsExclusive : {t u : World} → Step t u → IsExclusive t → IsExclusive u
Step-IsExclusive (begins via write key payload now w) v =
    begin_job-IsExclusive via write key payload now w v
Step-IsExclusive (fails via write key p e w busy) v = fails-IsExclusive via key p w busy v write e
Step-IsExclusive (succeeds via key p json w busy set) v =
    succeeds-IsExclusive via key p w busy v json set
Step-IsExclusive (sweeps write now w fresh) v = sweeps-IsExclusive write now w fresh v

pub Reach-IsExclusive : {s t : World} → IsExclusive s → Reach s t → IsExclusive t
Reach-IsExclusive v here = v
Reach-IsExclusive v (next r st) = Step-IsExclusive st (Reach-IsExclusive v r)

-- Start in a world where no job has two rows, no job runs or has succeeded more often than it has
-- rows, and each success has its result stored (the empty world is one). However the workers and
-- the sweep are interleaved, as long as no sweep finds a running job's claim stale and each job that
-- succeeds has its result stored: no job is executed by two workers at once, none is executed again
-- after it has succeeded, and a job that runs or has succeeded has exactly one row.
pub jobs_are_exclusive :
    {s t : World} (j : String)
    → IsExclusive s
    → Reach s t
    → (times j t.running + times j t.completed ≤ 1)
      × (times j t.running + times j t.completed ≤ rows_of j t.claims)
      × (rows_of j t.claims ≤ 1)
jobs_are_exclusive {t = t} j v r =
    let u = Reach-IsExclusive v r in
    (omega (arith, u.claimed j, u.unique j), u.claimed j, u.unique j)

any-of_count : (p : Claim → Bool) (rows : Claims) → count p rows ≡ 0 → any p rows ≡ false
any-of_count p [] h = refl
any-of_count p (c ∷ rows) h = ground (arith, any-of_count p rows)

-- A job whose rows are all stale, although a worker is executing it, is executed once more by the
-- next delivery after a sweep, at the same time.
late_sweep_runs_twice :
    (via : Via) (j : String) (p : Payload) (now : ℕ) (w : World)
    → rows_of j w.claims ≡ count (λ c. is_stale now stale_after c && is_job j c) w.claims
    → (begin_job via written j (parsed p) now (sweep_stale_claims written now w)).0.running
      ≡ j ∷ w.running
unfolding begin_job sweep_stale_claims
late_sweep_runs_twice via j p now w h = ground (
  arith,
  any-of_count (is_job j) (delete_where (is_stale now stale_after) w.claims).0
      (omega (arith, count-delete_where (is_stale now stale_after) (is_job j) w.claims)),
)
