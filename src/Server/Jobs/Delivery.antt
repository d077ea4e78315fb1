-- ===== src/Server/Jobs/Delivery.antt =====
-- What one delivery of a job to processHeavyOp or processHeavyOpForQueue (server/handlers.go) does.
use mcp_server_dynamodb_sage.Prelude.{
  ℕ, String, ◌≡◌, refl, ap, true, false, ◌&&◌, Option, none, some, [], ◌∷◌, any, arith, str_eq_refl,
}
use mcp_server_dynamodb_sage.Server.Store.{
  Claim, Claims, Write, written, channel_timeout, database_error, sync_write, add_processed_op,
  is_job, is_open, update_result, delete_where, get_processed_op_result,
}
use mcp_server_dynamodb_sage.Server.Jobs.{
  Via, World, Payload, Parsed, parsed, rejected, notify_rejected, JobOutcome, job_error, job_result,
  begin_job, end_job, process, notify, notice_of, success_message,
}

-- A delivery of a job that has a row, be it running, finished, or left behind, is acknowledged
-- without running the job, and changes nothing.
redelivery_is_ignored :
    (via : Via) (w2 : Write) (key : String) (p : Payload) (now : ℕ) (outcome : JobOutcome)
    (w : World)
    → any (is_job key) w.claims ≡ true
    → process via written w2 key (parsed p) now outcome w ≡ (w, none)
unfolding process begin_job
redelivery_is_ignored via w2 key p now outcome w h = ground arith

delete-absent :
    (key : String) (rows : Claims)
    → any (is_job key) rows ≡ false
    → delete_where (λ c. is_job key c && is_open c) rows ≡ (rows, 0)
unfolding delete_where
delete-absent key [] h = refl
delete-absent key (c ∷ rows) h = ground (arith, delete-absent key rows)

update-absent :
    (key json : String) (rows : Claims)
    → any (is_job key) rows ≡ false
    → update_result key json rows ≡ (rows, 0)
unfolding update_result
update-absent key json [] h = refl
update-absent key json (c ∷ rows) h = ground (arith, update-absent key json rows)

-- The first delivery of a job that fails returns the job's error and sends one notification of it;
-- with both writes taken nothing else has changed, so the next delivery runs the job again.
pub failure_releases :
    (via : Via) (key : String) (p : Payload) (now : ℕ) (e : String) (w : World)
    → any (is_job key) w.claims ≡ false
    → process via written written key (parsed p) now (job_error e) w
      ≡ (notify (notice_of via p "error" e) w, some e)
unfolding process begin_job end_job delete_where
failure_releases via key p now e w h =
    ground (arith, delete-absent key w.claims h, str_eq_refl key, str_eq_refl "")

-- The row that a finished job leaves.
abbrev pub finished : String → Payload → String → ℕ → Claim
finished key p json now = record {
  job_id = key;
  operation = p.operation;
  table_name = p.table;
  result_json = json;
  created_at = now;
}

-- The world after that delivery.
abbrev pub done_world : Via → String → Payload → ℕ → String → World → World
done_world via key p now json w =
    (process via written written key (parsed p) now (job_result (some json)) w).0

-- The first delivery of a job that succeeds returns no error; with both writes taken it adds the
-- job's row with its result, counts one success, and sends one notification.
success_stores :
    (via : Via) (key : String) (p : Payload) (now : ℕ) (json : String) (w : World)
    → any (is_job key) w.claims ≡ false
    → process via written written key (parsed p) now (job_result (some json)) w ≡ (
      notify
          (notice_of via p "success" (success_message via p))
          (record w { claims = finished key p json now ∷ w.claims; completed = key ∷ w.completed }),
      none,
    )
unfolding process begin_job end_job update_result
success_stores via key p now json w h =
    ground (arith, update-absent key json w.claims h, str_eq_refl key)

-- What a delivery of a job that has a row sends and returns, by what its payload parses to and how
-- the write of its claim ends.
abbrev pub later_world : Via → Parsed → World → World
later_world via (rejected e) w = notify_rejected via e w
later_world via (parsed p) w = w

abbrev pub later_answer : Write → Parsed → Option String
later_answer write (rejected e) = some e
later_answer written (parsed p) = none
later_answer channel_timeout (parsed p) = some "error claiming processed op"
later_answer database_error (parsed p) = some "error claiming processed op"

redelivery_lem :
    (via : Via) (w1 w2 : Write) (key : String) (payload : Parsed) (now : ℕ) (outcome : JobOutcome)
    (w : World)
    → any (is_job key) w.claims ≡ true
    → process via w1 w2 key payload now outcome w
      ≡ (later_world via payload w, later_answer w1 payload)
unfolding process begin_job add_processed_op sync_write
redelivery_lem via w1 w2 key (rejected e) now outcome w h = refl
redelivery_lem via written w2 key (parsed p) now outcome w h =
    redelivery_is_ignored via w2 key p now outcome w h
redelivery_lem via channel_timeout w2 key (parsed p) now outcome w h = refl
redelivery_lem via database_error w2 key (parsed p) now outcome w h = refl

-- After the first delivery of a job that succeeds, with both writes taken, get_job_result finds the
-- job's result, and no later delivery runs the job or changes a row, whatever it carries, however its
-- writes end and whatever the job would come to. With a payload that parses it is acknowledged, with
-- no change, where the write of its claim is taken, and returns an error, with no change, where that
-- write fails; with a payload that does not parse it returns that error, and the only change is
-- one notification, which is sent on the Kafka path alone.
pub success_is_final :
    (via via' : Via) (claim_write end_write : Write) (key : String) (p : Payload) (payload : Parsed)
    (now now' : ℕ) (json : String) (outcome : JobOutcome) (w : World)
    → any (is_job key) w.claims ≡ false
    → let done = done_world via key p now json w in
      (get_processed_op_result key done.claims ≡ json)
      × (process via' claim_write end_write key payload now' outcome done
          ≡ (later_world via' payload done, later_answer claim_write payload))
unfolding get_processed_op_result
success_is_final via via' claim_write end_write key p payload now now' json outcome w h =
    let e = ap (λ (r : World × Option String). r.0) (success_stores via key p now json w h) in
    rw e (
      ground (arith, str_eq_refl key),
      redelivery_lem via' claim_write end_write key payload now' outcome _
          (ground (arith, str_eq_refl key)),
    )
