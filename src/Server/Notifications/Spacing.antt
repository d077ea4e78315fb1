-- ===== src/Server/Notifications/Spacing.antt =====
-- Which notifications processNotification (server/notification.go) lets through, and what those reach.
use mcp_server_dynamodb_sage.Prelude.{
  ℕ, ◌+◌, ◌≤◌, ◌<◌, ◌≡◌, ◌⊎◌, false, true, map, ◌++◌, List, [], ◌∷◌, All, arith, str_eq_iff,
}
use mcp_server_dynamodb_sage.Server.Notifications.{
  NotificationPayload, Row, Client, Board, broadcast_to_sse, add_notification, same_key,
  dedup_seconds, is_duplicate_notification, process_notification,
}

-- A notification, and when it arrived.
abbrev pub Arrival : Type 0
Arrival = NotificationPayload × ℕ

-- An earlier notification with another key, or one that lies the whole time back.
abbrev pub IsClear : ℕ → NotificationPayload → Arrival → Type 0
IsClear now n (m, at) = (same_key m n ≡ false) ⊎ (at + dedup_seconds ≤ now)

-- Each is clear of all before it, which stand behind it.
abbrev pub IsSpaced : List Arrival → Type 0
IsSpaced [] = Unit
IsSpaced ((n, now) ∷ earlier) = All (IsClear now n) earlier × IsSpaced earlier

-- One of those before it has its key, and lies less than the whole time back.
abbrev pub IsRepeated : ℕ → NotificationPayload → List Arrival → Type 0
IsRepeated now n [] = ⊥
IsRepeated now n ((m, at) ∷ earlier) =
    ((same_key m n ≡ true) × (now < at + dedup_seconds)) ⊎ IsRepeated now n earlier

-- Those of some notifications that pass, after old ones, the last one first: each passes if it is
-- clear of all that passed before it, and is dropped if it repeats one of them.
pub data IsFiltered (old : List Arrival) : List Arrival → List Arrival → Type 0 where
  none_left : IsFiltered old [] []
  passes :
      {ns passed : List Arrival} (n : NotificationPayload) (now : ℕ)
      → All (IsClear now n) (passed ++ old)
      → IsFiltered old ns passed
      → IsFiltered old ((n, now) ∷ ns) ((n, now) ∷ passed)
  is_dropped :
      {ns passed : List Arrival} (n : NotificationPayload) (now : ℕ)
      → IsRepeated now n (passed ++ old)
      → IsFiltered old ns passed
      → IsFiltered old ((n, now) ∷ ns) passed

abbrev pub broadcast_all : List Arrival → List Client → List Client
broadcast_all [] cs = cs
broadcast_all ((n, now) ∷ earlier) cs = broadcast_to_sse n (broadcast_all earlier cs)

module _ (newest_first : List Row → List Row) where
  abbrev pub store_all : List Arrival → List Row → List Row
  store_all [] rows = rows
  store_all ((n, now) ∷ earlier) rows = add_notification newest_first n (store_all earlier rows)

  -- From one board to another over some notifications: those that pass, and no others, are logged,
  -- sent to the sessions and the screen, offered to each client, and stored, once each and in order.
  pub record IsDelivered (ns : List Arrival) (b r : Board) : Type 0 where
    pub passed : List Arrival
    pub filtered : IsFiltered b.seen ns passed
    pub spaced : IsSpaced (passed ++ b.seen)
    pub logged : r.seen ≡ passed ++ b.seen
    pub sent_on : r.sent ≡ map (λ e. e.0) passed ++ b.sent
    pub broadcast : r.clients ≡ broadcast_all passed b.clients
    pub stored : r.rows ≡ store_all passed b.rows

  -- When a notification was let through, a later one with the same table, operation and input hash
  -- that arrives within 30 seconds leaves everything as it is, whatever their severities and messages
  -- are: the success of a job's second attempt is dropped after the error of its first.
  second_outcome_is_dropped :
      (first second : NotificationPayload) (now later : ℕ) (b : Board)
      → is_duplicate_notification now first b.seen ≡ false
      → first.table ≡ second.table
      → first.operation ≡ second.operation
      → first.input_hash ≡ second.input_hash
      → later < now + 30
      → process_notification newest_first later second
          (process_notification newest_first now first b)
        ≡ process_notification newest_first now first b
  unfolding process_notification is_duplicate_notification
  second_outcome_is_dropped first second now later b new table operation hash soon = ground (
    arith,
    new,
    str_eq_iff first.table second.table,
    str_eq_iff first.operation second.operation,
    str_eq_iff first.input_hash second.input_hash,
    soon,
  )
