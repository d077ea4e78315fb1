-- ===== src/Risk/Advisor/Frequency.antt =====
-- When internal/risk/advisor.go says that a scan is repeated too often.
use mcp_server_dynamodb_sage.Prelude.{
  ℕ, suc, ◌+◌, ◌≤◌, ◌≡◌, ◌≢◌, ◌↔◌, refl, inl, inr, String, ◌||◌, Option, none, some, List, [], ◌∷◌,
  str_eq, str_eq_iff, lookup, lookup-insert, arith, Bool-cases, if◌then◌else◌,
}
use mcp_server_dynamodb_sage.Risk.Design.{quoted}
use mcp_server_dynamodb_sage.Risk.Advisor.{
  Fields, History, count_of, frequent_text, text_argument, validate_multiple_scan, tracked,
  analyze_scan, Shape, TtlStatus, advise, track_and_advise,
}

module _ (md5 : String → String) where
  abbrev pub fingerprint : String → String → String
  fingerprint table filter = md5 (quoted table "-" filter)

  -- One for a scan of the fingerprint that names its table and has a filter.
  abbrev pub is_scan_of : String → String → String → ℕ
  is_scan_of mark table filter =
      if str_eq filter "" || str_eq table ""
      then 0
      else if str_eq (fingerprint table filter) mark
      then 1
      else 0

  tracked_count :
      (mark table filter : String) (history : History)
      → count_of (lookup mark (tracked md5 table filter history).1)
        ≡ count_of (lookup mark history) + is_scan_of mark table filter
  unfolding tracked validate_multiple_scan
  tracked_count mark table filter history = ground (
    arith,
    str_eq_iff (fingerprint table filter) mark,
    lookup-insert (fingerprint table filter) mark
        (suc (count_of (lookup (fingerprint table filter) history))) history,
  )

  module _ (describe : String → Option Shape) (describe_ttl : String → TtlStatus) where
    -- How often the fingerprint was scanned in a list of requests, the latest first.
    abbrev pub scan_count : String → String → Option Fields → ℕ
    scan_count mark tool none = 0
    scan_count mark tool (some args) =
        if str_eq tool "scan_table"
        then is_scan_of mark (text_argument "tableName" args)
            (text_argument "filterExpression" args)
        else 0

    abbrev pub times : String → List (String × Option Fields) → ℕ
    times mark [] = 0
    times mark ((tool, args) ∷ earlier) = scan_count mark tool args + times mark earlier

    -- What the trackers hold after the requests.
    abbrev pub history_after : List (String × Option Fields) → History
    history_after [] = []
    history_after ((tool, args) ∷ earlier) =
        (track_and_advise md5 describe describe_ttl tool args (history_after earlier)).1

    request_count :
        (mark tool : String) (args : Option Fields) (history : History)
        → count_of (lookup mark (track_and_advise md5 describe describe_ttl tool args history).1)
          ≡ count_of (lookup mark history) + scan_count mark tool args
    unfolding track_and_advise advise analyze_scan
    request_count mark tool none history = ground arith
    request_count mark tool (some args) history = ground (
      arith,
      tracked_count mark (text_argument "tableName" args) (text_argument "filterExpression" args)
          history,
    )

    history_count :
        (mark : String) (earlier : List (String × Option Fields))
        → count_of (lookup mark (history_after earlier)) ≡ times mark earlier
    history_count mark [] = refl
    history_count mark ((tool, args) ∷ earlier) =
        omega
          (arith, request_count mark tool args (history_after earlier), history_count mark earlier)

    -- A scan of a table with a filter is called frequent exactly when at least three of the requests
    -- before it were scans of a table with a filter that have its fingerprint; it is never called so
    -- without a table or a filter.
    pub scan_is_frequent_iff :
        (earlier : List (String × Option Fields)) (table filter : String)
        → ((tracked md5 table filter (history_after earlier)).0 ≡ frequent_text filter ∷ [])
          ↔ ((table ≢ "") × (filter ≢ "") × (3 ≤ times (fingerprint table filter) earlier))
    unfolding tracked validate_multiple_scan
    scan_is_frequent_iff earlier table filter =
        let count = history_count (fingerprint table filter) earlier in
        elim (Bool-cases (str_eq filter "")) [
          | inl no_filter ↦ (
            λ h. absurd (ground (arith, h, no_filter)),
            λ h. absurd (h.1 ((str_eq_iff filter "").0 no_filter)),
          )
          | inr a_filter ↦ elim (Bool-cases (str_eq table "")) [
            | inl no_table ↦ (
              λ h. absurd (ground (arith, h, no_table)),
              λ h. absurd (h.0 ((str_eq_iff table "").0 no_table)),
            )
            | inr a_table ↦ (
              λ h. (
                λ e. cc (a_table, (str_eq_iff table "").1 e),
                λ e. cc (a_filter, (str_eq_iff filter "").1 e),
                ground (arith, h, a_table, a_filter, count),
              ),
              λ h. ground (arith, h.2, a_table, a_filter, count),
            )
          ]
        ]
