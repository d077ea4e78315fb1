-- ===== src/Server/Store/Writer.antt =====
-- The writer of server/store.go: writerLoop on one write, and isSQLiteBusy. What the tries of a
-- write give is a parameter, by the number of the try. Times are in milliseconds.
use mathlib.Core.Path.{subst}
use mcp_server_dynamodb_sage.Prelude.{
  ℕ, zero, suc, ◌+◌, ◌*◌, ◌≤◌, String, ◌≡◌, refl, ap, inl, inr, Bool, true, false, ◌||◌, Option,
  none, some, List, [], ◌∷◌, arith, ◌==◌, codes, to_lower, if◌then◌else◌, Bool-cases,
}

-- Whether a text, by its code points, begins with another.
abbrev pub begins_with : (text other : List ℕ) → Bool
begins_with text [] = true
begins_with [] (y ∷ ys) = false
begins_with (x ∷ xs) (y ∷ ys) = let rest = begins_with xs ys in if x == y then rest else false

-- strings.Contains, on code points.
abbrev pub codes_contain : (text other : List ℕ) → Bool
codes_contain [] other = begins_with [] other
codes_contain (x ∷ xs) other = begins_with (x ∷ xs) other || codes_contain xs other

-- isSQLiteBusy on the text of an error.
unfoldable pub is_sqlite_busy : Option String → Bool
is_sqlite_busy none = false
is_sqlite_busy (some e) =
    codes_contain (to_lower e) (codes "sqlite_busy")
    || codes_contain (to_lower e) (codes "database is locked")
    || codes_contain (to_lower e) (codes "busy")

-- What a write came to: its last error, if any, how many tries it took, and how long it slept.
pub record Written : Type 0 where
  pub error : Option String
  pub tries : ℕ
  pub slept : ℕ

-- The loop from the i-th try on, counted from 0, with the tries that are left after it.
unfoldable pub write_from : (ℕ → Option String) → (left i slept : ℕ) → Written
unfolding is_sqlite_busy
write_from execute zero i slept = record { error = execute i; tries = suc i; slept = slept }
write_from execute (suc left) i slept =
    let again = write_from execute left (suc i) (slept + 50 * (i + 1)) in
    if is_sqlite_busy (execute i)
    then again
    else record { error = execute i; tries = suc i; slept = slept }

unfoldable pub write : (ℕ → Option String) → Written
unfolding write_from
write execute = write_from execute 9 0 0

-- The first n tries find the database busy.
abbrev pub AreBusy : (ℕ → Option String) → ℕ → Type 0
AreBusy execute zero = Unit
AreBusy execute (suc n) = AreBusy execute n × (is_sqlite_busy (execute n) ≡ true)

-- The sleeps before the n-th try: 50 ms, 100 ms, 150 ms and so on.
abbrev pub total_sleep : ℕ → ℕ
total_sleep zero = 0
total_sleep (suc n) = total_sleep n + 50 * (n + 1)

-- What the j-th try gives ends the loop.
pub record IsEndedBy (execute : ℕ → Option String) (j : ℕ) (w : Written) : Type 0 where
  pub error_of_last : w.error ≡ execute j
  pub tries_counted : w.tries ≡ suc j
  pub slept_between : w.slept ≡ total_sleep j

ended_at :
    (execute : ℕ → Option String) (i slept : ℕ)
    → slept ≡ total_sleep i
    → IsEndedBy execute i (record { error = execute i; tries = suc i; slept = slept })
ended_at execute i slept e = record {
  error_of_last = refl;
  tries_counted = refl;
  slept_between = e;
}

-- Up to a last try, the first one that does not find the database busy ends the loop, and where all
-- find it busy, the last.
pub data IsCarriedOut (execute : ℕ → Option String) (last : ℕ) (w : Written) : Type 0 where
  gets_in :
      (j : ℕ)
      → j ≤ last
      → AreBusy execute j
      → is_sqlite_busy (execute j) ≡ false
      → IsEndedBy execute j w
      → IsCarriedOut execute last w
  stays_busy : AreBusy execute (suc last) → IsEndedBy execute last w → IsCarriedOut execute last w

write_from-IsCarriedOut :
    (execute : ℕ → Option String) (left i slept last : ℕ)
    → last ≡ i + left
    → AreBusy execute i
    → slept ≡ total_sleep i
    → IsCarriedOut execute last (write_from execute left i slept)
unfolding write_from
write_from-IsCarriedOut execute zero i slept last e busy so_far =
    let at_last : i ≡ last = omega (arith, e) in
    elim (Bool-cases (is_sqlite_busy (execute i))) [
      | inl again ↦
          subst
            (λ l.
              IsCarriedOut execute l (record { error = execute i; tries = suc i; slept = slept }))
            at_last (stays_busy (busy, again) (ended_at execute i slept so_far))
      | inr idle ↦ gets_in i (omega (arith, e)) busy idle (ended_at execute i slept so_far)
    ]
write_from-IsCarriedOut execute (suc left) i slept last e busy so_far =
    elim (Bool-cases (is_sqlite_busy (execute i))) [
      | inl again ↦ rw again (
          write_from-IsCarriedOut execute left (suc i) (slept + 50 * (i + 1)) last
            (omega (arith, e)) (busy, again) (ap (λ n. n + 50 * (i + 1)) so_far))
      | inr idle ↦
          rw idle (gets_in i (omega (arith, e)) busy idle (ended_at execute i slept so_far))
    ]

abbrev most_sleep : (left i : ℕ) → ℕ
most_sleep zero i = 0
most_sleep (suc left) i = 50 * (i + 1) + most_sleep left (suc i)

write_from_bounds :
    (execute : ℕ → Option String) (left i slept : ℕ)
    → let w = write_from execute left i slept in
      (w.tries ≤ suc (i + left)) × (w.slept ≤ slept + most_sleep left i)
unfolding write_from
write_from_bounds execute zero i slept = (omega arith, omega arith)
write_from_bounds execute (suc left) i slept =
    let (tries, sleeps) = write_from_bounds execute left (suc i) (slept + 50 * (i + 1)) in
    elim (Bool-cases (is_sqlite_busy (execute i))) [
      | inl busy ↦ rw busy (omega (arith, tries), omega (arith, sleeps))
      | inr idle ↦ rw idle (omega arith, omega arith)
    ]

-- Of at most ten tries of a write, the first that does not find the database busy ends it, with what
-- that try gives; where all ten find it busy, the tenth ends it with its error, and the write is given
-- up. Between two tries the writer sleeps, 50 ms the first time and 50 ms longer each time, and in
-- any case for no more than 2.25 seconds before it takes the next write.
pub write-IsCarriedOut :
    (execute : ℕ → Option String)
    → IsCarriedOut execute 9 (write execute) × ((write execute).slept ≤ 2250)
unfolding write
write-IsCarriedOut execute =
    (write_from-IsCarriedOut execute 9 0 0 9 refl tt refl, (write_from_bounds execute 9 0 0).1)
