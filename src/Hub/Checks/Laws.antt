-- ===== src/Hub/Checks/Laws.antt =====
-- hub/services/hub_check_object_count.go and hub_check_disk_space.go: the reports.
use mathlib.Core.List.{append_assoc, append-nil}
use gpupgrade.Base.{
  String, ◌<>◌, ℤ, pos, Bool, true, false, ◌||◌, ◌≡◌, refl, sym, ap, none, List, [], ◌∷◌, ◌++◌, map,
  arith, any, All, select, if◌then◌else◌, Bool-cases, inl, inr,
}
use gpupgrade.System.{Result, ok, err, Result-cases}
use gpupgrade.Hub.Database.{Env, Database}
use gpupgrade.Hub.Checks.{
  replied, panicked, CountPerDb, get_counts_for_db, conn_to, count_all, check_object_count, DiskNet,
  warning, check_lines, end_host, check_host,
}

abbrev fails {ℓ} : {A : Type ℓ} → Result A → Bool
fails (ok a) = false
fails (err e) = true

abbrev row : String → Result (ℤ × ℤ) → CountPerDb
row name (ok (ao, heap)) = record { db_name = name; ao_count = ao; heap_count = heap }
row name (err e) = record { db_name = name; ao_count = pos 0; heap_count = pos 0 }

module _ (db : Database) (env : Env) (port : ℤ) where
  abbrev counts : String → Result (ℤ × ℤ)
  counts name = get_counts_for_db db env (conn_to db env port name)

  count_all-rows :
      (names : List String) (results : List CountPerDb)
      → All (λ n. db.connect (conn_to db env port n) ≡ none) names
      → count_all db env port names results ≡ (
          if any (λ n. fails (counts n)) names
          then panicked
          else replied (results ++ map (λ n. row n (counts n)) names))
  unfolding count_all
  count_all-rows [] results h = ap replied (sym (append-nil results))
  count_all-rows (n ∷ names) results (connects, h) = elim (Result-cases (counts n)) [
    | inl (e, bad) ↦ ground arith
    | inr ((ao, heap), good) ↦
        let here : List CountPerDb =
          record { db_name = n; ao_count = ao; heap_count = heap } ∷ [] in
        ground (
          arith,
          count_all-rows names (results ++ here) h,
          append_assoc results here (map (λ n. row n (counts n)) names),
        )
  ]

  -- If the first connection succeeds, the databases are selected and each accepts a connection,
  -- then `CheckObjectCount` panics if the counts of one of them fail, and else replies with the
  -- counts of each in order.
  pub check_object_count-rows :
      (names : List String)
      → db.connect (conn_to db env port "template1") ≡ none
      → db.select_names (conn_to db env port "template1") "GET_DATABASE_NAMES" ≡ ok names
      → All (λ n. db.connect (conn_to db env port n) ≡ none) names
      → check_object_count db env port ≡ (
          if any (λ n. fails (get_counts_for_db db env (conn_to db env port n))) names
          then panicked
          else replied (map (λ n. row n (get_counts_for_db db env (conn_to db env port n))) names))
  unfolding check_object_count
  check_object_count-rows names connects selected h = ground (arith, count_all-rows names [] h)

select-none : {A : Type 0} (p : A → Bool) (l : List A) → any p l ≡ false → select p l ≡ []
select-none p [] h = refl
select-none p (x ∷ l) h = ground (arith, select-none p l)

module _ (net : DiskNet) (host : String) where
  check_lines-select :
      (lines : List (String × net.Usage)) (messages : List String) (b : Bool)
      → check_lines net host lines (messages, b) ≡ (
        messages ++ map (warning net host) (select (λ l. net.at_limit l.1) lines),
        b || any (λ l. net.at_limit l.1) lines,
      )
  unfolding check_lines
  check_lines-select [] messages b = ground (arith, append-nil messages)
  check_lines-select (l ∷ lines) messages b =
      let rest = map (warning net host) (select (λ l. net.at_limit l.1) lines) in
      elim (Bool-cases (net.at_limit l.1)) [
        | inl full ↦ ground (
          arith,
          check_lines-select lines (messages ++ (warning net host l ∷ [])) true,
          append_assoc messages (warning net host l ∷ []) rest,
        )
        | inr fine ↦ ground (arith, check_lines-select lines messages b)
      ]

  -- A host that answers adds one warning for each file system at the limit, in order, and one line that
  -- all is well if there is none.
  pub check_host-warnings :
      (lines : List (String × net.Usage)) (messages : List String)
      → check_host net host (ok lines) messages
        ≡ messages
          ++ (if any (λ l. net.at_limit l.1) lines
              then map (warning net host) (select (λ l. net.at_limit l.1) lines)
              else ("diskspace check - " <> (host <> " - OK")) ∷ [])
  unfolding check_host end_host
  check_host-warnings lines messages = elim (Bool-cases (any (λ l. net.at_limit l.1) lines)) [
    | inl full ↦ ground (arith, check_lines-select lines messages false)
    | inr fine ↦ ground (
      arith,
      check_lines-select lines messages false,
      select-none (λ l. net.at_limit l.1) lines fine,
      append-nil messages,
    )
  ]
