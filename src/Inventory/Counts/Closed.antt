-- ===== src/Inventory/Counts/Closed.antt =====
-- src/modules/inventory/services/stock-count.service.ts: two sessions that have read the same count
-- in progress, and both close it.
use radha_backend.Prelude.{
  ℕ, String, ◌≡◌, ◌≢◌, refl, subst, sym, ap, ◌∙◌, true, Option, none, some, List, [], ◌∷◌, arith,
  inl, inr, Bool-cases, Option-cases, Result-cases, find, ◌==◌, Failure, Result, ok, err,
  >>=-ok_then, business, concurrent_modification, length, ◌⊎◌,
}
use radha_backend.Prelude.Int.{ℤ, pos, eqb_ℤ}
use radha_backend.Prelude.Table.{update_where, has_id, find_by_id, update}
use radha_backend.Prelude.Table.Laws.{
  Distinct, Distinct-update_where, find-holds, find-update_where, find_unique, find→find_by_id,
  map_option, patch,
}
use radha_backend.Inventory.Types.{Fresh}
use radha_backend.Inventory.Movement.Adjust.{adjust}
use radha_backend.Inventory.Counts.{
  CountStatus, in_progress, completed, cancelled, Count, Line, CountTables, CountResult, line_key,
  count_key, find_by_count, is_guarded, update_status_guarded, same_count_status,
}
use radha_backend.Inventory.Counts.Workflow.{
  Tally, adjustment_of, settle_line, settle_lines, complete_in_transaction, cancel_in_transaction,
  changed_count, count_completed, count_cancelled, no_variances,
}

guarded_status : (s : CountStatus) → same_count_status s in_progress ≡ true → s ≡ in_progress
unfolding same_count_status
guarded_status in_progress h = refl
guarded_status completed h = cc
guarded_status cancelled h = cc

module _ (fr : ℕ → Fresh) (note : ℕ → ℤ → String) (tenant user : ℕ) where
  settle_line-counts :
      (c : Count) (l : Line) (t t' : CountTables) (k k' : Tally)
      → settle_line fr note tenant user c l t k ≡ ok (t', k')
      → t'.counts ≡ t.counts
  unfolding settle_line
  settle_line-counts c l t t' k k' e = elim (Bool-cases (eqb_ℤ l.variance (pos 0))) [
    | inl nil ↦
        let done : ◌≡◌ {A = Result (CountTables × Tally)} (ok (t, k)) (ok (t', k')) = rw nil at e in
        ap (λ (r : CountTables). r.counts) {x = t'} {y = t} (ground arith)
    | inr off ↦
        >>=-ok_then (adjust (fr l.id) tenant user (adjustment_of note c l) t.stock) _ (rw off at e)
          λ adjusted adjusting e1.
            >>=-ok_then
              (update line_key l.id
                (λ (r : Line). record r { adjustment_movement_id = some adjusted.1.movement.id })
                t.lines)
              _ e1 λ line marking e2. ground arith
  ]

  settle_lines-counts :
      (c : Count) (ls : List Line) (t t' : CountTables) (k k' : Tally)
      → settle_lines fr note tenant user c ls t k ≡ ok (t', k')
      → t'.counts ≡ t.counts
  unfolding settle_lines
  settle_lines-counts c [] t t' k k' e = ground arith
  settle_lines-counts c (l ∷ ls) t t' k k' e =
      >>=-ok_then (settle_line fr note tenant user c l t k) _ e λ (t1, k1) first rest.
        settle_lines-counts c ls t1 t' k1 k' rest ∙ settle_line-counts c l t t1 k k1 first

  -- Where the count's row is no longer in progress, the guarded update finds no row.
  guarded-none :
      (id : ℕ) (counts : List Count) {d : Count}
      → Distinct count_key counts
      → find_by_id count_key id counts ≡ some d
      → d.status ≢ in_progress
      → find (is_guarded id (in_progress ∷ [])) counts ≡ none
  unfolding same_count_status
  guarded-none id counts {d} keys found closed =
      elim (Option-cases (find (is_guarded id (in_progress ∷ [])) counts)) [
        | inl missing ↦ missing
        | inr (c, there) ↦
            let guard = is_guarded id (in_progress ∷ []) in
            let holds = find-holds guard counts there in
            let key_found = find-holds (has_id count_key id) counts found in
            let same : c ≡ d =
              find_unique count_key guard (has_id count_key id) counts keys there found
                (ground (arith, holds, key_found)) in
            absurd (
              closed (
                ap (λ (x : Count). x.status) (sym same)
                ∙ guarded_status c.status (ground (arith, holds))))
      ]

  stale-IsRefused :
      (now now' user' : ℕ) (reason : String) (c : Count) (t : CountTables) {d : Count}
      → Distinct count_key t.counts
      → find_by_id count_key c.id t.counts ≡ some d
      → d.status ≢ in_progress
      → ((e : Failure) × (complete_in_transaction fr note tenant user now c t ≡ err e))
        × (cancel_in_transaction now' user' reason c t ≡ err (business concurrent_modification))
  unfolding complete_in_transaction cancel_in_transaction update_status_guarded
  stale-IsRefused now now' user' reason c t {d} keys found closed =
      let gone = guarded-none c.id t.counts keys found closed in
      (
        elim (Result-cases
            (settle_lines fr note tenant user c (find_by_count c.id t.lines) t no_variances)) [
              | inl (x, failed) ↦ (x, rw failed refl)
              | inr ((t1, k), settled) ↦ (
                business concurrent_modification,
                rw settled (
                    rw
                      (settle_lines-counts c (find_by_count c.id t.lines) t t1 no_variances k
                        settled)
                      (rw gone refl)),
              )
            ],
        rw gone refl,
      )

  changed_count-ok : (o : Option Count) {c : Count} → changed_count o ≡ ok c → (o ≡ some c)
  changed_count-ok none e = cc
  changed_count-ok (some d) e = ground arith

  -- The row that a guarded update changed is found by its key, patched.
  guarded-found :
      (id : ℕ) (write : Count → Count) (counts : List Count) {c : Count}
      → ((r : Count) → (write r).id ≡ r.id)
      → Distinct count_key counts
      → map_option write (find (is_guarded id (in_progress ∷ [])) counts) ≡ some c
      → find_by_id count_key id (update_where (is_guarded id (in_progress ∷ [])) write counts)
        ≡ some c
  guarded-found id write counts {c} keeps keys e =
      let guard = is_guarded id (in_progress ∷ []) in
      elim (Option-cases (find guard counts)) [
        | inl missing ↦ absurd (ground (arith, e, missing))
        | inr (d, there) ↦
            let holds = find-holds guard counts there in
            let this : d.id ≡ id = ground (arith, holds) in
            let row =
              subst (λ n. find_by_id count_key n counts ≡ some d) this
                (find→find_by_id count_key guard counts keys there) in
            find-update_where (has_id count_key id) guard write counts
              (λ r. ap (λ n. n == id) (keeps r))
            ∙ ap (map_option (patch guard write)) row
            ∙ rw holds (sym (ap (map_option write) there) ∙ e)
      ]

  completed-closed :
      (now by total : ℕ) (k : Tally) (o : Option Count) {d : Count}
      → map_option (count_completed now by total k) o ≡ some d
      → d.status ≢ in_progress
  completed-closed now by total k none e = cc
  completed-closed now by total k (some c) {d} e =
      let row : d ≡ count_completed now by total k c = ground arith in
      λ live.
        let status : d.status ≡ completed = ap (λ (x : Count). x.status) row in
        let clash : completed ≡ in_progress = sym status ∙ live in cc

  cancelled-closed :
      (now by : ℕ) (reason : String) (o : Option Count) {d : Count}
      → map_option (count_cancelled now by reason) o ≡ some d
      → d.status ≢ in_progress
  cancelled-closed now by reason none e = cc
  cancelled-closed now by reason (some c) {d} e =
      let row : d ≡ count_cancelled now by reason c = ground arith in
      λ live.
        let status : d.status ≡ cancelled = ap (λ (x : Count). x.status) row in
        let clash : cancelled ≡ in_progress = sym status ∙ live in cc

  -- What the transaction of a session that closes the count leaves of the count's row.
  completing-closes :
      (now : ℕ) (c : Count) (t : CountTables) {t' : CountTables} {r : CountResult}
      → Distinct count_key t.counts
      → complete_in_transaction fr note tenant user now c t ≡ ok (t', r)
      → Distinct count_key t'.counts
        × ((d : Count) × (find_by_id count_key c.id t'.counts ≡ some d) × (d.status ≢ in_progress))
  unfolding complete_in_transaction update_status_guarded
  completing-closes now c t {t'} {r} keys e =
      let ls = find_by_count c.id t.lines in
      let guard = is_guarded c.id (in_progress ∷ []) in
      >>=-ok_then (settle_lines fr note tenant user c ls t no_variances) _ e λ (t1, k) settled e1.
        let write = count_completed now user (length ls) k in
        >>=-ok_then (changed_count (map_option write (find guard t1.counts))) _ e1 λ d updated e2.
          let tables : t'.counts ≡ update_where guard write t1.counts = ground arith in
          let unchanged = settle_lines-counts c ls t t1 no_variances k settled in
          let keys1 : Distinct count_key t1.counts = rw unchanged keys in
          let changed = changed_count-ok _ updated in
          rw tables (
            Distinct-update_where count_key guard write t1.counts (λ x. refl) keys1,
            (
              d,
              guarded-found c.id write t1.counts (λ x. refl) keys1 changed,
              completed-closed now user (length ls) k _ changed,
            ),
          )

  cancelling-closes :
      (now by : ℕ) (reason : String) (c : Count) (t : CountTables) {t' : CountTables} {d : Count}
      → Distinct count_key t.counts
      → cancel_in_transaction now by reason c t ≡ ok (t', d)
      → Distinct count_key t'.counts
        × ((d : Count) × (find_by_id count_key c.id t'.counts ≡ some d) × (d.status ≢ in_progress))
  unfolding cancel_in_transaction update_status_guarded
  cancelling-closes now by reason c t {t'} {d} keys e =
      let guard = is_guarded c.id (in_progress ∷ []) in
      let write = count_cancelled now by reason in
      >>=-ok_then (changed_count (map_option write (find guard t.counts))) _ e λ d updated e2.
        let tables : t'.counts ≡ update_where guard write t.counts = ground arith in
        let changed = changed_count-ok _ updated in
        rw tables (
          Distinct-update_where count_key guard write t.counts (λ x. refl) keys,
          (
            d,
            guarded-found c.id write t.counts (λ x. refl) keys changed,
            cancelled-closed now by reason _ changed,
          ),
        )

  -- A session's transaction that closes the count `c`: it completes it or cancels it.
  abbrev pub Closes : ℕ → ℕ → String → Count → CountTables → CountTables → Type 0
  Closes now by reason c t t' =
      ((r : CountResult) × (complete_in_transaction fr note tenant user now c t ≡ ok (t', r)))
      ⊎ ((d : Count) × (cancel_in_transaction now by reason c t ≡ ok (t', d)))

  -- Of two sessions that read the same count in progress, on counts with distinct keys, only one
  -- closes it: after the transaction of one has completed or cancelled the count, the count is no
  -- longer in progress, and the transaction of the other fails, whether it completes the count or
  -- cancels it.
  pub complete_in_transaction-once :
      (now now' now'' by by' : ℕ) (reason reason' : String) (c : Count) (t t' : CountTables)
      → Distinct count_key t.counts
      → Closes now by reason c t t'
      → ((d : Count) × (find_by_id count_key c.id t'.counts ≡ some d) × (d.status ≢ in_progress))
        × ((e : Failure) × (complete_in_transaction fr note tenant user now' c t' ≡ err e))
        × (cancel_in_transaction now'' by' reason' c t' ≡ err (business concurrent_modification))
  complete_in_transaction-once now now' now'' by by' reason reason' c t t' keys (inl (r, e)) =
      let (keys', (d, found, closed)) = completing-closes now c t keys e in
      let (failed, refused) = stale-IsRefused now' now'' by' reason' c t' keys' found closed in
      ((d, found, closed), failed, refused)
  complete_in_transaction-once now now' now'' by by' reason reason' c t t' keys (inr (r, e)) =
      let (keys', (d, found, closed)) = cancelling-closes now by reason c t keys e in
      let (failed, refused) = stale-IsRefused now' now'' by' reason' c t' keys' found closed in
      ((d, found, closed), failed, refused)
